-- ===== src/Vm/Booting.antt =====
-- What holds of the guest when the waits for it return.
use xcp_ng_tests.Prelude.{
  ℕ, ◌≡◌, sym, ap, ◌∙◌, inl, inr, Bool, true, false, ◌&&◌, Bool-cases, Option, Text, arith,
  if◌then◌else◌,
}
use mathlib.Core.Path.{subst}
use xcp_ng_tests.Effect.{Exn, ok, err, raise, ◌>>=◌}
use xcp_ng_tests.Effect.Laws.{>>=-eq-ok, catch-eq-ok, check-eq-ok}
use xcp_ng_tests.Commands.{Env}
use xcp_ng_tests.Common.Waiting.Passed.{Answered, wait_for-Answered}
use xcp_ng_tests.Objects.{Obj, obj_clock}
use xcp_ng_tests.Objects.Laws.{
  Keeps, Fixes, lift-Keeps, with_obj-Fixes, >>=-Fixes, if-Fixes, catch-Fixes, wait_for-Fixes,
}
use xcp_ng_tests.Vm.{
  Vm, Method, is_no_ip, vm_wait, is_halted, store_ip, try_get_and_store_ip, has_pv_version,
  has_feature, or_else, and_then, is_management_agent_up, wait_for_os_booted, shutdown_once,
  shutdown,
}
use xcp_ng_tests.Vm.Laws.{vm_xe-Keeps, vm_param_get-Keeps, is_halted-Keeps}

abbrev all_of : Vm → Vm
all_of o = o

module _ (E : Env) where
  vm_wait-Keeps :
      (fn : Method Bool) (timeout_secs : ℕ) (invert : Bool)
      → Keeps fn
      → Keeps (vm_wait E fn timeout_secs invert)
  unfolding vm_wait
  vm_wait-Keeps fn timeout_secs invert k = wait_for-Fixes all_of E fn timeout_secs 2 invert _ k

  pub vm_wait-Answered :
      (fn : Method Bool) (timeout_secs : ℕ) (s : Obj Vm) {u : Unit {0}} {s' : Obj Vm}
      → vm_wait E fn timeout_secs false s ≡ (ok u, s')
      → Answered fn true s'
  unfolding vm_wait
  vm_wait-Answered fn timeout_secs s e =
      wait_for-Answered (obj_clock E) fn timeout_secs 2 false _ s e

  store_ip-true :
      (ip : Option Text) (s : Obj Vm) {s' : Obj Vm}
      → store_ip E ip s ≡ (ok true, s')
      → is_no_ip s'.1.ip ≡ false
  unfolding store_ip ◌>>=◌
  store_ip-true ip s e = elim (Bool-cases (is_no_ip ip)) [
    | inl no_ip ↦ absurd (let e' = rw no_ip at e in cc)
    | inr fine ↦ ap (λ p. is_no_ip p.1.1.ip) (sym (rw fine at e)) ∙ fine
  ]

  try_get_and_store_ip-true :
      (s : Obj Vm) {s' : Obj Vm}
      → try_get_and_store_ip E s ≡ (ok true, s')
      → is_no_ip s'.1.ip ≡ false
  unfolding try_get_and_store_ip
  try_get_and_store_ip-true s e =
      let (ip, s₁, asked, e₁) = >>=-eq-ok _ _ s e in store_ip-true ip s₁ e₁

  has_pv_version-Keeps : (key : Text) → Keeps (has_pv_version E key)
  unfolding has_pv_version
  has_pv_version-Keeps key =
      >>=-Fixes all_of _ _ (vm_param_get-Keeps E _ _ _) λ v. lift-Keeps Vm (ok _)

  has_feature-Keeps : (feature : Text) → Keeps (has_feature E feature)
  unfolding has_feature
  has_feature-Keeps feature = >>=-Fixes all_of _ _ (vm_param_get-Keeps E _ _ _) λ v. lift-Keeps Vm _

  or_else-Keeps : (b : Bool) (m : Method Bool) → Keeps m → Keeps (or_else E b m)
  unfolding or_else
  or_else-Keeps b m k = if-Fixes all_of b _ _ (lift-Keeps Vm (ok true)) k

  and_then-Keeps : (b : Bool) (m : Method Bool) → Keeps m → Keeps (and_then E b m)
  unfolding and_then
  and_then-Keeps b m k = if-Fixes all_of b _ _ k (lift-Keeps Vm (ok false))

  is_management_agent_up-Keeps : Keeps (is_management_agent_up E)
  unfolding is_management_agent_up
  is_management_agent_up-Keeps = >>=-Fixes all_of _ _ (has_pv_version-Keeps _) λ major.
      >>=-Fixes all_of _ _ (or_else-Keeps major _ (has_pv_version-Keeps _)) λ agent.
        and_then-Keeps agent _ (
          with_obj-Fixes all_of _ λ o. or_else-Keeps _ _ (
            >>=-Fixes all_of _ _ (has_feature-Keeps _)
              λ off. and_then-Keeps off _ (has_feature-Keeps _)))

  -- Whenever wait_for_os_booted returns, the VM has an address that is neither empty nor link-local,
  -- and the run ended with a test of the management agent that found it up.
  pub wait_for_os_booted-Answered :
      (s : Obj Vm) {u : Unit {0}} {s' : Obj Vm}
      → wait_for_os_booted E s ≡ (ok u, s')
      → (is_no_ip s'.1.ip ≡ false) × Answered (is_management_agent_up E) true s'
  unfolding wait_for_os_booted Fixes
  wait_for_os_booted-Answered s e =
      let (b, s₂, waited, e₂) = >>=-eq-ok _ _ s e in
      let (a, s₁, running, e₁) = >>=-eq-ok _ _ s waited in
      let (t, stored) = vm_wait-Answered _ 300 s₁ e₁ in
      let same =
        ap (λ p. p.1.1) (sym e₂) ∙ vm_wait-Keeps _ 120 false is_management_agent_up-Keeps s₂ in
      (
        ap (λ o. is_no_ip o.ip) same ∙ try_get_and_store_ip-true t stored,
        vm_wait-Answered _ 120 s₂ e₂,
      )

  shutdown_once-Keeps : (force verify : Bool) → Keeps (shutdown_once E force verify)
  unfolding shutdown_once
  shutdown_once-Keeps force verify = >>=-Fixes all_of _ _ (vm_xe-Keeps E _ _) λ ret.
      >>=-Fixes all_of _ _
        (if-Fixes all_of verify _ _ (vm_wait-Keeps _ 120 false (is_halted-Keeps E))
          (lift-Keeps Vm (ok tt)))
        λ u. lift-Keeps Vm (ok ret)

  shutdown_once-Answered :
      (force : Bool) (s : Obj Vm) {ret : Text} {s' : Obj Vm}
      → shutdown_once E force true s ≡ (ok ret, s')
      → Answered (is_halted E) true s'
  unfolding shutdown_once
  shutdown_once-Answered force s e =
      let (ret, s₁, ordered, e₁) = >>=-eq-ok _ _ s e in
      let (u, s₂, waited, e₂) = >>=-eq-ok _ _ s₁ e₁ in
      subst (Answered (is_halted E) true) (ap (λ p. p.1) e₂) (vm_wait-Answered _ 120 s₁ waited)

  shutdown-Keeps :
      (force verify force_if_fails : Bool) → Keeps (shutdown E force verify force_if_fails)
  unfolding shutdown
  shutdown-Keeps force verify force_if_fails = >>=-Fixes all_of _ _ (lift-Keeps Vm _) λ u.
      catch-Fixes all_of _ _ (shutdown_once-Keeps force verify) λ e.
        if-Fixes all_of force_if_fails _ _ (shutdown_once-Keeps true verify) (lift-Keeps Vm (err e))

  second_attempt :
      (force_if_fails : Bool) (x : Exn) (s : Obj Vm) {ret : Text} {s' : Obj Vm}
      → (if force_if_fails then shutdown_once E true true else raise x) s ≡ (ok ret, s')
      → Answered (is_halted E) true s'
  second_attempt true x s e = shutdown_once-Answered true s e
  second_attempt false x s e = absurd (cc)

  -- Whenever a shutdown with verify returns, forced or not and whether or not a second attempt was
  -- needed, force and force_if_fails were not both given, the run ended with a test of the power
  -- state that found the VM halted, and no attribute of the VM has changed.
  pub shutdown-Answered :
      (force force_if_fails : Bool) (s : Obj Vm) {ret : Text} {s' : Obj Vm}
      → shutdown E force true force_if_fails s ≡ (ok ret, s')
      → ((force && force_if_fails) ≡ false) × Answered (is_halted E) true s' × (s'.1 ≡ s.1)
  unfolding shutdown Fixes
  shutdown-Answered force force_if_fails s e =
      let (u, s₁, checked, e₁) = >>=-eq-ok _ _ s e in
      let (allowed, k) = check-eq-ok _ s checked in
      (
        ground arith,
        elim (catch-eq-ok _ _ s₁ e₁) [
          | inl returned ↦ shutdown_once-Answered force s₁ returned
          | inr (x, s₂, failed, again) ↦ second_attempt force_if_fails x s₂ again
        ],
        ap (λ p. p.1.1) (sym e) ∙ shutdown-Keeps force true force_if_fails s,
      )
