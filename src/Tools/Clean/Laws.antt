-- ===== src/Tools/Clean/Laws.antt =====
-- What it means that a pool was cleaned without failures.
use xcp_ng_tests.Prelude.{
  if◌then◌else◌, ℕ, ◌+◌, ◌==◌, ==_iff, ◌≡◌, refl, ap, ◌∙◌, inl, inr, Bool, true, false, none, List,
  [], ◌∷◌, Text, All, arith,
}
use xcp_ng_tests.Effect.{ok, Exec, pure, for_each, ◌>>=◌}
use xcp_ng_tests.Effect.Laws.{>>=-eq-ok, pure-eq-ok, catch-eq-ok}
use xcp_ng_tests.Commands.{Env, Trace}
use xcp_ng_tests.Common.Waiting.{trace_clock}
use xcp_ng_tests.Common.Waiting.Passed.{Answered, wait_for-Answered}
use xcp_ng_tests.Hosts.{Member}
use xcp_ng_tests.Vm.Disks.{destroy}
use xcp_ng_tests.Vm.Import.{run_on, new_vm}
use xcp_ng_tests.Vm.{Vm}
use xcp_ng_tests.Vdi
use xcp_ng_tests.Sr.{vdi_uuids}
use xcp_ng_tests.Tools.Clean.{
  sum_of, count_failure, master, remove_vm, remove_vdi, remove_vdis, local_sr_uuids, has_vdis,
  wait_empty, vm_uuids, clean_pool,
}

module _ {S A : Type 0} where
  -- An action returned a value at some point of the run.
  abbrev pub Returns : Exec S A → A → Type 0
  Returns m a = (s s' : S) × (m s ≡ (ok a, s'))

  sum_of-zero :
      (f : A → Exec S ℕ) (xs : List A) (s : S) {n : ℕ} {s' : S}
      → sum_of f xs s ≡ (ok n, s')
      → n ≡ 0
      → All (λ x. (t t' : S) × (f x t ≡ (ok 0, t'))) xs
  unfolding sum_of
  sum_of-zero f [] s e z = tt
  sum_of-zero f (x ∷ xs) s {s' = s'} e z =
      let (n, s₁, first, e₁) = >>=-eq-ok (f x) _ s e in
      let (m, s₂, rest, e₂) = >>=-eq-ok (sum_of f xs) _ s₁ e₁ in
      let total = (pure-eq-ok (n + m) s₂ e₂).0 ∙ z in
      (
        (s, s₁, first ∙ ap {A = ℕ} (λ k. (ok k, s₁)) (omega (arith, total))),
        sum_of-zero f xs s₁ rest (omega (arith, total)),
      )

  for_each-All :
      (f : A → Exec S (Unit {0})) (xs : List A) (s : S) {u : Unit {0}} {s' : S}
      → for_each f xs s ≡ (ok u, s')
      → All (λ x. (t t' : S) × (f x t ≡ (ok tt, t'))) xs
  unfolding for_each
  for_each-All f [] s e = tt
  for_each-All f (x ∷ xs) s e =
      let (u, s₁, first, e₁) = >>=-eq-ok (f x) _ s e in ((s, s₁, first), for_each-All f xs s₁ e₁)

taken :
    {S : Type 0} (b : Bool) (m : Exec S (Unit {0})) (s : S) {u : Unit {0}} {s' : S}
    → b ≡ true
    → (if b then m else pure tt) s ≡ (ok u, s')
    → m s ≡ (ok u, s')
taken true m s h e = e
taken false m s h e = absurd (cc)

count_failure-zero :
    {A B : Type 0} (removal : Exec Trace A) (message : Exec Trace B) (t : Trace) {t' : Trace}
    → count_failure removal message t ≡ (ok 0, t')
    → (a : A) × (t₁ : Trace) × (removal t ≡ (ok a, t₁))
unfolding count_failure
count_failure-zero removal message t e = elim (catch-eq-ok (removal >>= λ a. pure 0) _ t e) [
  | inl returned ↦ let (a, t₁, removed, e₁) = >>=-eq-ok removal _ t returned in (a, t₁, removed)
  | inr (x, t₁, raised, e₁) ↦
      let (b, t₂, told, e₂) = >>=-eq-ok message _ t₁ e₁ in
      absurd (let z = (pure-eq-ok 1 t₂ e₂).0 in omega (arith, z))
]

All-map :
    {A : Type 0} {P Q : A → Type 0} (f : (x : A) → P x → Q x) (xs : List A) → All P xs → All Q xs
All-map f [] all = tt
All-map f (x ∷ xs) (first, rest) = (f x first, All-map f xs rest)

module _ (E : Env) (prefixed : Text → Text) (h : Member) where
  -- The VM was looked up, and to destroy it, until it was gone, raised nothing.
  abbrev pub VmRemoved : Text → Type 0
  VmRemoved vm_uuid =
      (t t₁ t₂ t₃ : Trace) × (vm : Vm) × (end : Unit {0} × Vm) × (new_vm E prefixed h vm_uuid t
        ≡ (ok vm, t₁))
      × (run_on E prefixed h vm (destroy E true) t₂ ≡ (ok end, t₃))

  remove_vm-VmRemoved :
      (vm_uuid : Text)
      → ((t t' : Trace) × (remove_vm E prefixed h false vm_uuid t ≡ (ok 0, t')))
      → VmRemoved vm_uuid
  unfolding remove_vm
  remove_vm-VmRemoved vm_uuid (t, t', e) =
      let (vm, t₁, made, e₁) = >>=-eq-ok _ _ t e in
      let (name, t₂, named, e₂) = >>=-eq-ok _ _ t₁ e₁ in
      let (end, t₃, removed) = count_failure-zero _ _ t₂ e₂ in
      (t, t₁, t₂, t₃, vm, end, made, removed)

  -- The SR was asked for its VDIs, and to destroy each raised nothing; later it had none.
  abbrev pub SrEmptied : Text → Type 0
  SrEmptied sr_uuid =
      (t t₁ : Trace) × (uuids : List Text) × (vdi_uuids E (master E prefixed h) sr_uuid true none t
        ≡ (ok uuids, t₁))
      × All (λ uuid. (t₂ t₃ : Trace) × (Vdi.destroy E (master E prefixed h) uuid t₂ ≡ (ok tt, t₃)))
          uuids
      × ((t₄ : Trace) × Answered (has_vdis E prefixed h sr_uuid) false t₄)

  remove_vdi-destroyed :
      (uuid : Text)
      → ((t t' : Trace) × (remove_vdi E prefixed h false uuid t ≡ (ok 0, t')))
      → (t₂ t₃ : Trace) × (Vdi.destroy E (master E prefixed h) uuid t₂ ≡ (ok tt, t₃))
  unfolding remove_vdi
  remove_vdi-destroyed uuid (t, t', e) =
      let (a, t₁, removed) = count_failure-zero _ _ t e in (t, t₁, removed)

  remove_vdis-SrEmptied :
      (srs : List Text)
      → All (λ sr. (t t' : Trace) × (remove_vdis E prefixed h false sr t ≡ (ok 0, t'))) srs
      → All (λ sr. (t t' : Trace) × (wait_empty E prefixed h sr t ≡ (ok tt, t'))) srs
      → All SrEmptied srs
  unfolding remove_vdis wait_empty
  remove_vdis-SrEmptied [] removed waited = tt
  remove_vdis-SrEmptied (sr ∷ srs) ((t, t', e), removed) ((t₄, t₅, w), waited) =
      let (uuids, t₁, listed, e₁) = >>=-eq-ok _ _ t e in
      (
        (
          t,
          t₁,
          uuids,
          listed,
          All-map remove_vdi-destroyed uuids (sum_of-zero _ uuids t₁ e₁ refl),
          (t₅, wait_for-Answered (trace_clock E) (has_vdis E prefixed h sr) 120 2 true _ t₄ w),
        ),
        remove_vdis-SrEmptied srs removed waited,
      )

  abbrev pub Cleaned : Trace → Type 0
  Cleaned t =
      (t₁ t₂ t₃ : Trace) × (vms srs : List Text) × (vm_uuids E prefixed h t ≡ (ok vms, t₁))
      × All VmRemoved vms
      × (local_sr_uuids E prefixed h t₂ ≡ (ok srs, t₃))
      × All SrEmptied srs

  -- Whenever clean_pool, when it is no dry run, returns 0, every VM and snapshot that it listed was
  -- destroyed, with the wait until it was gone, without an exception, and so was every managed VDI of
  -- every local SR that was listed then; and each of these SRs later answered that it has none.
  pub clean_pool-Cleaned :
      (t : Trace) {t' : Trace} → clean_pool E prefixed h false t ≡ (ok 0, t') → Cleaned t
  unfolding clean_pool
  clean_pool-Cleaned t e =
      let (vms, t₁, listed, e₁) = >>=-eq-ok _ _ t e in
      let (n, t₂, removed, e₂) = >>=-eq-ok _ _ t₁ e₁ in
      let (srs, t₃, found, e₃) = >>=-eq-ok _ _ t₂ e₂ in
      let (m, t₄, emptied, e₄) = >>=-eq-ok _ _ t₃ e₃ in
      let (u, t₅, waited, e₅) = >>=-eq-ok _ _ t₄ e₄ in
      let none_failed = (pure-eq-ok (n + m) t₅ e₅).0 in
      let waits = (==_iff (n + m) 0).1 none_failed in
      (
        t₁,
        t₂,
        t₃,
        vms,
        srs,
        listed,
        All-map remove_vm-VmRemoved vms (sum_of-zero _ vms t₁ removed (omega (arith, none_failed))),
        found,
        remove_vdis-SrEmptied srs (sum_of-zero _ srs t₃ emptied (omega (arith, none_failed))) (
            for_each-All _ srs t₄
              (taken (n + m == 0) (for_each (wait_empty E prefixed h) srs) t₄ waits waited)),
      )
