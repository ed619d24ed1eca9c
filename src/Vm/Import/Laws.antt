-- ===== src/Vm/Import/Laws.antt =====
-- What the lookup in the cache of imported VMs finds.
use xcp_ng_tests.Prelude.{
  ◌≡◌, ◌≢◌, ◌⊎◌, refl, sym, ap, ◌∙◌, inl, inr, Bool, true, false, Option, some, List, [], ◌∷◌, Text,
  text_eq, text_eq_iff, truthy, lit, if◌then◌else◌,
}
use xcp_ng_tests.Effect.{Result, ok, err, Exec, pure, ◌>>=◌}
use xcp_ng_tests.Effect.Laws.{>>=-eq-ok, pure-eq-ok, check-eq-ok}
use xcp_ng_tests.Commands.{Env, Trace}
use xcp_ng_tests.Common.Values.{safe_split}
use xcp_ng_tests.Common.Xe.{text}
use xcp_ng_tests.Objects.{Obj}
use xcp_ng_tests.Hosts.{Member, host_xe_minimal}
use xcp_ng_tests.Vm.{Vm, Method}
use xcp_ng_tests.Vm.Disks.{all_vdi_uuids, get_sr}
use xcp_ng_tests.Vm.Import.{is_nil, run_on, is_on_sr, new_vm, first_on_sr, cached_vm, vm_cache_key}

module _ (E : Env) (prefixed : Text → Text) (h : Member) where
  ran :
      {A : Type 0} (p : Result A × Obj Vm) {a : A} {v' : Vm} {t' : Trace}
      → ◌≡◌ {A = Result (A × Vm) × Trace}
          (elim p.0 as (λ x. Result (A × Vm)) [ err e ↦ err e | ok b ↦ ok (b, p.1.1) ], p.1.0)
          (ok (a, v'), t')
      → p ≡ (ok a, (t', v'))
  ran (ok b, s) e = cc
  ran (err x, s) e = absurd (cc)

  run_on-eq-ok :
      {A : Type 0} (v : Vm) (m : Method A) (t : Trace) {a : A} {v' : Vm} {t' : Trace}
      → run_on E prefixed h v m t ≡ (ok (a, v'), t')
      → m (t, v) ≡ (ok a, (t', v'))
  unfolding run_on
  run_on-eq-ok v m t e = ran (m (t, v)) e

  -- A VM made from the UUID: it has no disk, or its SR, which is that of its first disk, is the one
  -- that was asked for; these are the last questions.
  abbrev pub OnSr : Text → Text → Vm → Trace → Type 0
  OnSr sr_uuid uuid vm t' =
      (t t₁ : Trace) × (v : Vm) × (s : Obj Vm) × (vdis : List Text) × (new_vm E prefixed h uuid t
        ≡ (ok v, t₁))
      × (all_vdi_uuids E (t₁, v) ≡ (ok vdis, s))
      × (((vdis ≡ []) × (s ≡ (t', vm))) ⊎ ((vdis ≢ []) × (get_sr E s ≡ (ok sr_uuid, (t', vm)))))

  -- A VM made from the UUID has disks, and its SR is another one.
  abbrev pub Elsewhere : Text → Text → Type 0
  Elsewhere sr_uuid uuid =
      (t t₁ : Trace) × (v : Vm) × (s s' : Obj Vm) × (vdis : List Text) × (sr : Text) × (new_vm E
          prefixed h uuid t
        ≡ (ok v, t₁))
      × (all_vdi_uuids E (t₁, v) ≡ (ok vdis, s))
      × (vdis ≢ [])
      × (get_sr E s ≡ (ok sr, s'))
      × (sr ≢ sr_uuid)

  -- The first VM of the list that is on the SR.
  pub data FirstOnSr (sr_uuid : Text) (vm : Vm) (t' : Trace) : List Text → Type 0 where
    here :
        (uuid : Text) {uuids : List Text}
        → OnSr sr_uuid uuid vm t'
        → FirstOnSr sr_uuid vm t' (uuid ∷ uuids)
    later :
        (uuid : Text) {uuids : List Text}
        → Elsewhere sr_uuid uuid
        → FirstOnSr sr_uuid vm t' uuids
        → FirstOnSr sr_uuid vm t' (uuid ∷ uuids)

  -- How the test answers once it knows the disks.
  abbrev Answer : Text → Bool → List Text → Obj Vm → Obj Vm → Type 0
  Answer sr_uuid b vdis s s' =
      ((vdis ≡ []) × (b ≡ true) × (s ≡ s'))
      ⊎ ((vdis ≢ []) × ((sr : Text) × (get_sr E s ≡ (ok sr, s')) × (text_eq sr sr_uuid ≡ b)))

  -- An answer of the test whether a VM is on the SR, and what it was made of.
  is_on_sr-eq-ok :
      (sr_uuid : Text) (s : Obj Vm) (b : Bool) (s' : Obj Vm)
      → is_on_sr E prefixed h sr_uuid s ≡ (ok b, s')
      → (vdis : List Text) × (s₁ : Obj Vm) × (all_vdi_uuids E s ≡ (ok vdis, s₁))
        × Answer sr_uuid b vdis s₁ s'
  unfolding is_on_sr is_nil
  is_on_sr-eq-ok sr_uuid s b s' e =
      let (vdis, s₁, asked, e₁) = >>=-eq-ok _ _ s e in (vdis, s₁, asked, by_disks vdis s₁ e₁)
    where
      by_disks :
          (vdis : List Text) (s₁ : Obj Vm)
          → (if is_nil vdis then pure true else (get_sr E >>= λ sr. pure (text_eq sr sr_uuid))) s₁
            ≡ (ok b, s')
          → Answer sr_uuid b vdis s₁ s'
      by_disks [] s₁ e = let (yes_on, same) = pure-eq-ok true s₁ e in inl (refl, sym yes_on, same)
      by_disks (u ∷ us) s₁ e =
          let (sr, s₂, found, e₂) = >>=-eq-ok (get_sr E) _ s₁ e in
          let (answer, same) = pure-eq-ok (text_eq sr sr_uuid) s₂ e₂ in
          inr ((λ q. cc), (sr, found ∙ ap {A = Obj Vm} (λ x. (ok sr, x)) same, answer))

  found_here :
      (sr_uuid uuid : Text) (t t₁ : Trace) (v : Vm) (s : Obj Vm) (vdis : List Text) (w : Vm)
      (t₂ : Trace) {vm : Vm} {t' : Trace}
      → new_vm E prefixed h uuid t ≡ (ok v, t₁)
      → all_vdi_uuids E (t₁, v) ≡ (ok vdis, s)
      → Answer sr_uuid true vdis s (t₂, w)
      → ◌≡◌ {A = Obj Vm} (t₂, w) (t', vm)
      → OnSr sr_uuid uuid vm t'
  found_here sr_uuid uuid t t₁ v s vdis w t₂ made asked (inl (no_disk, yes_on, same)) e =
      (t, t₁, v, s, vdis, made, asked, inl (no_disk, same ∙ e))
  found_here sr_uuid uuid t t₁ v s vdis w t₂ made asked (inr (disks, (sr, found, on))) e = (
    t,
    t₁,
    v,
    s,
    vdis,
    made,
    asked,
    inr (
      disks,
      found
          ∙ ap {A = Text} (λ x. (ok x, (t₂, w))) ((text_eq_iff sr sr_uuid).0 on)
          ∙ ap {A = Obj Vm} (λ x. (ok sr_uuid, x)) e,
    ),
  )

  found_later :
      (sr_uuid uuid : Text) (t t₁ : Trace) (v : Vm) (s : Obj Vm) (vdis : List Text) (s' : Obj Vm)
      → new_vm E prefixed h uuid t ≡ (ok v, t₁)
      → all_vdi_uuids E (t₁, v) ≡ (ok vdis, s)
      → Answer sr_uuid false vdis s s'
      → Elsewhere sr_uuid uuid
  found_later sr_uuid uuid t t₁ v s vdis s' made asked (inl (no_disk, yes_on, same)) = absurd (cc)
  found_later sr_uuid uuid t t₁ v s vdis s' made asked (inr (disks, (sr, found, off))) = (
    t,
    t₁,
    v,
    s,
    s',
    vdis,
    sr,
    made,
    asked,
    disks,
    found,
    λ q. absurd (let on = (text_eq_iff sr sr_uuid).1 q in cc),
  )

  decided :
      (sr_uuid uuid : Text) (uuids : List Text) (t t₁ : Trace) (v : Vm) (s : Obj Vm)
      (vdis : List Text) (b : Bool) (w : Vm) (t₂ : Trace) (rest : Exec Trace (Option Vm)) {vm : Vm}
      {t' : Trace}
      → new_vm E prefixed h uuid t ≡ (ok v, t₁)
      → all_vdi_uuids E (t₁, v) ≡ (ok vdis, s)
      → Answer sr_uuid b vdis s (t₂, w)
      → (if b then pure (some w) else rest) t₂ ≡ (ok (some vm), t')
      → (rest t₂ ≡ (ok (some vm), t') → FirstOnSr sr_uuid vm t' uuids)
      → FirstOnSr sr_uuid vm t' (uuid ∷ uuids)
  decided sr_uuid uuid uuids t t₁ v s vdis true w t₂ rest made asked answer e next =
      here uuid (found_here sr_uuid uuid t t₁ v s vdis w t₂ made asked answer (cc))
  decided sr_uuid uuid uuids t t₁ v s vdis false w t₂ rest made asked answer e next =
      later uuid (found_later sr_uuid uuid t t₁ v s vdis (t₂, w) made asked answer) (next e)

  first_on_sr-FirstOnSr :
      (sr_uuid : Text) (vm_uuids : List Text) (t : Trace) {vm : Vm} {t' : Trace}
      → first_on_sr E prefixed h sr_uuid vm_uuids t ≡ (ok (some vm), t')
      → FirstOnSr sr_uuid vm t' vm_uuids
  unfolding first_on_sr
  first_on_sr-FirstOnSr sr_uuid [] t e = absurd (cc)
  first_on_sr-FirstOnSr sr_uuid (vm_uuid ∷ vm_uuids) t e =
      let (v, t₁, made, e₁) = >>=-eq-ok _ _ t e in
      let (found, t₂, ran_on, e₂) = >>=-eq-ok _ _ t₁ e₁ in
      let (vdis, s, asked, answer) =
        is_on_sr-eq-ok sr_uuid (t₁, v) found.0 (t₂, found.1)
          (run_on-eq-ok v (is_on_sr E prefixed h sr_uuid) t₁ ran_on) in
      decided sr_uuid vm_uuid vm_uuids t t₁ v s vdis found.0 found.1 t₂
        (first_on_sr E prefixed h sr_uuid vm_uuids) made asked answer e₂
        (first_on_sr-FirstOnSr sr_uuid vm_uuids t₂)

  -- What the lookup found: the first VM, of those that the pool lists with the description of the
  -- cache of the URI, that is on the SR.
  abbrev pub Found : Text → Text → Trace → Vm → Trace → Type 0
  Found uri sr_uuid t vm t' =
      (out : Text) × (t₁ : Trace) × (truthy sr_uuid ≡ true)
      × (host_xe_minimal E h.host (lit "vm-list")
            ((lit "name-description", text (vm_cache_key uri)) ∷ []) t
          ≡ (ok out, t₁))
      × FirstOnSr sr_uuid vm t' (safe_split b',' out)

  -- Whenever cached_vm returns a VM, an SR was asked for, and the VM is the first, of those that the
  -- pool lists with the description that the cache of the URI has, which has no disk or whose SR, that
  -- of its first disk, is the one asked for: each before it has disks, and another SR.
  pub cached_vm-Found :
      (uri sr_uuid : Text) (t : Trace) {vm : Vm} {t' : Trace}
      → cached_vm E prefixed h uri sr_uuid t ≡ (ok (some vm), t')
      → Found uri sr_uuid t vm t'
  unfolding cached_vm
  cached_vm-Found uri sr_uuid t e =
      let (u, t₁, given, e₁) = >>=-eq-ok _ _ t e in
      let (out, t₂, listed, e₂) = >>=-eq-ok _ _ t₁ e₁ in
      let (asked_for, same) = check-eq-ok (truthy sr_uuid) t given in
      (
        out,
        t₂,
        asked_for,
        ap
              (host_xe_minimal E h.host (lit "vm-list")
                ((lit "name-description", text (vm_cache_key uri)) ∷ []))
              (sym same)
            ∙ listed,
        first_on_sr-FirstOnSr sr_uuid _ t₂ e₂,
      )
