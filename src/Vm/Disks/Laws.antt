-- ===== src/Vm/Disks/Laws.antt =====
-- What connecting and disconnecting a VDI leaves in the VM, and which objects a new list refuses.
use xcp_ng_tests.Prelude.{
  ◌≡◌, refl, sym, ap, ◌∙◌, inl, inr, ◌⊎◌, ◌<◌, false, Bool-cases, Option, List, [], ◌∷◌, ◌++◌, Text,
  text_eq, lit, ◌==◌, if◌then◌else◌, arith,
}
use mathlib.Core.Path.{subst}
use xcp_ng_tests.Effect.{Exn, Result, ok, err, raise, assertion_error}
use xcp_ng_tests.Effect.Laws.{>>=-eq-ok, >>=-step, >>=-raise, catch_ssh-eq-ok}
use xcp_ng_tests.Commands.{Env}
use xcp_ng_tests.Common.Xe.{stdout_of}
use xcp_ng_tests.Objects.{Obj, assign}
use xcp_ng_tests.Objects.Laws.{
  Keeps, Fixes, Keeps-Fixes, assign-Fixes, Atomic, on_trace-Keeps, lift-Keeps, with_obj-Fixes,
  >>=-Fixes, if-Fixes, catch_ssh-Fixes, assign-Atomic, >>=-Atomic,
}
use xcp_ng_tests.Vdi
use xcp_ng_tests.Vm.{Vm, VdiObject}
use xcp_ng_tests.Vm.Laws.{vm_host_xe-Keeps, vm_host_xe_minimal-Keeps, is_running-Keeps}
use xcp_ng_tests.Vm.Disks.Distinct.{has-fresh}
use xcp_ng_tests.Vm.Disks.{
  has_vdi, remove_vdi, disk_list, all_vdi_uuids, set_vdis, rebuild_vdis, create_vdis_list,
  plug_or_destroy, attach_vdi, add_vdi, connect_vdi, unplug_vbd, vdi_sr_uuid, get_sr, vifs,
  detach_vdi, drop_vdi, disconnect_vdi,
}

abbrev all_of : Vm → Vm
all_of o = o

-- The object behind `add_vdi`.
abbrev pub with_vdi : VdiObject → Vm → Vm
with_vdi vdi o = record o { vdis = o.vdis ++ (vdi ∷ []) }

abbrev with_list : Vm → List VdiObject → Vm
with_list o vdis = record o { vdis = vdis }

-- The object behind `drop_vdi`.
abbrev pub without_vdi : VdiObject → Vm → Vm
without_vdi vdi o = record o { vdis = remove_vdi vdi o.vdis }

-- A VM without its list of disks.
abbrev pub apart : Vm → Vm
apart o = record o { vdis = []; next_id = 0 }

remove-append :
    (v : VdiObject) (xs : List VdiObject)
    → has_vdi v xs ≡ false
    → remove_vdi v (xs ++ (v ∷ [])) ≡ xs
unfolding has_vdi remove_vdi
remove-append v [] h = ground arith
remove-append v (w ∷ xs) h = elim (Bool-cases (w.id == v.id)) [
  | inl same ↦ absurd (let h' = rw same at h in cc)
  | inr other ↦ let rest = remove-append v xs (rw other at h) in rw (other, rest) refl
]

module _ (E : Env) where
  plug_or_destroy-Keeps : (vbd_uuid : Text) → Keeps (plug_or_destroy E vbd_uuid)
  unfolding plug_or_destroy
  plug_or_destroy-Keeps vbd_uuid =
      catch_ssh-Fixes all_of _ _
        (>>=-Fixes all_of _ _ (vm_host_xe-Keeps E _ _) λ o. lift-Keeps Vm (ok tt))
        λ e. >>=-Fixes all_of _ _ (vm_host_xe-Keeps E _ _) λ o. lift-Keeps Vm (err e)

  attach_vdi-Keeps : (vdi : VdiObject) (device : Text) → Keeps (attach_vdi E vdi device)
  unfolding attach_vdi
  attach_vdi-Keeps vdi device = >>=-Fixes all_of _ _ (vm_host_xe-Keeps E _ _) λ vbd_uuid.
      >>=-Fixes all_of _ _ (is_running-Keeps E) λ running.
        >>=-Fixes all_of _ _
          (if-Fixes all_of running _ _ (plug_or_destroy-Keeps vbd_uuid) (lift-Keeps Vm (ok tt)))
          λ u. lift-Keeps Vm (ok vbd_uuid)

  unplug_vbd-Keeps : (vbd_uuid : Text) → Keeps (unplug_vbd E vbd_uuid)
  unfolding unplug_vbd
  unplug_vbd-Keeps vbd_uuid =
      catch_ssh-Fixes all_of _ _
        (>>=-Fixes all_of _ _ (vm_host_xe-Keeps E _ _) λ o. lift-Keeps Vm (ok tt))
        λ e. if-Fixes all_of _ _ _ (lift-Keeps Vm (ok tt)) (lift-Keeps Vm (err e))

  pub detach_vdi-Keeps : (vdi : VdiObject) → Keeps (detach_vdi E vdi)
  unfolding detach_vdi
  detach_vdi-Keeps vdi = >>=-Fixes all_of _ _ (vm_host_xe_minimal-Keeps E _ _) λ vbd_uuid.
      >>=-Fixes all_of _ _ (is_running-Keeps E) λ running.
        >>=-Fixes all_of _ _
          (if-Fixes all_of running _ _ (unplug_vbd-Keeps vbd_uuid) (lift-Keeps Vm (ok tt)))
          λ u. >>=-Fixes all_of _ _ (vm_host_xe-Keeps E _ _) λ o. lift-Keeps Vm (ok tt)

  -- A disconnection that raised has left every attribute of the VM as it was: the VDI is still in
  -- the list, whatever was unplugged or destroyed on the host.
  pub disconnect_vdi-Atomic : (vdi : VdiObject) → Atomic (disconnect_vdi E vdi)
  unfolding disconnect_vdi drop_vdi
  disconnect_vdi-Atomic vdi =
      >>=-Atomic _ _ (with_obj-Fixes all_of _ λ o. lift-Keeps Vm _)
        λ u. >>=-Atomic _ _ (detach_vdi-Keeps vdi) λ v. assign-Atomic _

  -- What a connection can end in: it raised before the VDI was in the list, and no attribute has
  -- changed, or the VDI is the last of the list and all else is as before, whether or not the name
  -- of the VDI could be read for the result.
  abbrev pub Connected : VdiObject → Obj Vm → Result (Text × Option Text) × Obj Vm → Type 0
  Connected vdi s p = ((x : Exn) × (p.0 ≡ err x) × (p.1.1 ≡ s.1)) ⊎ (p.1.1 ≡ with_vdi vdi s.1)

  connect_after :
      (vdi : VdiObject) (device : Text) (s : Obj Vm) (p : Result Text × Obj Vm)
      → attach_vdi E vdi device s ≡ p
      → p.1.1 ≡ s.1
      → Connected vdi s (connect_vdi E vdi device s)
  unfolding connect_vdi add_vdi Fixes
  connect_after vdi device s (err x, s₁) e k =
      let e' = >>=-raise _ _ s e in inl (x, ap (λ p. p.0) e', ap (λ p. p.1.1) e' ∙ k)
  connect_after vdi device s (ok vbd_uuid, s₁) e k = inr (
      ap (λ p. p.1.1) (>>=-step _ _ s e ∙ >>=-step _ _ s₁ refl)
      ∙ >>=-Fixes all_of _ _ (on_trace-Keeps Vm (Vdi.name E vdi.master vdi.uuid))
          (λ name. lift-Keeps Vm {A = Text × Option Text} (ok (vbd_uuid, name)))
          (s₁.0, with_vdi vdi s₁.1)
      ∙ ap (with_vdi vdi) k)

  -- A connection that raised before the VDI was in the list has changed no attribute; in every other
  -- case, a return among them, the VDI is the last of the list and all else is as before.
  pub connect_vdi-Connected :
      (vdi : VdiObject) (device : Text) (s : Obj Vm) → Connected vdi s (connect_vdi E vdi device s)
  unfolding Fixes
  connect_vdi-Connected vdi device s =
      connect_after vdi device s _ refl (attach_vdi-Keeps vdi device s)

  pub disconnect_vdi-eq-ok :
      (vdi : VdiObject) (s : Obj Vm) {u : Unit {0}} {s' : Obj Vm}
      → disconnect_vdi E vdi s ≡ (ok u, s')
      → s'.1 ≡ without_vdi vdi s.1
  unfolding disconnect_vdi drop_vdi Fixes
  disconnect_vdi-eq-ok vdi s e =
      let (a, s₁, ea, e₁) = >>=-eq-ok _ _ s e in
      let (b, s₂, eb, e₂) = >>=-eq-ok _ _ s₁ e₁ in
      let same = ap (λ p. p.1.1) (sym eb) ∙ detach_vdi-Keeps vdi s₁ ∙ ap (λ p. p.1.1) (sym ea) in
      ap (λ p. p.1.1) (sym e₂) ∙ ap (without_vdi vdi) same

  -- Connecting a VDI that is not in the list and disconnecting it again, if both return, gives the
  -- attributes of the VM back as they were, the list in its order among them.
  pub disconnect_vdi-connect_vdi :
      (vdi : VdiObject) (device : Text) (s : Obj Vm) {a : Text × Option Text} {s₁ s₂ : Obj Vm}
      {u : Unit {0}}
      → has_vdi vdi s.1.vdis ≡ false
      → connect_vdi E vdi device s ≡ (ok a, s₁)
      → disconnect_vdi E vdi s₁ ≡ (ok u, s₂)
      → s₂.1 ≡ s.1
  disconnect_vdi-connect_vdi vdi device s {s₁ = s₁} absent e e₁ =
      elim (connect_vdi-Connected vdi device s) [
        | inl (x, raised, k) ↦ absurd (let r = ap (λ p. p.0) e in cc)
        | inr connected ↦
            let before = ap (λ p. p.1.1) (sym e) ∙ connected in
            disconnect_vdi-eq-ok vdi s₁ e₁
            ∙ ap (without_vdi vdi) before
            ∙ ap (with_list s.1) (remove-append vdi s.1.vdis absent)
      ]

  -- A VDI that is not in the list is refused before any command.
  disconnect_vdi-refused :
      (vdi : VdiObject) (s : Obj Vm)
      → has_vdi vdi s.1.vdis ≡ false
      → disconnect_vdi E vdi s ≡ (err assertion_error, s)
  unfolding disconnect_vdi
  disconnect_vdi-refused vdi s h = >>=-raise _ _ s (rw h refl)

  pub all_vdi_uuids-Keeps : Keeps (all_vdi_uuids E)
  unfolding all_vdi_uuids disk_list
  all_vdi_uuids-Keeps =
      >>=-Fixes all_of _ _ (vm_host_xe_minimal-Keeps E _ _) λ output. lift-Keeps Vm (ok _)

  pub vdi_sr_uuid-Keeps : (vdi : Text) → Keeps (vdi_sr_uuid E vdi)
  unfolding vdi_sr_uuid
  vdi_sr_uuid-Keeps vdi = with_obj-Fixes all_of _ λ o. on_trace-Keeps Vm _

  pub get_sr-Keeps : Keeps (get_sr E)
  unfolding get_sr
  get_sr-Keeps = >>=-Fixes all_of _ _ all_vdi_uuids-Keeps λ vdis.
      >>=-Fixes all_of _ _ (lift-Keeps Vm _) λ vdi.
        >>=-Fixes all_of _ _ (vdi_sr_uuid-Keeps vdi) λ sr.
          >>=-Fixes all_of _ _ (with_obj-Fixes all_of _ λ o. on_trace-Keeps Vm _)
            λ attached. >>=-Fixes all_of _ _ (lift-Keeps Vm _) λ u. lift-Keeps Vm (ok sr)

  pub vifs-Keeps : Keeps (vifs E)
  unfolding vifs
  vifs-Keeps = >>=-Fixes all_of _ _ (vm_host_xe_minimal-Keeps E _ _) λ out. lift-Keeps Vm (ok _)

  rebuild_vdis-fresh :
      (vdi : VdiObject) (s : Obj Vm) {u : Unit {0}} {s' : Obj Vm}
      → vdi.id < s.1.next_id
      → rebuild_vdis E s ≡ (ok u, s')
      → has_vdi vdi s'.1.vdis ≡ false
  unfolding rebuild_vdis set_vdis Fixes
  rebuild_vdis-fresh vdi s old e =
      let (uuids, s₁, ea, e₁) = >>=-eq-ok _ _ s e in
      let (found, s₂, eb, e₂) = >>=-eq-ok _ _ s₁ e₁ in
      let same = ap (λ p. p.1.1) (sym eb) ∙ ap (λ p. p.1.1) (sym ea) ∙ all_vdi_uuids-Keeps s in
      ap (λ p. has_vdi vdi p.1.1.vdis) (sym e₂)
      ∙ has-fresh vdi s₂.1.next_id _ found (subst (λ o. vdi.id < o.next_id) (sym same) old)

  emptied-fresh :
      (vdi : VdiObject) (x : Exn) (s₁ : Obj Vm) {u : Unit {0}} {s' : Obj Vm}
      → (if text_eq (stdout_of x) (lit "Error: No matching VMs found")
            then assign (λ (o : Vm). record o { vdis = [] })
            else raise x)
          s₁
        ≡ (ok u, s')
      → has_vdi vdi s'.1.vdis ≡ false
  unfolding has_vdi
  emptied-fresh vdi x s₁ h =
      elim (Bool-cases (text_eq (stdout_of x) (lit "Error: No matching VMs found"))) [
        | inl dom0 ↦ ap (λ p. has_vdi vdi p.1.1.vdis) (sym (rw dom0 at h))
        | inr other ↦ absurd (let h' = rw other at h in cc)
      ]

  create_vdis_list-fresh :
      (vdi : VdiObject) (s : Obj Vm) {u : Unit {0}} {s' : Obj Vm}
      → vdi.id < s.1.next_id
      → create_vdis_list E s ≡ (ok u, s')
      → has_vdi vdi s'.1.vdis ≡ false
  unfolding create_vdis_list
  create_vdis_list-fresh vdi s old e = elim (catch_ssh-eq-ok _ _ s e) [
    | inl rebuilt ↦ rebuild_vdis-fresh vdi s old rebuilt
    | inr (x, s₁, failed, handled) ↦ emptied-fresh vdi x s₁ handled
  ]

  pub create_vdis_list-Fixes : Fixes apart (create_vdis_list E)
  unfolding create_vdis_list rebuild_vdis set_vdis
  create_vdis_list-Fixes =
      catch_ssh-Fixes apart _ _
        (>>=-Fixes apart _ _ (Keeps-Fixes apart _ all_vdi_uuids-Keeps) λ uuids.
          >>=-Fixes apart _ _
            (with_obj-Fixes apart _ λ o. Keeps-Fixes apart _ (on_trace-Keeps Vm _))
            λ found. assign-Fixes apart _ λ o. refl)
        λ e.
          if-Fixes apart _ _ _ (assign-Fixes apart _ λ o. refl)
            (Keeps-Fixes apart _ (lift-Keeps Vm (err e)))

  -- Once the list has been made anew, every object that was made before is refused, even one for a
  -- disk that is still there: disconnecting it raises before any command, and nothing has changed.
  pub disconnect_vdi-create_vdis_list :
      (vdi : VdiObject) (s : Obj Vm) {u : Unit {0}} {s' : Obj Vm}
      → vdi.id < s.1.next_id
      → create_vdis_list E s ≡ (ok u, s')
      → disconnect_vdi E vdi s' ≡ (err assertion_error, s')
  disconnect_vdi-create_vdis_list vdi s {s' = s'} old e =
      disconnect_vdi-refused vdi s' (create_vdis_list-fresh vdi s old e)
