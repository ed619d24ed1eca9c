-- ===== src/Vm/Disks/Reachable.antt =====
-- The disks of a VM over any sequence of operations: an invariant, and the set that the list stands for.
use xcp_ng_tests.Prelude.{
  ◌+◌, ◌<◌, ◌≡◌, sym, ap, ◌∙◌, inl, inr, false, not, ◌&&◌, ◌||◌, Option, none, some, Text, length,
  ◌==◌, arith,
}
use mathlib.Core.Path.{subst}
use xcp_ng_tests.Effect.{ok, err, pure}
use xcp_ng_tests.Commands.{Env}
use xcp_ng_tests.Objects.{Obj}
use xcp_ng_tests.Objects.Laws.{on_trace-Keeps, lift-Keeps, with_obj-Fixes}
use xcp_ng_tests.Objects.Invariants.{
  Preserves, Keeps-Preserves, with_obj-Preserves, if-Preserves, catch_ssh-Preserves,
  assign-Preserves, >>=-Preserves,
}
use xcp_ng_tests.Vm.{Vm, VdiObject, Method}
use xcp_ng_tests.Vm.Disks.{
  has_vdi, vdi_with_uuid, set_vdis, rebuild_vdis, create_vdis_list, connect_vdi, drop_vdi,
  disconnect_vdi, destroy_object, destroy_vdi,
}
use xcp_ng_tests.Vm.Disks.Laws.{
  with_vdi, connect_vdi-Connected, detach_vdi-Keeps, disconnect_vdi-eq-ok, all_vdi_uuids-Keeps,
}
use xcp_ng_tests.Vm.Disks.Distinct.{
  WellFormed, has-append, has-remove, distinct-append, below-append, distinct-remove, below-remove,
  distinct-fresh, below-fresh, below-weaken, empty-WellFormed,
}

with_vdi-WellFormed :
    (vdi : VdiObject) (o : Vm)
    → WellFormed o
    → has_vdi vdi o.vdis ≡ false
    → vdi.id < o.next_id
    → WellFormed (with_vdi vdi o)
with_vdi-WellFormed vdi o (d, b) absent made =
    (distinct-append vdi o.vdis d absent, below-append o.next_id vdi o.vdis b made)

module _ (E : Env) where
  drop_vdi-Preserves : (vdi : VdiObject) → Preserves WellFormed (drop_vdi E vdi)
  unfolding drop_vdi
  drop_vdi-Preserves vdi =
      assign-Preserves WellFormed _
        λ o (d, b). (distinct-remove vdi o.vdis d, below-remove o.next_id vdi o.vdis b)

  disconnect_vdi-Preserves : (vdi : VdiObject) → Preserves WellFormed (disconnect_vdi E vdi)
  unfolding disconnect_vdi
  disconnect_vdi-Preserves vdi =
      >>=-Preserves WellFormed _ _
        (Keeps-Preserves WellFormed _ (with_obj-Fixes (λ v. v) _ λ o. lift-Keeps Vm _))
        λ u.
          >>=-Preserves WellFormed _ _ (Keeps-Preserves WellFormed _ (detach_vdi-Keeps E vdi))
            λ w. drop_vdi-Preserves vdi

  destroy_found-Preserves :
      (found : Option VdiObject)
      → Preserves WellFormed (elim found as (λ x. Method (Unit {0})) [
        | none ↦ pure tt
        | some vdi ↦ destroy_object E vdi
      ])
  unfolding destroy_object
  destroy_found-Preserves none = Keeps-Preserves WellFormed _ (lift-Keeps Vm (ok tt))
  destroy_found-Preserves (some vdi) =
      >>=-Preserves WellFormed _ _ (drop_vdi-Preserves vdi)
        λ u. Keeps-Preserves WellFormed _ (on_trace-Keeps Vm _)

  destroy_vdi-Preserves : (uuid : Text) → Preserves WellFormed (destroy_vdi E uuid)
  unfolding destroy_vdi
  destroy_vdi-Preserves uuid =
      with_obj-Preserves WellFormed _ λ o. destroy_found-Preserves (vdi_with_uuid uuid o.vdis)

  create_vdis_list-Preserves : Preserves WellFormed (create_vdis_list E)
  unfolding create_vdis_list rebuild_vdis set_vdis
  create_vdis_list-Preserves =
      catch_ssh-Preserves WellFormed _ _
        (>>=-Preserves WellFormed _ _ (Keeps-Preserves WellFormed _ (all_vdi_uuids-Keeps E))
          λ uuids.
            >>=-Preserves WellFormed _ _
              (Keeps-Preserves WellFormed _ (with_obj-Fixes (λ v. v) _ λ o. on_trace-Keeps Vm _))
              λ found. assign-Preserves WellFormed _ λ o p. (
                distinct-fresh o.next_id _ found,
                below-fresh o.next_id _ found (o.next_id + length found) (omega arith),
              ))
        λ e.
          if-Preserves WellFormed _ _ _
            (assign-Preserves WellFormed _ λ o p. empty-WellFormed o.next_id)
            (Keeps-Preserves WellFormed _ (lift-Keeps Vm (err e)))

  connect_vdi-WellFormed :
      (vdi : VdiObject) (device : Text) (s : Obj Vm)
      → WellFormed s.1
      → has_vdi vdi s.1.vdis ≡ false
      → vdi.id < s.1.next_id
      → WellFormed (connect_vdi E vdi device s).1.1
  connect_vdi-WellFormed vdi device s p absent made = elim (connect_vdi-Connected E vdi device s) [
    | inl (x, raised, k) ↦ subst WellFormed (sym k) p
    | inr added ↦ subst WellFormed (sym added) (with_vdi-WellFormed vdi s.1 p absent made)
  ]

  -- The states that follow a first one: each operation may have returned or raised. A new object takes
  -- the next number, and only an object that has one and is not in the list is connected.
  pub data Reach (s : Obj Vm) : Obj Vm → Type 0 where
    here : Reach s s
    by_new : {t : Obj Vm} → Reach s t → Reach s (t.0, record t.1 { next_id = t.1.next_id + 1 })
    by_connect :
        {t : Obj Vm} (vdi : VdiObject) (device : Text)
        → has_vdi vdi t.1.vdis ≡ false
        → vdi.id < t.1.next_id
        → Reach s t
        → Reach s (connect_vdi E vdi device t).1
    by_disconnect : {t : Obj Vm} (vdi : VdiObject) → Reach s t → Reach s (disconnect_vdi E vdi t).1
    by_destroy : {t : Obj Vm} (uuid : Text) → Reach s t → Reach s (destroy_vdi E uuid t).1
    by_list : {t : Obj Vm} → Reach s t → Reach s (create_vdis_list E t).1

  -- From a VM whose disks are distinct objects with numbers given before, any sequence of connections,
  -- disconnections, destructions and new lists, whether they return or raise, leads to such a VM.
  pub Reach-WellFormed : (s : Obj Vm) {t : Obj Vm} → WellFormed s.1 → Reach s t → WellFormed t.1
  unfolding Preserves
  Reach-WellFormed s p here = p
  Reach-WellFormed s p (by_new r) =
      let (d, b) = Reach-WellFormed s p r in (d, below-weaken _ _ _ b (omega arith))
  Reach-WellFormed s p (by_connect vdi device absent numbered r) =
      connect_vdi-WellFormed vdi device _ (Reach-WellFormed s p r) absent numbered
  Reach-WellFormed s p (by_disconnect vdi r) =
      disconnect_vdi-Preserves vdi _ (Reach-WellFormed s p r)
  Reach-WellFormed s p (by_destroy uuid r) = destroy_vdi-Preserves uuid _ (Reach-WellFormed s p r)
  Reach-WellFormed s p (by_list r) = create_vdis_list-Preserves _ (Reach-WellFormed s p r)

  -- A connection that returned added the object to the set that the list stands for, and no other.
  pub connect_vdi-has_vdi :
      (vdi w : VdiObject) (device : Text) (s : Obj Vm) {a : Text × Option Text} {s' : Obj Vm}
      → connect_vdi E vdi device s ≡ (ok a, s')
      → has_vdi w s'.1.vdis ≡ (has_vdi w s.1.vdis || (vdi.id == w.id))
  connect_vdi-has_vdi vdi w device s e = elim (connect_vdi-Connected E vdi device s) [
    | inl (x, raised, k) ↦ absurd (let r = ap (λ p. p.0) e in cc)
    | inr added ↦
        ap (λ o. has_vdi w o.vdis) (ap (λ p. p.1.1) (sym e) ∙ added) ∙ has-append w vdi s.1.vdis
  ]

  -- From a list of distinct objects, a disconnection that returned removed the object from the set
  -- that the list stands for, and no other.
  pub disconnect_vdi-has_vdi :
      (vdi w : VdiObject) (s : Obj Vm) {u : Unit {0}} {s' : Obj Vm}
      → WellFormed s.1
      → disconnect_vdi E vdi s ≡ (ok u, s')
      → has_vdi w s'.1.vdis ≡ (not (vdi.id == w.id) && has_vdi w s.1.vdis)
  disconnect_vdi-has_vdi vdi w s p e =
      ap (λ o. has_vdi w o.vdis) (disconnect_vdi-eq-ok E vdi s e) ∙ has-remove w vdi s.1.vdis p.0
