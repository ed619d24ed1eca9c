-- ===== src/Vm/Migration/Laws.antt =====
-- What a migration leaves in the VM, however it ends.
use xcp_ng_tests.Prelude.{
  ◌≡◌, refl, sym, ap, ◌∙◌, inl, inr, ◌⊎◌, ◌<◌, Bool, true, false, Option, none, some, [], ◌∷◌, Text,
  lit,
}
use mathlib.Core.Path.{subst}
use xcp_ng_tests.Effect.{Exn, Result, ok, err, assertion_error}
use xcp_ng_tests.Effect.Laws.{>>=-eq-ok, pure-eq-ok, >>=-step, >>=-raise}
use xcp_ng_tests.Commands.{Env}
use xcp_ng_tests.Objects.{Obj}
use xcp_ng_tests.Objects.Laws.{Keeps, Fixes, on_trace-Keeps, lift-Keeps, with_obj-Fixes, >>=-Fixes}
use xcp_ng_tests.Hosts.{Member}
use xcp_ng_tests.Common.Xe.{Args, text, bool}
use xcp_ng_tests.Vm.{Vm, VdiObject, vm_xe, is_running}
use xcp_ng_tests.Vm.Laws.{vm_xe-Keeps, is_running-Keeps}
use xcp_ng_tests.Vm.Disks.{disconnect_vdi, create_vdis_list}
use xcp_ng_tests.Vm.Disks.Laws.{
  apart, create_vdis_list-Fixes, all_vdi_uuids-Keeps, get_sr-Keeps, vifs-Keeps,
  disconnect_vdi-create_vdis_list,
}
use xcp_ng_tests.Vm.Migration.{other_sr, vif_args, storage_args, run_migrate, set_host, migrate}

abbrev all_of : Vm → Vm
all_of o = o

-- The VM on its new host.
abbrev pub moved : Member → Vm → Vm
moved target o = record o { previous_host = some o.host; host = target }

module _ (E : Env) where
  module _ (target : Member) where
    other_sr-Keeps : (sr : Option Text) → Keeps (other_sr E target sr)
    unfolding other_sr
    other_sr-Keeps none = lift-Keeps Vm (ok none)
    other_sr-Keeps (some sr) = >>=-Fixes all_of _ _ (get_sr-Keeps E) λ own. lift-Keeps Vm (ok _)

    vif_args-Keeps :
        (cross_pool : Bool) (network : Option Text) → Keeps (vif_args E target cross_pool network)
    unfolding vif_args
    vif_args-Keeps false network = lift-Keeps Vm (ok [])
    vif_args-Keeps true network =
        >>=-Fixes all_of _ _ (on_trace-Keeps Vm _)
          λ to. >>=-Fixes all_of _ _ (vifs-Keeps E) λ uuids. lift-Keeps Vm (ok _)

    storage_args-Keeps :
        (motion cross_pool : Bool) (sr network : Option Text)
        → Keeps (storage_args E target motion cross_pool sr network)
    unfolding storage_args
    storage_args-Keeps false cross_pool sr network = lift-Keeps Vm (ok [])
    storage_args-Keeps true cross_pool sr network =
        >>=-Fixes all_of _ _ (on_trace-Keeps Vm _) λ sr_uuid.
          >>=-Fixes all_of _ _ (all_vdi_uuids-Keeps E) λ vdis.
            >>=-Fixes all_of _ _ (vif_args-Keeps cross_pool network) λ vifs. lift-Keeps Vm (ok _)

    run_migrate-Keeps : (sr network : Option Text) → Keeps (run_migrate E target sr network)
    unfolding run_migrate
    run_migrate-Keeps sr network = >>=-Fixes all_of _ _ (is_running-Keeps E) λ live.
        >>=-Fixes all_of _ _ (other_sr-Keeps sr) λ new_sr.
          >>=-Fixes all_of _ _ (with_obj-Fixes all_of _ λ o. storage_args-Keeps _ _ new_sr network)
            λ args. >>=-Fixes all_of _ _ (vm_xe-Keeps E _ _) λ o. lift-Keeps Vm (ok tt)

    -- The command vm-migrate returned, for the target and as a live migration exactly if the VM was
    -- found running, and nothing was done behind it.
    abbrev pub Ordered : Obj Vm → Obj Vm → Type 0
    Ordered s s₁ =
        (s₀ t : Obj Vm) × (live : Bool) × (args : Args) × (out : Text) × (is_running E s
          ≡ (ok live, s₀))
        × (vm_xe E (lit "vm-migrate")
              ((lit "host-uuid", text target.host.uuid) ∷ (lit "live", bool live) ∷ args) t
            ≡ (ok out, s₁))

    run_migrate-Ordered :
        (sr network : Option Text) (s : Obj Vm) {u : Unit {0}} {s₁ : Obj Vm}
        → run_migrate E target sr network s ≡ (ok u, s₁)
        → Ordered s s₁
    unfolding run_migrate
    run_migrate-Ordered sr network s {s₁ = s₁} e =
        let (live, a, asked, e₁) = >>=-eq-ok _ _ s e in
        let (new_sr, b, chosen, e₂) = >>=-eq-ok _ _ a e₁ in
        let (args, c, made, e₃) = >>=-eq-ok _ _ b e₂ in
        let (out, d, ordered, e₄) = >>=-eq-ok _ _ c e₃ in
        (
          a,
          c,
          live,
          args,
          out,
          asked,
          ordered ∙ ap {A = Obj Vm} (λ x. (ok out, x)) (pure-eq-ok tt d e₄).1,
        )

    -- The two ways in which a migration can end: the command did not return, and no attribute has
    -- changed, or it did, and the VM has its new host and remembers the one that it had before.
    abbrev pub Migrated : Option Text → Option Text → Obj Vm → Result (Unit {0}) × Obj Vm → Type 0
    Migrated sr network s p =
        ((x : Exn) × (s₁ : Obj Vm) × (run_migrate E target sr network s ≡ (err x, s₁))
          × (p ≡ (err x, s₁))
          × (s₁.1 ≡ s.1))
        ⊎ ((s₁ : Obj Vm) × (run_migrate E target sr network s ≡ (ok tt, s₁))
            × Ordered s s₁
            × (p ≡ create_vdis_list E (s₁.0, moved target s.1))
            × (apart p.1.1 ≡ apart (moved target s.1)))

    migrate_after :
        (sr network : Option Text) (s : Obj Vm) (p : Result (Unit {0}) × Obj Vm)
        → run_migrate E target sr network s ≡ p
        → p.1.1 ≡ s.1
        → Migrated sr network s (migrate E target sr network s)
    unfolding migrate set_host Fixes
    migrate_after sr network s (err x, s₁) e k = inl (x, s₁, e, >>=-raise _ _ s e, k)
    migrate_after sr network s (ok u, s₁) e k =
        let remade =
          >>=-step _ _ s e
          ∙ >>=-step _ _ s₁ refl
          ∙ ap (λ o. create_vdis_list E (s₁.0, moved target o)) k in
        inr (
          s₁,
          e,
          run_migrate-Ordered sr network s e,
          remade,
          ap (λ p. apart p.1.1) remade ∙ create_vdis_list-Fixes E (s₁.0, moved target s.1),
        )

    -- A migration ends in one of two ways. Either what it does up to vm-migrate raises, which is how
    -- it ends then, and no attribute of the VM has changed; or the run of that part ended with
    -- vm-migrate returning, for the target, and the rest is that the list of disks is remade on a VM
    -- that has the target as its host and the host that it had before as the previous one. Even if
    -- this raises, the VM has these two hosts, and all else but the list of disks is as before.
    pub migrate-Migrated :
        (sr network : Option Text) (s : Obj Vm)
        → Migrated sr network s (migrate E target sr network s)
    unfolding Fixes
    migrate-Migrated sr network s =
        migrate_after sr network s _ refl (run_migrate-Keeps sr network s)

    -- After a migration that returned, every VDI object made before it is refused by
    -- disconnect_vdi, before any command.
    pub disconnect_vdi-migrate :
        (vdi : VdiObject) (sr network : Option Text) (s : Obj Vm) {u : Unit {0}} {s' : Obj Vm}
        → vdi.id < s.1.next_id
        → migrate E target sr network s ≡ (ok u, s')
        → disconnect_vdi E vdi s' ≡ (err assertion_error, s')
    unfolding migrate set_host Fixes
    disconnect_vdi-migrate vdi sr network s old e =
        let (a, s₁, ea, e₁) = >>=-eq-ok _ _ s e in
        let (b, s₂, eb, e₂) = >>=-eq-ok _ _ s₁ e₁ in
        let same =
          ap (λ p. p.1.1.next_id) (sym eb)
          ∙ ap (λ p. p.1.1.next_id) (sym ea)
          ∙ ap (λ o. o.next_id) (run_migrate-Keeps sr network s) in
        disconnect_vdi-create_vdis_list E vdi s₂ (subst (λ n. vdi.id < n) (sym same) old) e₂
