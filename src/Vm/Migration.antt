-- ===== src/Vm/Migration.antt =====
-- lib/vm.py: migration, snapshots and copies of a VM.
pub mod Laws
mod Tests
use xcp_ng_tests.Prelude.{
  ℕ, zero, suc, Bool, true, false, not, ◌&&◌, ◌||◌, Option, none, some, List, [], ◌∷◌, ◌++◌, Text,
  text_eq, lit, truthy, join, if◌then◌else◌,
}
use xcp_ng_tests.Effect.{
  Exn, Result, ok, err, Exec, pure, raise, lift, check, ◌>>=◌, ◌>>◌, assertion_error, try_finally,
  diverged,
}
use xcp_ng_tests.Commands.{Env, Trace}
use xcp_ng_tests.Common.Values.{strip_suffix, safe_split}
use xcp_ng_tests.Common.Xe.{Args, text, bool, dict, param_set, param_clear}
use xcp_ng_tests.Objects.{Obj, on_trace, with_obj, assign}
use xcp_ng_tests.Hosts.{
  Host, Pool, Member, host_xe, host_xe_minimal, management_network, get_vdi_sr_uuid,
}
use xcp_ng_tests.Vm.{Vm, Method, vm_host_xe, vm_xe, is_running, vm_param_get}
use xcp_ng_tests.Vm.Disks.{all_vdi_uuids, get_sr, vifs, create_vdis_list}

-- The same value for every key.
pub map_all : Text → List Text → List (Text × Text)
map_all value [] = []
map_all value (key ∷ keys) = (key, value) ∷ map_all value keys

pub is_some : Option Text → Bool
is_some none = false
is_some (some t) = true

module _ (E : Env) (target : Member) where
  pub is_cross_pool : Vm → Bool
  is_cross_pool o = not (text_eq o.host.pool.uuid target.pool.uuid)

  -- `sr`, unless it is the SR that the disks are on.
  pub other_sr : Option Text → Method (Option Text)
  other_sr none = pure none
  other_sr (some sr) = get_sr E >>= λ own. pure (if text_eq own sr then none else some sr)

  target_sr : Option Text → Exec Trace Text
  target_sr (some sr) = pure sr
  target_sr none =
      host_xe E target.host (lit "pool-param-get")
        ((lit "uuid", text target.pool.uuid) ∷ (lit "param-name", text (lit "default-SR")) ∷ [])

  target_network : Option Text → Exec Trace Text
  target_network (some network) = pure network
  target_network none = management_network E target.pool.master

  vif_args : Bool → Option Text → Method Args
  vif_args false network = pure []
  vif_args true network = do
    to ← on_trace (target_network network)
    uuids ← vifs E
    pure ((lit "vif", dict (map_all to uuids)) ∷ [])

  -- The parameters for moving the storage, if that is asked for.
  pub storage_args : Bool → Bool → Option Text → Option Text → Method Args
  storage_args false cross_pool sr network = pure []
  storage_args true cross_pool sr network = do
    sr_uuid ← on_trace (target_sr sr)
    vdis ← all_vdi_uuids E
    vifs ← vif_args cross_pool network
    pure (
        (lit "remote-master", text target.pool.master.hostname_or_ip)
        ∷ (lit "remote-username", text target.pool.master.user)
        ∷ (lit "remote-password", text target.pool.master.password)
        ∷ (lit "vdi", dict (map_all sr_uuid vdis))
        ∷ vifs)

  -- The command, up to its return.
  pub run_migrate : Option Text → Option Text → Method (Unit {0})
  run_migrate sr network = do
    live ← is_running E
    new_sr ← other_sr sr
    args ← with_obj λ o.
        storage_args (is_cross_pool o || is_some new_sr || is_some network) (is_cross_pool o) new_sr
          network
    vm_xe E (lit "vm-migrate")
        ((lit "host-uuid", text target.host.uuid) ∷ (lit "live", bool live) ∷ args)
    pure tt

  pub set_host : Method (Unit {0})
  set_host = assign λ o. record o { previous_host = some o.host; host = target }

  pub migrate : Option Text → Option Text → Method (Unit {0})
  migrate sr network = do run_migrate sr network; set_host; create_vdis_list E

module _ (E : Env) where
  -- The UUIDs of the snapshots.
  unfoldable pub snapshot : List Text → Option Text → Method Text
  snapshot ignore_vdis name = with_obj λ o. vm_xe E (lit "vm-snapshot") (
      (lit "new-name-label", text (label o name))
      ∷ (if is_nil ignore_vdis
          then []
          else (lit "ignore-vdi-uuids", text (join (lit ",") ignore_vdis)) ∷ []))
    where
      label : Vm → Option Text → Text
      label o none = lit "Snapshot of " ++ o.uuid
      label o (some n) = if truthy n then n else lit "Snapshot of " ++ o.uuid

      is_nil : List Text → Bool
      is_nil [] = true
      is_nil (u ∷ us) = false

  pub checkpoint : Method Text
  checkpoint = with_obj λ o.
      vm_xe E (lit "vm-checkpoint")
        ((lit "new-name-label", text (lit "Checkpoint of " ++ o.uuid)) ∷ [])

  -- `Snapshot.revert`, on the object of the base VM.
  unfoldable pub revert : Text → Method (Unit {0})
  revert snapshot_uuid = do
    vm_host_xe E (lit "snapshot-revert") (λ o. (lit "uuid", text snapshot_uuid) ∷ [])
    create_vdis_list E

  -- The UUID of the clone.
  pub clone : Option Text → Method Text
  clone (some name) = vm_xe E (lit "vm-clone") ((lit "new-name-label", text name) ∷ [])
  clone none = do
    name ← vm_param_get E (lit "name-label") none false
    own ← lift (elim name [ none ↦ err assertion_error | some n ↦ ok n ])
    vm_xe E (lit "vm-clone") ((lit "new-name-label", text (own ++ lit "_clone_for_tests")) ∷ [])
