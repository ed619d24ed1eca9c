-- ===== src/Vm/Disks.antt =====
-- lib/vm.py and lib/basevm.py: the disks of a VM, its network interfaces, and its end.
pub mod Laws
pub mod Distinct
pub mod Reachable
pub mod Tests
use xcp_ng_tests.Prelude.{
  ℕ, suc, ◌+◌, Bool, true, false, not, ◌&&◌, ◌||◌, Option, none, some, List, [], ◌∷◌, ◌++◌, Text,
  text_eq, lit, truthy, split, show, length, ◌==◌, xor, if◌then◌else◌,
}
use xcp_ng_tests.Effect.{
  Exn, Result, ok, err, Exec, pure, raise, lift, check, assert, catch_ssh, for_each, ◌>>=◌, ◌>>◌,
  assertion_error, exception,
}
use xcp_ng_tests.Commands.{Env, Trace}
use xcp_ng_tests.Common.Values.{safe_split}
use xcp_ng_tests.Common.Xe.{Args, text, bool, stdout_of}
use xcp_ng_tests.Objects.{Obj, on_trace, with_obj, assign}
use xcp_ng_tests.Hosts.{Host, Pool, Member, host_xe, get_vdi_sr_uuid, network_named}
use xcp_ng_tests.Sr.{attached_to_host}
use xcp_ng_tests.Vdi
use xcp_ng_tests.Vm.{
  Vm, VdiObject, Method, vm_host_xe, vm_host_xe_minimal, vm_xe, vm_wait, is_running, is_halted,
  shutdown, exists,
}

-- `vdi in self.vdis`
unfoldable pub has_vdi : VdiObject → List VdiObject → Bool
has_vdi v [] = false
has_vdi v (w ∷ vdis) = (w.id == v.id) || has_vdi v vdis

-- `self.vdis.remove(vdi)`, for an object that is in the list.
unfoldable pub remove_vdi : VdiObject → List VdiObject → List VdiObject
remove_vdi v [] = []
remove_vdi v (w ∷ vdis) = if w.id == v.id then vdis else w ∷ remove_vdi v vdis

-- The first object with a UUID.
pub vdi_with_uuid : Text → List VdiObject → Option VdiObject
vdi_with_uuid uuid [] = none
vdi_with_uuid uuid (v ∷ vdis) = if text_eq v.uuid uuid then some v else vdi_with_uuid uuid vdis

-- New objects for UUIDs with their SRs, numbered from `id` on.
unfoldable pub vdi_objects : ℕ → Text → List (Text × Text) → List VdiObject
vdi_objects id master [] = []
vdi_objects id master ((uuid, sr) ∷ found) =
    record { id = id; uuid = uuid; sr = sr; master = master } ∷ vdi_objects (suc id) master found

-- `''` is no UUID, and not a list of one.
unfoldable pub disk_uuids : Text → List Text
disk_uuids [] = []
disk_uuids (c ∷ output) = split b',' (c ∷ output)

-- `assert len(vdis) > 0`, then the first.
unfoldable pub first_vdi : List Text → Result Text
first_vdi [] = err assertion_error
first_vdi (u ∷ uuids) = ok u

is_named : Text → Option Text → Bool
is_named name none = false
is_named name (some n) = text_eq n name

name_truthy : Option Text → Bool
name_truthy none = false
name_truthy (some t) = truthy t

module _ (E : Env) where
  unfoldable pub disk_list : Method Text
  disk_list =
      vm_host_xe_minimal E (lit "vm-disk-list")
        λ o. (lit "uuid", text o.uuid) ∷ (lit "vbd-params", text []) ∷ []

  unfoldable pub all_vdi_uuids : Method (List Text)
  all_vdi_uuids = disk_list >>= λ output. pure (disk_uuids output)

  -- `self.host.pool.get_vdi_sr_uuid(vdi)`
  unfoldable pub vdi_sr_uuid : Text → Method Text
  vdi_sr_uuid vdi = with_obj λ o. on_trace (get_vdi_sr_uuid E o.host.pool vdi)

  pub vdis_on_sr : Text → List Text → Method (List Text)
  vdis_on_sr sr_uuid [] = pure []
  vdis_on_sr sr_uuid (vdi ∷ vdis) = do
    sr ← vdi_sr_uuid vdi
    rest ← vdis_on_sr sr_uuid vdis
    pure (if text_eq sr sr_uuid then vdi ∷ rest else rest)

  pub vdi_uuids : Option Text → Method (List Text)
  vdi_uuids none = all_vdi_uuids
  vdi_uuids (some sr_uuid) = all_vdi_uuids >>= vdis_on_sr sr_uuid

  -- The loop of `all_vdis_on_host`, which stops at the first that is not.
  pub vdis_attached : Host → List Text → Method Bool
  vdis_attached h [] = pure true
  vdis_attached h (vdi ∷ vdis) = do
    sr ← vdi_sr_uuid vdi
    attached ←
        with_obj λ o. on_trace (attached_to_host E o.host.pool.master.hostname_or_ip sr h.uuid)
    if attached then vdis_attached h vdis else pure false

  pub all_vdis_on_host : Host → Method Bool
  all_vdis_on_host h = all_vdi_uuids >>= vdis_attached h

  pub vdis_all_on : Text → List Text → Method Bool
  vdis_all_on sr_uuid [] = pure true
  vdis_all_on sr_uuid (vdi ∷ vdis) = do
    sr ← vdi_sr_uuid vdi
    if text_eq sr sr_uuid then vdis_all_on sr_uuid vdis else pure false

  pub all_vdis_on_sr : Text → Method Bool
  all_vdis_on_sr sr_uuid = all_vdi_uuids >>= vdis_all_on sr_uuid

  -- The UUID of the SR of the first disk.
  unfoldable pub get_sr : Method Text
  get_sr = do
    vdis ← all_vdi_uuids
    vdi ← lift (first_vdi vdis)
    sr ← vdi_sr_uuid vdi
    attached ←
        with_obj
          λ o. on_trace (attached_to_host E o.host.pool.master.hostname_or_ip sr o.host.host.uuid)
    check attached
    pure sr

  -- `VDI(vdi_uuid, host=self.host)` for each UUID: the SRs that the host names, which must be there.
  unfoldable pub srs_of_vdis : Host → List Text → Exec Trace (List (Text × Text))
  srs_of_vdis h [] = pure []
  srs_of_vdis h (vdi ∷ vdis) = do
    sr ←
        host_xe E h (lit "vdi-param-get")
          ((lit "param-name", text (lit "sr-uuid")) ∷ (lit "uuid", text vdi) ∷ [])
    check (truthy sr)
    rest ← srs_of_vdis h vdis
    pure ((vdi, sr) ∷ rest)

  unfoldable pub set_vdis : List (Text × Text) → Method (Unit {0})
  set_vdis found = assign λ o. record o {
    vdis = vdi_objects o.next_id o.host.pool.master.hostname_or_ip found;
    next_id = o.next_id + length found;
  }

  unfoldable pub rebuild_vdis : Method (Unit {0})
  rebuild_vdis = do
    uuids ← all_vdi_uuids
    found ← with_obj λ o. on_trace (srs_of_vdis o.host.host uuids)
    set_vdis found

  unfoldable pub create_vdis_list : Method (Unit {0})
  create_vdis_list = catch_ssh rebuild_vdis λ e.
      if text_eq (stdout_of e) (lit "Error: No matching VMs found")
      then assign (λ o. record o { vdis = [] })
      else raise e

  -- Plugging a VBD into a running VM; it is destroyed again if that fails.
  pub plug_or_destroy : Text → Method (Unit {0})
  plug_or_destroy vbd_uuid =
      catch_ssh
        (vm_host_xe E (lit "vbd-plug") (λ o. (lit "uuid", text vbd_uuid) ∷ []) >>= λ _. pure tt)
        λ e. vm_host_xe E (lit "vbd-destroy") (λ o. (lit "uuid", text vbd_uuid) ∷ []) >> raise e

  -- `connect_vdi` up to the entry in the list; the UUID of the VBD.
  pub attach_vdi : VdiObject → Text → Method Text
  attach_vdi vdi device = do
    vbd_uuid ← vm_host_xe E (lit "vbd-create") (λ o.
        (lit "vdi-uuid", text vdi.uuid)
        ∷ (lit "vm-uuid", text o.uuid)
        ∷ (lit "device", text device)
        ∷ [])
    running ← is_running E
    if running then plug_or_destroy vbd_uuid else pure tt
    pure vbd_uuid

  pub add_vdi : VdiObject → Method (Unit {0})
  add_vdi vdi = assign λ o. record o { vdis = o.vdis ++ (vdi ∷ []) }

  -- The UUID of the VBD and its device, which is the name of the VDI.
  pub connect_vdi : VdiObject → Text → Method (Text × Option Text)
  connect_vdi vdi device = do
    vbd_uuid ← attach_vdi vdi device
    add_vdi vdi
    name ← on_trace (Vdi.name E vdi.master vdi.uuid)
    pure (vbd_uuid, name)

  pub unplug_vbd : Text → Method (Unit {0})
  unplug_vbd vbd_uuid =
      catch_ssh
        (vm_host_xe E (lit "vbd-unplug") (λ o. (lit "uuid", text vbd_uuid) ∷ []) >>= λ _. pure tt)
        λ e.
          if text_eq (stdout_of e)
            (lit "The device is not currently attached\ndevice: " ++ vbd_uuid)
          then pure tt
          else raise e

  -- `disconnect_vdi` behind its assertion and up to the entry in the list.
  pub detach_vdi : VdiObject → Method (Unit {0})
  detach_vdi vdi = do
    vbd_uuid ←
        vm_host_xe_minimal E (lit "vbd-list")
          (λ o. (lit "vdi-uuid", text vdi.uuid) ∷ (lit "vm-uuid", text o.uuid) ∷ [])
    running ← is_running E
    if running then unplug_vbd vbd_uuid else pure tt
    vm_host_xe E (lit "vbd-destroy") (λ o. (lit "uuid", text vbd_uuid) ∷ [])
    pure tt

  pub drop_vdi : VdiObject → Method (Unit {0})
  drop_vdi vdi = assign λ o. record o { vdis = remove_vdi vdi o.vdis }

  pub disconnect_vdi : VdiObject → Method (Unit {0})
  disconnect_vdi vdi = do with_obj λ o. check (has_vdi vdi o.vdis); detach_vdi vdi; drop_vdi vdi

  -- The object leaves the list first.
  pub destroy_object : VdiObject → Method (Unit {0})
  destroy_object vdi = drop_vdi vdi >> on_trace (Vdi.destroy E vdi.master vdi.uuid)

  pub destroy_vdi : Text → Method (Unit {0})
  destroy_vdi vdi_uuid =
      with_obj
        λ o. elim (vdi_with_uuid vdi_uuid o.vdis) [ none ↦ pure tt | some vdi ↦ destroy_object vdi ]

  -- `pytest.fail` of `destroy_vdi_by_name` is an exception.
  destroy_named : Text → List VdiObject → Method (Unit {0})
  destroy_named name [] = raise exception
  destroy_named name (vdi ∷ vdis) = do
    its_name ← on_trace (Vdi.name E vdi.master vdi.uuid)
    if is_named name its_name then destroy_object vdi else destroy_named name vdis

  pub destroy_vdi_by_name : Text → Method (Unit {0})
  destroy_vdi_by_name name = with_obj λ o. destroy_named name o.vdis

  unfoldable pub halt : Bool → Method (Unit {0})
  halt halted = if halted then pure tt else shutdown E true false false >>= λ _. pure tt

  unfoldable pub destroy_disks : Method (Unit {0})
  destroy_disks = all_vdi_uuids >>= for_each destroy_vdi

  unfoldable pub destroy : Bool → Method (Unit {0})
  destroy verify = do
    halted ← is_halted E
    halt halted
    destroy_disks
    vm_xe E (lit "vm-destroy") []
    if verify then vm_wait E (exists E) 120 true else pure tt

  -- The UUIDs of the interfaces.
  pub vifs : Method (List Text)
  vifs = vm_host_xe_minimal E (lit "vif-list") (λ o. (lit "vm-uuid", text o.uuid) ∷ []) >>= λ out.
      pure (safe_split b',' out)

  -- The network by its UUID, or by its name, which is asked for.
  network_for : Option Text → Option Text → Method (Option Text)
  network_for network_uuid none = pure network_uuid
  network_for network_uuid (some name) =
      if truthy name
      then (with_obj (λ o. on_trace (network_named E o.host.pool name)) >>= λ u. pure (some u))
      else pure network_uuid

  network_given : Option Text → Result Text
  network_given none = err assertion_error
  network_given (some u) = if truthy u then ok u else err assertion_error

  -- The UUID of the interface.
  pub create_vif : ℕ → Option Text → Option Text → Method Text
  create_vif vif_num network_uuid network_name = do
    check (xor (name_truthy network_uuid) (name_truthy network_name))
    found ← network_for network_uuid network_name
    network ← lift (network_given found)
    vm_host_xe E (lit "vif-create") (λ o.
        (lit "vm-uuid", text o.uuid)
        ∷ (lit "device", text (show vif_num))
        ∷ (lit "network-uuid", text network)
        ∷ [])
