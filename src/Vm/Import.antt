-- ===== src/Vm/Import.antt =====
-- lib/host.py and lib/vm.py: making VMs, and the cache of imported ones. `prefixed` stands for
-- `prefix_object_name`, which reads the file data.py of the user.
pub mod Laws
mod Tests
use xcp_ng_tests.Prelude.{
  ℕ, zero, suc, Bool, true, false, not, ◌&&◌, ◌||◌, Option, none, some, List, [], ◌∷◌, ◌++◌, Text,
  text_eq, lit, truthy, includes, starts_with, drop, length, if◌then◌else◌,
}
use xcp_ng_tests.Effect.{
  Exn, Result, ok, err, Exec, pure, raise, lift, check, ◌>>=◌, ◌>>◌, assertion_error, runtime_error,
  diverged,
}
use xcp_ng_tests.Commands.{Env, Trace}
use xcp_ng_tests.Common.Values.{safe_split, strip_suffix}
use xcp_ng_tests.Common.Xe.{Args, text, param_clear}
use xcp_ng_tests.Objects.{Obj, on_trace, with_obj, assign}
use xcp_ng_tests.Hosts.{Host, Member, host_xe, host_xe_minimal, management_network}
use xcp_ng_tests.Hosts.Xapi.{DefaultSr, main_sr_uuid}
use xcp_ng_tests.Vm.{Vm, Method, vm_param_get, vm_param_set, vm_wait, is_running, is_state, start}
use xcp_ng_tests.Vm.Disks.{create_vdis_list, all_vdi_uuids, get_sr, vifs, destroy}
use xcp_ng_tests.Vm.Migration.{clone}

pub vm_cache_key : Text → Text
vm_cache_key uri = lit "[Cache for " ++ (strip_suffix uri (lit ".xva") ++ lit "]")

is_nil : List Text → Bool
is_nil [] = true
is_nil (u ∷ us) = false

-- The schemes of a VM that is cloned from the cache.
data Source : Type 0 where
  cloned cloned_started : Text → Source
  imported : Source

source_of : Text → Source
source_of uri =
    if starts_with (lit "clone://") uri
    then cloned (drop 8 uri)
    else if starts_with (lit "clone+start://") uri
    then cloned_started (drop 14 uri)
    else imported

is_source_running : Source → Bool
is_source_running (cloned_started f) = true
is_source_running s = false

-- The attributes of a VM whose constructor has not asked anything yet.
abbrev blank_vm : Text → Member → Vm
blank_vm uuid host = record {
  uuid = uuid;
  host = host;
  ip = none;
  previous_host = none;
  is_windows = false;
  is_uefi = false;
  vdis = [];
  next_id = 0;
}

module _ (E : Env) (prefixed : Text → Text) (h : Member) where
  -- A method of a VM, for a state in which the object is a value.
  unfoldable pub run_on : {A : Type 0} → Vm → Method A → Exec Trace (A × Vm)
  run_on v m t = let (r, s) = m (t, v) in (elim r [ err e ↦ err e | ok a ↦ ok (a, s.1) ], s.0)

  unfoldable pub ask_kind : Method (Unit {0})
  ask_kind = do
    device ← vm_param_get E (lit "platform") (some (lit "device_id")) true
    firmware ← vm_param_get E (lit "HVM-boot-params") (some (lit "firmware")) true
    assign λ o. record o {
      is_windows = is_state (lit "0002") device;
      is_uefi = is_state (lit "uefi") firmware;
    }

  -- `VM(uuid, host)`
  unfoldable pub new_vm : Text → Exec Trace Vm
  new_vm uuid = run_on (blank_vm uuid h) (ask_kind >> create_vdis_list E) >>= λ p. pure p.1

  -- `not vm.vdi_uuids() or vm.get_sr().uuid == sr_uuid`
  pub is_on_sr : Text → Method Bool
  is_on_sr sr_uuid = do
    vdis ← all_vdi_uuids E
    if is_nil vdis then pure true else (get_sr E >>= λ sr. pure (text_eq sr sr_uuid))

  pub first_on_sr : Text → List Text → Exec Trace (Option Vm)
  first_on_sr sr_uuid [] = pure none
  first_on_sr sr_uuid (vm_uuid ∷ vm_uuids) = do
    vm ← new_vm vm_uuid
    found ← run_on vm (is_on_sr sr_uuid)
    if found.0 then pure (some found.1) else first_on_sr sr_uuid vm_uuids

  pub cached_vm : Text → Text → Exec Trace (Option Vm)
  cached_vm uri sr_uuid = do
    check (truthy sr_uuid)
    out ←
        host_xe_minimal E h.host (lit "vm-list")
          ((lit "name-description", text (vm_cache_key uri)) ∷ [])
    first_on_sr sr_uuid (safe_split b',' out)

  clear_description : Method (Unit {0})
  clear_description = with_obj λ o.
      on_trace (param_clear E o.host.host.hostname_or_ip (lit "vm") o.uuid (lit "name-description"))

  start_and_wait : Method (Unit {0})
  start_and_wait = start E none >> vm_wait E (is_running E) 120 false

  given : {A : Type 0} → Exn → Option A → Exec Trace A
  given e none = raise e
  given e (some a) = pure a

  -- A clone of the cached VM, started or not.
  clone_cached : Bool → Text → Option Text → Exec Trace Vm
  clone_cached wants_start filename sr_uuid = do
    sr ← given assertion_error sr_uuid
    found ← cached_vm filename sr
    base_vm ← given runtime_error found
    cloned_uuid ← run_on base_vm (clone E none)
    vm ← new_vm cloned_uuid.0
    cleared ← run_on vm clear_description
    started ← run_on cleared.1 (if wants_start then start_and_wait else pure tt)
    pure started.1

  sr_args : Option Text → Args
  sr_args none = []
  sr_args (some sr_uuid) = (lit "sr-uuid", text sr_uuid) ∷ []

  -- `VIF.move`
  pub move_vif : Text → Text → Exec Trace (Unit {0})
  move_vif vif network =
      host_xe E h.host (lit "vif-move")
        ((lit "uuid", text vif) ∷ (lit "network-uuid", text network) ∷ [])
      >>= λ _. pure tt

  -- `vif.move(self.management_network())` for each interface.
  move_vifs : List Text → Exec Trace (Unit {0})
  move_vifs [] = pure tt
  move_vifs (vif ∷ vif_uuids) = do
    network ← management_network E h.host
    move_vif vif network
    move_vifs vif_uuids

  set_description : Bool → Text → Method (Unit {0})
  set_description false uri = pure tt
  set_description true uri = vm_param_set E (lit "name-description") (text (vm_cache_key uri)) none

  import_fresh : Text → Option Text → Bool → Exec Trace Vm
  import_fresh uri sr_uuid use_cache = do
    vm_uuid ← host_xe E h.host (lit "vm-import") (
        (if includes (lit "://") uri then (lit "url", text uri) else (lit "filename", text uri))
        ∷ sr_args sr_uuid)
    name ←
        host_xe E h.host (lit "vm-param-get")
          ((lit "uuid", text vm_uuid) ∷ (lit "param-name", text (lit "name-label")) ∷ [])
    vm ← new_vm vm_uuid
    renamed ← run_on vm (vm_param_set E (lit "name-label") (text (prefixed name)) none)
    found ← run_on renamed.1 (vifs E)
    move_vifs found.0
    marked ← run_on found.1 (set_description use_cache uri)
    pure marked.1

  from_cache : Text → Option Text → Bool → Exec Trace (Option Vm)
  from_cache uri sr_uuid false = pure none
  from_cache uri sr_uuid true = given assertion_error sr_uuid >>= cached_vm uri

  pub import_vm : Text → Option Text → Bool → Exec Trace Vm
  import_vm uri sr_uuid use_cache = elim (source_of uri) [
    | cloned filename ↦ clone_cached false filename sr_uuid
    | cloned_started filename ↦ clone_cached true filename sr_uuid
    | imported ↦ from_cache uri sr_uuid use_cache >>= λ found. elim found [
      | none ↦ import_fresh uri sr_uuid use_cache
      | some vm ↦ pure vm
    ]
  ]

  -- The main SR, for the value of `DEFAULT_SR` in data.py and the SRs that were there at first.
  module _ (default_sr : DefaultSr) (pre_existing : List Text) where
    main_sr : Exec Trace Text
    main_sr = main_sr_uuid E prefixed h.host default_sr h.pool pre_existing

    pub vm_from_template : Text → Text → Exec Trace Vm
    vm_from_template name template = do
      sr ← main_sr
      vm_uuid ← host_xe E h.host (lit "vm-install") (
          (lit "new-name-label", text (prefixed name))
          ∷ (lit "template", text template)
          ∷ (lit "sr-uuid", text sr)
          ∷ [])
      new_vm vm_uuid

    -- The loop of `save_to_cache`, at most `fuel` rounds: every VM that is cached under the key is
    -- destroyed. Nothing bounds the loop in the code.
    pub destroy_cached : ℕ → Text → Exec Trace (Unit {0})
    destroy_cached zero cache_id = raise diverged
    destroy_cached (suc fuel) cache_id = do
      sr ← main_sr
      old_vm ← cached_vm cache_id sr
      destroy_old old_vm (destroy_cached fuel cache_id)
      where
        destroy_old : Option Vm → Exec Trace (Unit {0}) → Exec Trace (Unit {0})
        destroy_old none rest = pure tt
        destroy_old (some vm) rest = run_on vm (destroy E false) >>= λ _. rest

    -- For a VM on this host: its clone is marked as cached.
    pub save_to_cache : ℕ → Vm → Text → Exec Trace (Unit {0})
    save_to_cache fuel vm cache_id = do
      destroy_cached fuel cache_id
      named ← run_on vm (vm_param_get E (lit "name-label") none false)
      name ← given assertion_error named.0
      copied ← run_on named.1 (clone E (some (name ++ lit " cache")))
      copy ← new_vm copied.0
      run_on copy (vm_param_set E (lit "name-description") (text (vm_cache_key cache_id)) none)
      pure tt
