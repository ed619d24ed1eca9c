-- ===== src/Tools/Clean.antt =====
-- lib/tools/tasks/clean.py: removing all VMs of a pool, and the VDIs that are left on its local SRs.
pub mod Laws
mod Tests
use xcp_ng_tests.Prelude.{
  ℕ, zero, suc, ◌+◌, ◌==◌, ◌&&◌, Bool, true, false, not, Option, none, some, List, [], ◌∷◌, ◌++◌,
  Text, lit, ltb, length, if◌then◌else◌,
}
use xcp_ng_tests.Effect.{
  Result, ok, err, Exec, pure, raise, lift, catch, for_each, ◌>>=◌, ◌>>◌, assertion_error,
}
use xcp_ng_tests.Commands.{Env, Trace}
use xcp_ng_tests.Common.Values.{safe_split, strtobool}
use xcp_ng_tests.Common.Waiting.{trace_clock, wait_for}
use xcp_ng_tests.Common.Xe.{text, bool, param_get}
use xcp_ng_tests.Hosts.{Member, host_xe_minimal}
use xcp_ng_tests.Sr.{vdi_uuids, rounds}
use xcp_ng_tests.Vdi
use xcp_ng_tests.Vm.Disks.{destroy}
use xcp_ng_tests.Vm.Import.{run_on, new_vm}

-- The number of failures of all the items.
pub sum_of : {S A : Type 0} → (A → Exec S ℕ) → List A → Exec S ℕ
sum_of f [] = pure 0
sum_of f (x ∷ xs) = f x >>= λ n. sum_of f xs >>= λ m. pure (n + m)

-- A removal whose failure is counted; the message about a failure may ask for something.
pub count_failure : {A B : Type 0} → Exec Trace A → Exec Trace B → Exec Trace ℕ
count_failure removal message = catch (removal >>= λ a. pure 0) λ e. message >>= λ b. pure 1

-- `h` is the master, and its pool; a VM does not read the names that are given to new objects.
module _ (E : Env) (prefixed : Text → Text) (h : Member) where
  abbrev pub master : Text
  master = h.host.hostname_or_ip

  as_name : Option Text → Exec Trace Text
  as_name none = raise assertion_error
  as_name (some n) = pure n

  pub vm_name : Text → Exec Trace Text
  vm_name vm_uuid = param_get E master (lit "vm") vm_uuid (lit "name-label") none false >>= as_name

  pub remove_vm : Bool → Text → Exec Trace ℕ
  remove_vm dry_run vm_uuid = do
    vm ← new_vm E prefixed h vm_uuid
    vm_name vm_uuid
    if dry_run
        then pure 0
        else count_failure (run_on E prefixed h vm (destroy E true)) (vm_name vm_uuid)

  pub remove_vdi : Bool → Text → Exec Trace ℕ
  remove_vdi dry_run vdi_uuid =
      if dry_run then pure 0 else count_failure (Vdi.destroy E master vdi_uuid) (pure tt)

  pub remove_vdis : Bool → Text → Exec Trace ℕ
  remove_vdis dry_run sr_uuid =
      vdi_uuids E master sr_uuid true none >>= λ uuids. sum_of (remove_vdi dry_run) uuids

  pub not_shared : List Text → Exec Trace (List Text)
  not_shared [] = pure []
  not_shared (uuid ∷ uuids) = do
    v ← param_get E master (lit "sr") uuid (lit "shared") none false
    shared ← lift (strtobool v)
    others ← not_shared uuids
    pure (if shared then others else uuid ∷ others)

  pub local_sr_uuids : Exec Trace (List Text)
  local_sr_uuids =
      host_xe_minimal E h.host (lit "sr-list") ((lit "content-type", text (lit "user")) ∷ [])
      >>= λ out. not_shared (safe_split b',' out)

  pub has_vdis : Text → Exec Trace Bool
  has_vdis sr_uuid = vdi_uuids E master sr_uuid true none >>= λ uuids. pure (ltb 0 (length uuids))

  pub wait_empty : Text → Exec Trace (Unit {0})
  wait_empty sr_uuid = wait_for (trace_clock E) (has_vdis sr_uuid) 120 2 true rounds

  pub vm_uuids : Exec Trace (List Text)
  vm_uuids = do
    vms ←
        host_xe_minimal E h.host (lit "vm-list")
          ((lit "is-control-domain", bool false) ∷ (lit "is-a-template", bool false) ∷ [])
    snapshots ← host_xe_minimal E h.host (lit "vm-list") ((lit "is-a-snapshot", bool true) ∷ [])
    pure (safe_split b',' vms ++ safe_split b',' snapshots)

  pub clean_pool : Bool → Exec Trace ℕ
  clean_pool dry_run = do
    vms ← vm_uuids
    failed_vms ← sum_of (remove_vm dry_run) vms
    srs ← local_sr_uuids
    failed_vdis ← sum_of (remove_vdis dry_run) srs
    if not dry_run && (failed_vms + failed_vdis == 0) then for_each wait_empty srs else pure tt
    pure (failed_vms + failed_vdis)
