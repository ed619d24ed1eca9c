-- ===== src/Tools/Clean/Tests.antt =====
-- A pool with one halted VM without disks, and one disk left on its only SR.
use xcp_ng_tests.Prelude.{ℕ, zero, suc, ◌≡◌, refl, false, List, [], ◌∷◌, Text, lit, strip, split}
use xcp_ng_tests.Effect.{ok, catch, catch_ssh, for_each, ◌>>=◌}
use xcp_ng_tests.Commands.{
  Trace, Completed, Env, ssh_text, ssh, fetch_banner, run_ssh, start_ssh, ssh_outcome, decoded,
  as_text,
}
use xcp_ng_tests.Common.Values.{safe_split, strtobool}
use xcp_ng_tests.Common.Waiting.{wait_for, wait_loop}
use xcp_ng_tests.Common.Xe.{xe, xe_minimal, xe_command, param_get}
use xcp_ng_tests.Hosts.{host_xe, host_xe_minimal, pool_has_vm}
use xcp_ng_tests.Sr.{list_xe, vdi_uuids}
use xcp_ng_tests.Vdi
use xcp_ng_tests.Vm.{
  is_state, is_halted, exists, power_state_is, vm_param_get, vm_host_xe, vm_host_xe_minimal, vm_xe,
  vm_wait,
}
use xcp_ng_tests.Vm.Disks.{
  create_vdis_list, rebuild_vdis, all_vdi_uuids, disk_list, disk_uuids, srs_of_vdis, set_vdis,
  vdi_objects, destroy, destroy_disks, halt,
}
use xcp_ng_tests.Vm.Disks.Tests
use xcp_ng_tests.Vm.Import.{run_on, ask_kind, new_vm}
use xcp_ng_tests.Tools.Clean.{
  sum_of, count_failure, as_name, vm_name, remove_vm, remove_vdi, remove_vdis, not_shared,
  local_sr_uuids, has_vdis, wait_empty, vm_uuids, clean_pool,
}
use xcp_ng_tests.Tools.Clean.Laws.{Cleaned, clean_pool-Cleaned}

answers : List Text
answers =
    lit "u7"
    ∷ []
    ∷ []
    ∷ []
    ∷ []
    ∷ lit "name"
    ∷ lit "halted"
    ∷ []
    ∷ []
    ∷ []
    ∷ lit "s1"
    ∷ lit "false"
    ∷ lit "d1"
    ∷ []
    ∷ []
    ∷ []

answer : List Text → ℕ → Text
answer [] n = []
answer (x ∷ xs) zero = x
answer (x ∷ xs) (suc n) = answer xs n

later : Trace → ℕ
later [] = 0
later (e ∷ []) = 0
later (e ∷ t) = suc (later t)

reply : Trace → Completed
reply t = record { returncode = 0; stdout = answer answers (later t); ssherr = [] }

abbrev env : Env
env = record Tests.env { reply = reply }

abbrev same : Text → Text
same name = name

end : Trace
end = (clean_pool env same Tests.member false []).1

removed : clean_pool env same Tests.member false [] ≡ (ok 0, end)
unfolding end answers answer later reply clean_pool vm_uuids wait_empty has_vdis local_sr_uuids
    not_shared remove_vdis remove_vdi remove_vm vm_name as_name count_failure sum_of new_vm run_on
    ask_kind is_state create_vdis_list destroy destroy_disks halt is_halted exists power_state_is
    vm_xe vm_wait pool_has_vm rebuild_vdis all_vdi_uuids disk_list disk_uuids srs_of_vdis set_vdis
    vm_param_get param_get vm_host_xe vm_host_xe_minimal host_xe_minimal list_xe vdi_uuids
    xe_minimal xe xe_command host_xe strtobool safe_split split catch wait_for wait_loop for_each
    catch_ssh ◌>>=◌ lit strip ssh_text ssh fetch_banner run_ssh start_ssh ssh_outcome decoded
    as_text vdi_objects Vdi.destroy mathlib.Core.Bool.xor
removed = refl

clean_pool-Cleaned_example : Cleaned env same Tests.member []
clean_pool-Cleaned_example = clean_pool-Cleaned env same Tests.member [] removed
