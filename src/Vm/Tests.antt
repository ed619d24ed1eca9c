-- ===== src/Vm/Tests.antt =====
-- A VM whose every parameter is `running`, its address among them, and one that is halted.
use xcp_ng_tests.Prelude.{◌≡◌, refl, true, false, ◌&&◌, lit, strip, []}
use xcp_ng_tests.Effect.{ok, try_finally, catch, catch_ssh, ◌>>=◌}
use xcp_ng_tests.Commands.{
  Env, ssh_text, ssh, fetch_banner, run_ssh, start_ssh, ssh_outcome, decoded, as_text,
}
use xcp_ng_tests.Common.Waiting.{wait_for, wait_loop}
use xcp_ng_tests.Common.Waiting.Passed.{Answered}
use xcp_ng_tests.Common.Xe.{xe, xe_minimal, xe_command, param_get}
use xcp_ng_tests.Objects.{Obj, on_trace, with_obj}
use xcp_ng_tests.Hosts.{host_xe, host_xe_minimal, host_ssh, pool_has_vm}
use xcp_ng_tests.Vm.{
  Vm, vm_ssh, vm_ssh_code, vm_host_xe_minimal, is_ssh_up, the_ip, wait_for_vm_running_and_ssh_up,
  is_no_ip, vm_wait, vm_xe, vm_host_xe, vm_param_get, is_state, power_state_is, is_running,
  is_halted, store_ip, try_get_and_store_ip, is_some, has_pv_version, or_else, and_then,
  is_management_agent_up, wait_for_os_booted, shutdown_once, shutdown,
}
use xcp_ng_tests.Vm.Disks.{
  create_vdis_list, rebuild_vdis, all_vdi_uuids, disk_list, disk_uuids, srs_of_vdis, set_vdis,
}
use xcp_ng_tests.Vm.Migration.{snapshot, revert}
use xcp_ng_tests.Vm.Guest.{
  snapshot_exists, snapshot_destroy, snapshot_reverts, test_snapshot_on_running_vm, ssh_touch_file,
  vm_run,
}
use xcp_ng_tests.Vm.Uefi.{on_host, set_variable_from_file}
use xcp_ng_tests.Vm.Cleanup.{
  HasTested, test_snapshot_on_running_vm-last, test_snapshot_on_running_vm-Answered,
  set_variable_from_file-removes,
}
use xcp_ng_tests.Vm.Disks.Tests.{env, start}
use xcp_ng_tests.Vm.Booting.{wait_for_os_booted-Answered, shutdown-Answered}
use xcp_ng_tests.Prelude.{none, starts_with, ◌∷◌, ◌++◌, Text, split, if◌then◌else◌}
use xcp_ng_tests.Commands.{Trace, Completed, ssh_process, ssh_with_result, as_code}

abbrev up : Env
up = record env { reply = λ t. record { returncode = 0; stdout = lit "running"; ssherr = [] } }

abbrev down : Env
down = record env { reply = λ t. record { returncode = 0; stdout = lit "halted"; ssherr = [] } }

booted : Obj Vm
booted = (wait_for_os_booted up start).1

waited : wait_for_os_booted up start ≡ (ok tt, booted)
unfolding booted wait_for_os_booted vm_wait wait_for wait_loop is_running power_state_is is_state
    vm_param_get param_get try_get_and_store_ip store_ip is_no_ip is_management_agent_up
    has_pv_version is_some or_else and_then xe catch catch_ssh ◌>>=◌ lit strip ssh_text ssh
    fetch_banner run_ssh start_ssh ssh_outcome decoded as_text mathlib.Core.Bool.xor
waited = refl

wait_for_os_booted-Answered_example :
    (is_no_ip booted.1.ip ≡ false) × Answered (is_management_agent_up up) true booted
wait_for_os_booted-Answered_example = wait_for_os_booted-Answered up start waited

stopped : Obj Vm
stopped = (shutdown down false true true start).1

shut_down : shutdown down false true true start ≡ (ok (lit "halted"), stopped)
unfolding stopped shutdown shutdown_once vm_wait wait_for wait_loop is_halted power_state_is
    is_state vm_param_get param_get vm_xe vm_host_xe host_xe xe catch catch_ssh ◌>>=◌ lit strip
    ssh_text ssh fetch_banner run_ssh start_ssh ssh_outcome decoded as_text mathlib.Core.Bool.xor
shut_down = refl

shutdown-Answered_example :
    ((false && true) ≡ false) × Answered (is_halted down) true stopped × (stopped.1 ≡ start.1)
shutdown-Answered_example = shutdown-Answered down false true start shut_down

-- The VM that is up, on a host that does not list the snapshot any more.
without_snapshot : Trace → Completed
without_snapshot (ssh_process address options cmd ∷ t) = record {
  returncode = 0;
  stdout = if starts_with (lit "xe snapshot-list") cmd then [] else lit "running";
  ssherr = [];
}
without_snapshot t = record { returncode = 0; stdout = []; ssherr = [] }

abbrev forgotten : Env
forgotten = record env { reply = without_snapshot }

ready : Obj Vm
ready = (wait_for_vm_running_and_ssh_up up start).1

readied : wait_for_vm_running_and_ssh_up up start ≡ (ok tt, ready)
unfolding ready wait_for_vm_running_and_ssh_up is_ssh_up vm_ssh_code ssh_with_result as_code the_ip
    wait_for_os_booted vm_wait wait_for wait_loop is_running power_state_is is_state vm_param_get
    param_get try_get_and_store_ip store_ip is_no_ip is_management_agent_up has_pv_version is_some
    or_else and_then xe catch catch_ssh ◌>>=◌ lit strip ssh_text ssh fetch_banner run_ssh start_ssh
    ssh_outcome decoded as_text mathlib.Core.Bool.xor
readied = refl

taken : Obj Vm
taken = (snapshot up [] none ready).1

first_taken : snapshot up [] none ready ≡ (ok (lit "running"), taken)
unfolding taken snapshot vm_xe vm_host_xe host_xe xe ◌>>=◌ lit strip ssh_text ssh fetch_banner
    run_ssh start_ssh ssh_outcome decoded as_text
first_taken = refl

test_snapshot_on_running_vm-last_example :
    (test_snapshot_on_running_vm up start).1
    ≡ (snapshot_destroy up (lit "running") true (snapshot_reverts up (lit "running") taken).1).1
test_snapshot_on_running_vm-last_example =
    test_snapshot_on_running_vm-last up start readied first_taken

tested : Obj Vm
tested = (test_snapshot_on_running_vm forgotten start).1

test_passes : test_snapshot_on_running_vm forgotten start ≡ (ok tt, tested)
unfolding tested test_snapshot_on_running_vm try_finally snapshot_reverts snapshot_destroy
    snapshot_exists ssh_touch_file vm_run revert create_vdis_list rebuild_vdis all_vdi_uuids
    disk_list disk_uuids split srs_of_vdis set_vdis xcp_ng_tests.Vm.start vm_ssh pool_has_vm
    host_xe_minimal xe_minimal vm_host_xe_minimal without_snapshot xe_command snapshot vm_xe
    vm_host_xe host_xe wait_for_vm_running_and_ssh_up is_ssh_up vm_ssh_code ssh_with_result as_code
    the_ip wait_for_os_booted vm_wait wait_for wait_loop is_running power_state_is is_state
    vm_param_get param_get try_get_and_store_ip store_ip is_no_ip is_management_agent_up
    has_pv_version is_some or_else and_then xe catch catch_ssh ◌>>=◌ lit strip ssh_text ssh
    fetch_banner run_ssh start_ssh ssh_outcome decoded as_text mathlib.Core.Bool.xor
test_passes = refl

test_snapshot_on_running_vm-Answered_example : HasTested forgotten start tt tested
test_snapshot_on_running_vm-Answered_example =
    test_snapshot_on_running_vm-Answered forgotten start test_passes

named : Obj Vm
named =
    (with_obj {A = Text} (λ (o : Vm). on_trace (host_ssh up o.host.host (lit "mktemp"))) start).1

name_made :
    (with_obj {A = Text} λ (o : Vm). on_trace (host_ssh up o.host.host (lit "mktemp"))) start
    ≡ (ok (lit "running"), named)
unfolding named host_ssh ◌>>=◌ lit strip ssh_text ssh fetch_banner run_ssh start_ssh ssh_outcome
    decoded as_text
name_made = refl

set_variable_from_file-removes_example :
    (s₂ : Obj Vm) × ((set_variable_from_file up (lit "a") (lit "g") (lit "db") (lit "39") start).1
      ≡ (on_host up (λ o. lit "rm -f " ++ lit "running") s₂).1)
set_variable_from_file-removes_example =
    set_variable_from_file-removes up (lit "a") (lit "g") (lit "db") (lit "39") start name_made
