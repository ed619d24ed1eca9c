-- ===== src/Vm/WindowsTools/Tests.antt =====
-- A VM that runs, where every command succeeds.
use xcp_ng_tests.Prelude.{◌≡◌, refl, true, false, lit, strip, some, []}
use xcp_ng_tests.Effect.{ok, catch, catch_ssh, ◌>>=◌}
use xcp_ng_tests.Commands.{
  Env, ssh_text, ssh, fetch_banner, run_ssh, start_ssh, ssh_outcome, decoded, as_text,
  ssh_with_result, as_code,
}
use xcp_ng_tests.Common.Waiting.{wait_for, wait_loop, pause}
use xcp_ng_tests.Common.Waiting.Passed.{Answered}
use xcp_ng_tests.Common.Xe.{xe, param_get}
use xcp_ng_tests.Objects.{Obj}
use xcp_ng_tests.Hosts.{host_xe}
use xcp_ng_tests.Vm.{
  Vm, vm_wait, vm_xe, vm_host_xe, vm_param_get, is_state, power_state_is, is_running, is_ssh_up,
  vm_ssh_code, the_ip,
}
use xcp_ng_tests.Vm.Disks.Tests
use xcp_ng_tests.Vm.Guest.{eject_cd, insert_cd, vm_file_exists, vm_succeeds}
use xcp_ng_tests.Vm.WindowsTools.{
  catch_timeout, wait_for_vm_running_and_ssh_up_without_tools, eject_first, start_if_halted,
  cd_attempt, insert_cd_safe,
}
use xcp_ng_tests.Vm.WindowsTools.Laws.{insert_cd_safe-Answered}

abbrev env : Env
env = record Tests.env {
  reply = λ t. record { returncode = 0; stdout = lit "running"; ssherr = [] };
}

abbrev first : Obj Vm
first = (Tests.start.0, record Tests.start.1 { ip = some (lit "10.0.0.7") })

last : Obj Vm
last = (insert_cd_safe env (lit "tools.iso") (lit "D:/") 2 first).1

inserted : insert_cd_safe env (lit "tools.iso") (lit "D:/") 2 first ≡ (ok tt, last)
unfolding last insert_cd_safe cd_attempt eject_first start_if_halted catch_timeout
    wait_for_vm_running_and_ssh_up_without_tools eject_cd insert_cd vm_file_exists vm_succeeds pause
    vm_wait wait_for wait_loop is_running power_state_is is_state vm_param_get param_get is_ssh_up
    vm_ssh_code ssh_with_result as_code the_ip vm_xe vm_host_xe host_xe xe catch catch_ssh ◌>>=◌ lit
    strip ssh_text ssh fetch_banner run_ssh start_ssh ssh_outcome decoded as_text
    mathlib.Core.Bool.xor
inserted = refl

insert_cd_safe-Answered_example : Answered (vm_file_exists env (lit "D:/") false) true last
insert_cd_safe-Answered_example =
    insert_cd_safe-Answered env (lit "tools.iso") (lit "D:/") 2 first inserted
