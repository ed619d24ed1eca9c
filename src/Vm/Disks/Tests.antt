-- ===== src/Vm/Disks/Tests.antt =====
-- A host that answers every command with the same text, and a halted VM with one disk on it.
use xcp_ng_tests.Prelude.{ℕ, ◌≡◌, refl, true, false, some, none, [], ◌∷◌, lit, arith, strip, split}
use xcp_ng_tests.Effect.{ok, err, assertion_error, ◌>>=◌, catch, catch_ssh}
use xcp_ng_tests.Commands.{
  Env, ssh_text, ssh, fetch_banner, run_ssh, start_ssh, ssh_outcome, decoded, as_text,
}
use xcp_ng_tests.Common.Xe.{xe, xe_minimal, param_get}
use xcp_ng_tests.Commands.Tests.{elapsed}
use xcp_ng_tests.Objects.{Obj}
use xcp_ng_tests.Hosts.{host_xe, host_xe_minimal, Host, Member}
use xcp_ng_tests.Vdi.{name, vdi_param_get}
use xcp_ng_tests.Vm.{
  Vm, VdiObject, vm_host_xe, vm_host_xe_minimal, is_running, power_state_is, vm_param_get, is_state,
}
use xcp_ng_tests.Vm.Disks.{
  rebuild_vdis, all_vdi_uuids, disk_list, disk_uuids, srs_of_vdis, set_vdis, attach_vdi, add_vdi,
  plug_or_destroy, has_vdi, detach_vdi, drop_vdi, remove_vdi, unplug_vbd, connect_vdi,
  disconnect_vdi, create_vdis_list,
}
use xcp_ng_tests.Vm.Disks.Laws.{
  Connected, connect_vdi-Connected, disconnect_vdi-connect_vdi, disconnect_vdi-create_vdis_list,
}
use xcp_ng_tests.Prelude.{not, ◌&&◌}
use xcp_ng_tests.Vm.Disks.Distinct.{WellFormed, distinct, below}
use xcp_ng_tests.Vm.Disks.Reachable.{
  here, by_connect, by_disconnect, Reach-WellFormed, disconnect_vdi-has_vdi,
}

abbrev pub env : Env
env = record {
  reply = λ t. record { returncode = 0; stdout = lit "u1"; ssherr = [] };
  clock = elapsed;
  decode = λ t. some t;
  decode_replace = λ t. t;
  is_ipv6 = λ t. false;
  ignore_ssh_banner = false;
  on_windows = true;
  pid = lit "42";
}

abbrev pub host : Host
host = record {
  hostname_or_ip = lit "h";
  uuid = lit "hu";
  user = lit "root";
  password = [];
  management_interface = lit "xenbr0";
  major = 8;
  minor = 3;
}

abbrev pub member : Member
member = record { host = host; pool = record { uuid = lit "pu"; master = host; hosts = host ∷ [] } }

abbrev pub disk : ℕ → VdiObject
disk id = record { id = id; uuid = lit "u1"; sr = lit "u1"; master = lit "h" }

abbrev pub start : Obj Vm
start = (
  [],
  record {
    uuid = lit "vu";
    host = member;
    ip = none;
    previous_host = none;
    is_windows = false;
    is_uefi = false;
    vdis = disk 0 ∷ [];
    next_id = 2;
  },
)

connect_vdi-Connected_example :
    Connected env (disk 1) start (connect_vdi env (disk 1) (lit "xvdb") start)
connect_vdi-Connected_example = connect_vdi-Connected env (disk 1) (lit "xvdb") start

with_disk : Obj Vm
with_disk = (connect_vdi env (disk 1) (lit "xvdb") start).1

connected :
    connect_vdi env (disk 1) (lit "xvdb") start ≡ (ok (lit "u1", some (lit "u1")), with_disk)
unfolding with_disk name vdi_param_get connect_vdi attach_vdi add_vdi plug_or_destroy ◌>>=◌ lit
    strip catch catch_ssh vm_host_xe host_xe xe param_get ssh_text ssh fetch_banner run_ssh
    start_ssh ssh_outcome decoded as_text is_running power_state_is vm_param_get is_state
connected = refl

again : Obj Vm
again = (disconnect_vdi env (disk 1) with_disk).1

disconnected : disconnect_vdi env (disk 1) with_disk ≡ (ok tt, again)
unfolding again with_disk name vdi_param_get host_xe_minimal xe_minimal connect_vdi attach_vdi
    add_vdi plug_or_destroy disconnect_vdi has_vdi detach_vdi drop_vdi remove_vdi unplug_vbd
    vm_host_xe_minimal ◌>>=◌ lit strip catch catch_ssh vm_host_xe host_xe xe param_get ssh_text ssh
    fetch_banner run_ssh start_ssh ssh_outcome decoded as_text is_running power_state_is
    vm_param_get is_state
disconnected = refl

disconnect_vdi-connect_vdi_example : again.1 ≡ start.1
unfolding has_vdi
disconnect_vdi-connect_vdi_example =
    disconnect_vdi-connect_vdi env (disk 1) (lit "xvdb") start refl connected disconnected

rebuilt : Obj Vm
rebuilt = (create_vdis_list env start).1

listed : create_vdis_list env start ≡ (ok tt, rebuilt)
unfolding rebuilt create_vdis_list rebuild_vdis all_vdi_uuids disk_list disk_uuids split srs_of_vdis
    set_vdis vm_host_xe_minimal host_xe_minimal xe_minimal host_xe xe catch_ssh catch ◌>>=◌ lit
    strip ssh_text ssh fetch_banner run_ssh start_ssh ssh_outcome decoded as_text
listed = refl

disconnect_vdi-create_vdis_list_example :
    disconnect_vdi env (disk 0) rebuilt ≡ (err assertion_error, rebuilt)
disconnect_vdi-create_vdis_list_example =
    disconnect_vdi-create_vdis_list env (disk 0) start (omega arith) listed

Reach-WellFormed_example :
    WellFormed (disconnect_vdi env (disk 0) (connect_vdi env (disk 1) (lit "xvdb") start).1).1.1
unfolding has_vdi distinct below
Reach-WellFormed_example =
    Reach-WellFormed env start (refl, refl)
      (by_disconnect (disk 0) (by_connect (disk 1) (lit "xvdb") refl (omega arith) here))

dropped : Obj Vm
dropped = (disconnect_vdi env (disk 0) start).1

drop_returns : disconnect_vdi env (disk 0) start ≡ (ok tt, dropped)
unfolding dropped name vdi_param_get host_xe_minimal xe_minimal connect_vdi attach_vdi add_vdi
    plug_or_destroy disconnect_vdi has_vdi detach_vdi drop_vdi remove_vdi unplug_vbd
    vm_host_xe_minimal ◌>>=◌ lit strip catch catch_ssh vm_host_xe host_xe xe param_get ssh_text ssh
    fetch_banner run_ssh start_ssh ssh_outcome decoded as_text is_running power_state_is
    vm_param_get is_state
drop_returns = refl

disconnect_vdi-has_vdi_example :
    has_vdi (disk 0) dropped.1.vdis ≡ (not true && has_vdi (disk 0) start.1.vdis)
unfolding distinct below has_vdi
disconnect_vdi-has_vdi_example =
    disconnect_vdi-has_vdi env (disk 0) (disk 0) start (refl, refl) drop_returns
