-- ===== src/Vm/Migration/Tests.antt =====
-- A migration of the halted VM to another host of its pool.
use xcp_ng_tests.Prelude.{◌≡◌, refl, none, lit, arith, strip, split}
use xcp_ng_tests.Effect.{ok, err, assertion_error, catch_ssh, catch, ◌>>=◌}
use xcp_ng_tests.Commands.{
  ssh_text, ssh, fetch_banner, run_ssh, start_ssh, ssh_outcome, decoded, as_text,
}
use xcp_ng_tests.Common.Xe.{xe, xe_minimal, param_get}
use xcp_ng_tests.Objects.{Obj}
use xcp_ng_tests.Hosts.{Member, host_xe, host_xe_minimal}
use xcp_ng_tests.Vm.{
  Vm, vm_xe, vm_host_xe, vm_host_xe_minimal, is_running, power_state_is, is_state, vm_param_get,
}
use xcp_ng_tests.Vm.Disks.{
  disconnect_vdi, create_vdis_list, rebuild_vdis, all_vdi_uuids, disk_list, disk_uuids, srs_of_vdis,
  set_vdis,
}
use xcp_ng_tests.Vm.Disks.Tests.{env, host, member, disk, start}
use xcp_ng_tests.Vm.Migration.{
  migrate, run_migrate, other_sr, storage_args, is_cross_pool, is_some, set_host,
}
use xcp_ng_tests.Vm.Migration.Laws.{Migrated, migrate-Migrated, disconnect_vdi-migrate}

abbrev target : Member
target = record { host = record host { uuid = lit "h2" }; pool = member.pool }

migrate-Migrated_example : Migrated env target none none start (migrate env target none none start)
migrate-Migrated_example = migrate-Migrated env target none none start

moved_vm : Obj Vm
moved_vm = (migrate env target none none start).1

migrated : migrate env target none none start ≡ (ok tt, moved_vm)
unfolding moved_vm migrate run_migrate other_sr storage_args is_cross_pool is_some set_host
    create_vdis_list rebuild_vdis all_vdi_uuids disk_list disk_uuids split srs_of_vdis set_vdis
    is_running power_state_is is_state vm_param_get param_get vm_xe vm_host_xe vm_host_xe_minimal
    host_xe_minimal xe_minimal host_xe xe catch_ssh catch ◌>>=◌ lit strip ssh_text ssh fetch_banner
    run_ssh start_ssh ssh_outcome decoded as_text
migrated = refl

disconnect_vdi-migrate_example :
    disconnect_vdi env (disk 0) moved_vm ≡ (err assertion_error, moved_vm)
disconnect_vdi-migrate_example =
    disconnect_vdi-migrate env target (disk 0) none none start (omega arith) migrated
