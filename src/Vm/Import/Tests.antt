-- ===== src/Vm/Import/Tests.antt =====
-- A pool with two VMs in the cache, of which the second is on the SR.
use xcp_ng_tests.Prelude.{ℕ, zero, suc, ◌≡◌, refl, some, List, [], ◌∷◌, Text, lit, strip, split}
use xcp_ng_tests.Effect.{ok, catch, catch_ssh, ◌>>=◌}
use xcp_ng_tests.Commands.{
  Trace, Completed, Env, ssh_text, ssh, fetch_banner, run_ssh, start_ssh, ssh_outcome, decoded,
  as_text,
}
use xcp_ng_tests.Common.Values.{safe_split}
use xcp_ng_tests.Common.Xe.{xe, xe_minimal, xe_command, param_get}
use xcp_ng_tests.Hosts.{host_xe, host_xe_minimal, get_vdi_sr_uuid}
use xcp_ng_tests.Sr.{list_xe, hosts_uuids, attached_to_host}
use xcp_ng_tests.Vm.{Vm, is_state, vm_param_get, vm_host_xe_minimal}
use xcp_ng_tests.Vm.Disks.{
  create_vdis_list, rebuild_vdis, all_vdi_uuids, disk_list, disk_uuids, srs_of_vdis, set_vdis,
  vdi_objects, first_vdi, vdi_sr_uuid, get_sr,
}
use xcp_ng_tests.Vm.Disks.Tests
use xcp_ng_tests.Vm.Import.{
  blank_vm, is_nil, run_on, ask_kind, new_vm, is_on_sr, first_on_sr, cached_vm,
}
use xcp_ng_tests.Vm.Import.Laws.{Found, cached_vm-Found}

answers : List Text
answers =
    lit "u7,u8"
    ∷ []
    ∷ []
    ∷ lit "d7"
    ∷ lit "s0"
    ∷ lit "d7"
    ∷ lit "d7"
    ∷ lit "s0"
    ∷ lit "hu"
    ∷ []
    ∷ []
    ∷ lit "d8"
    ∷ lit "s1"
    ∷ lit "d8"
    ∷ lit "d8"
    ∷ lit "s1"
    ∷ lit "hu"
    ∷ []

answer : List Text → ℕ → Text
answer [] n = []
answer (x ∷ xs) zero = x
answer (x ∷ xs) (suc n) = answer xs n

later : Trace → ℕ
later [] = 0
later (e ∷ []) = 0
later (e ∷ t) = suc (later t)

reply : Trace → Completed
reply t = record { returncode = 0; stdout = answer answers (later t); ssherr = [] }

abbrev env : Env
env = record Tests.env { reply = reply }

abbrev same : Text → Text
same name = name

end : Trace
end = (cached_vm env same Tests.member (lit "image.xva") (lit "s1") []).1

abbrev vm : Vm
vm = record (blank_vm (lit "u8") Tests.member) {
  vdis = record (Tests.disk 0) { uuid = lit "d8"; sr = lit "s1" } ∷ [];
  next_id = 1;
}

cached : cached_vm env same Tests.member (lit "image.xva") (lit "s1") [] ≡ (ok (some vm), end)
unfolding end answers answer later reply cached_vm first_on_sr new_vm run_on ask_kind is_state
    is_on_sr is_nil create_vdis_list rebuild_vdis all_vdi_uuids disk_list disk_uuids srs_of_vdis
    set_vdis get_sr first_vdi vdi_sr_uuid get_vdi_sr_uuid attached_to_host hosts_uuids list_xe
    vm_param_get param_get vm_host_xe_minimal host_xe_minimal host_xe xe_minimal xe xe_command
    safe_split split catch catch_ssh ◌>>=◌ lit strip ssh_text ssh fetch_banner run_ssh start_ssh
    ssh_outcome decoded as_text vdi_objects
cached = refl

cached_vm-Found_example : Found env same Tests.member (lit "image.xva") (lit "s1") [] vm end
cached_vm-Found_example =
    cached_vm-Found env same Tests.member (lit "image.xva") (lit "s1") [] cached
