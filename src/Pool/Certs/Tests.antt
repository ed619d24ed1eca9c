-- ===== src/Pool/Certs/Tests.antt =====
-- A pool of XCP-ng 8.2 whose certificates can all be extracted.
use xcp_ng_tests.Prelude.{◌≡◌, refl, lit, strip, split, parse_int, none, [], ◌∷◌}
use xcp_ng_tests.Effect.{ok, catch, catch_ssh, ◌>>=◌}
use xcp_ng_tests.Commands.{
  Env, ssh_text, ssh, fetch_banner, run_ssh, start_ssh, ssh_outcome, decoded, as_text,
}
use xcp_ng_tests.Objects.{Obj}
use xcp_ng_tests.Hosts.{Host, Pool, before_8_3, host_ssh, host_run}
use xcp_ng_tests.Vm.Disks.Tests
use xcp_ng_tests.Pool.Certs.{
  SavedCerts, file_of, has_cert, restorable, major_version, temp_file, extract, extract_all,
  check_version, extracted, keep_certs, save_uefi_certs,
}
use xcp_ng_tests.Pool.Certs.Laws.{Restores, restore_uefi_certs-save_uefi_certs}

abbrev env : Env
env = record Tests.env { reply = λ t. record { returncode = 0; stdout = lit "1.2.0"; ssherr = [] } }

abbrev host : Host
host = record Tests.host { minor = 2 }

abbrev pool : Pool
pool = record { uuid = lit "pu"; master = host; hosts = host ∷ [] }

abbrev start : Obj SavedCerts
start = ([], record { saved_uefi_certs = none })

end : Obj SavedCerts
end = (save_uefi_certs env pool start).1

saved : save_uefi_certs env pool start ≡ (ok tt, end)
unfolding end save_uefi_certs extracted check_version major_version parse_int split temp_file
    extract extract_all keep_certs restorable has_cert file_of before_8_3 host_ssh host_run catch
    catch_ssh ◌>>=◌ lit strip ssh_text ssh fetch_banner run_ssh start_ssh ssh_outcome decoded
    as_text
saved = refl

restore_uefi_certs-save_uefi_certs_example : Restores env pool end
restore_uefi_certs-save_uefi_certs_example = restore_uefi_certs-save_uefi_certs env pool start saved
