-- ===== src/Hosts/Yum/Tests.antt =====
-- A host with two packages, of which one is a key of GPG, and the saved list of the other.
use xcp_ng_tests.Prelude.{
  ◌≡◌, refl, true, false, some, none, [], ◌∷◌, lit, starts_with, strip, split, splitlines, show,
  if◌then◌else◌,
}
use xcp_ng_tests.Effect.{ok, err, assertion_error, ◌>>=◌}
use xcp_ng_tests.Commands.{
  Trace, Completed, Env, ssh_process, start_ssh, decoded, ssh_outcome, fetch_banner, run_ssh, ssh,
  as_text, ssh_text,
}
use xcp_ng_tests.Commands.Tests.{elapsed}
use xcp_ng_tests.Objects.{Obj}
use xcp_ng_tests.Hosts.{Host, host_ssh, host_run}
use xcp_ng_tests.Hosts.Yum.{
  Saved, text_leb, insert_text, sort_texts, packages, missing_from, extra_to, raise_if_any,
  check_restored, yum_save_state, restore_from, restore_saved, yum_restore_saved_state, is_none,
}
use xcp_ng_tests.Hosts.Yum.Laws.{Ended, yum_restore_saved_state-eq-ok}

abbrev reply : Trace → Completed
reply (ssh_process address options cmd ∷ t) = record {
  returncode = 0;
  ssherr = [];
  stdout =
      if starts_with (lit "rpm") cmd
      then lit "bash\ngpg-pubkey-1\n"
      else lit "ID\n--------\n 37 | x\n";
}
reply t = record { returncode = 0; stdout = []; ssherr = [] }

abbrev env : Env
env = record {
  reply = reply;
  clock = elapsed;
  decode = λ t. some t;
  decode_replace = λ t. t;
  is_ipv6 = λ t. false;
  ignore_ssh_banner = false;
  on_windows = true;
  pid = lit "42";
}

abbrev host : Host
host = record {
  hostname_or_ip = lit "host";
  uuid = lit "u";
  user = lit "root";
  password = [];
  management_interface = lit "xenbr0";
  major = 8;
  minor = 3;
}

-- A second package list is not saved over the first.
saved_twice :
    yum_save_state env host ([], record { saved_packages_list = some []; saved_rollback_id = none })
    ≡ (
      err assertion_error,
      ([], record { saved_packages_list = some []; saved_rollback_id = none }),
    )
unfolding yum_save_state is_none ◌>>=◌
saved_twice = refl

abbrev start : Obj Saved
start = ([], record { saved_packages_list = some (lit "bash" ∷ []); saved_rollback_id = some 37 })

end : Obj Saved
end = (yum_restore_saved_state env host start).1

restored : yum_restore_saved_state env host start ≡ (ok tt, end)
unfolding end yum_restore_saved_state restore_saved restore_from check_restored raise_if_any
    extra_to missing_from packages sort_texts insert_text text_leb host_run host_ssh ssh_text
    as_text ssh run_ssh fetch_banner ssh_outcome decoded start_ssh ◌>>=◌ lit strip split splitlines
    show
restored = refl

yum_restore_saved_state-eq-ok_example : Ended env host (some (lit "bash" ∷ [])) end
yum_restore_saved_state-eq-ok_example = yum_restore_saved_state-eq-ok env host start restored
