-- ===== src/Hosts/Power/Tests.antt =====
-- A host on which the first ping fails, and every later command succeeds.
use xcp_ng_tests.Prelude.{◌≡◌, refl, true, false, Bool, some, [], ◌∷◌, lit, strip, if◌then◌else◌}
use xcp_ng_tests.Effect.{ok, catch, catch_ssh, ◌>>=◌}
use xcp_ng_tests.Commands.{
  Trace, Completed, Env, local_process, ssh_text, ssh, fetch_banner, run_ssh, start_ssh,
  ssh_outcome, decoded, as_text,
}
use xcp_ng_tests.Commands.Local.{local_cmd, start_local, local_outcome}
use xcp_ng_tests.Commands.Tests.{elapsed}
use xcp_ng_tests.Common.Values.{strtobool}
use xcp_ng_tests.Common.Waiting.{wait_for, wait_loop}
use xcp_ng_tests.Common.Xe.{xe, param_get}
use xcp_ng_tests.Hosts.{Host, host_ssh, host_run}
use xcp_ng_tests.Hosts.Power.{
  answers, ping, ssh_port_open, is_enabled, wait_for_host_down, wait_for_host_up,
  wait_for_ssh_reachable, wait_for_xapi_enabled, reboot_verify, reboot,
}
use xcp_ng_tests.Hosts.Power.Laws.{Rebooted, reboot-Rebooted}

pinged : Trace → Bool
pinged [] = false
pinged (local_process cmd ∷ t) = true
pinged (event ∷ t) = pinged t

reply : Trace → Completed
reply (local_process cmd ∷ t) = record {
  returncode = if pinged t then 0 else 1;
  stdout = [];
  ssherr = [];
}
reply t = record { returncode = 0; stdout = lit "true"; ssherr = [] }

abbrev env : Env
env = record {
  reply = reply;
  clock = elapsed;
  decode = λ t. some t;
  decode_replace = λ t. t;
  is_ipv6 = λ t. false;
  ignore_ssh_banner = false;
  on_windows = true;
  pid = lit "42";
}

abbrev host : Host
host = record {
  hostname_or_ip = lit "h";
  uuid = lit "hu";
  user = lit "root";
  password = [];
  management_interface = lit "xenbr0";
  major = 8;
  minor = 3;
}

end : Trace
end = (reboot env host true []).1

rebooted : reboot env host true [] ≡ (ok tt, end)
unfolding end reboot reboot_verify wait_for_host_down wait_for_host_up wait_for_ssh_reachable
    wait_for_xapi_enabled is_enabled wait_for wait_loop ping ssh_port_open answers local_cmd
    start_local local_outcome reply pinged strtobool xe param_get catch catch_ssh ◌>>=◌ lit strip
    host_run host_ssh ssh_text ssh fetch_banner run_ssh start_ssh ssh_outcome decoded as_text
    mathlib.Core.Bool.xor
rebooted = refl

reboot-Rebooted_example :
    (t₀ : Trace) × (host_run env host (lit "systemd-run --on-active=2s reboot") [] ≡ (ok tt, t₀))
    × Rebooted env host t₀ end
reboot-Rebooted_example = reboot-Rebooted env host [] rebooted
