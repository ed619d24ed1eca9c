-- ===== src/Hosts/Power.antt =====
-- lib/host.py: rebooting a host, waiting for its services, and updates.
pub mod Laws
mod Tests
use xcp_ng_tests.Prelude.{
  ℕ, ◌+◌, ◌/◌, Bool, true, false, not, ◌&&◌, Option, none, some, List, [], ◌∷◌, ◌++◌, Text, lit,
  includes, join, show, splitlines, ◌==◌, if◌then◌else◌,
}
use xcp_ng_tests.Effect.{
  Exn, Result, ok, err, index_error, ssh_command_failed, Exec, pure, raise, lift, check, catch_ssh,
  ◌>>=◌, ◌>>◌,
}
use xcp_ng_tests.Commands.{Env, Trace}
use xcp_ng_tests.Commands.Local.{local_cmd}
use xcp_ng_tests.Common.Values.{strtobool}
use xcp_ng_tests.Common.Waiting.{trace_clock, wait_for}
use xcp_ng_tests.Common.Xe.{param_get}
use xcp_ng_tests.Hosts.{Host, host_ssh, host_run}

-- Rounds that are enough for a time out.
abbrev pub rounds_for : (timeout_secs retry_delay_secs : ℕ) → ℕ
rounds_for timeout_secs retry_delay_secs = timeout_secs / retry_delay_secs + 2

returncode_of : Exn → ℕ
returncode_of (ssh_command_failed rc stdout cmd ssherr) = rc
returncode_of e = 0

repo_options : Text → List Text → List Text
repo_options option [] = []
repo_options option (r ∷ repos) = (option ++ r) ∷ repo_options option repos

-- ` --…repo=a --…repo=b`, or nothing for no repository.
repos_text : Text → List Text → Text
repos_text option [] = []
repos_text option (r ∷ repos) = lit " " ++ join (lit " ") (repo_options option (r ∷ repos))

pub conf_file : Text → Text
conf_file name = lit "/etc/xapi.conf.d/00-XCP-ng-tests-" ++ (name ++ lit ".conf")

-- `lines[-1]`
last_of : List Text → Result Text
last_of [] = err index_error
last_of (l ∷ []) = ok l
last_of (l ∷ m ∷ lines) = last_of (m ∷ lines)

module _ (E : Env) (h : Host) where
  -- A command on the machine of the tester succeeds.
  answers : List Text → Exec Trace Bool
  answers cmd = local_cmd E cmd false true >>= λ r. pure (r.0 == 0)

  pub ping : Exec Trace Bool
  ping = answers (lit "ping" ∷ lit "-c1" ∷ h.hostname_or_ip ∷ [])

  pub ssh_port_open : Exec Trace Bool
  ssh_port_open = answers (lit "nc" ∷ lit "-zw5" ∷ h.hostname_or_ip ∷ lit "22" ∷ [])

  pub wait_for_host_down : Exec Trace (Unit {0})
  wait_for_host_down = wait_for (trace_clock E) ping 120 2 true (rounds_for 120 2)

  pub wait_for_host_up : Exec Trace (Unit {0})
  wait_for_host_up = wait_for (trace_clock E) ping 600 10 false (rounds_for 600 10)

  pub wait_for_ssh_reachable : Exec Trace (Unit {0})
  wait_for_ssh_reachable = wait_for (trace_clock E) ssh_port_open 600 5 false (rounds_for 600 5)

  unfoldable pub is_enabled : Exec Trace Bool
  is_enabled =
      catch_ssh
        (param_get E h.hostname_or_ip (lit "host") h.uuid (lit "enabled") none false >>= λ v.
          lift (strtobool v))
        (λ e. pure false)

  unfoldable pub wait_for_xapi_enabled : Exec Trace (Unit {0})
  wait_for_xapi_enabled = do
    host_run E h (lit "xapi-wait-init-complete " ++ show 1800)
    enabled ← is_enabled
    check enabled

  pub restart_toolstack : Bool → Exec Trace (Unit {0})
  restart_toolstack verify = do
    host_run E h (lit "xe-toolstack-restart")
    if verify then wait_for_xapi_enabled else pure tt

  pub reboot_verify : Exec Trace (Unit {0})
  reboot_verify =
      wait_for_host_down >> wait_for_host_up >> wait_for_ssh_reachable >> wait_for_xapi_enabled

  pub reboot : Bool → Exec Trace (Unit {0})
  reboot verify = do
    host_run E h (lit "systemd-run --on-active=2s reboot")
    if verify then reboot_verify else pure tt

  pub has_updates : Exec Trace Bool
  has_updates =
      catch_ssh (host_run E h (lit "yum check-update") >>= λ _. pure false)
        (λ e. if returncode_of e == 100 then pure true else raise e)

  pub yum_clean_metadata : Exec Trace Text
  yum_clean_metadata = host_ssh E h (lit "yum clean metadata -q")

  pub yum_update : List Text → List Text → Exec Trace Text
  yum_update enablerepos disablerepos = host_ssh E h (
      lit "yum update -y"
      ++ (repos_text (lit "--disablerepo=") disablerepos
          ++ repos_text (lit "--enablerepo=") enablerepos))

  pub update : List Text → List Text → Bool → Exec Trace (Unit {0})
  update enablerepos disablerepos wants_reboot = do
    yum_clean_metadata
    output ← yum_update enablerepos disablerepos
    if wants_reboot && not (includes (lit "No packages marked for update") output)
        then reboot true
        else pure tt

  pub activate_smapi_driver : Text → Exec Trace (Unit {0})
  activate_smapi_driver driver = do
    out ← host_ssh E h (lit "grep [[:space:]]*sm-plugins[[:space:]]*=[[:space:]]* /etc/xapi.conf")
    sm_plugin ← lift (last_of (splitlines out))
    host_run E h (
        lit "echo \""
        ++ (sm_plugin
            ++ (lit " " ++ (driver ++ (lit "\" > " ++ conf_file (lit "sm-driver-" ++ driver))))))
    restart_toolstack true

  pub deactivate_smapi_driver : Text → Exec Trace (Unit {0})
  deactivate_smapi_driver driver =
      host_run E h (lit "rm -f " ++ conf_file (lit "sm-driver-" ++ driver))
      >> restart_toolstack true

  pub enable_hsts_header : Exec Trace (Unit {0})
  enable_hsts_header =
      host_run E h
        (lit "echo \"hsts_max_age = 63072000\" > " ++ conf_file (lit "enable-hsts-header"))
      >> restart_toolstack true

  pub disable_hsts_header : Exec Trace (Unit {0})
  disable_hsts_header =
      host_run E h (lit "rm -f " ++ conf_file (lit "enable-hsts-header")) >> restart_toolstack true
