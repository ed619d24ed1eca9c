-- ===== src/Vm.antt =====
-- lib/vm.py and lib/basevm.py: a virtual machine. Its methods are actions on the trace and the
-- object; see Objects. Power states and waiting for the guest are here.
pub mod Disks
pub mod Migration
pub mod Laws
pub mod Booting
pub mod Guest
pub mod Windows
pub mod Uefi
pub mod Cleanup
pub mod Import
pub mod WindowsTools
mod Tests
use xcp_ng_tests.Prelude.{
  ℕ, Bool, true, false, not, ◌&&◌, ◌||◌, Option, none, some, List, [], ◌∷◌, ◌++◌, Text, text_eq,
  lit, truthy, starts_with, ◌==◌, if◌then◌else◌,
}
use xcp_ng_tests.Effect.{
  Exn, Result, ok, err, Exec, pure, raise, lift, check, assert, catch, catch_ssh, ◌>>=◌, ◌>>◌,
  assertion_error,
}
use xcp_ng_tests.Commands.{Env, Trace, ssh_text, ssh_with_result, ssh_background}
use xcp_ng_tests.Common.Values.{strtobool}
use xcp_ng_tests.Common.Waiting.{wait_for}
use xcp_ng_tests.Common.Xe.{
  Args, Value, text, bool, param_get, param_set, param_add, param_remove, param_clear,
}
use xcp_ng_tests.Objects.{Obj, on_trace, with_obj, assign, obj_clock}
use xcp_ng_tests.Hosts.{Host, Pool, Member, host_xe, host_xe_minimal, pool_has_vm, host_by_uuid}
use xcp_ng_tests.Hosts.Power.{rounds_for}

-- A `VDI` object. Objects are compared by identity, so each has a number of its own.
pub record VdiObject : Type 0 where
  pub id : ℕ
  pub uuid : Text
  pub sr : Text
  -- `sr.pool.master.hostname_or_ip`
  pub master : Text

-- The attributes of a VM; `host` is the host with its pool, and `next_id` numbers the objects.
pub record Vm : Type 0 where
  pub uuid : Text
  pub host : Member
  pub ip : Option Text
  pub previous_host : Option Member
  pub is_windows : Bool
  pub is_uefi : Bool
  pub vdis : List VdiObject
  pub next_id : ℕ

abbrev pub Method : Type 0 → Type 0
Method A = Exec (Obj Vm) A

unfoldable pub is_state : Text → Option Text → Bool
is_state state none = false
is_state state (some s) = text_eq s state

-- `strtobool` of a value that may be missing.
pub flag : Option Text → Result Bool
flag = strtobool

-- An address that no guest can be reached by: none, or a link-local one.
pub is_no_ip : Option Text → Bool
is_no_ip none = true
is_no_ip (some ip) = not (truthy ip) || starts_with (lit "169.254.") ip

the_ip : Option Text → Result Text
the_ip none = err assertion_error
the_ip (some ip) = ok ip

module _ (E : Env) where
  -- `self.host.xe`, with its defaults and with `minimal`.
  unfoldable pub vm_host_xe : Text → (Vm → Args) → Method Text
  vm_host_xe action args = with_obj λ o. on_trace (host_xe E o.host.host action (args o))

  unfoldable pub vm_host_xe_minimal : Text → (Vm → Args) → Method Text
  vm_host_xe_minimal action args =
      with_obj λ o. on_trace (host_xe_minimal E o.host.host action (args o))

  -- The same for `{'uuid': self.uuid, …}`.
  unfoldable pub vm_xe : Text → Args → Method Text
  vm_xe action args = vm_host_xe action λ o. (lit "uuid", text o.uuid) ∷ args

  unfoldable pub vm_param_get : Text → Option Text → Bool → Method (Option Text)
  vm_param_get param_name key accept_unknown_key = with_obj λ o.
      on_trace
        (param_get E o.host.host.hostname_or_ip (lit "vm") o.uuid param_name key accept_unknown_key)

  pub vm_param_set : Text → Value → Option Text → Method (Unit {0})
  vm_param_set param_name value key =
      with_obj λ o.
        on_trace (param_set E o.host.host.hostname_or_ip (lit "vm") o.uuid param_name value key)

  pub vm_param_remove : Text → Text → Bool → Method (Unit {0})
  vm_param_remove param_name key accept_unknown_key = with_obj λ o. on_trace (
      param_remove E o.host.host.hostname_or_ip (lit "vm") o.uuid param_name key accept_unknown_key)

  unfoldable pub power_state_is : Text → Method Bool
  power_state_is state =
      vm_param_get (lit "power-state") none false >>= λ s. pure (is_state state s)

  pub is_running : Method Bool
  is_running = power_state_is (lit "running")

  unfoldable pub is_halted : Method Bool
  is_halted = power_state_is (lit "halted")

  pub is_suspended : Method Bool
  is_suspended = power_state_is (lit "suspended")

  pub is_paused : Method Bool
  is_paused = power_state_is (lit "paused")

  -- `wait_for` and `wait_for_not` with the default delay of 2 seconds.
  unfoldable pub vm_wait : Method Bool → ℕ → Bool → Method (Unit {0})
  vm_wait fn timeout_secs invert =
      wait_for (obj_clock E) fn timeout_secs 2 invert (rounds_for timeout_secs 2)

  pub start : Option Text → Method Text
  start on = vm_xe (lit "vm-start") (elim on [ none ↦ [] | some host ↦ (lit "on", text host) ∷ [] ])

  -- The body of the `try` of `shutdown`.
  pub shutdown_once : Bool → Bool → Method Text
  shutdown_once force verify = do
    ret ← vm_xe (lit "vm-shutdown") ((lit "force", bool force) ∷ [])
    if verify then vm_wait is_halted 120 false else pure tt
    pure ret

  -- The second attempt is a call of `shutdown` with `force` and without `force_if_fails`, whose
  -- handler raises again.
  pub shutdown : Bool → Bool → Bool → Method Text
  shutdown force verify force_if_fails = do
    check (not (force && force_if_fails))
    catch (shutdown_once force verify)
        (λ e. if force_if_fails then shutdown_once true verify else raise e)

  pub suspend : Bool → Method (Unit {0})
  suspend verify = do
    vm_xe (lit "vm-suspend") []
    if verify then vm_wait is_suspended 120 false else pure tt

  pub resume : Method (Unit {0})
  resume = vm_xe (lit "vm-resume") [] >>= λ _. pure tt

  pub pause : Bool → Method (Unit {0})
  pause verify = do
    vm_xe (lit "vm-pause") []
    if verify then vm_wait is_paused 120 false else pure tt

  pub unpause : Method (Unit {0})
  unpause = vm_xe (lit "vm-unpause") [] >>= λ _. pure tt

  unfoldable pub exists : Method Bool
  exists = with_obj λ o. on_trace (pool_has_vm E o.host.host false o.uuid)

  exists_on : Option Member → Text → Exec Trace Bool
  exists_on none uuid = check false >>= λ _. pure false
  exists_on (some m) uuid = pool_has_vm E m.host false uuid

  pub exists_on_previous_pool : Method Bool
  exists_on_previous_pool = with_obj λ o. on_trace (exists_on o.previous_host o.uuid)

  -- The waits for the guest.
  store_ip : Option Text → Method Bool
  store_ip ip =
      if is_no_ip ip then pure false else assign (λ o. record o { ip = ip }) >>= λ _. pure true

  pub try_get_and_store_ip : Method Bool
  try_get_and_store_ip = vm_param_get (lit "networks") (some (lit "0/ip")) true >>= store_ip

  -- `self.ssh(cmd)`, and `self.ssh_with_result(cmd).returncode`.
  pub vm_ssh : Text → Method Text
  vm_ssh cmd = with_obj λ o. lift (the_ip o.ip) >>= λ ip. on_trace (ssh_text E ip cmd)

  pub vm_ssh_code : Text → Method ℕ
  vm_ssh_code cmd = with_obj λ o. lift (the_ip o.ip) >>= λ ip. on_trace (ssh_with_result E ip cmd)

  pub is_ssh_up : Method Bool
  is_ssh_up = catch_ssh (vm_ssh_code (lit "true") >>= λ rc. pure (rc == 0)) (λ e. pure false)

  is_some : Option Text → Bool
  is_some none = false
  is_some (some t) = true

  -- The version that the guest agent has published under a key.
  has_pv_version : Text → Method Bool
  has_pv_version key =
      vm_param_get (lit "PV-drivers-version") (some key) true >>= λ v. pure (is_some v)

  has_feature : Text → Method Bool
  has_feature feature = vm_param_get (lit "other") (some feature) true >>= λ v. lift (flag v)

  pub and_then : Bool → Method Bool → Method Bool
  and_then b m = if b then m else pure false

  or_else : Bool → Method Bool → Method Bool
  or_else b m = if b then pure true else m

  pub is_management_agent_up : Method Bool
  is_management_agent_up = do
    major ← has_pv_version (lit "major")
    agent ← or_else major (has_pv_version (lit "xenbus"))
    and_then agent (
        with_obj λ o. or_else (not o.is_windows) (
          has_feature (lit "feature-poweroff") >>= λ off.
          and_then off (has_feature (lit "feature-reboot"))))

  pub wait_for_os_booted : Method (Unit {0})
  wait_for_os_booted =
      vm_wait is_running 120 false
      >> vm_wait try_get_and_store_ip 300 false
      >> vm_wait is_management_agent_up 120 false

  pub wait_for_vm_running_and_ssh_up : Method (Unit {0})
  wait_for_vm_running_and_ssh_up = wait_for_os_booted >> vm_wait is_ssh_up 120 false

  pub reboot : Bool → Bool → Method Text
  reboot force verify = do
    ret ← vm_xe (lit "vm-reboot") ((lit "force", bool force) ∷ [])
    if verify then wait_for_vm_running_and_ssh_up else pure tt
    pure ret

  -- Where the VM runs.
  pub resident_on : Method (Option Text)
  resident_on = vm_param_get (lit "resident-on") none false

  pub is_running_on_host : Host → Method Bool
  is_running_on_host h =
      is_running >>= λ running. and_then running (resident_on >>= λ u. pure (is_state h.uuid u))

  pub get_residence_host : Method Host
  get_residence_host = do
    running ← is_running
    check running
    host_uuid ← resident_on
    with_obj λ o.
        lift (elim host_uuid [
          | none ↦ err assertion_error
          | some u ↦ host_by_uuid o.host.pool.hosts u
        ])
