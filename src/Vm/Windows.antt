-- ===== src/Vm/Windows.antt =====
-- lib/vm.py: PowerShell in a Windows guest, and the state of the guest tools there.
use xcp_ng_tests.Prelude.{
  ℕ, Bool, true, false, not, ◌&&◌, none, some, List, [], ◌∷◌, ◌++◌, Text, text_eq, lit, splitlines,
  parse_int, if◌then◌else◌,
}
use xcp_ng_tests.Effect.{Result, ok, err, pure, lift, check, ◌>>=◌, ◌>>◌, value_error, exception}
use xcp_ng_tests.Commands.{Env}
use xcp_ng_tests.Commands.PowerShell.{encode_powershell_command}
use xcp_ng_tests.Common.Values.{strtobool}
use xcp_ng_tests.Objects.{with_obj}
use xcp_ng_tests.Vm.{Method, vm_ssh, vm_param_get, and_then}
use xcp_ng_tests.Vm.Guest.{vm_run, vm_succeeds}

-- `all(x == word for x in lines)`
pub all_are : Text → List Text → Bool
all_are word [] = true
all_are word (line ∷ lines) = text_eq line word && all_are word lines

-- Whether the devices are installed; they all have the same status.
pub device_status : List Text → Result Bool
device_status statuses =
    if all_are (lit "CM_PROB_NONE") statuses
    then ok true
    else if all_are (lit "CM_PROB_FAILED_INSTALL") statuses
    then ok false
    else err exception

module _ (E : Env) where
  check_windows : Method (Unit {0})
  check_windows = with_obj λ o. check o.is_windows

  pub execute_powershell_script : Text → Text → Method Text
  execute_powershell_script prepend script_contents = do
    check_windows
    cmd ← lift (encode_powershell_command (prepend ++ script_contents))
    vm_ssh E (lit "powershell.exe -nologo -noprofile -noninteractive -encodedcommand " ++ cmd)

  -- With the default for what goes before the script.
  powershell : Text → Method Text
  powershell = execute_powershell_script (lit "$ProgressPreference = 'SilentlyContinue';")

  pub run_powershell_command : Text → Text → Method ℕ
  run_powershell_command program args = do
    check_windows
    output ← powershell (
        lit "Write-Output (Start-Process -Wait -PassThru "
        ++ (program ++ (lit " -ArgumentList '" ++ (args ++ lit "').ExitCode"))))
    lift (elim (parse_int output) [ none ↦ err value_error | some n ↦ ok n ])

  pub start_background_powershell : Text → Method Text
  start_background_powershell cmd = do
    check_windows
    encoded ← lift (encode_powershell_command cmd)
    vm_ssh E (
        lit
          "powershell.exe -noprofile -noninteractive -command \\(Invoke-WmiMethod -Class Win32_Process -Name Create -ArgumentList \\'powershell.exe -noprofile -noninteractive -encodedcommand "
        ++ (encoded ++ lit "\\'\\).ProcessId"))

  pub pid_exists : Text → Bool → Method Bool
  pid_exists pid winpid = with_obj λ o.
      if o.is_windows && winpid
      then (powershell
            (lit "$null -ne (Get-Process -Id " ++ (pid ++ lit " -ErrorAction SilentlyContinue)"))
          >>= λ out. lift (strtobool (some out)))
      else vm_succeeds E (lit "kill -s 0 " ++ pid)

  pub kill_pid : Text → Bool → Method (Unit {0})
  kill_pid pid winpid = with_obj λ o.
      if o.is_windows && winpid
      then (powershell
            (lit "Stop-Process -Id " ++ (pid ++ lit " -Force -ErrorAction SilentlyContinue"))
          >>= λ _. pure tt)
      else vm_run E (lit "kill " ++ pid)

  pub is_windows_pv_device_installed : Method Bool
  is_windows_pv_device_installed = do
    output ← powershell (
        lit
          "Get-PnpDevice -PresentOnly |\nWhere-Object CompatibleID -icontains 'PCI\\VEN_5853' |\nSelect-Object -ExpandProperty Problem")
    lift (device_status (splitlines output))

  pub are_windows_services_present : Method Bool
  are_windows_services_present = do
    output ← powershell (
        lit
          "$null -ne (Get-Service xenagent,xenbus,xenbus_monitor,xencons,xencons_monitor,xendisk,xenfilt,xenhid,\nxeniface,XenInstall,xennet,XenSvc,xenvbd,xenvif,xenvkbd -ErrorAction SilentlyContinue)")
    lift (strtobool (some output))

  pub are_windows_drivers_present : Method Bool
  are_windows_drivers_present = do
    output ← powershell (
        lit
          "$null -ne (Get-ChildItem $env:windir\\INF\\oem*.inf |\nForEach-Object {Get-Content $_} |\nSelect-String \"AddService=(xenbus|xencons|xendisk|xenfilt|xenhid|xeniface|xennet|xenvbd|xenvif|xenvkbd)\")")
    lift (strtobool (some output))

  tools_detected : Method Bool
  tools_detected = vm_param_get E (lit "PV-drivers-detected") none false >>= λ v. lift (strtobool v)

  pub are_windows_tools_working : Method Bool
  are_windows_tools_working = do
    check_windows
    installed ← is_windows_pv_device_installed
    and_then E installed tools_detected

  pub are_windows_tools_uninstalled : Method Bool
  are_windows_tools_uninstalled = do
    check_windows
    installed ← is_windows_pv_device_installed
    and_then E (not installed) (
        are_windows_services_present >>= λ services.
        and_then E (not services) (are_windows_drivers_present >>= λ drivers. pure (not drivers)))
