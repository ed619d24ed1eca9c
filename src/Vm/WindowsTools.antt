-- ===== src/Vm/WindowsTools.antt =====
-- lib/windows/__init__.py: what the tests of the Windows guest tools do with a VM and its interfaces.
-- `test_dns_server` stands for `TEST_DNS_SERVER` of the file data.py of the user.
pub mod Laws
mod Tests
use xcp_ng_tests.Prelude.{
  ℕ, zero, suc, Bool, true, false, not, ◌&&◌, Option, none, some, List, [], ◌∷◌, ◌++◌, Text,
  text_eq, lit, show, join, lower, includes, contains, splitlines, ◌==◌, if◌then◌else◌,
}
use xcp_ng_tests.Effect.{
  Exn, Result, ok, err, Exec, pure, raise, lift, check, catch, catch_ssh, ◌>>=◌, ◌>>◌,
  assertion_error, index_error, timeout_error,
}
use xcp_ng_tests.Commands.{Env}
use xcp_ng_tests.Common.Values.{strtobool}
use xcp_ng_tests.Common.Waiting.{wait_for}
use xcp_ng_tests.Common.Waiting
use xcp_ng_tests.Common.Xe.{bool, param_get}
use xcp_ng_tests.Objects.{on_trace, with_obj, obj_clock}
use xcp_ng_tests.Hosts.Power.{rounds_for}
use xcp_ng_tests.Vm.{
  Vm, Method, vm_ssh, vm_wait, vm_param_get, vm_param_set, is_running, is_halted, is_ssh_up, start,
}
use xcp_ng_tests.Vm.Disks.{vifs}
use xcp_ng_tests.Vm.Guest.{eject_cd, insert_cd, vm_file_exists, xenstore_read, xenstore_write}
use xcp_ng_tests.Vm.Windows.{execute_powershell_script}

windows_shutdown_command : Text
windows_shutdown_command = lit "shutdown.exe -s -f -t 5"

-- `mac.replace(":", "")`
without_colons : Text → Text
without_colons [] = []
without_colons (c ∷ t) = if c == b':' then without_colons t else c ∷ without_colons t

-- `except TimeoutError`
pub catch_timeout : {S A : Type 0} → Exec S A → Exec S A → Exec S A
catch_timeout m h = catch m λ e. elim e [ timeout_error ↦ h | other ↦ raise other ]

is_none : Option Text → Bool
is_none none = true
is_none (some t) = false

first_of : List Text → Result Text
first_of [] = err index_error
first_of (u ∷ uuids) = ok u

module _ (E : Env) where
  powershell : Text → Method Text
  powershell = execute_powershell_script E (lit "$ProgressPreference = 'SilentlyContinue';")

  pub vm_shutdown_without_tools : Method (Unit {0})
  vm_shutdown_without_tools = do
    running ← is_running E
    if running
        then (vm_ssh E windows_shutdown_command >> vm_wait E (is_halted E) 120 false)
        else pure tt

  pub wait_for_vm_running_and_ssh_up_without_tools : Method (Unit {0})
  wait_for_vm_running_and_ssh_up_without_tools =
      vm_wait E (is_running E) 120 false >> vm_wait E (is_ssh_up E) 120 false

  disable_secureboot : Method (Unit {0})
  disable_secureboot = do
    vm_shutdown_without_tools
    vm_param_set E (lit "platform") (bool false) (some (lit "secureboot"))
    start E none
    wait_for_vm_running_and_ssh_up_without_tools

  add_rootcert : Option Text → Method (Unit {0})
  add_rootcert none = pure tt
  add_rootcert (some rootcert) =
      powershell (
        lit "certutil -addstore -f Root '"
        ++ (rootcert
            ++ (lit "';\nif ($LASTEXITCODE -ne 0) {throw}\ncertutil -addstore -f TrustedPublisher '"
                ++ (rootcert ++ lit "';\nif ($LASTEXITCODE -ne 0) {throw}"))))
      >>= λ _. pure tt

  pub enable_testsign : Option Text → Method (Unit {0})
  enable_testsign rootcert = do
    running ← is_running E
    check running
    secureboot ← vm_param_get E (lit "platform") (some (lit "secureboot")) false
    on ← lift (strtobool secureboot)
    if on then disable_secureboot else pure tt
    add_rootcert rootcert
    powershell (
        lit "bcdedit /set testsigning on; if ($LASTEXITCODE -ne 0) {throw};"
        ++ windows_shutdown_command)
    vm_wait E (is_halted E) 120 false
    start E none
    wait_for_vm_running_and_ssh_up_without_tools

  eject_first : Method (Unit {0})
  eject_first = catch_ssh (eject_cd E >> Waiting.pause (obj_clock E) 5) (λ e. pure tt)

  start_if_halted : Bool → Method (Unit {0})
  start_if_halted running = if running then pure tt else start E none >>= λ _. pure tt

  -- An attempt; whether the CD was there.
  pub cd_attempt : Text → Text → Method Bool
  cd_attempt vdi_name cd_path = do
    eject_first
    insert_cd E vdi_name
    running ← is_running E
    start_if_halted running
    wait_for_vm_running_and_ssh_up_without_tools
    catch_timeout (vm_wait E (vm_file_exists E cd_path false) 60 false >>= λ _. pure true)
        (vm_shutdown_without_tools >>= λ _. pure false)

  -- With the number of attempts.
  pub insert_cd_safe : Text → Text → ℕ → Method (Unit {0})
  insert_cd_safe vdi_name cd_path zero = raise timeout_error
  insert_cd_safe vdi_name cd_path (suc retries) = do
    there ← cd_attempt vdi_name cd_path
    if there then pure tt else insert_cd_safe vdi_name cd_path retries

  -- Interfaces are given by their UUIDs.
  pub vif_get_mac_without_separator : Text → Method Text
  vif_get_mac_without_separator vif = with_obj λ o. do
    mac ← on_trace (param_get E o.host.host.hostname_or_ip (lit "vif") vif (lit "MAC") none false)
    lift (elim mac [ none ↦ err assertion_error | some m ↦ ok (without_colons m) ])

  pub vif_exists : Text → Method Bool
  vif_exists vif = do
    mac ← vif_get_mac_without_separator vif
    out ← powershell (
        lit
          "$null -ne (Get-NetAdapter |\nWhere-Object {$_.PnPDeviceID -notlike 'root\\kdnic\\*' -and $_.PermanentAddress -eq '"
        ++ (mac ++ lit "'})"))
    lift (strtobool (some out))

  pub vif_execute_powershell_script : Text → Text → Method Text
  vif_execute_powershell_script vif script = do
    mac ← vif_get_mac_without_separator vif
    powershell (
        lit
          "$adapter = Get-NetAdapter |\nWhere-Object {$_.PnPDeviceID -notlike 'root\\kdnic\\*' -and $_.PermanentAddress -eq '"
        ++ (mac
            ++ (lit
                  "'};\nif ($null -eq $adapter) { throw 'Cannot find the VIF network adapter' };\n"
                ++ script)))

  vif_flag : Text → Text → Method Bool
  vif_flag vif script =
      vif_execute_powershell_script vif script >>= λ out. lift (strtobool (some out))

  pub vif_has_rss : Text → Method Bool
  vif_has_rss vif = vif_flag vif (lit "($adapter | Get-NetAdapterRss).MaxProcessors -gt 0")

  pub vif_get_dns : Text → Method (List Text)
  vif_get_dns vif =
      vif_execute_powershell_script vif (
        lit
          "Import-Module DnsClient;\n$adapter |\nGet-DnsClientServerAddress -AddressFamily IPv4 |\nSelect-Object -ExpandProperty ServerAddresses")
      >>= λ out. pure (splitlines out)

  pub vif_set_dns : Text → List Text → Method (Unit {0})
  vif_set_dns vif nameservers =
      vif_execute_powershell_script vif (
        lit
          "Import-Module DnsClient;\n$adapter |\nGet-DnsClientServerAddress -AddressFamily IPv4 |\nSet-DnsClientServerAddress -ServerAddresses "
        ++ join (lit ",") nameservers)
      >>= λ _. pure tt

  pub vif_uses_dhcp : Text → Method Bool
  vif_uses_dhcp vif = vif_flag vif (
      lit
        "(Get-NetIPInterface -InterfaceIndex $adapter.ifIndex -AddressFamily IPv4).Dhcp -eq 'Enabled'")

  pub vif_add_manual_configuration : Text → Text → ℕ → Text → Method (Unit {0})
  vif_add_manual_configuration vif address prefix gateway =
      vif_execute_powershell_script vif (
        lit "$null = New-NetIPAddress `\n-InterfaceIndex $adapter.ifIndex `\n-IPAddress '"
        ++ (address
            ++ (lit "' `\n-PrefixLength "
                ++ (show prefix
                    ++ (lit " `\n-DefaultGateway '"
                        ++ (gateway ++ lit "' `\n-ErrorAction Stop"))))))
      >>= λ _. pure tt

  offboarded : Text → Result Bool
  offboarded val =
      if includes (lit "broken pipe") (lower val) then ok false else strtobool (some val)

  pub is_vm_offboarded_xenvif : Method Bool
  is_vm_offboarded_xenvif =
      catch_ssh
        (powershell (
            lit
              "$null -eq (Get-ScheduledTask \"Copy-XenVifSettings\" -ErrorAction SilentlyContinue)")
          >>= λ val. lift (offboarded val))
        (λ e. pure false)

  pub wait_for_vm_xenvif_offboard : Method (Unit {0})
  wait_for_vm_xenvif_offboard =
      wait_for (obj_clock E) is_vm_offboarded_xenvif 180 15 false (rounds_for 180 15)

  first_vif : Method Text
  first_vif = vifs E >>= λ uuids. lift (first_of uuids)

  has_test_dns : Text → Text → Method Bool
  has_test_dns test_dns_server vif =
      vif_get_dns vif >>= λ servers. pure (contains servers test_dns_server)

  pub set_vm_dns : Text → Method (Unit {0})
  set_vm_dns test_dns_server = do
    vif ← first_vif
    there ← has_test_dns test_dns_server vif
    check (not there)
    vif_set_dns vif (test_dns_server ∷ [])

  pub check_vm_dns : Text → Method (Unit {0})
  check_vm_dns test_dns_server = do
    vif ← first_vif
    wait_for (obj_clock E) (has_test_dns test_dns_server vif) 300 30 false (rounds_for 300 30)

  has_distro : Method Bool
  has_distro = xenstore_read E (lit "data/os_distro") true >>= λ v. pure (not (is_none v))

  pub check_vm_distro : Method (Unit {0})
  check_vm_distro = vm_wait E has_distro 30 false

  clipboard_read : Method Bool
  clipboard_read = xenstore_read E (lit "data/set_clipboard") true >>= λ v. pure (is_none v)

  pub check_vm_clipboard : Method (Unit {0})
  check_vm_clipboard = do
    free ← clipboard_read
    check free
    xenstore_write E (lit "data/set_clipboard") (lit "foobar")
    vm_wait E clipboard_read 30 false
    xenstore_write E (lit "data/set_clipboard") (lit "\"\"")
    vm_wait E clipboard_read 30 false
