-- ===== src/Vm/Uefi.antt =====
-- lib/vm.py: EFI variables, secure boot, the vTPM and new block devices of a VM. Names of temporary
-- files are arguments.
use xcp_ng_tests.Prelude.{
  Bool, true, false, not, ◌&&◌, none, List, [], ◌∷◌, ◌++◌, Text, text_eq, lit, truthy, split, words,
  includes, drop, length, contains, show, ltb, ◌==◌, if◌then◌else◌,
}
use xcp_ng_tests.Effect.{
  Result, ok, err, bind, unicode_decode_error, pure, lift, check, try_finally, ◌>>=◌, ◌>>◌,
  assertion_error, index_error, exception,
}
use xcp_ng_tests.Commands.{Env, ssh_bytes, ssh_unchecked}
use xcp_ng_tests.Common.Xe.{text, param_set, xe_force}
use xcp_ng_tests.Objects.{on_trace, with_obj}
use xcp_ng_tests.Hosts.{host_ssh, host_run, host_scp}
use xcp_ng_tests.Vm.{Vm, Method, the_ip, vm_host_xe, vm_host_xe_minimal, vm_param_remove}
use xcp_ng_tests.Vm.Guest.{vm_run, vm_scp, vm_file_exists}
use xcp_ng_tests.Vm.Windows.{execute_powershell_script}

efivarfs_path : Text → Text → Text
efivarfs_path var guid = lit "/sys/firmware/efi/efivars/" ++ (var ++ (lit "-" ++ guid))

-- What the last byte of the variable SecureBoot says.
pub secure_boot_byte : Text → Result Bool
secure_boot_byte bytes =
    if text_eq bytes (1 ∷ [])
    then ok true
    else if text_eq bytes (0 ∷ [])
    then ok false
    else err exception

pub secure_boot_word : Text → Result Bool
secure_boot_word output =
    if text_eq output (lit "True")
    then ok true
    else if text_eq output (lit "False")
    then ok false
    else err exception

-- `bytes.decode('ascii')`
decode_ascii : Text → Result Text
decode_ascii bytes = if is_ascii bytes then ok bytes else err unicode_decode_error
  where
    is_ascii : Text → Bool
    is_ascii [] = true
    is_ascii (c ∷ t) = ltb c 128 && is_ascii t

-- The paths on the lines that have the magic in them.
pub binaries : Text → List Text → Result (List Text)
binaries magic [] = ok []
binaries magic (line ∷ lines) =
    if not (includes magic line) then binaries magic lines else elim (words line) [
      | [] ↦ err index_error
      | path ∷ more ↦
          bind (decode_ascii path) λ p. bind (binaries magic lines) λ paths. ok (p ∷ paths)
    ]

-- `auth.name in ['PK', 'KEK', 'db', 'dbx']`
pub is_auth_name : Text → Bool
is_auth_name name = contains (lit "PK" ∷ lit "KEK" ∷ lit "db" ∷ lit "dbx" ∷ []) name

-- `auth.auth()`, `auth.guid.as_str()` and `auth.name`.
pub record Auth : Type 0 where
  pub auth : Text
  pub guid : Text
  pub auth_name : Text

module _ (E : Env) where
  vm_bytes : Text → Method Text
  vm_bytes cmd = with_obj λ o. lift (the_ip o.ip) >>= λ ip. on_trace (ssh_bytes E ip cmd)

  make_mutable : Text → Bool → Method (Unit {0})
  make_mutable efivarfs there = if there then vm_run E (lit "chattr -i " ++ efivarfs) else pure tt

  remove_unchecked : Text → Method (Unit {0})
  remove_unchecked path = with_obj λ o. lift (the_ip o.ip) >>= λ ip.
      on_trace (ssh_unchecked E ip (lit "rm -f " ++ path)) >>= λ _. pure tt

  -- The local file `file` holds the attributes and the data.
  pub set_efi_var : Text → Text → Text → Text → Method (Unit {0})
  set_efi_var file var guid attrs = do
    check (length attrs == 4)
    there ← vm_file_exists E (efivarfs_path var guid) true
    make_mutable (efivarfs_path var guid) there
    try_finally
        (vm_scp E file (lit "/tmp/" ++ (var ++ (lit "-" ++ guid))) false
          >> vm_run E (
              lit "cat /tmp/"
              ++ (var ++ (lit "-" ++ (guid ++ (lit " > " ++ efivarfs_path var guid))))))
        (remove_unchecked (lit "/tmp/" ++ (var ++ (lit "-" ++ guid))))

  -- The data behind the four bytes of the attributes; nothing if there is no such variable.
  pub get_efi_var : Text → Text → Method Text
  get_efi_var var guid = do
    there ← vm_file_exists E (efivarfs_path var guid) true
    if there
        then (vm_bytes (lit "cat " ++ efivarfs_path var guid) >>= λ bytes. pure (drop 4 bytes))
        else pure []

  pub clear_uefi_variables : Method (Unit {0})
  clear_uefi_variables = vm_param_remove E (lit "NVRAM") (lit "EFI-variables") false

  pub get_all_efi_bins : Text → Method (List Text)
  get_all_efi_bins magic = do
    out ← vm_bytes (
        lit "for file in $(find /boot -type f); do echo $file $(head -c "
        ++ (show (length magic) ++ lit " $file); done"))
    lift (binaries magic (split 10 out))

  pub get_vtpm_uuid : Method Text
  get_vtpm_uuid = vm_host_xe_minimal E (lit "vtpm-list") λ o. (lit "vm-uuid", text o.uuid) ∷ []

  pub create_vtpm : Method Text
  create_vtpm = vm_host_xe E (lit "vtpm-create") λ o. (lit "vm-uuid", text o.uuid) ∷ []

  pub destroy_vtpm : Method Text
  destroy_vtpm = do
    vtpm_uuid ← get_vtpm_uuid
    check (truthy vtpm_uuid)
    with_obj λ o. on_trace (
        xe_force E o.host.host.hostname_or_ip (lit "vtpm-destroy")
          ((lit "uuid", text vtpm_uuid) ∷ []))

  -- The UUIDs of the block devices.
  pub create_vbd : Text → Text → Method Text
  create_vbd device vdi_uuid = vm_host_xe E (lit "vbd-create") λ o.
      (lit "vm-uuid", text o.uuid)
      ∷ (lit "device", text device)
      ∷ (lit "vdi-uuid", text vdi_uuid)
      ∷ []

  pub create_cd_vbd : Text → Text → Method Text
  create_cd_vbd device userdevice = do
    vbd_uuid ← vm_host_xe E (lit "vbd-create") (λ o.
        (lit "vm-uuid", text o.uuid)
        ∷ (lit "device", text device)
        ∷ (lit "type", text (lit "CD"))
        ∷ (lit "mode", text (lit "RO"))
        ∷ [])
    with_obj λ o. on_trace (
        param_set E o.host.host.hostname_or_ip (lit "vbd") vbd_uuid (lit "userdevice")
          (text userdevice) none)
    pure vbd_uuid

  -- A command on the host of the VM, with its UUID in it.
  unfoldable pub on_host : (Vm → Text) → Method (Unit {0})
  on_host cmd = with_obj λ o. on_trace (host_run E o.host.host (cmd o))

  -- The file on the host is removed however the setting ends.
  unfoldable pub set_variable_from_file : Text → Text → Text → Text → Method (Unit {0})
  set_variable_from_file filepath variable_guid variable_name attr = do
    dest ← with_obj λ o. on_trace (host_ssh E o.host.host (lit "mktemp"))
    try_finally
        ((with_obj λ o. on_trace (host_scp E o.host.host filepath dest))
          >> on_host (λ o.
            lit "varstore-set "
            ++ (o.uuid
                ++ (lit " "
                    ++ (variable_guid
                        ++ (lit " "
                            ++ (variable_name ++ (lit " " ++ (attr ++ (lit " " ++ dest))))))))))
        (on_host (λ o. lit "rm -f " ++ dest))

  check_names : List Auth → Result (Unit {0})
  check_names [] = ok tt
  check_names (a ∷ auths) =
      if is_auth_name a.auth_name then check_names auths else err assertion_error

  install_auths : List Auth → Method (Unit {0})
  install_auths [] = pure tt
  install_auths (a ∷ auths) =
      set_variable_from_file a.auth a.guid a.auth_name (lit "39") >> install_auths auths

  -- Every name is checked before the first file is sent; 39 is `EFI_AT_ATTRS`.
  pub install_uefi_certs : List Auth → Method (Unit {0})
  install_uefi_certs auths = lift (check_names auths) >> install_auths auths

  booted_windows : Method Bool
  booted_windows =
      execute_powershell_script E (lit "$ProgressPreference = 'SilentlyContinue';")
        (lit "Confirm-SecureBootUEFI")
      >>= λ output. lift (secure_boot_word output)

  booted_linux : Method Bool
  booted_linux =
      vm_bytes (
        lit
          "cat /sys/firmware/efi/efivars/SecureBoot-8be4df61-93ca-11d2-aa0d-00e098032b8c | tail -c1")
      >>= λ last_byte. lift (secure_boot_byte last_byte)

  pub booted_with_secureboot : Method Bool
  booted_with_secureboot = with_obj λ o.
      if not o.is_uefi then pure false else if o.is_windows then booted_windows else booted_linux

  pub set_uefi_setup_mode : Method (Unit {0})
  set_uefi_setup_mode = on_host λ o. lit "varstore-sb-state " ++ (o.uuid ++ lit " setup")

  pub set_uefi_user_mode : Method (Unit {0})
  set_uefi_user_mode = on_host λ o. lit "varstore-sb-state " ++ (o.uuid ++ lit " user")
