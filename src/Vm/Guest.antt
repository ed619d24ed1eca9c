-- ===== src/Vm/Guest.antt =====
-- lib/vm.py: files, processes and scripts in the guest, CDs, messages and xenstore. The names of
-- temporary files are arguments.
use xcp_ng_tests.Prelude.{
  Bool, true, false, not, ◌&&◌, Option, none, some, List, [], ◌∷◌, ◌++◌, Text, lit, truthy, split,
  splitlines, strip, includes, ◌==◌, if◌then◌else◌,
}
use xcp_ng_tests.Effect.{
  Result, ok, err, pure, raise, lift, check, catch_ssh, try_finally, for_each, ◌>>=◌, ◌>>◌,
  assertion_error, index_error,
}
use xcp_ng_tests.Commands.{Env, ssh_background}
use xcp_ng_tests.Commands.Local.{scp, sftp}
use xcp_ng_tests.Common.Values.{parse_xe_dict}
use xcp_ng_tests.Common.Xe.{text, bool, stdout_of}
use xcp_ng_tests.Objects.{on_trace, with_obj}
use xcp_ng_tests.Hosts.{host_ssh, pool_has_vm}
use xcp_ng_tests.Vm.{
  Method, the_ip, vm_ssh, vm_ssh_code, vm_host_xe, vm_xe, vm_wait, vm_param_get, start,
  get_residence_host, wait_for_vm_running_and_ssh_up,
}
use xcp_ng_tests.Vm.Migration.{snapshot, revert}

-- `e.split(':')[1].strip()` for every line that is not empty.
pub message_uuid : Text → Result Text
message_uuid line = elim (split b':' line) [
  | [] ↦ err index_error
  | key ∷ values ↦ elim values [ [] ↦ err index_error | value ∷ more ↦ ok (strip value) ]
]

-- `PackageManagerEnum`
pub data PackageManager : Type 0 where
  dnf yum apt_get apk zypper unknown : PackageManager

-- A parameter that may be missing, where the code takes a text.
pub known : Option Text → Result Text
known none = err assertion_error
known (some t) = ok t

module _ (E : Env) where
  -- A command of which no one reads the output.
  unfoldable pub vm_run : Text → Method (Unit {0})
  vm_run cmd = vm_ssh E cmd >>= λ _. pure tt

  -- `self.ssh_with_result(cmd).returncode == 0`
  unfoldable pub vm_succeeds : Text → Method Bool
  vm_succeeds cmd = vm_ssh_code E cmd >>= λ rc. pure (rc == 0)

  pub vm_scp : Text → Text → Bool → Method (Unit {0})
  vm_scp src dest local_dest = with_obj λ o. do
    check (not o.is_windows)
    ip ← lift (the_ip o.ip)
    on_trace (scp E ip src dest true true local_dest)
    pure tt

  pub sftp_put : Text → Text → Method (Unit {0})
  sftp_put src dest = with_obj λ o. do
    ip ← lift (the_ip o.ip)
    on_trace (sftp E ip ((lit "put " ++ (src ++ (lit " " ++ dest))) ∷ []) true true)
    pure tt

  unfoldable pub ssh_touch_file : Text → Method (Unit {0})
  ssh_touch_file filepath = do
    vm_run (lit "touch " ++ filepath)
    with_obj λ o. if o.is_windows then pure tt else vm_run (lit "sync " ++ filepath)
    vm_run (lit "test -f " ++ filepath)

  unfoldable pub vm_file_exists : Text → Bool → Method Bool
  vm_file_exists filepath regular_file =
      vm_succeeds
        (lit "test " ++ ((if regular_file then lit "-f" else lit "-e") ++ (lit " " ++ filepath)))

  -- The first of the files that exists says which it is.
  first_manager : List (Text × PackageManager) → Method PackageManager
  first_manager [] = pure unknown
  first_manager ((file, manager) ∷ managers) = do
    there ← vm_file_exists file true
    if there then pure manager else first_manager managers

  pub detect_package_manager : Method PackageManager
  detect_package_manager = first_manager (
      (lit "/usr/bin/dnf", dnf)
      ∷ (lit "/usr/bin/yum", yum)
      ∷ (lit "/usr/bin/apt-get", apt_get)
      ∷ (lit "/sbin/apk", apk)
      ∷ (lit "/usr/bin/zypper", zypper)
      ∷ [])

  -- The script with its start command lies in the local file `script`.
  copy_script : Text → Method (Unit {0})
  copy_script script = with_obj λ o.
      if o.is_windows
      then sftp_put script (lit "/Users/root/AppData/Local/Temp/bg_process.sh")
      else vm_scp script (lit "/tmp/bg_process.sh") false

  run_in_background : Method (Unit {0})
  run_in_background = with_obj λ o. do
    ip ← lift (the_ip o.ip)
    on_trace (
        ssh_background E ip (
          if o.is_windows
          then lit "bash /tmp/bg_process.sh"
          else lit "nohup bash -c \"bash /tmp/bg_process.sh &>/dev/null &\""))

  pub start_background_process : Text → Method Text
  start_background_process script = do
    copy_script script
    run_in_background
    vm_wait E (vm_succeeds (lit "test -f /tmp/bg_process.pid")) 120 false
    pid ← vm_ssh E (lit "cat /tmp/bg_process.pid")
    vm_run (lit "rm -f /tmp/bg_process.sh")
    vm_run (lit "rm -f /tmp/bg_process.pid")
    pure pid

  -- For a script that lies in the local file `file`, and goes to the same path in the guest.
  pub vm_execute_script : Text → Method Text
  vm_execute_script file = do
    vm_scp file file false
    try_finally (vm_ssh E (lit "bash " ++ file)) (vm_run (lit "rm -f " ++ file))

  pub tools_version_dict : Method (List (Text × Text))
  tools_version_dict = vm_param_get E (lit "PV-drivers-version") none false >>= λ v.
      lift (known v) >>= λ out. lift (parse_xe_dict out)

  unfoldable pub insert_cd : Text → Method (Unit {0})
  insert_cd vdi_name =
      vm_xe E (lit "vm-cd-insert") ((lit "cd-name", text vdi_name) ∷ []) >>= λ _. pure tt

  pub insert_guest_tools_iso : Method (Unit {0})
  insert_guest_tools_iso = insert_cd (lit "guest-tools.iso")

  unfoldable pub eject_cd : Method (Unit {0})
  eject_cd = vm_xe E (lit "vm-cd-eject") [] >>= λ _. pure tt

  -- `[… for e in lines if e]`
  message_uuids : List Text → Result (List Text)
  message_uuids [] = ok []
  message_uuids (line ∷ lines) =
      if not (truthy line) then message_uuids lines else elim (message_uuid line) [
        | err e ↦ err e
        | ok uuid ↦ elim (message_uuids lines) [ err e ↦ err e | ok uuids ↦ ok (uuid ∷ uuids) ]
      ]

  pub get_messages : Text → Method (List Text)
  get_messages name = do
    out ← vm_host_xe E (lit "message-list") (λ o.
        (lit "obj-uuid", text o.uuid)
        ∷ (lit "name", text name)
        ∷ (lit "params", text (lit "uuid"))
        ∷ [])
    lift (message_uuids (splitlines out))

  destroy_message : Text → Method (Unit {0})
  destroy_message uuid =
      vm_host_xe E (lit "message-destroy") (λ o. (lit "uuid", text uuid) ∷ []) >>= λ _. pure tt

  pub rm_messages : Text → Method (Unit {0})
  rm_messages name = get_messages name >>= for_each destroy_message

  -- `Snapshot.exists` and `Snapshot.destroy`, on the host of the base VM.
  unfoldable pub snapshot_exists : Text → Method Bool
  snapshot_exists uuid = with_obj λ o. on_trace (pool_has_vm E o.host.host true uuid)

  unfoldable pub snapshot_destroy : Text → Bool → Method (Unit {0})
  snapshot_destroy uuid verify = do
    vm_host_xe E (lit "snapshot-uninstall")
        (λ o. (lit "uuid", text uuid) ∷ (lit "force", bool true) ∷ [])
    if verify then (snapshot_exists uuid >>= λ there. check (not there)) else pure tt

  -- The body of the `try`: a file that was made behind the snapshot is gone once it is reverted.
  unfoldable pub snapshot_reverts : Text → Method (Unit {0})
  snapshot_reverts uuid = do
    ssh_touch_file (lit "/tmp/" ++ uuid)
    revert E uuid
    start E none
    wait_for_vm_running_and_ssh_up E
    vm_run (lit "test ! -f /tmp/" ++ uuid)

  unfoldable pub test_snapshot_on_running_vm : Method (Unit {0})
  test_snapshot_on_running_vm = do
    wait_for_vm_running_and_ssh_up E
    uuid ← snapshot E [] none
    try_finally (snapshot_reverts uuid) (snapshot_destroy uuid true)

  dom_id : Method Text
  dom_id = vm_param_get E (lit "dom-id") none false >>= λ out. lift (known out)

  -- A command of xenstore on the host where the VM runs, for a path of its domain.
  on_domain : Text → Text → Text → Text → Method Text
  on_domain command domid path rest = do
    h ← get_residence_host E
    on_trace (
        host_ssh E h (command ++ (lit " /local/domain/" ++ (domid ++ (lit "/" ++ (path ++ rest))))))

  pub xenstore_read : Text → Bool → Method (Option Text)
  xenstore_read path accept_unknown_key = do
    domid ← dom_id
    catch_ssh (on_domain (lit "xenstore-read") domid path [] >>= λ value. pure (some value)) λ e.
        if accept_unknown_key && includes (lit "couldn't read path") (stdout_of e)
        then pure none
        else raise e

  pub xenstore_write : Text → Text → Method (Unit {0})
  xenstore_write path value = do
    domid ← dom_id
    on_domain (lit "xenstore-write") domid path (lit " " ++ value)
    pure tt

  pub xenstore_rm : Text → Bool → Method (Unit {0})
  xenstore_rm path accept_unknown_key = do
    domid ← dom_id
    catch_ssh (on_domain (lit "xenstore-rm") domid path [] >>= λ _. pure tt) λ e.
        if accept_unknown_key && includes (lit "could not remove path") (stdout_of e)
        then pure tt
        else raise e
