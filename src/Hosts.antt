-- ===== src/Hosts.antt =====
-- lib/host.py: a host, through `ssh` and `xe` on it, and what it knows of its pool (lib/pool.py).
pub mod Making
pub mod Power
pub mod Yum
pub mod Xapi
use xcp_ng_tests.Prelude.{
  ℕ, Bool, true, false, not, ◌&&◌, ◌||◌, Option, none, some, List, [], ◌∷◌, ◌++◌, Text, text_eq,
  lit, ltb, ◌==◌, truthy, contains, if◌then◌else◌,
}
use xcp_ng_tests.Effect.{
  Exn, Result, ok, err, Exec, pure, raise, lift, assert, check, ◌>>=◌, ◌>>◌, exception,
  assertion_error,
}
use xcp_ng_tests.Commands.{Env, Trace, ssh_text, ssh_with_result}
use xcp_ng_tests.Commands.Local.{scp}
use xcp_ng_tests.Common.Values.{safe_split}
use xcp_ng_tests.Common.Xe.{Args, Value, text, bool, xe, xe_minimal, param_get, param_set}

-- The attributes of a `Host` that do not change; version `major.minor` of XCP-ng.
pub record Host : Type 0 where
  pub hostname_or_ip : Text
  pub uuid : Text
  pub user : Text
  pub password : Text
  pub management_interface : Text
  pub major : ℕ
  pub minor : ℕ

-- A `Pool`, less its saved certificates.
pub record Pool : Type 0 where
  pub uuid : Text
  pub master : Host
  pub hosts : List Host

-- `Host` with its attribute `pool`.
pub record Member : Type 0 where
  pub host : Host
  pub pool : Pool

-- `xcp_version < version.parse("8.3")`
unfoldable pub before_8_3 : Host → Bool
before_8_3 h = ltb h.major 8 || (h.major == 8 && ltb h.minor 3)

pub varstore_dir : Host → Text
varstore_dir h = if before_8_3 h then lit "/var/lib/uefistored" else lit "/var/lib/varstored"

-- `Pool.get_host_by_uuid`
pub host_by_uuid : List Host → Text → Result Host
host_by_uuid [] host_uuid = err exception
host_by_uuid (h ∷ hosts) host_uuid =
    if text_eq h.uuid host_uuid then ok h else host_by_uuid hosts host_uuid

module _ (E : Env) (h : Host) where
  -- `Host.ssh` and `Host.xe`, with their defaults.
  unfoldable pub host_ssh : Text → Exec Trace Text
  host_ssh cmd = ssh_text E h.hostname_or_ip cmd

  -- A command of which no one reads the output.
  unfoldable pub host_run : Text → Exec Trace (Unit {0})
  host_run cmd = host_ssh cmd >>= λ _. pure tt

  unfoldable pub host_xe : Text → Args → Exec Trace Text
  host_xe action args = xe E h.hostname_or_ip action args

  unfoldable pub host_xe_minimal : Text → Args → Exec Trace Text
  host_xe_minimal action args = xe_minimal E h.hostname_or_ip action args

  -- `ssh_with_result(cmd).returncode == 0`
  pub succeeds : Text → Exec Trace Bool
  succeeds cmd = ssh_with_result E h.hostname_or_ip cmd >>= λ rc. pure (rc == 0)

  pub file_exists : Text → Bool → Exec Trace Bool
  file_exists filepath regular_file =
      succeeds
        (lit "test " ++ ((if regular_file then lit "-f" else lit "-e") ++ (lit " " ++ filepath)))

  pub binary_exists : Text → Exec Trace Bool
  binary_exists binary = succeeds (lit "which " ++ binary)

  pub is_symlink : Text → Exec Trace Bool
  is_symlink filepath = succeeds (lit "test -L " ++ filepath)

  pub is_package_installed : Text → Exec Trace Bool
  is_package_installed package_name = succeeds (lit "rpm -q " ++ package_name)

  -- `Host.scp` to the host, with its defaults.
  pub host_scp : Text → Text → Exec Trace (Unit {0})
  host_scp src dest = scp E h.hostname_or_ip src dest true true false >>= λ _. pure tt

  pub is_master : Exec Trace Bool
  is_master =
      host_ssh (lit "cat /etc/xensource/pool.conf") >>= λ out. pure (text_eq out (lit "master"))

  pub hostname : Exec Trace Text
  hostname = host_ssh (lit "hostname")

  -- `vm_type == 'snapshot'` is the first argument.
  unfoldable pub pool_has_vm : Bool → Text → Exec Trace Bool
  pool_has_vm is_snapshot vm_uuid =
      host_xe_minimal (if is_snapshot then lit "snapshot-list" else lit "vm-list")
        ((lit "uuid", text vm_uuid) ∷ [])
      >>= λ out. pure (text_eq out vm_uuid)

  pub management_network : Exec Trace Text
  management_network =
      host_xe_minimal (lit "network-list") ((lit "bridge", text h.management_interface) ∷ [])

  -- The UUID of the PIF.
  pub management_pif : Exec Trace Text
  management_pif =
      host_xe_minimal (lit "pif-list")
        ((lit "management", bool true) ∷ (lit "host-uuid", text h.uuid) ∷ [])

  -- The UUIDs of the PIFs.
  pub pifs : Option Text → Exec Trace (List Text)
  pifs device =
      host_xe_minimal (lit "pif-list") (
        (lit "host-uuid", text h.uuid)
        ∷ elim device [ none ↦ [] | some d ↦ (lit "device", text d) ∷ [] ])
      >>= λ out. pure (safe_split b',' out)

  plugin_args : List (Text × Text) → Args
  plugin_args [] = []
  plugin_args ((k, v) ∷ args) = (lit "args:" ++ k, text v) ∷ plugin_args args

  pub call_plugin : Text → Text → List (Text × Text) → Exec Trace Text
  call_plugin plugin_name function args = host_xe (lit "host-call-plugin") (
      (lit "host-uuid", text h.uuid)
      ∷ (lit "plugin", text plugin_name)
      ∷ (lit "fn", text function)
      ∷ plugin_args args)

-- The methods of a pool that ask its master.
module _ (E : Env) (p : Pool) where
  pub hosts_uuids : Exec Trace (List Text)
  hosts_uuids =
      host_xe_minimal E p.master (lit "host-list") [] >>= λ out. pure (safe_split b',' out)

  pub host_ip : Text → Exec Trace Text
  host_ip host_uuid =
      host_xe E p.master (lit "host-param-get")
        ((lit "uuid", text host_uuid) ∷ (lit "param-name", text (lit "address")) ∷ [])

  pub get_host_by_uuid : Text → Exec Trace Host
  get_host_by_uuid host_uuid = lift (host_by_uuid p.hosts host_uuid)

  unfoldable pub get_vdi_sr_uuid : Text → Exec Trace Text
  get_vdi_sr_uuid vdi_uuid =
      host_xe E p.master (lit "vdi-param-get")
        ((lit "uuid", text vdi_uuid) ∷ (lit "param-name", text (lit "sr-uuid")) ∷ [])

  first_uuid : List Text → Option Text
  first_uuid [] = none
  first_uuid (u ∷ uuids) = some u

  -- The UUID of the SR.
  pub first_shared_sr : Exec Trace (Option Text)
  first_shared_sr =
      host_xe_minimal E p.master (lit "sr-list")
        ((lit "shared", bool true) ∷ (lit "content-type", text (lit "user")) ∷ [])
      >>= λ out. pure (first_uuid (safe_split b',' out))

  -- `assert len(uuids) == 1`, then the first.
  only_uuid : List Text → Result Text
  only_uuid (u ∷ []) = ok u
  only_uuid uuids = err assertion_error

  -- The UUID of the SR for ISO images.
  pub get_iso_sr : Exec Trace Text
  get_iso_sr =
      host_xe_minimal E p.master (lit "sr-list") (
        (lit "type", text (lit "iso"))
        ∷ (lit "content-type", text (lit "iso"))
        ∷ (lit "is-tools-sr", bool false)
        ∷ [])
      >>= λ out. lift (only_uuid (safe_split b',' out))

  pub remove_iso : Text → Exec Trace (Unit {0})
  remove_iso remote_filename = do
    iso_sr ← get_iso_sr
    host_run E p.master (lit "rm /run/sr-mount/" ++ (iso_sr ++ (lit "/" ++ remote_filename)))

  pub network_named : Text → Exec Trace Text
  network_named network_name =
      host_xe_minimal E p.master (lit "network-list") ((lit "name-label", text network_name) ∷ [])
