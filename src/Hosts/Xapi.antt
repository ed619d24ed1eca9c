-- ===== src/Hosts/Xapi.antt =====
-- lib/host.py: objects that a host makes or lists through `xe`, and scripts on it. `prefixed` stands
-- for `prefix_object_name`, which reads the file data.py of the user, and `default_sr` for the value
-- of `DEFAULT_SR` there; names of temporary files and random names are arguments.
use xcp_ng_tests.Prelude.{
  Bool, false, not, ◌&&◌, Option, none, some, List, [], ◌∷◌, ◌++◌, Text, text_eq, lit, truthy,
  includes, contains, join, strip, splitlines, if◌then◌else◌,
}
use xcp_ng_tests.Effect.{
  Result, ok, err, Exec, pure, raise, lift, check, catch, try_finally, ◌>>=◌, ◌>>◌, assertion_error,
}
use xcp_ng_tests.Commands.{Env, Trace}
use xcp_ng_tests.Common.Values.{safe_split}
use xcp_ng_tests.Common.Waiting.{trace_clock, wait_for}
use xcp_ng_tests.Common.Xe.{Args, text, bool, param_get}
use xcp_ng_tests.Hosts.{Host, Pool, host_ssh, host_run, host_xe, host_xe_minimal, host_scp}
use xcp_ng_tests.Hosts.Yum.{sort_texts}
use xcp_ng_tests.Sr
use xcp_ng_tests.Sr.{rounds}

device_config_args : List (Text × Text) → Args
device_config_args [] = []
device_config_args ((k, v) ∷ config) =
    (lit "device-config:" ++ k, text v) ∷ device_config_args config

-- `line.strip()` of every line, less those of MGT volumes.
pub volumes : Bool → List Text → List Text
volumes ignore_mgt [] = []
volumes ignore_mgt (line ∷ lines) =
    let rest = volumes ignore_mgt lines in
    if ignore_mgt && includes (lit "MGT") line then rest else strip line ∷ rest

-- `sorted(set(xs) & set(ys))[0]`, behind the assertion that there is one.
in_both : List Text → List Text → List Text
in_both ys [] = []
in_both ys (x ∷ xs) = if contains ys x then x ∷ in_both ys xs else in_both ys xs

first_sorted : List Text → Result Text
first_sorted [] = err assertion_error
first_sorted (x ∷ xs) = ok x

pub pre_existing_sr : List Text → List Text → Result Text
pre_existing_sr pre_existing local_srs = first_sorted (sort_texts (in_both local_srs pre_existing))

-- `data.DEFAULT_SR`
pub data DefaultSr : Type 0 where
  local default : DefaultSr
  given : Text → DefaultSr

module _ (E : Env) (prefixed : Text → Text) (h : Host) where
  -- The UUID of the SR; waiting for it to exist asks the master of the pool.
  pub sr_create : Host → Text → Text → List (Text × Text) → Bool → Bool → Exec Trace Text
  sr_create master sr_type label device_config shared verify = do
    sr_uuid ← host_xe E h (lit "sr-create") (
        (lit "host-uuid", text h.uuid)
        ∷ (lit "type", text sr_type)
        ∷ (lit "name-label", text (prefixed label))
        ∷ (lit "content-type", text (if text_eq sr_type (lit "iso") then lit "iso" else lit "user"))
        ∷ (lit "shared", bool shared)
        ∷ device_config_args device_config)
    if verify
        then wait_for (trace_clock E) (Sr.exists E master.hostname_or_ip sr_uuid) 120 2 false rounds
        else pure tt
    pure sr_uuid

  pub lvs : Option Text → Bool → Exec Trace (List Text)
  lvs vg_name ignore_mgt =
      host_ssh E h (
        lit "lvs --noheadings -o LV_NAME"
        ++ elim vg_name [ none ↦ [] | some vg ↦ if truthy vg then lit " " ++ vg else [] ])
      >>= λ out. pure (volumes ignore_mgt (splitlines out))

  -- The UUID of the bond.
  pub create_bond : Text → List Text → Option Text → Exec Trace Text
  create_bond network pif_uuids mode = host_xe_minimal E h (lit "bond-create") (
      (lit "network-uuid", text network)
      ∷ (lit "pif-uuids", text (join (lit ",") pif_uuids))
      ∷ elim mode [ none ↦ [] | some m ↦ (lit "mode", text m) ∷ [] ])

  -- The UUID of the network.
  pub create_network : Text → Option Text → Exec Trace Text
  create_network label description = host_xe_minimal E h (lit "network-create") (
      (lit "name-label", text label)
      ∷ elim description [ none ↦ [] | some d ↦ (lit "name-description", text d) ∷ [] ])

  -- `execute_script`, for a script that lies in the local file `script`.
  upload_script : Text → Exec Trace Text
  upload_script script = do
    out ← host_ssh E h (lit "mktemp")
    host_scp E h script (strip out)
    host_run E h (lit "chmod 0755 " ++ strip out)
    pure (strip out)

  pub execute_script : Text → Exec Trace Text
  execute_script script = do
    remote_path ← catch (upload_script script) (λ e. raise e)
    try_finally (host_ssh E h remote_path) (host_run E h (lit "rm -f " ++ remote_path))

  is_url : Text → Bool
  is_url uri = includes (lit "://") uri

  vdi_import : Text → Text → Exec Trace (Unit {0})
  vdi_import vdi_uuid filename =
      host_xe E h (lit "vdi-import")
        ((lit "uuid", text vdi_uuid) ∷ (lit "filename", text filename) ∷ [])
      >>= λ _. pure tt

  -- What `import_iso` does once the VDI exists: a file that was downloaded is removed at the end.
  pub import_into : Text → Text → Exec Trace (Unit {0})
  import_into uri vdi_uuid =
      let download_path = lit "/tmp/" ++ vdi_uuid in
      if is_url uri
      then try_finally
          (host_run E h (lit "curl -o '" ++ (download_path ++ (lit "' '" ++ (uri ++ lit "'"))))
            >> vdi_import vdi_uuid download_path)
          (host_run E h (lit "rm -f '" ++ (download_path ++ lit "'")))
      else vdi_import vdi_uuid uri

  -- The UUID of the VDI.
  pub import_iso : Text → Text → Text → Exec Trace Text
  import_iso random_name uri sr_uuid = do
    vdi_uuid ← host_xe E h (lit "vdi-create") (
        (lit "sr-uuid", text sr_uuid)
        ∷ (lit "name-label", text random_name)
        ∷ (lit "virtual-size", text (lit "0"))
        ∷ [])
    import_into uri vdi_uuid
    pure vdi_uuid

  default_sr_uuid : Pool → Exec Trace Text
  default_sr_uuid p = do
    out ← param_get E p.master.hostname_or_ip (lit "pool") p.uuid (lit "default-SR") none false
    lift (elim out [
      | none ↦ err assertion_error
      | some sr ↦ if truthy sr then ok sr else err assertion_error
    ])

  local_sr_uuid : List Text → Exec Trace Text
  local_sr_uuid pre_existing = do
    name ←
        host_xe E h (lit "host-param-get")
          ((lit "uuid", text h.uuid) ∷ (lit "param-name", text (lit "name-label")) ∷ [])
    out ← host_xe E h (lit "sr-list") (
        (lit "host", text name)
        ∷ (lit "content-type", text (lit "user"))
        ∷ (lit "minimal", text (lit "true"))
        ∷ [])
    lift (pre_existing_sr pre_existing (safe_split b',' out))

  given_sr_uuid : Text → Exec Trace Text
  given_sr_uuid sr = do
    out ← host_xe E h (lit "sr-list") ((lit "uuid", text sr) ∷ [])
    check (truthy out)
    pure sr

  -- `pre_existing` is `pool.pre_existing_sr_uuids`.
  pub main_sr_uuid : DefaultSr → Pool → List Text → Exec Trace Text
  main_sr_uuid default_sr p pre_existing = do
    sr ← elim default_sr [
      | local ↦ local_sr_uuid pre_existing
      | default ↦ default_sr_uuid p
      | given sr ↦ given_sr_uuid sr
    ]
    check (not (text_eq sr (lit "<not in database>")))
    pure sr
