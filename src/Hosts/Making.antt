-- ===== src/Hosts/Making.antt =====
-- lib/host.py and lib/pool.py: making a `Host` and a `Pool` from an address, and joining a pool. The
-- settings of the file data.py, `version.parse` and the splitting of the output of `lsblk` are
-- parameters.
pub mod Laws
pub mod Entry
mod Tests
use mathlib.Core.List.{reverse}
use xcp_ng_tests.Prelude.{
  ℕ, Bool, true, false, not, ◌&&◌, ◌||◌, ◌==◌, Option, none, some, List, [], ◌∷◌, ◌++◌, Text,
  text_eq, lit, truthy, includes, contains, lower, strip, split, splitlines, if◌then◌else◌,
}
use xcp_ng_tests.Effect.{
  Result, ok, err, bind, Exec, pure, raise, lift, check, ◌>>=◌, ◌>>◌, value_error, key_error,
  not_a_master_host_error,
}
use xcp_ng_tests.BlockDevices.{Row, rescan_block_devices_info}
use xcp_ng_tests.Commands.{Env, Trace, ssh_text}
use xcp_ng_tests.Common.Values.{safe_split, strtobool}
use xcp_ng_tests.Common.Waiting.{trace_clock, wait_for}
use xcp_ng_tests.Common.Xe.{text, param_get}
use xcp_ng_tests.Objects.{Obj, on_trace, with_obj, assign}
use xcp_ng_tests.Hosts.{
  Host, Pool, Member, host_ssh, host_run, host_xe, host_xe_minimal, is_master, hosts_uuids, host_ip,
}
use xcp_ng_tests.Hosts.Power.{wait_for_xapi_enabled}

pub record Settings : Type 0 where
  -- `HOSTS`, with the user and the password of an address, and the defaults.
  pub hosts : List (Text × (Text × Text))
  pub default_user : Text
  pub default_password : Text
  -- The major and the minor number of a version.
  pub parse_version : Text → Result (ℕ × ℕ)
  pub lsblk_rows : Text → List Row
  -- The interpreter's limit on nested calls.
  pub depth : ℕ

pub data_among : List (Text × (Text × Text)) → Text × Text → Text → Text × Text
data_among [] default hostname_or_ip = default
data_among ((k, h_data) ∷ hosts) default hostname_or_ip =
    if text_eq k hostname_or_ip then h_data else data_among hosts default hostname_or_ip

pub host_data : Settings → Text → Text × Text
host_data D = data_among D.hosts (D.default_user, D.default_password)

abbrev Inventory : Type 0
Inventory = List (Text × Text)

pub drop_quotes : Text → Text
drop_quotes [] = []
drop_quotes (c ∷ t) = if c == 39 then drop_quotes t else c ∷ t

-- The line of a key: `key, raw_value = line.split('=')`, which wants two parts.
pub key_and_value : List Text → Result (Text × Text)
key_and_value (key ∷ raw_value ∷ []) = ok (key, raw_value)
key_and_value parts = err value_error

-- `raw_value.strip('\'')`
pub strip_quotes : Text → Text
strip_quotes t = reverse (drop_quotes (reverse (drop_quotes t)))

-- `_get_xensource_inventory`, with the latest line first: it is the one that counts.
pub inventory_from : Inventory → List Text → Result Inventory
inventory_from inventory [] = ok inventory
inventory_from inventory (line ∷ lines) =
    bind (key_and_value (split b'=' line))
      λ (key, raw_value). inventory_from ((key, strip_quotes raw_value) ∷ inventory) lines

-- `inventory[key]`
pub item : Inventory → Text → Result Text
item [] key = err key_error
item ((k, v) ∷ inventory) key = if text_eq k key then ok v else item inventory key

-- A host whose inventory has no management interface raises only where it is asked for; here the
-- interface is then empty.
pub value_or_empty : Result Text → Text
value_or_empty (ok t) = t
value_or_empty (err e) = []

pub lsblk_command : Text
lsblk_command =
    lit
      "lsblk --pairs --bytes --output NAME,KNAME,PKNAME,SIZE,LOG-SEC,TYPE,MOUNTPOINT,WWN --include 8,9,65,66,67,68,69,70,71,128,129,130,131,132,133,134,135,252,253,259"

module _ (E : Env) (D : Settings) where
  -- `Host(pool, address)`
  pub make_host : Text → Exec Trace Host
  make_host address = do
    output ← ssh_text E address (lit "cat /etc/xensource-inventory")
    inventory ← lift (inventory_from [] (splitlines output))
    uuid ← lift (item inventory (lit "INSTALLATION_UUID"))
    product ← lift (item inventory (lit "PRODUCT_VERSION"))
    version ← lift (D.parse_version product)
    raw ← ssh_text E address lsblk_command
    lift (rescan_block_devices_info D.depth (D.lsblk_rows raw))
    pure (record {
      hostname_or_ip = address;
      uuid = uuid;
      user = (host_data D address).0;
      password = (host_data D address).1;
      management_interface = value_or_empty (item inventory (lit "MANAGEMENT_INTERFACE"));
      major = version.0;
      minor = version.1;
    })

  -- The loop over the UUIDs of the hosts: those that are not the master.
  pub other_hosts : Pool → List Text → Exec Trace (List Host)
  other_hosts p [] = pure []
  other_hosts p (host_uuid ∷ uuids) =
      if text_eq host_uuid p.master.uuid then other_hosts p uuids else do
        ip ← host_ip E p host_uuid
        host ← make_host ip
        others ← other_hosts p uuids
        pure (host ∷ others)

  -- The pool while its constructor runs.
  abbrev pub alone : Host → Pool
  alone master = record { uuid = []; master = master; hosts = master ∷ [] }

  -- `Pool(address)`: the pool, and `pre_existing_sr_uuids`.
  pub make_pool : Text → Exec Trace (Pool × List Text)
  make_pool address = do
    master ← make_host address
    is ← is_master E master
    if is then pure tt else raise not_a_master_host_error
    wait_for_xapi_enabled E master
    uuids ← hosts_uuids E (alone master)
    others ← other_hosts (alone master) uuids
    uuid ← host_xe_minimal E master (lit "pool-list") []
    srs ← host_xe E master (lit "sr-list") ((lit "minimal", text (lit "true")) ∷ [])
    pure (record { uuid = uuid; master = master; hosts = master ∷ others }, safe_split b',' srs)

-- What `join_pool` changes: the hosts of the pool that is joined, and the attribute `pool` of the
-- host that joins.
pub record Joining : Type 0 where
  pub joined : Pool
  pub own : Pool

module _ (E : Env) (D : Settings) (h : Host) where
  abbrev pub in_pool : Pool → Exec Trace Bool
  in_pool p = hosts_uuids E p >>= λ uuids. pure (contains uuids h.uuid)

  abbrev pub seen_enabled : Pool → Exec Trace Bool
  seen_enabled p =
      host_xe E p.master (lit "host-param-get")
        ((lit "uuid", text h.uuid) ∷ (lit "param-name", text (lit "enabled")) ∷ [])
      >>= λ out. lift (strtobool (some out))

  abbrev pub add_host : Host → Joining → Joining
  add_host new j = record j { joined = record j.joined { hosts = j.joined.hosts ++ (new ∷ []) } }

  -- The steps up to the new entry in the list of hosts; both waits have the default time out.
  pub join_first : Pool → Exec Trace Host
  join_first pool = do
    host_xe E h (lit "pool-join") (
        (lit "master-address", text pool.master.hostname_or_ip)
        ∷ (lit "master-username", text pool.master.user)
        ∷ (lit "master-password", text pool.master.password)
        ∷ [])
    wait_for (trace_clock E) (in_pool pool) 120 2 false 61
    ip ← host_ip E pool h.uuid
    make_host E D ip

  pub join_pool : Exec (Obj Joining) (Unit {0})
  join_pool = do
    new ← with_obj λ j. on_trace (join_first j.joined)
    assign (add_host new)
    with_obj λ j. on_trace (wait_for (trace_clock E) (seen_enabled j.joined) 120 2 false 61)
    assign λ j. record j { own = j.joined }

  -- `is_nested`, where the state is the attribute `_bios_vendor`.
  pub bios_vendor : Exec (Obj (Option Text)) Text
  bios_vendor = with_obj λ o. elim o [
    | some vendor ↦ pure vendor
    | none ↦ do
      vendor ← on_trace (host_ssh E h (lit "dmidecode -s bios-vendor"))
      assign (λ _. some vendor)
      pure vendor
  ]

  pub is_nested : Exec (Obj (Option Text)) Bool
  is_nested = bios_vendor >>= λ vendor. pure (includes (lit "Xen") vendor)

  pub get_system_uuid : Exec (Obj (Option Text)) Text
  get_system_uuid = do
    nested ← is_nested
    out ← on_trace (
        host_ssh E h (
          lit "dmidecode -s "
          ++ (if nested then lit "system-serial-number" else lit "system-uuid")))
    if truthy (strip (lower out)) then pure (strip (lower out)) else raise value_error

  -- The UUIDs of the SRs, which are asked for on the master of the pool.
  local_from : Text → List Text → Exec Trace (List Text)
  local_from master [] = pure []
  local_from master (sr ∷ srs) = do
    content ← param_get E master (lit "sr") sr (lit "content-type") none false
    kept ← (elim content [
      | none ↦ pure false
      | some c ↦
          if text_eq c (lit "user")
          then (param_get E master (lit "sr") sr (lit "shared") none false >>= λ v.
              lift (strtobool v) >>= λ shared. pure (not shared))
          else pure false
    ])
    others ← local_from master srs
    pure (if kept then sr ∷ others else others)

  pub local_vm_srs : Pool → Exec Trace (List Text)
  local_vm_srs pool =
      host_xe_minimal E h (lit "pbd-list")
        ((lit "host-uuid", text h.uuid) ∷ (lit "params", text (lit "sr-uuid")) ∷ [])
      >>= λ out. local_from pool.master.hostname_or_ip (safe_split b',' out)
