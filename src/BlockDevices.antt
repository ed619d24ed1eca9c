-- ===== src/BlockDevices.antt =====
-- lib/host.py: `Host.rescan_block_devices_info`, from the rows that `lsblk --pairs` printed. A row
-- has a field for each column; splitting the output by a regular expression comes before.
pub mod Availability
pub mod Listing
mod Tests
use xcp_ng_tests.Prelude.{
  ℕ, zero, suc, Bool, true, false, not, ◌&&◌, ◌||◌, Option, none, some, List, [], ◌∷◌, ◌++◌, Text,
  text_eq, lit, truthy, remove_prefix, contains, parse_int, take, drop, length, all, leb, ◌==◌,
  if◌then◌else◌,
}
use xcp_ng_tests.Effect.{Result, ok, err, bind, recursion_error, value_error}

pub record Row : Type 0 where
  pub name : Text
  pub kname : Text
  pub pkname : Text
  pub size : Text
  pub log_sec : Text
  pub type : Text
  pub mountpoint : Text
  pub wwn : Text

pub data DeviceType : Type 0 where
  disk md mpath : DeviceType

pub record BlockDeviceInfo : Type 0 where
  pub name : Text
  pub path : Text
  pub size : ℕ
  pub log_sec : ℕ
  pub type : DeviceType
  pub available : Bool
  pub wwn : Text

abbrev pub raid_types : List Text
raid_types =
    lit "raid0"
    ∷ lit "raid1"
    ∷ lit "raid4"
    ∷ lit "raid5"
    ∷ lit "raid6"
    ∷ lit "raid10"
    ∷ lit "linear"
    ∷ []

abbrev pub used_types : List Text
used_types = raid_types ++ (lit "lvm" ∷ lit "mpath" ∷ lit "crypt" ∷ [])

-- `children.get(kname, [])`: the map has an entry only for a parent with a name.
pub children_of : List Row → Text → List Text
children_of [] kname = []
children_of (r ∷ rows) kname =
    if truthy r.pkname && text_eq r.pkname kname
    then r.kname ∷ children_of rows kname
    else children_of rows kname

pub row_by_kname : List Row → Text → Option Row
row_by_kname [] kname = none
row_by_kname (r ∷ rows) kname = if text_eq r.kname kname then some r else row_by_kname rows kname

-- `all(f(c) for c in xs)`, which stops at the first that is false or raises.
pub all_of : (Text → Result Bool) → List Text → Result Bool
all_of f [] = ok true
all_of f (x ∷ xs) = bind (f x) λ b. if b then all_of f xs else ok false

-- `r['mountpoint'] or r['type'] in USED_TYPES`
pub is_used : Row → Bool
is_used r = truthy r.mountpoint || contains used_types r.type

module _ (rows : List Row) where
  -- `_all_available`, with the interpreter's limit on the depth of calls.
  pub all_available : ℕ → Text → Result Bool
  all_available zero kname = err recursion_error
  all_available (suc depth) kname = elim (row_by_kname rows kname) [
    | none ↦ ok false
    | some r ↦ elim (is_used r) [
      | true ↦ ok false
      | false ↦ all_of (all_available depth) (children_of rows kname)
    ]
  ]

  -- `not r['mountpoint'] and all(_all_available(c) for c in …)`
  pub free_with_children : ℕ → Row → Result Bool
  free_with_children depth r =
      if truthy r.mountpoint
      then ok false
      else all_of (all_available depth) (children_of rows r.kname)

-- `int(…)`
pub to_int : Text → Result ℕ
to_int t = elim (parse_int t) [ none ↦ err value_error | some n ↦ ok n ]

-- `re.fullmatch(r'3[0-9a-f]{32}', name)`
is_hex : ℕ → Bool
is_hex c = (leb b'0' c && leb c b'9') || (leb b'a' c && leb c b'f')

pub is_wwid : Text → Bool
is_wwid [] = false
is_wwid (c ∷ t) = c == b'3' && (length t == 32 && all is_hex t)

-- What the loop over the rows has seen and listed.
pub record Scan : Type 0 where
  pub seen_knames : List Text
  pub seen_wwns : List Text
  pub devices : List BlockDeviceInfo

pub disk_info : Row → Bool → Result BlockDeviceInfo
disk_info r free = bind (to_int r.size) λ size. bind (to_int r.log_sec) λ log_sec. ok (record {
  name = r.name;
  path = lit "/dev/" ++ r.name;
  size = size;
  log_sec = log_sec;
  type = disk;
  available = free;
  wwn = remove_prefix r.wwn (lit "0x");
})

pub md_info : Row → Bool → Result BlockDeviceInfo
md_info r free = bind (to_int r.size) λ size. bind (to_int r.log_sec) λ log_sec. ok (record {
  name = r.name;
  path = lit "/dev/" ++ r.name;
  size = size;
  log_sec = log_sec;
  type = md;
  available = free;
  wwn = [];
})

pub mpath_info : Row → Bool → Result BlockDeviceInfo
mpath_info r free = bind (to_int r.size) λ size. bind (to_int r.log_sec) λ log_sec. ok (record {
  name = r.kname;
  path = lit "/dev/mapper/" ++ r.name;
  size = size;
  log_sec = log_sec;
  type = mpath;
  available = free;
  wwn = if is_wwid r.name then take 16 (drop 1 r.name) else [];
})

module _ (rows : List Row) (depth : ℕ) where
  append_device : Scan → Result BlockDeviceInfo → Result Scan
  append_device s info = bind info λ d. ok (record s { devices = s.devices ++ (d ∷ []) })

  pub scan_disk : Row → Scan → Result Scan
  scan_disk r s =
      if truthy r.wwn && contains s.seen_wwns r.wwn
      then ok s
      else let seen = if truthy r.wwn then r.wwn ∷ s.seen_wwns else s.seen_wwns in
        append_device (record s { seen_wwns = seen })
          (bind (to_int r.size)
            λ _. bind (to_int r.log_sec) λ _. bind (all_available rows depth r.kname) (disk_info r))

  -- The two branches for devices that appear once for each member or path.
  pub scan_shared : (Row → Bool → Result BlockDeviceInfo) → Row → Scan → Result Scan
  scan_shared info r s =
      if contains s.seen_knames r.kname
      then ok s
      else append_device (record s { seen_knames = r.kname ∷ s.seen_knames })
          (bind (free_with_children rows depth r) (info r))

  pub scan_row : Row → Scan → Result Scan
  scan_row r s =
      if text_eq r.type (lit "disk") && not (truthy r.pkname)
      then scan_disk r s
      else if contains raid_types r.type
      then scan_shared md_info r s
      else if text_eq r.type (lit "mpath")
      then scan_shared mpath_info r s
      else ok s

  unfoldable pub scan_rows : List Row → Scan → Result Scan
  scan_rows [] s = ok s
  scan_rows (r ∷ rest) s = bind (scan_row r s) (scan_rows rest)

-- `sorted(devices, key=lambda d: d.size, reverse=True)`; equal sizes keep their order.
pub insert_device : BlockDeviceInfo → List BlockDeviceInfo → List BlockDeviceInfo
insert_device d [] = d ∷ []
insert_device d (e ∷ devices) =
    if leb e.size d.size then d ∷ e ∷ devices else e ∷ insert_device d devices

unfoldable pub sort_devices : List BlockDeviceInfo → List BlockDeviceInfo
sort_devices [] = []
sort_devices (d ∷ devices) = insert_device d (sort_devices devices)

-- The list that the method stores as `block_devices_info`; `depth` is the limit on nested calls.
unfoldable pub rescan_block_devices_info : ℕ → List Row → Result (List BlockDeviceInfo)
rescan_block_devices_info depth rows =
    bind (scan_rows rows depth rows (record { seen_knames = []; seen_wwns = []; devices = [] }))
      λ s. ok (sort_devices s.devices)
