-- ===== src/BlockDevices/Tests.antt =====
-- A host with a mounted disk, a free one and a multipath device that two paths show.
use xcp_ng_tests.Prelude.{
  ℕ, ◌<◌, ◌≤◌, ◌≡◌, refl, ◌↔◌, Bool, true, false, Bool-cases, inl, inr, if◌then◌else◌, List, [],
  ◌∷◌, Text, lit, arith, count, text_eq, parse_int,
}
use xcp_ng_tests.Effect.{ok}
use xcp_ng_tests.BlockDevices.{
  Row, BlockDeviceInfo, disk, mpath, children_of, row_by_kname, all_of, is_used, all_available,
  free_with_children, to_int, is_hex, is_wwid, disk_info, md_info, mpath_info, append_device,
  scan_disk, scan_shared, scan_row, scan_rows, insert_device, sort_devices,
  rescan_block_devices_info,
}
use xcp_ng_tests.BlockDevices.Availability.{
  Among, here, later, Below, self, IsFree, all_available_sound, all_available_iff,
}
use xcp_ng_tests.BlockDevices.Listing.{IsDescending, is_mpath_named, rescan_block_devices_info_lem}

row : Text → Text → Text → Text → Text → Row
row name pkname size type mountpoint = record {
  name = name;
  kname = name;
  pkname = pkname;
  size = size;
  log_sec = lit "512";
  type = type;
  mountpoint = mountpoint;
  wwn = [];
}

abbrev rows : List Row
rows =
    row (lit "sda") [] (lit "100") (lit "disk") []
    ∷ row (lit "sda1") (lit "sda") (lit "90") (lit "part") (lit "/")
    ∷ row (lit "sdb") [] (lit "300") (lit "disk") []
    ∷ row (lit "dm-0") (lit "sdc") (lit "200") (lit "mpath") []
    ∷ row (lit "dm-0") (lit "sdd") (lit "200") (lit "mpath") []
    ∷ []

device : Text → Text → ℕ → Bool → BlockDeviceInfo
device name path size available = record {
  name = name;
  path = path;
  size = size;
  log_sec = 512;
  type = disk;
  available = available;
  wwn = [];
}

abbrev devices : List BlockDeviceInfo
devices =
    device (lit "sdb") (lit "/dev/sdb") 300 true
    ∷ (record (device (lit "dm-0") (lit "/dev/mapper/dm-0") 200 true) { type = mpath })
    ∷ device (lit "sda") (lit "/dev/sda") 100 false
    ∷ []

rescanned : rescan_block_devices_info 9 rows ≡ ok devices
unfolding rescan_block_devices_info scan_rows scan_row scan_shared scan_disk append_device
    mpath_info md_info disk_info is_wwid is_hex to_int free_with_children all_available is_used
    all_of row_by_kname children_of insert_device sort_devices row device lit parse_int
rescanned = refl

rescan_block_devices_info_lem_example :
    IsDescending devices × ((name : Text) → count (is_mpath_named name) devices ≤ 1)
rescan_block_devices_info_lem_example = rescan_block_devices_info_lem 9 rows rescanned

sdb_available : all_available rows 2 (lit "sdb") ≡ ok true
unfolding all_available is_used all_of row_by_kname children_of row lit
sdb_available = refl

all_available_sound_example : IsFree rows (lit "sdb")
all_available_sound_example = all_available_sound rows 2 sdb_available (self (lit "sdb"))

abbrev one_disk : List Row
one_disk =
    row (lit "sda") [] (lit "100") (lit "disk") []
    ∷ row (lit "sda1") (lit "sda") (lit "90") (lit "part") []
    ∷ []

rank : Text → ℕ
rank name = if text_eq (lit "sda") name then 1 else 0

falls : (j c : Text) → Among c (children_of one_disk j) → rank c < rank j
unfolding children_of row rank lit
falls j c m = elim (Bool-cases (text_eq (lit "sda") j)) [
  | inl is_sda ↦ only_child j c is_sda (rw is_sda at m)
  | inr other ↦ elim (rw other at m) [ ]
]
  where
    only_child :
        (j c : Text) → text_eq (lit "sda") j ≡ true → Among c (lit "sda1" ∷ []) → rank c < rank j
    only_child j c is_sda (here _) = rw is_sda (omega arith)
    only_child j c is_sda (later _ m) = elim m [ ]

all_available_iff_example :
    (all_available one_disk 5 (lit "sda") ≡ ok true)
    ↔ ((d : Text) → Below one_disk (lit "sda") d → IsFree one_disk d)
unfolding rank lit
all_available_iff_example = all_available_iff one_disk rank 5 (lit "sda") falls (omega arith)
