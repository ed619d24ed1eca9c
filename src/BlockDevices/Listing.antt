-- ===== src/BlockDevices/Listing.antt =====
-- The list of devices: its order, and what is listed once.
use xcp_ng_tests.Prelude.{
  ℕ, ◌≤◌, ◌≡◌, refl, ◌∙◌, not, lit, Bool, true, false, ◌&&◌, Bool-cases, inl, inr, List, [], ◌∷◌,
  ◌++◌, arith, Text, text_eq, text_eq_iff, contains, truthy, count, count-append, if◌then◌else◌,
}
use mathlib.Core.Path.{subst}
use xcp_ng_tests.Effect.{Result, ok, bind}
use xcp_ng_tests.Effect.Laws.{bind-eq-ok}
use xcp_ng_tests.BlockDevices.{
  Row, BlockDeviceInfo, disk, md, mpath, Scan, raid_types, to_int, disk_info, md_info, mpath_info,
  append_device, scan_disk, scan_shared, scan_row, scan_rows, insert_device, sort_devices,
  rescan_block_devices_info, free_with_children, all_available,
}

-- Every device is at least as large as the ones behind it.
abbrev pub IsDescending : List BlockDeviceInfo → Type 0
IsDescending [] = Unit
IsDescending (d ∷ []) = Unit
IsDescending (d ∷ e ∷ devices) = (e.size ≤ d.size) × IsDescending (e ∷ devices)

insert_device-IsDescending :
    (d : BlockDeviceInfo) (devices : List BlockDeviceInfo)
    → IsDescending devices
    → IsDescending (insert_device d devices)
unfolding insert_device
insert_device-IsDescending d [] h = tt
insert_device-IsDescending d (e ∷ []) h = ground arith
insert_device-IsDescending d (e ∷ f ∷ devices) (le, h) =
    let ih = insert_device-IsDescending d (f ∷ devices) h in ground arith

sort_devices-IsDescending : (devices : List BlockDeviceInfo) → IsDescending (sort_devices devices)
unfolding sort_devices
sort_devices-IsDescending [] = tt
sort_devices-IsDescending (d ∷ devices) =
    insert_device-IsDescending d _ (sort_devices-IsDescending devices)

module _ (p : BlockDeviceInfo → Bool) where
  count-insert_device :
      (d : BlockDeviceInfo) (devices : List BlockDeviceInfo)
      → count p (insert_device d devices) ≡ count p (d ∷ devices)
  unfolding insert_device
  count-insert_device d [] = refl
  count-insert_device d (e ∷ devices) = ground (arith, count-insert_device d devices)

  count-sort_devices :
      (devices : List BlockDeviceInfo) → count p (sort_devices devices) ≡ count p devices
  unfolding sort_devices
  count-sort_devices [] = refl
  count-sort_devices (d ∷ devices) =
      count-insert_device d (sort_devices devices) ∙ ground (arith, count-sort_devices devices)

-- Sorting returns a list in descending order of size with the same devices, each as often.
pub sort_devices_lem :
    (devices : List BlockDeviceInfo)
    → IsDescending (sort_devices devices)
      × ((p : BlockDeviceInfo → Bool) → count p (sort_devices devices) ≡ count p devices)
sort_devices_lem devices = (sort_devices-IsDescending devices, λ p. count-sort_devices p devices)

-- The multipath devices of a name.
abbrev pub is_mpath_named : Text → BlockDeviceInfo → Bool
is_mpath_named name d = elim d.type [ mpath ↦ text_eq d.name name | _ ↦ false ]

type-disk_info : (r : Row) (b : Bool) {d : BlockDeviceInfo} → disk_info r b ≡ ok d → d.type ≡ disk
unfolding disk_info
type-disk_info r b e =
    let (n, en, e') = bind-eq-ok (to_int r.size) _ e in
    let (m, em, e'') = bind-eq-ok (to_int r.log_sec) _ e' in cc

type-md_info : (r : Row) (b : Bool) {d : BlockDeviceInfo} → md_info r b ≡ ok d → d.type ≡ md
unfolding md_info
type-md_info r b e =
    let (n, en, e') = bind-eq-ok (to_int r.size) _ e in
    let (m, em, e'') = bind-eq-ok (to_int r.log_sec) _ e' in cc

name-mpath_info :
    (r : Row) (b : Bool) {d : BlockDeviceInfo} → mpath_info r b ≡ ok d → r.kname ≡ d.name
unfolding mpath_info
name-mpath_info r b e =
    let (n, en, e') = bind-eq-ok (to_int r.size) _ e in
    let (m, em, e'') = bind-eq-ok (to_int r.log_sec) _ e' in cc

-- A multipath device that `info` makes has the kernel name of the row for its name.
abbrev NamedByKname : (Row → Bool → Result BlockDeviceInfo) → Type 0
NamedByKname info =
    (r : Row) (b : Bool) (d : BlockDeviceInfo) (name : Text)
    → info r b ≡ ok d
    → is_mpath_named name d ≡ true
    → text_eq r.kname name ≡ true

not_mpath : (d : BlockDeviceInfo) (name : Text) → d.type ≡ disk → is_mpath_named name d ≡ false
not_mpath d name e = rw (e, is_mpath_named) refl

not_mpath_md : (d : BlockDeviceInfo) (name : Text) → d.type ≡ md → is_mpath_named name d ≡ false
not_mpath_md d name e = rw (e, is_mpath_named) refl

named_mpath :
    (d : BlockDeviceInfo) (name : Text) → is_mpath_named name d ≡ true → text_eq d.name name ≡ true
named_mpath d name h = ground arith

md_info-NamedByKname : NamedByKname md_info
md_info-NamedByKname r b d name e h =
    let no_mpath = not_mpath_md d name (type-md_info r b e) in absurd (cc)

mpath_info-NamedByKname : NamedByKname mpath_info
mpath_info-NamedByKname r b d name e h = rw (name-mpath_info r b e) (named_mpath d name h)

-- A multipath device is listed at most once, and only after its kernel name was seen.
abbrev Once : Scan → Type 0
Once s =
    (name : Text)
    → count (is_mpath_named name) s.devices ≤ (if contains s.seen_knames name then 1 else 0)

at_most_one : (n : ℕ) (b : Bool) → n ≤ (if b then 1 else 0) → n ≤ 1
at_most_one n b h = ground arith

module _ (rows : List Row) (depth : ℕ) where
  append_device-eq-ok :
      (s : Scan) (info : Result BlockDeviceInfo) {t : Scan}
      → append_device rows depth s info ≡ ok t
      → (d : BlockDeviceInfo) × (info ≡ ok d) × (record s { devices = s.devices ++ (d ∷ []) } ≡ t)
  unfolding append_device
  append_device-eq-ok s info e = let (d, ed, e') = bind-eq-ok info _ e in (d, ed, cc)

  type-scanned :
      (r : Row) {d : BlockDeviceInfo}
      → (bind
          (to_int r.size)
          λ _. bind (to_int r.log_sec) λ _. bind (all_available rows depth r.kname) (disk_info r))
        ≡ ok d
      → d.type ≡ disk
  type-scanned r e =
      let (n, en, e₁) = bind-eq-ok (to_int r.size) _ e in
      let (m, em, e₂) = bind-eq-ok (to_int r.log_sec) _ e₁ in
      let (b, eb, e₃) = bind-eq-ok (all_available rows depth r.kname) _ e₂ in type-disk_info r b e₃

  scan_disk-Once :
      (r : Row) (s : Scan) {t : Scan} → Once s → scan_disk rows depth r s ≡ ok t → Once t
  unfolding scan_disk
  scan_disk-Once r s {t} h e = elim (Bool-cases (truthy r.wwn && contains s.seen_wwns r.wwn)) [
    | inl seen ↦ let kept = rw seen at e in let same : s ≡ t = cc in rw (← same) h
    | inr new ↦
        let (d, ed, et) = append_device-eq-ok _ _ (rw new at e) in
        subst Once et λ name. ground (
          arith,
          count-append (is_mpath_named name) s.devices (d ∷ []),
          h name,
          not_mpath d name (type-scanned r ed),
        )
  ]

  add_new_device :
      (info : Row → Bool → Result BlockDeviceInfo)
      → NamedByKname info
      → (r : Row) (s : Scan) (b : Bool) (d : BlockDeviceInfo) → Once s
      → info r b ≡ ok d
      → contains s.seen_knames r.kname ≡ false
      → Once (record s { seen_knames = r.kname ∷ s.seen_knames; devices = s.devices ++ (d ∷ []) })
  add_new_device info named r s b d h ei new name = elim (Bool-cases (is_mpath_named name d)) [
    | inl is_named ↦
        let matches = named r b d name ei is_named in
        let same : r.kname ≡ name = (text_eq_iff _ _).0 matches in
        let fresh : contains s.seen_knames name ≡ false = rw (← same) new in
        ground (arith, count-append (is_mpath_named name) s.devices (d ∷ []), h name)
    | inr other ↦ ground (arith, count-append (is_mpath_named name) s.devices (d ∷ []), h name)
  ]

  scan_shared-Once :
      (info : Row → Bool → Result BlockDeviceInfo)
      → NamedByKname info
      → (r : Row) (s : Scan) {t : Scan} → Once s
      → scan_shared rows depth info r s ≡ ok t
      → Once t
  unfolding scan_shared
  scan_shared-Once info named r s {t} h e = elim (Bool-cases (contains s.seen_knames r.kname)) [
    | inl seen ↦ let kept = rw seen at e in let same : s ≡ t = cc in rw (← same) h
    | inr new ↦
        let (d, ed, et) = append_device-eq-ok _ _ (rw new at e) in
        let (b, eb, ei) = bind-eq-ok (free_with_children rows depth r) _ ed in
        subst Once et (add_new_device info named r s b d h ei new)
  ]

  scan_row-Once : (r : Row) (s : Scan) {t : Scan} → Once s → scan_row rows depth r s ≡ ok t → Once t
  unfolding scan_row
  scan_row-Once r s {t} h e =
      elim (Bool-cases (text_eq r.type (lit "disk") && not (truthy r.pkname))) [
        | inl is_disk ↦ scan_disk-Once r s h (rw is_disk at e)
        | inr not_disk ↦
            let e' = rw not_disk at e in
            elim (Bool-cases (contains raid_types r.type)) [
              | inl is_raid ↦ scan_shared-Once md_info md_info-NamedByKname r s h (rw is_raid at e')
              | inr not_raid ↦
                  let e'' = rw not_raid at e' in
                  elim (Bool-cases (text_eq r.type (lit "mpath"))) [
                    | inl is_mpath ↦
                        scan_shared-Once mpath_info mpath_info-NamedByKname r s h
                          (rw is_mpath at e'')
                    | inr other ↦
                        let kept = rw other at e'' in let same : s ≡ t = cc in rw (← same) h
                  ]
            ]
      ]

  scan_rows-Once :
      (rest : List Row) (s : Scan) {t : Scan} → Once s → scan_rows rows depth rest s ≡ ok t → Once t
  unfolding scan_rows
  scan_rows-Once [] s {t} h e = let same : s ≡ t = cc in rw (← same) h
  scan_rows-Once (r ∷ rest) s h e =
      let (u, eu, e') = bind-eq-ok (scan_row rows depth r s) _ e in
      scan_rows-Once rest u (scan_row-Once r s h eu) e'

-- In the list that a rescan stores every device is at least as large as the ones behind it, and
-- no two multipath devices have the same name.
pub rescan_block_devices_info_lem :
    (depth : ℕ) (rows : List Row) {devices : List BlockDeviceInfo}
    → rescan_block_devices_info depth rows ≡ ok devices
    → IsDescending devices × ((name : Text) → count (is_mpath_named name) devices ≤ 1)
unfolding rescan_block_devices_info
rescan_block_devices_info_lem depth rows {devices} e =
    let (s, es, e') = bind-eq-ok (scan_rows rows depth rows _) _ e in
    let sorted : sort_devices s.devices ≡ devices = cc in
    subst (λ l. IsDescending l × ((name : Text) → count (is_mpath_named name) l ≤ 1)) sorted
      (
        (sort_devices_lem s.devices).0,
        λ name.
            let once = scan_rows-Once rows depth rows _ (λ _. omega arith) es name in
            rw ((sort_devices_lem s.devices).1 (is_mpath_named name)) (at_most_one _ _ once),
      )
