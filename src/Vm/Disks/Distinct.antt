-- ===== src/Vm/Disks/Distinct.antt =====
-- Lists of VDIs whose numbers are distinct and below a bound.
use xcp_ng_tests.Prelude.{
  ℕ, suc, ◌+◌, ◌<◌, ◌≤◌, ◌≡◌, refl, inl, inr, Bool, true, false, not, ◌&&◌, ◌||◌, Bool-cases, List,
  [], ◌∷◌, ◌++◌, Text, ltb, length, ◌==◌, arith,
}
use xcp_ng_tests.Vm.{Vm, VdiObject}
use xcp_ng_tests.Vm.Disks.{has_vdi, remove_vdi, vdi_objects}

unfoldable pub distinct : List VdiObject → Bool
distinct [] = true
distinct (v ∷ vdis) = not (has_vdi v vdis) && distinct vdis

unfoldable pub below : ℕ → List VdiObject → Bool
below n [] = true
below n (v ∷ vdis) = ltb v.id n && below n vdis

-- What holds of the list of disks of every VM.
abbrev pub WellFormed : Vm → Type 0
WellFormed o = (distinct o.vdis ≡ true) × (below o.next_id o.vdis ≡ true)

pub has-append :
    (w v : VdiObject) (xs : List VdiObject)
    → has_vdi w (xs ++ (v ∷ [])) ≡ (has_vdi w xs || (v.id == w.id))
unfolding has_vdi
has-append w v [] = ground arith
has-append w v (x ∷ xs) = let rest = has-append w v xs in ground arith

pub distinct-append :
    (v : VdiObject) (xs : List VdiObject)
    → distinct xs ≡ true
    → has_vdi v xs ≡ false
    → distinct (xs ++ (v ∷ [])) ≡ true
unfolding distinct has_vdi
distinct-append v [] d h = refl
distinct-append v (x ∷ xs) d h =
    let more = has-append x v xs in
    let rest = distinct-append v xs (ground arith) (ground arith) in ground arith

pub below-append :
    (n : ℕ) (v : VdiObject) (xs : List VdiObject)
    → below n xs ≡ true
    → v.id < n
    → below n (xs ++ (v ∷ [])) ≡ true
unfolding below
below-append n v [] b h = ground arith
below-append n v (x ∷ xs) b h = let rest = below-append n v xs (ground arith) h in ground arith

has-same : (v w : VdiObject) (xs : List VdiObject) → v.id ≡ w.id → has_vdi v xs ≡ has_vdi w xs
unfolding has_vdi
has-same v w [] e = refl
has-same v w (x ∷ xs) e = let rest = has-same v w xs e in ground arith

-- Removing one leaves exactly the others.
pub has-remove :
    (w v : VdiObject) (xs : List VdiObject)
    → distinct xs ≡ true
    → has_vdi w (remove_vdi v xs) ≡ (not (v.id == w.id) && has_vdi w xs)
unfolding distinct has_vdi remove_vdi
has-remove w v [] d = ground arith
has-remove w v (x ∷ xs) d = elim (Bool-cases (x.id == v.id)) [
  | inl same ↦ elim (Bool-cases (v.id == w.id)) [
    | inl it ↦ let gone = has-same x w xs (ground arith) in ground arith
    | inr other ↦ ground arith
  ]
  | inr other ↦ let rest = has-remove w v xs (ground arith) in ground arith
]

pub distinct-remove :
    (v : VdiObject) (xs : List VdiObject) → distinct xs ≡ true → distinct (remove_vdi v xs) ≡ true
unfolding distinct remove_vdi
distinct-remove v [] d = refl
distinct-remove v (x ∷ xs) d = elim (Bool-cases (x.id == v.id)) [
  | inl same ↦ ground arith
  | inr other ↦
      let stays = has-remove x v xs (ground arith) in
      let rest = distinct-remove v xs (ground arith) in ground arith
]

pub below-remove :
    (n : ℕ) (v : VdiObject) (xs : List VdiObject)
    → below n xs ≡ true
    → below n (remove_vdi v xs) ≡ true
unfolding below remove_vdi
below-remove n v [] b = refl
below-remove n v (x ∷ xs) b = elim (Bool-cases (x.id == v.id)) [
  | inl same ↦ ground arith
  | inr other ↦ let rest = below-remove n v xs (ground arith) in ground arith
]

pub has-fresh :
    (v : VdiObject) (n : ℕ) (master : Text) (found : List (Text × Text))
    → v.id < n
    → has_vdi v (vdi_objects n master found) ≡ false
unfolding has_vdi vdi_objects
has-fresh v n master [] h = refl
has-fresh v n master ((uuid, sr) ∷ found) h =
    let rest = has-fresh v (suc n) master found (omega arith) in ground arith

pub distinct-fresh :
    (n : ℕ) (master : Text) (found : List (Text × Text))
    → distinct (vdi_objects n master found) ≡ true
unfolding distinct vdi_objects
distinct-fresh n master [] = refl
distinct-fresh n master ((uuid, sr) ∷ found) =
    let head =
      has-fresh (record { id = n; uuid = uuid; sr = sr; master = master }) (suc n) master found
        (omega arith) in
    let rest = distinct-fresh (suc n) master found in rw (head, rest) refl

pub below-fresh :
    (n : ℕ) (master : Text) (found : List (Text × Text)) (m : ℕ)
    → n + length found ≤ m
    → below m (vdi_objects n master found) ≡ true
unfolding below vdi_objects
below-fresh n master [] m h = refl
below-fresh n master ((uuid, sr) ∷ found) m h =
    let rest = below-fresh (suc n) master found m (omega arith) in ground arith

pub below-weaken : (n m : ℕ) (xs : List VdiObject) → below n xs ≡ true → n ≤ m → below m xs ≡ true
unfolding below
below-weaken n m [] b h = refl
below-weaken n m (v ∷ xs) b h = let rest = below-weaken n m xs (ground arith) h in ground arith

pub empty-WellFormed : (n : ℕ) → (distinct [] ≡ true) × (below n [] ≡ true)
unfolding distinct below
empty-WellFormed n = (refl, refl)
