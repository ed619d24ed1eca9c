-- ===== src/BlockDevices/Availability.antt =====
-- What `available` means: nothing below the device is mounted or in use.
use xcp_ng_tests.Prelude.{
  ℕ, zero, suc, ◌<◌, ◌≡◌, refl, ◌∙◌, ◌↔◌, Bool, true, false, Bool-cases, Option-cases, inl, inr,
  some, List, [], ◌∷◌, arith, Text, if◌then◌else◌,
}
use xcp_ng_tests.Effect.{Result, ok}
use xcp_ng_tests.BlockDevices.{Row, children_of, row_by_kname, all_of, is_used, all_available}

-- `c` is one of the texts.
pub data Among (c : Text) : List Text → Type 0 where
  here : (xs : List Text) → Among c (c ∷ xs)
  later : (x : Text) {xs : List Text} → Among c xs → Among c (x ∷ xs)

module _ (rows : List Row) where
  -- The device itself, its children, their children and so on.
  pub data Below : Text → Text → Type 0 where
    self : (k : Text) → Below k k
    child : {k c d : Text} → Among c (children_of rows k) → Below c d → Below k d

  -- The device has a row, which is not mounted and of no type that is in use.
  abbrev pub IsFree : Text → Type 0
  IsFree k = (r : Row) × (row_by_kname rows k ≡ some r) × (is_used r ≡ false)

  all_of-true :
      (f : Text → Result Bool) (xs : List Text) {c : Text}
      → all_of f xs ≡ ok true
      → Among c xs
      → f c ≡ ok true
  unfolding all_of
  all_of-true f [] h m = elim m [ ]
  all_of-true f (x ∷ xs) h (here _) = ground arith
  all_of-true f (x ∷ xs) h (later _ m) = all_of-true f xs (ground arith) m

  chosen :
      (f : Text → Result Bool) (xs : List Text) (b b' : Bool)
      → all_of f xs ≡ ok b'
      → (if b then all_of f xs else ok false) ≡ ok (if b then b' else false)
  chosen f xs true b' e = e
  chosen f xs false b' e = refl

  all_of-ok :
      (f : Text → Result Bool) (xs : List Text)
      → ((c : Text) → Among c xs → (b : Bool) × (f c ≡ ok b))
      → (b : Bool) × (all_of f xs ≡ ok b)
  unfolding all_of
  all_of-ok f [] h = (true, refl)
  all_of-ok f (x ∷ xs) h =
      let (b, e) = h x (here xs) in
      let (b', e') = all_of-ok f xs (λ c m. h c (later x m)) in
      (if b then b' else false, rw e (chosen f xs b b' e'))

  all_available-suc :
      (depth : ℕ) (k : Text) (r : Row)
      → row_by_kname rows k ≡ some r
      → all_available rows (suc depth) k
        ≡ (if is_used r then ok false else all_of (all_available rows depth) (children_of rows k))
  unfolding all_available
  all_available-suc depth k r e = rw (e, all_available) (split (is_used r))
    where
      split :
          (b : Bool)
          → (elim b [
            | true ↦ ok false
            | false ↦ all_of (all_available rows depth) (children_of rows k)
          ])
            ≡ (if b then ok false else all_of (all_available rows depth) (children_of rows k))
      split true = refl
      split false = refl

  -- One call that returned true: the device is free, and so said the calls for its children.
  all_available-true :
      (depth : ℕ) (k : Text)
      → all_available rows (suc depth) k ≡ ok true
      → IsFree k × (all_of (all_available rows depth) (children_of rows k) ≡ ok true)
  unfolding all_available
  all_available-true depth k h = ground arith

  stuck : (k : Text) → all_available rows zero k ≡ ok true → ⊥
  unfolding all_available
  stuck k h = cc

  -- A device that `_all_available` reports as available has no descendant, itself included, that
  -- is mounted, is of a type in use, or has no row.
  pub all_available_sound :
      (depth : ℕ) {k d : Text} → all_available rows depth k ≡ ok true → Below k d → IsFree d
  all_available_sound zero h b = absurd (stuck _ h)
  all_available_sound (suc depth) {k} h (self _) = (all_available-true depth k h).0
  all_available_sound (suc depth) {k} h (child m b) =
      all_available_sound depth (all_of-true _ _ (all_available-true depth k h).1 m) b

  all_available_total_from :
      (rank : Text → ℕ)
      → ((k c : Text) → Among c (children_of rows k) → rank c < rank k)
      → (depth : ℕ) (k : Text) → rank k < depth
      → (b : Bool) × (all_available rows depth k ≡ ok b)
  all_available_total_from rank falls zero k h = absurd (omega arith)
  all_available_total_from rank falls (suc depth) k h = elim (Option-cases (row_by_kname rows k)) [
    | inl missing ↦ (false, unfold all_available in rw (missing, all_available) refl)
    | inr (r, found) ↦ elim (Bool-cases (is_used r)) [
      | inl used ↦ (false, all_available-suc depth k r found ∙ rw used refl)
      | inr unused ↦
          let (b, e) =
            all_of-ok (all_available rows depth) (children_of rows k)
              (λ c m. all_available_total_from rank falls depth c (omega (arith, falls k c m))) in
          (b, all_available-suc depth k r found ∙ rw unused e)
    ]
  ]

  -- Where parents rank above their children, so that there is no cycle, `_all_available` returns
  -- within the call depth that the rank of the device allows.
  pub all_available_total :
      (rank : Text → ℕ) (depth : ℕ) (k : Text)
      → ((j c : Text) → Among c (children_of rows j) → rank c < rank j)
      → rank k < depth
      → (b : Bool) × (all_available rows depth k ≡ ok b)
  all_available_total rank depth k falls h = all_available_total_from rank falls depth k h

  all_of_complete :
      (f : Text → Result Bool) (xs : List Text)
      → ((c : Text) → Among c xs → f c ≡ ok true)
      → all_of f xs ≡ ok true
  unfolding all_of
  all_of_complete f [] h = refl
  all_of_complete f (x ∷ xs) h = rw (h x (here xs)) (all_of_complete f xs (λ c m. h c (later x m)))

  all_available_complete_from :
      (rank : Text → ℕ)
      → ((j c : Text) → Among c (children_of rows j) → rank c < rank j)
      → (depth : ℕ) (k : Text) → rank k < depth
      → ((d : Text) → Below k d → IsFree d)
      → all_available rows depth k ≡ ok true
  all_available_complete_from rank falls zero k h free = absurd (omega arith)
  all_available_complete_from rank falls (suc depth) k h free =
      let (r, found, unused) = free k (self k) in
      all_available-suc depth k r found
      ∙ rw unused (
          all_of_complete _ _ λ c m.
            all_available_complete_from rank falls depth c (omega (arith, falls k c m))
              (λ d b. free d (child m b)))

  -- With no cycle and enough call depth, `_all_available` is true of a device exactly when the
  -- device and everything below it is free.
  pub all_available_iff :
      (rank : Text → ℕ) (depth : ℕ) (k : Text)
      → ((j c : Text) → Among c (children_of rows j) → rank c < rank j)
      → rank k < depth
      → (all_available rows depth k ≡ ok true) ↔ ((d : Text) → Below k d → IsFree d)
  all_available_iff rank depth k falls h =
      (λ e d b. all_available_sound depth e b, all_available_complete_from rank falls depth k h)
