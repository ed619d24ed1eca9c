-- ===== src/FsDiff/Laws.antt =====
-- The error code of a comparison says whether its report is empty.
pub mod Agreement
pub mod Dictionaries
pub mod OneType
use xcp_ng_tests.Prelude.{
  ℕ, Bool, true, false, Bool-cases, Option-cases, inl, inr, ◌&&◌, Option, none, some, List, [], ◌∷◌,
  ◌++◌, Text, ◌≡◌, refl, if◌then◌else◌,
}
use mathlib.Core.Path.{subst}
use xcp_ng_tests.Effect.{ok}
use xcp_ng_tests.Effect.Laws.{bind-eq-ok}
use xcp_ng_tests.FsDiff.{
  DataType, Files, Data, Difference, Report, files_of, value_of, same_value, report_difference,
  difference, report_ignored, compare_file, compare_files, compare_test, orphan_file, orphan_files,
  compare_ref, compare_data,
}

abbrev is_empty : {A : Type 0} → List A → Bool
is_empty [] = true
is_empty (x ∷ xs) = false

is_empty-append : {A : Type 0} (xs : List A) (x : A) → is_empty (xs ++ (x ∷ [])) ≡ false
is_empty-append [] x = refl
is_empty-append (y ∷ xs) x = refl

-- The error code is 0 if no difference and no orphan is in the report, and 1 if there is one.
abbrev pub IsConsistent : Report → Type 0
IsConsistent r =
    r.err
    ≡ (if is_empty r.differing && (is_empty r.orphan_test && is_empty r.orphan_ref) then 0 else 1)

report_difference-IsConsistent :
    (dtype : DataType) (name : Text) (ref test : Option Text) (r : Report)
    → IsConsistent r
    → IsConsistent (report_difference dtype name ref test r)
unfolding report_difference
report_difference-IsConsistent dtype name ref test r h = elim (Bool-cases (same_value ref test)) [
  | inl same ↦ rw same h
  | inr other ↦ rw (other, is_empty-append r.differing (difference dtype name ref test)) refl
]

orphan_test_reported :
    (ds : List Difference) (ts rs : List (DataType × Text)) (t : DataType × Text)
    → ◌≡◌ {A = ℕ} 1 (if is_empty ds && (is_empty (ts ++ (t ∷ [])) && is_empty rs) then 0 else 1)
orphan_test_reported [] ts rs t = rw (is_empty-append ts t) refl
orphan_test_reported (d ∷ ds) ts rs t = refl

orphan_ref_reported :
    (ds : List Difference) (ts rs : List (DataType × Text)) (t : DataType × Text)
    → ◌≡◌ {A = ℕ} 1 (if is_empty ds && (is_empty ts && is_empty (rs ++ (t ∷ []))) then 0 else 1)
orphan_ref_reported [] [] rs t = rw (is_empty-append rs t) refl
orphan_ref_reported [] (u ∷ ts) rs t = refl
orphan_ref_reported (d ∷ ds) ts rs t = refl

module _ (ignored : Text → Bool) where
  compare_file-IsConsistent :
      (dtype : DataType) (name : Text) (test : Option Text) (files : Files) (r : Report)
      → IsConsistent r
      → IsConsistent (compare_file ignored dtype name test (files, r)).1
  unfolding compare_file report_ignored
  compare_file-IsConsistent dtype name test files r h = elim (Bool-cases (ignored name)) [
    | inl skipped ↦ rw skipped h
    | inr kept ↦ elim (Option-cases (value_of files name)) [
      | inl missing ↦
          rw (kept, missing)
            (orphan_test_reported r.differing r.orphan_test r.orphan_ref (dtype, name))
      | inr (ref, found) ↦ rw (kept, found) (report_difference-IsConsistent dtype name ref test r h)
    ]
  ]

  orphan_file-IsConsistent :
      (dtype : DataType) (name : Text) (val : Option Text) (r : Report)
      → IsConsistent r
      → IsConsistent (orphan_file ignored dtype name val r)
  unfolding orphan_file report_ignored
  orphan_file-IsConsistent dtype name none r h = elim (Bool-cases (ignored name)) [
    | inl skipped ↦ rw skipped h
    | inr kept ↦ rw kept h
  ]
  orphan_file-IsConsistent dtype name (some v) r h = elim (Bool-cases (ignored name)) [
    | inl skipped ↦ rw skipped h
    | inr kept ↦ rw kept (orphan_ref_reported r.differing r.orphan_test r.orphan_ref (dtype, name))
  ]

  compare_files-IsConsistent :
      (dtype : DataType) (names : Files) (files : Files) (r : Report)
      → IsConsistent r
      → IsConsistent (compare_files ignored dtype names (files, r)).1
  unfolding compare_files
  compare_files-IsConsistent dtype [] files r h = h
  compare_files-IsConsistent dtype ((name, test) ∷ names) files r h =
      compare_files-IsConsistent dtype names _ _
        (compare_file-IsConsistent dtype name test files r h)

  orphan_files-IsConsistent :
      (dtype : DataType) (files : Files) (r : Report)
      → IsConsistent r
      → IsConsistent (orphan_files ignored dtype files r)
  unfolding orphan_files
  orphan_files-IsConsistent dtype [] r h = h
  orphan_files-IsConsistent dtype ((name, val) ∷ files) r h =
      orphan_files-IsConsistent dtype files _ (orphan_file-IsConsistent dtype name val r h)

  compare_ref-IsConsistent :
      (ref_data : Data) (r : Report)
      → IsConsistent r
      → IsConsistent (compare_ref ignored ref_data r)
  unfolding compare_ref
  compare_ref-IsConsistent [] r h = h
  compare_ref-IsConsistent ((dtype, files) ∷ more) r h =
      compare_ref-IsConsistent more _ (orphan_files-IsConsistent dtype files r h)

  compare_test-IsConsistent :
      (test_data ref_data : Data) (r : Report) (p : Data × Report)
      → IsConsistent r
      → compare_test ignored test_data (ref_data, r) ≡ ok p
      → IsConsistent p.1
  unfolding compare_test
  compare_test-IsConsistent [] ref_data r p h e =
      let same : (ref_data, r) ≡ p = cc in subst (λ q. IsConsistent q.1) same h
  compare_test-IsConsistent ((dtype, []) ∷ more) ref_data r p h e =
      compare_test-IsConsistent more ref_data r p h e
  compare_test-IsConsistent ((dtype, f ∷ files) ∷ more) ref_data r p h e =
      let (ref_files, found, e₁) = bind-eq-ok (files_of ref_data dtype) _ e in
      compare_test-IsConsistent more _ _ p
        (compare_files-IsConsistent dtype (f ∷ files) ref_files r h) e₁

  -- Whatever the two hosts hold, the error code of `compare_data` is 0 if its report lists no
  -- difference and no orphan on either side, and 1 if it lists one.
  pub compare_data-IsConsistent :
      (ref_data test_data : Data) (r : Report)
      → compare_data ignored ref_data test_data ≡ ok r
      → IsConsistent r
  unfolding compare_data
  compare_data-IsConsistent ref_data test_data r e =
      let (p, ep, e₁) = bind-eq-ok (compare_test ignored test_data _) _ e in
      let same : compare_ref ignored p.0 p.1 ≡ r = cc in
      subst IsConsistent same (
        compare_ref-IsConsistent p.0 p.1 (compare_test-IsConsistent test_data ref_data _ p refl ep))
