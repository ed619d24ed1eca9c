-- ===== src/FsDiff.antt =====
-- scripts/xcpng-fs-diff.py: the comparison of the files of two hosts. `ignore_file`, which matches a
-- name against patterns, is the parameter `ignored`.
pub mod Collect
pub mod Laws
pub mod Main
pub mod Showing
mod Tests
use xcp_ng_tests.Prelude.{
  ℕ, Bool, true, false, Option, none, some, List, [], ◌∷◌, ◌++◌, Text, text_eq, if◌then◌else◌,
}
use xcp_ng_tests.Effect.{Result, ok, err, bind, key_error}

pub data DataType : Type 0 where
  file file_symlink dir_symlink broken_symlink packages : DataType

pub same_type : DataType → DataType → Bool
same_type file file = true
same_type file_symlink file_symlink = true
same_type dir_symlink dir_symlink = true
same_type broken_symlink broken_symlink = true
same_type packages packages = true
same_type a b = false

-- `dict[str, str | None]`, and one of these for each type.
abbrev pub Files : Type 0
Files = List (Text × Option Text)

abbrev pub Data : Type 0
Data = List (DataType × Files)

-- An entry under a type in the results: a name, and for a package both versions.
pub data Difference : Type 0 where
  named : DataType → Text → Difference
  versions : (name : Text) (ref test : Option Text) → Difference

pub record Report : Type 0 where
  pub differing : List Difference
  pub orphan_test : List (DataType × Text)
  pub orphan_ref : List (DataType × Text)
  pub ignored_files : List Text
  pub err : ℕ

-- `ref_data[dtype]`
pub files_of : Data → DataType → Result Files
files_of [] dtype = err key_error
files_of ((t, files) ∷ more) dtype = if same_type t dtype then ok files else files_of more dtype

-- `ref_data[dtype] = files`, for a type that is there.
pub set_files : DataType → Files → Data → Data
set_files dtype new [] = []
set_files dtype new ((t, files) ∷ more) =
    if same_type t dtype then (t, new) ∷ more else (t, files) ∷ set_files dtype new more

-- `files[name]` as `get`: `none` for a name that is not there.
pub value_of : Files → Text → Option (Option Text)
value_of [] name = none
value_of ((n, v) ∷ files) name = if text_eq n name then some v else value_of files name

-- `files[name] = None`
pub clear_value : Text → Files → Files
clear_value name [] = []
clear_value name ((n, v) ∷ files) =
    if text_eq n name then (n, none) ∷ files else (n, v) ∷ clear_value name files

pub same_value : Option Text → Option Text → Bool
same_value none none = true
same_value (some a) (some b) = text_eq a b
same_value a b = false

pub difference : DataType → Text → Option Text → Option Text → Difference
difference packages name ref test = versions name ref test
difference dtype name ref test = named dtype name

pub report_difference : DataType → Text → Option Text → Option Text → Report → Report
report_difference dtype name ref test r =
    if same_value ref test
    then r
    else record r { err = 1; differing = r.differing ++ (difference dtype name ref test ∷ []) }

module _ (ignored : Text → Bool) where
  pub report_ignored : Text → Report → Report
  report_ignored name r = record r { ignored_files = r.ignored_files ++ (name ∷ []) }

  -- The body of the first loop.
  pub compare_file : DataType → Text → Option Text → Files × Report → Files × Report
  compare_file dtype name test (ref_files, r) =
      if ignored name then (ref_files, report_ignored name r) else elim (value_of ref_files name) [
        | none ↦
            (ref_files, record r { err = 1; orphan_test = r.orphan_test ++ ((dtype, name) ∷ []) })
        | some ref ↦ (clear_value name ref_files, report_difference dtype name ref test r)
      ]

  pub compare_files : DataType → Files → Files × Report → Files × Report
  compare_files dtype [] p = p
  compare_files dtype ((name, test) ∷ files) p =
      compare_files dtype files (compare_file dtype name test p)

  -- The first loop, over the types of the test host; a type without files asks for none.
  pub compare_test : Data → Data × Report → Result (Data × Report)
  compare_test [] p = ok p
  compare_test ((dtype, []) ∷ more) p = compare_test more p
  compare_test ((dtype, f ∷ files) ∷ more) (ref_data, r) =
      bind (files_of ref_data dtype) λ ref_files.
        let (ref_files', r') = compare_files dtype (f ∷ files) (ref_files, r) in
        compare_test more (set_files dtype ref_files' ref_data, r')

  -- The body of the second loop, for what only the reference host has.
  pub orphan_file : DataType → Text → Option Text → Report → Report
  orphan_file dtype name val r = if ignored name then report_ignored name r else elim val [
    | none ↦ r
    | some v ↦ record r { err = 1; orphan_ref = r.orphan_ref ++ ((dtype, name) ∷ []) }
  ]

  pub orphan_files : DataType → Files → Report → Report
  orphan_files dtype [] r = r
  orphan_files dtype ((name, val) ∷ files) r =
      orphan_files dtype files (orphan_file dtype name val r)

  pub compare_ref : Data → Report → Report
  compare_ref [] r = r
  compare_ref ((dtype, files) ∷ more) r = compare_ref more (orphan_files dtype files r)

  pub compare_data : Data → Data → Result Report
  compare_data ref_data test_data =
      bind
        (compare_test test_data (
          ref_data,
          record { differing = []; orphan_test = []; orphan_ref = []; ignored_files = []; err = 0 },
        ))
        λ (ref_data', r). ok (compare_ref ref_data' r)
