-- ===== src/FsDiff/Tests.antt =====
-- Two hosts with one file in common, which differs, and an ignored one.
use xcp_ng_tests.Prelude.{
  ℕ, ◌↔◌, Bool, true, not, all, arith, some, [], ◌∷◌, Text, text_eq, lit, ◌≡◌, refl,
}
use xcp_ng_tests.Effect.{ok}
use xcp_ng_tests.FsDiff.{
  DataType, file, file_symlink, dir_symlink, broken_symlink, packages, Files, named, Data, Report,
  same_type, files_of, set_files, value_of, clear_value, same_value, difference, report_difference,
  report_ignored, compare_file, compare_files, compare_test, orphan_file, orphan_files, compare_ref,
  compare_data,
}
use xcp_ng_tests.FsDiff.Laws.Dictionaries.{HasValues, is_none, all-value_of}
use xcp_ng_tests.FsDiff.Laws.OneType.{AgreeOn}
use xcp_ng_tests.FsDiff.Laws.Agreement.{files_at, compare_data-AgreeOn}

abbrev ref_data : Data
ref_data = (file, (lit "a", some (lit "1")) ∷ (lit "b", some (lit "1")) ∷ []) ∷ []

abbrev test_data : Data
test_data = (file, (lit "a", some (lit "2")) ∷ (lit "log", some (lit "1")) ∷ []) ∷ []

abbrev ignore_log : Text → Bool
ignore_log name = text_eq name (lit "log")

abbrev report : Report
report = record {
  differing = named file (lit "a") ∷ [];
  orphan_test = [];
  orphan_ref = (file, lit "b") ∷ [];
  ignored_files = lit "log" ∷ [];
  err = 1;
}

compared : compare_data ignore_log ref_data test_data ≡ ok report
unfolding compare_data compare_ref orphan_files orphan_file compare_test compare_files compare_file
    report_ignored report_difference difference same_value clear_value value_of set_files files_of
    same_type lit
compared = refl

-- A dictionary whose entries all have a value.
all-HasValues : (files : Files) → all (λ f. not (is_none f.1)) files ≡ true → HasValues files
all-HasValues files h name v e =
    ground (arith, all-value_of (λ f. not (is_none f.1)) files name v h e)

ref_data-HaveValues : (t : DataType) → HasValues (files_at ref_data t)
unfolding same_type
ref_data-HaveValues file = all-HasValues _ refl
ref_data-HaveValues file_symlink = all-HasValues [] refl
ref_data-HaveValues dir_symlink = all-HasValues [] refl
ref_data-HaveValues broken_symlink = all-HasValues [] refl
ref_data-HaveValues packages = all-HasValues [] refl

compare_data-AgreeOn_example :
    (◌≡◌ {A = ℕ} 1 0)
    ↔ ((t : DataType) → AgreeOn ignore_log (files_at ref_data t) (files_at test_data t))
unfolding lit
compare_data-AgreeOn_example =
    compare_data-AgreeOn ignore_log ref_data test_data (refl, (refl, (refl, tt)), tt)
      (refl, (refl, (refl, tt)), tt) ref_data-HaveValues compared
