-- ===== src/FsDiff/Laws/OneType.antt =====
-- Two lists of files are found equal exactly if they agree on every name that is not ignored.
use xcp_ng_tests.Prelude.{
  ◌≡◌, refl, sym, ap, ◌∙◌, Bool, true, false, Bool-cases, Option-cases, inl, inr, ◌&&◌, ◌||◌, ◌==◌,
  Option, none, some, [], ◌∷◌, Text, text_eq, text_eq_iff, text_eq_refl, all, arith, if◌then◌else◌,
}
use xcp_ng_tests.FsDiff.{
  DataType, Files, Report, value_of, clear_value, same_value, report_difference, report_ignored,
  compare_file, compare_files, orphan_file, orphan_files,
}
use xcp_ng_tests.FsDiff.Laws.Dictionaries.{
  has, Distinct, is_none, same_value_iff, value_of-clear_value, clear_value_absent,
  text_eq-swap_false, and_swap, or_swap, only_known, named_elsewhere, covered, Distinct-clear_value,
  all-value_of, has-of_none, has-of_some, all-of-value_of, HasValues,
}

module _ (ignored : Text → Bool) where
  -- The two hosts agree on every name that is not ignored: both have the file with the same value,
  -- or none of them has it.
  abbrev pub AgreeOn : Files → Files → Type 0
  AgreeOn ref test = (name : Text) → ignored name ≡ false → value_of ref name ≡ value_of test name

  abbrev matches : Option (Option Text) → Option Text → Bool
  matches none test = false
  matches (some ref) test = same_value ref test

  -- Whether the first loop finds nothing to report about an entry of the test host.
  abbrev pub fine : Files → Text × Option Text → Bool
  fine ref f = ignored f.0 || matches (value_of ref f.0) f.1

  -- Whether the second loop finds nothing to report about an entry of the reference host.
  abbrev pub quiet : Text × Option Text → Bool
  quiet f = ignored f.0 || is_none f.1

  abbrev cleared : Text → Files → Files
  cleared name ref = if ignored name then ref else clear_value name ref

  abbrev pub clear_all : Files → Files → Files
  clear_all [] ref = ref
  clear_all ((name, v) ∷ files) ref = clear_all files (cleared name ref)

  compare_file_err :
      (dtype : DataType) (name : Text) (test : Option Text) (ref : Files) (r : Report)
      → ((compare_file ignored dtype name test (ref, r)).1.err == 0)
        ≡ (fine ref (name, test) && (r.err == 0))
  unfolding compare_file report_ignored report_difference
  compare_file_err dtype name test ref r = elim (Bool-cases (ignored name)) [
    | inl skipped ↦ rw skipped refl
    | inr kept ↦ elim (Option-cases (value_of ref name)) [
      | inl absent ↦ rw (kept, absent) refl
      | inr (v, found) ↦ elim (Bool-cases (same_value v test)) [
        | inl same ↦ rw (kept, found, same) refl
        | inr other ↦ rw (kept, found, other) refl
      ]
    ]
  ]

  compare_file_ref :
      (dtype : DataType) (name : Text) (test : Option Text) (ref : Files) (r : Report)
      → (compare_file ignored dtype name test (ref, r)).0 ≡ cleared name ref
  unfolding compare_file
  compare_file_ref dtype name test ref r = elim (Bool-cases (ignored name)) [
    | inl skipped ↦ rw skipped refl
    | inr kept ↦ elim (Option-cases (value_of ref name)) [
      | inl absent ↦ rw (kept, absent) (sym (clear_value_absent ref name absent))
      | inr (v, found) ↦ rw (kept, found) refl
    ]
  ]

  value_of-cleared :
      (ref : Files) (n m : Text) → text_eq n m ≡ false → value_of (cleared n ref) m ≡ value_of ref m
  value_of-cleared ref n m h = elim (Bool-cases (ignored n)) [
    | inl skipped ↦ rw skipped refl
    | inr kept ↦ rw kept (value_of-clear_value ref n m h)
  ]

  -- Clearing one name changes nothing for the files of other names.
  all-fine-cleared :
      (n : Text) (ref files : Files)
      → has files n ≡ false
      → all (fine (cleared n ref)) files ≡ all (fine ref) files
  all-fine-cleared n ref [] h = refl
  all-fine-cleared n ref ((m, v) ∷ files) h =
      let rest = all-fine-cleared n ref files (ground arith) in
      let other = text_eq-swap_false m n (ground arith) in
      ap (λ w. (ignored m || matches w v) && all (fine (cleared n ref)) files)
        (value_of-cleared ref n m other)
      ∙ ap (λ b. fine ref (m, v) && b) rest

  pub compare_files_err :
      (dtype : DataType) (files ref : Files) (r : Report)
      → Distinct files
      → ((compare_files ignored dtype files (ref, r)).1.err == 0)
        ≡ (all (fine ref) files && (r.err == 0))
  unfolding compare_files
  compare_files_err dtype [] ref r d = refl
  compare_files_err dtype ((name, v) ∷ files) ref r (new, d) =
      let p = compare_file ignored dtype name v (ref, r) in
      let ih = compare_files_err dtype files p.0 p.1 d in
      let at = ap (λ s. all (fine s) files) (compare_file_ref dtype name v ref r) in
      let same = all-fine-cleared name ref files new in
      let first = compare_file_err dtype name v ref r in
      ih
      ∙ ap (λ b. b && (p.1.err == 0)) (at ∙ same)
      ∙ ap (λ b. all (fine ref) files && b) first
      ∙ and_swap (all (fine ref) files) (fine ref (name, v)) (r.err == 0)

  pub compare_files_ref :
      (dtype : DataType) (files ref : Files) (r : Report)
      → (compare_files ignored dtype files (ref, r)).0 ≡ clear_all files ref
  unfolding compare_files
  compare_files_ref dtype [] ref r = refl
  compare_files_ref dtype ((name, v) ∷ files) ref r =
      let p = compare_file ignored dtype name v (ref, r) in
      compare_files_ref dtype files p.0 p.1
      ∙ ap (clear_all files) (compare_file_ref dtype name v ref r)

  orphan_file_err :
      (dtype : DataType) (name : Text) (v : Option Text) (r : Report)
      → ((orphan_file ignored dtype name v r).err == 0) ≡ (quiet (name, v) && (r.err == 0))
  unfolding orphan_file report_ignored
  orphan_file_err dtype name none r = elim (Bool-cases (ignored name)) [
    | inl skipped ↦ rw skipped refl
    | inr kept ↦ rw kept refl
  ]
  orphan_file_err dtype name (some v) r = elim (Bool-cases (ignored name)) [
    | inl skipped ↦ rw skipped refl
    | inr kept ↦ rw kept refl
  ]

  pub orphan_files_err :
      (dtype : DataType) (files : Files) (r : Report)
      → ((orphan_files ignored dtype files r).err == 0) ≡ (all quiet files && (r.err == 0))
  unfolding orphan_files
  orphan_files_err dtype [] r = refl
  orphan_files_err dtype ((name, v) ∷ files) r =
      let r' = orphan_file ignored dtype name v r in
      orphan_files_err dtype files r'
      ∙ ap (λ b. all quiet files && b) (orphan_file_err dtype name v r)
      ∙ and_swap (all quiet files) (quiet (name, v)) (r.err == 0)

  -- The second loop over what the first has cleared: an entry is reported unless it is ignored or
  -- without a value, or the first loop saw its name.
  abbrev excused : (Text → Bool) → Text × Option Text → Bool
  excused seen f = seen f.0 || is_none f.1

  all-excused_ext :
      (p q : Text → Bool) (files : Files)
      → ((name : Text) → has files name ≡ true → p name ≡ q name)
      → all (excused p) files ≡ all (excused q) files
  all-excused_ext p q [] h = refl
  all-excused_ext p q ((k, v) ∷ files) h =
      let here = h k (rw (text_eq_refl k) refl) in
      let rest = all-excused_ext p q files (λ name m. h name (ground arith)) in
      ap (λ b. (b || is_none v) && all (excused p) files) here
      ∙ ap (λ b. (q k || is_none v) && b) rest

  abbrev or_named : (Text → Bool) → Text → Text → Bool
  or_named p n m = p m || text_eq n m

  all-excused-clear_value :
      (p : Text → Bool) (n : Text) (files : Files)
      → Distinct files
      → all (excused p) (clear_value n files) ≡ all (excused (or_named p n)) files
  unfolding clear_value
  all-excused-clear_value p n [] d = refl
  all-excused-clear_value p n ((k, v) ∷ files) (new, d) = elim (Bool-cases (text_eq k n)) [
    | inl same ↦
        let is = (text_eq_iff k n).0 same in
        let swapped : text_eq n k ≡ true = (text_eq_iff n k).1 (sym is) in
        let rest =
          all-excused_ext p (or_named p n) files
            (λ name m. named_elsewhere p n name (only_known k n name files is new m)) in
        rw same (ground (arith, rest, swapped))
    | inr other ↦
        let swapped = text_eq-swap_false k n other in
        rw other (ground (arith, all-excused-clear_value p n files d, swapped))
  ]

  Distinct-cleared : (n : Text) (ref : Files) → Distinct ref → Distinct (cleared n ref)
  Distinct-cleared n ref d = elim (Bool-cases (ignored n)) [
    | inl skipped ↦ rw skipped d
    | inr kept ↦ rw kept (Distinct-clear_value n ref d)
  ]

  all-excused-cleared :
      (p : Text → Bool) (n : Text) (ref : Files)
      → ((m : Text) → ignored m ≡ true → p m ≡ true)
      → Distinct ref
      → all (excused p) (cleared n ref) ≡ all (excused (or_named p n)) ref
  all-excused-cleared p n ref covers d = elim (Bool-cases (ignored n)) [
    | inl skipped ↦
        rw skipped
          (all-excused_ext p (or_named p n) ref (λ name m. covered p n name (covers n skipped)))
    | inr kept ↦ rw kept (all-excused-clear_value p n ref d)
  ]

  all-excused-clear_all :
      (p : Text → Bool) (files ref : Files)
      → ((m : Text) → ignored m ≡ true → p m ≡ true)
      → Distinct ref
      → all (excused p) (clear_all files ref) ≡ all (excused (λ m. p m || has files m)) ref
  all-excused-clear_all p [] ref covers d =
      all-excused_ext p (λ m. p m || false) ref (λ m h. ground arith)
  all-excused-clear_all p ((n, v) ∷ files) ref covers d =
      all-excused-clear_all p files (cleared n ref) covers (Distinct-cleared n ref d)
      ∙ all-excused-cleared (λ m. p m || has files m) n ref
          (λ m h. let c = covers m h in ground arith) d
      ∙ all-excused_ext (or_named (λ m. p m || has files m) n) (λ m. p m || has ((n, v) ∷ files) m)
          ref (λ m h. or_swap (p m) (has files m) (text_eq n m))

  pub Distinct-clear_all : (files ref : Files) → Distinct ref → Distinct (clear_all files ref)
  Distinct-clear_all [] ref d = d
  Distinct-clear_all ((n, v) ∷ files) ref d =
      Distinct-clear_all files (cleared n ref) (Distinct-cleared n ref d)

  -- Both loops over the files of one type find nothing to report exactly if the hosts agree.
  abbrev pub finds_nothing : Files → Files → Bool
  finds_nothing ref test = all (fine ref) test && all quiet (clear_all test ref)

  pub finds_nothing→AgreeOn :
      (ref test : Files)
      → Distinct ref
      → HasValues ref
      → finds_nothing ref test ≡ true
      → AgreeOn ref test
  finds_nothing→AgreeOn ref test d values h name kept =
      let first : all (fine ref) test ≡ true = ground arith in
      let second : all quiet (clear_all test ref) ≡ true = ground arith in
      let second' = sym (all-excused-clear_all ignored test ref (λ m k. k) d) ∙ second in
      elim (Option-cases (value_of test name)) [
        | inl absent ↦ elim (Option-cases (value_of ref name)) [
          | inl absent' ↦ absent' ∙ sym absent
          | inr (v, found) ↦
              let excuse =
                all-value_of (excused (λ m. ignored m || has test m)) ref name v second' found in
              let value = values name v found in
              let unseen = has-of_none test name absent in absurd (ground arith)
        ]
        | inr (t, found) ↦
            let here = all-value_of (fine ref) test name t first found in
            elim (Option-cases (value_of ref name)) [
              | inl absent ↦ absurd (let here' = rw (kept, absent) at here in cc)
              | inr (v, found') ↦
                  let same = (same_value_iff v t).0 (rw (kept, found') at here) in
                  found' ∙ ap some same ∙ sym found
            ]
      ]

  pub AgreeOn→finds_nothing :
      (ref test : Files)
      → Distinct ref
      → Distinct test
      → AgreeOn ref test
      → finds_nothing ref test ≡ true
  AgreeOn→finds_nothing ref test d d' agree =
      let first = all-of-value_of (fine ref) test d' (λ name t e. elim (Bool-cases (ignored name)) [
        | inl skipped ↦ rw skipped refl
        | inr kept ↦ rw (kept, agree name kept ∙ e) ((same_value_iff t t).1 refl)
      ]) in
      let second = all-of-value_of (excused (λ m. ignored m || has test m)) ref d (λ name v e.
        elim (Bool-cases (ignored name)) [
          | inl skipped ↦ rw skipped refl
          | inr kept ↦
              let seen = has-of_some test name v (sym (agree name kept) ∙ e) in rw (kept, seen) refl
        ]) in
      let second' = all-excused-clear_all ignored test ref (λ m k. k) d ∙ second in
      ground (arith, first, second')
