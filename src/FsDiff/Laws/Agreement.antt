-- ===== src/FsDiff/Laws/Agreement.antt =====
-- The error code of a comparison against an independent description of what it means that two hosts
-- agree.
use mathlib.Core.Path.{subst}
use xcp_ng_tests.Prelude.{
  ◌≡◌, refl, sym, ap, ◌∙◌, ◌↔◌, Bool, true, false, Bool-cases, inl, inr, ◌&&◌, ◌||◌, ◌==◌, ==_iff,
  [], ◌∷◌, Text, any, all, arith, if◌then◌else◌,
}
use xcp_ng_tests.Effect.{ok}
use xcp_ng_tests.Effect.Laws.{bind-eq-ok, ok-inj}
use xcp_ng_tests.FsDiff.{
  DataType, file, file_symlink, dir_symlink, broken_symlink, packages, same_type, Files, Data,
  Report, files_of, set_files, compare_files, compare_test, orphan_files, compare_ref, compare_data,
}
use xcp_ng_tests.FsDiff.Laws.Dictionaries.{Distinct, HasValues, and_swap}
use xcp_ng_tests.FsDiff.Laws.OneType.{
  AgreeOn, fine, quiet, clear_all, compare_files_err, compare_files_ref, orphan_files_err,
  finds_nothing→AgreeOn, AgreeOn→finds_nothing, Distinct-clear_all,
}

same_type_refl : (t : DataType) → same_type t t ≡ true
unfolding same_type
same_type_refl file = refl
same_type_refl file_symlink = refl
same_type_refl dir_symlink = refl
same_type_refl broken_symlink = refl
same_type_refl packages = refl

same_type→eq : (t u : DataType) → same_type t u ≡ true → t ≡ u
unfolding same_type
same_type→eq file file h = refl
same_type→eq file_symlink file_symlink h = refl
same_type→eq dir_symlink dir_symlink h = refl
same_type→eq broken_symlink broken_symlink h = refl
same_type→eq packages packages h = refl
same_type→eq t u h = absurd (cc)

same_type-swap_false : (t u : DataType) → same_type t u ≡ false → same_type u t ≡ false
same_type-swap_false t u h = elim (Bool-cases (same_type u t)) [
  | inl same ↦
      let e = same_type→eq u t same in
      let h' = subst (λ x. same_type t x ≡ false) e h in absurd (let r = same_type_refl t in cc)
  | inr other ↦ other
]

-- The files of a type; none if the type is not there.
abbrev pub files_at : Data → DataType → Files
files_at [] t = []
files_at ((u, files) ∷ d) t = if same_type u t then files else files_at d t

abbrev has_type : Data → DataType → Bool
has_type d t = any (λ e. same_type e.0 t) d

-- A dictionary of dictionaries.
abbrev pub IsData : Data → Type 0
IsData [] = Unit
IsData ((t, files) ∷ d) = (has_type d t ≡ false) × Distinct files × IsData d

files_of-files_at :
    (d : Data) (t : DataType) {files : Files} → files_of d t ≡ ok files → files_at d t ≡ files
unfolding files_of
files_of-files_at [] t e = absurd (cc)
files_of-files_at ((u, fs) ∷ d) t e = elim (Bool-cases (same_type u t)) [
  | inl same ↦ rw same (ok-inj (rw same at e))
  | inr other ↦ rw other (files_of-files_at d t (rw other at e))
]

files_at-missing : (d : Data) (t : DataType) → has_type d t ≡ false → files_at d t ≡ []
files_at-missing [] t h = refl
files_at-missing ((u, files) ∷ d) t h = ground (arith, files_at-missing d t)

-- A type without files.
files_at-empty :
    (d : Data) (t u : DataType) → has_type d t ≡ false → files_at ((t, []) ∷ d) u ≡ files_at d u
files_at-empty d t u h = elim (Bool-cases (same_type t u)) [
  | inl same ↦
      rw same
        (sym (subst (λ x. files_at d x ≡ []) (same_type→eq t u same) (files_at-missing d t h)))
  | inr other ↦ rw other refl
]

files_at-Distinct : (d : Data) (t : DataType) → IsData d → Distinct (files_at d t)
files_at-Distinct [] t h = tt
files_at-Distinct ((u, files) ∷ d) t (new, here, h) = elim (Bool-cases (same_type u t)) [
  | inl same ↦ rw same here
  | inr other ↦ rw other (files_at-Distinct d t h)
]

-- A write to the files of one type, read at it and at another.
files_at-set_files :
    (d : Data) (t : DataType) (new : Files) {files : Files}
    → files_of d t ≡ ok files
    → files_at (set_files t new d) t ≡ new
unfolding files_of set_files
files_at-set_files [] t new e = absurd (cc)
files_at-set_files ((u, fs) ∷ d) t new e = elim (Bool-cases (same_type u t)) [
  | inl same ↦ rw (same, same) refl
  | inr other ↦ rw (other, other) (files_at-set_files d t new (rw other at e))
]

files_at-set_files_ne :
    (d : Data) (t u : DataType) (new : Files)
    → same_type t u ≡ false
    → files_at (set_files t new d) u ≡ files_at d u
unfolding set_files
files_at-set_files_ne [] t u new h = refl
files_at-set_files_ne ((w, fs) ∷ d) t u new h = elim (Bool-cases (same_type w t)) [
  | inl same ↦
      let is = same_type→eq w t same in
      let other = subst (λ x. same_type x u ≡ false) (sym is) h in rw (same, other) refl
  | inr other ↦ rw other (ground (arith, files_at-set_files_ne d t u new h))
]

has_type-set_files :
    (d : Data) (t u : DataType) (new : Files) → has_type (set_files t new d) u ≡ has_type d u
unfolding set_files
has_type-set_files [] t u new = refl
has_type-set_files ((w, fs) ∷ d) t u new = elim (Bool-cases (same_type w t)) [
  | inl same ↦ rw same refl
  | inr other ↦ rw other (ap (λ b. same_type w u || b) (has_type-set_files d t u new))
]

set_files-IsData :
    (d : Data) (t : DataType) (new : Files) → Distinct new → IsData d → IsData (set_files t new d)
unfolding set_files
set_files-IsData [] t new n h = tt
set_files-IsData ((w, fs) ∷ d) t new n (absent, here, h) = elim (Bool-cases (same_type w t)) [
  | inl same ↦ rw same (absent, n, h)
  | inr other ↦ rw other (has_type-set_files d t w new ∙ absent, here, set_files-IsData d t new n h)
]

-- A test of all types is one of each.
module _ (p : DataType → Files → Bool) where
  all-files_at :
      (d : Data) (t : DataType)
      → p t [] ≡ true
      → all (λ e. p e.0 e.1) d ≡ true
      → p t (files_at d t) ≡ true
  all-files_at [] t empty h = empty
  all-files_at ((u, files) ∷ d) t empty h = elim (Bool-cases (same_type u t)) [
    | inl same ↦
        let here : p u files ≡ true = ground arith in
        rw same (subst (λ x. p x files ≡ true) (same_type→eq u t same) here)
    | inr other ↦ rw other (all-files_at d t empty (ground arith))
  ]

  all-of-files_at :
      (d : Data)
      → IsData d
      → ((t : DataType) → p t [] ≡ true)
      → ((t : DataType) → p t (files_at d t) ≡ true)
      → all (λ e. p e.0 e.1) d ≡ true
  all-of-files_at [] i empty h = refl
  all-of-files_at ((u, files) ∷ d) (new, here, i) empty h =
      let first : p u files ≡ true = rw (same_type_refl u) at (h u) in
      let rest = all-of-files_at d i empty λ t. elim (Bool-cases (same_type u t)) [
        | inl same ↦
            let gone =
              subst (λ x. files_at d x ≡ []) (same_type→eq u t same) (files_at-missing d u new) in
            subst (λ f. p t f ≡ true) (sym gone) (empty t)
        | inr other ↦ rw other at (h t)
      ] in
      ground (arith, first, rest)

module _ (ignored : Text → Bool) where
  -- The first loop finds nothing to report about the files of the test host.
  abbrev fine_data : Data → Data → Bool
  fine_data ref test = all (λ e. all (fine ignored (files_at ref e.0)) e.1) test

  fine_data-set_files :
      (ref test : Data) (t : DataType) (new : Files)
      → has_type test t ≡ false
      → fine_data (set_files t new ref) test ≡ fine_data ref test
  fine_data-set_files ref [] t new h = refl
  fine_data-set_files ref ((u, files) ∷ test) t new h =
      let other : same_type u t ≡ false = ground arith in
      let at = files_at-set_files_ne ref t u new (same_type-swap_false u t other) in
      ap (λ f. all (fine ignored f) files && fine_data (set_files t new ref) test) at
      ∙ ap (λ b. all (fine ignored (files_at ref u)) files && b)
          (fine_data-set_files ref test t new (ground arith))

  -- What the first loop returns, against what it was given.
  record IsCompared (ref test : Data) (r : Report) (ref' : Data) (r' : Report) : Type 0 where
    well : IsData ref'
    reports : (r'.err == 0) ≡ (fine_data ref test && (r.err == 0))
    clears : (t : DataType) → files_at ref' t ≡ clear_all ignored (files_at test t) (files_at ref t)

  compare_test-IsCompared :
      (test ref : Data) (r : Report) {ref' : Data} {r' : Report}
      → IsData test
      → IsData ref
      → compare_test ignored test (ref, r) ≡ ok (ref', r')
      → IsCompared ref test r ref' r'
  unfolding compare_test
  compare_test-IsCompared [] ref r h i e =
      subst (λ q. IsCompared ref [] r q.0 q.1) (ok-inj e)
        (record { well = i; reports = refl; clears = λ t. refl })
  compare_test-IsCompared ((t, []) ∷ more) ref r (new, d, h) i e =
      let ih = compare_test-IsCompared more ref r h i e in
      record {
        well = ih.well;
        reports = ih.reports;
        clears = λ u.
            ih.clears u
            ∙ ap (λ fs. clear_all ignored fs (files_at ref u)) (sym (files_at-empty more t u new));
      }
  compare_test-IsCompared ((t, f ∷ files) ∷ more) ref r (new, d, h) i e =
      let (ref_files, ef, e₁) = bind-eq-ok (files_of ref t) _ e in
      let p = compare_files ignored t (f ∷ files) (ref_files, r) in
      let ref₁ = set_files t p.0 ref in
      let at = files_of-files_at ref t ef in
      let clear = compare_files_ref ignored t (f ∷ files) ref_files r in
      let whole =
        Distinct-clear_all ignored (f ∷ files) ref_files
          (subst Distinct at (files_at-Distinct ref t i)) in
      let well₁ = set_files-IsData ref t p.0 (subst Distinct (sym clear) whole) i in
      let ih = compare_test-IsCompared more ref₁ p.1 h well₁ e₁ in
      record {
        well = ih.well;
        reports =
            ih.reports
            ∙ ap (λ b. b && (p.1.err == 0)) (fine_data-set_files ref more t p.0 new)
            ∙ ap (λ b. fine_data ref more && b)
                (compare_files_err ignored t (f ∷ files) ref_files r d)
            ∙ and_swap (fine_data ref more) (all (fine ignored ref_files) (f ∷ files)) (r.err == 0)
            ∙ ap (λ fs. (all (fine ignored fs) (f ∷ files) && fine_data ref more) && (r.err == 0))
                (sym at);
        clears = λ u. elim (Bool-cases (same_type t u)) [
          | inl same ↦
              let is = same_type→eq t u same in
              let gone = subst (λ x. files_at more x ≡ []) is (files_at-missing more t new) in
              let written =
                subst (λ x. files_at ref₁ x ≡ p.0) is (files_at-set_files ref t p.0 ef) in
              let read = subst (λ x. files_at ref x ≡ ref_files) is at in
              let head : files_at ((t, f ∷ files) ∷ more) u ≡ f ∷ files = rw same refl in
              ih.clears u
              ∙ ap (λ fs. clear_all ignored fs (files_at ref₁ u)) gone
              ∙ written
              ∙ clear
              ∙ ap (clear_all ignored (f ∷ files)) (sym read)
              ∙ ap (λ fs. clear_all ignored fs (files_at ref u)) (sym head)
          | inr other ↦
              let head : files_at ((t, f ∷ files) ∷ more) u ≡ files_at more u = rw other refl in
              ih.clears u
              ∙ ap (clear_all ignored (files_at more u)) (files_at-set_files_ne ref t u p.0 other)
              ∙ ap (λ fs. clear_all ignored fs (files_at ref u)) (sym head)
        ];
      }

  compare_ref_err :
      (d : Data) (r : Report)
      → ((compare_ref ignored d r).err == 0)
        ≡ (all (λ e. all (quiet ignored) e.1) d && (r.err == 0))
  unfolding compare_ref
  compare_ref_err [] r = refl
  compare_ref_err ((t, files) ∷ d) r =
      compare_ref_err d (orphan_files ignored t files r)
      ∙ ap (λ b. all (λ e. all (quiet ignored) e.1) d && b) (orphan_files_err ignored t files r)
      ∙ and_swap (all (λ e. all (quiet ignored) e.1) d) (all (quiet ignored) files) (r.err == 0)

  -- For each type the dictionaries hold a value under every name of the reference host.
  abbrev pub HaveValues : Data → Type 0
  HaveValues d = (t : DataType) → HasValues (files_at d t)

  found_nothing→AgreeOn :
      (ref test ref' : Data) (t : DataType)
      → IsData ref
      → HasValues (files_at ref t)
      → files_at ref' t ≡ clear_all ignored (files_at test t) (files_at ref t)
      → all (λ e. all (quiet ignored) e.1) ref' && (fine_data ref test && true) ≡ true
      → AgreeOn ignored (files_at ref t) (files_at test t)
  found_nothing→AgreeOn ref test ref' t i values clears h =
      let first =
        all-files_at (λ u fs. all (fine ignored (files_at ref u)) fs) test t refl (ground arith) in
      let second = all-files_at (λ u fs. all (quiet ignored) fs) ref' t refl (ground arith) in
      let second' = subst (λ fs. all (quiet ignored) fs ≡ true) clears second in
      finds_nothing→AgreeOn ignored (files_at ref t) (files_at test t) (files_at-Distinct ref t i)
        values (ground (arith, first, second'))

  AgreeOn→found_nothing :
      (ref test ref' : Data)
      → IsData ref
      → IsData test
      → IsData ref'
      → ((t : DataType) → files_at ref' t ≡ clear_all ignored (files_at test t) (files_at ref t))
      → ((t : DataType) → AgreeOn ignored (files_at ref t) (files_at test t))
      → all (λ e. all (quiet ignored) e.1) ref' && (fine_data ref test && true) ≡ true
  AgreeOn→found_nothing ref test ref' i j i' clears agree =
      let nothing = λ (t : DataType).
        AgreeOn→finds_nothing ignored (files_at ref t) (files_at test t) (files_at-Distinct ref t i)
          (files_at-Distinct test t j) (agree t) in
      let first =
        all-of-files_at (λ u fs. all (fine ignored (files_at ref u)) fs) test j (λ t. refl)
          (λ t. let n = nothing t in ground (arith, n)) in
      let second =
        all-of-files_at (λ u fs. all (quiet ignored) fs) ref' i' (λ t. refl)
          (λ t.
            subst (λ fs. all (quiet ignored) fs ≡ true) (sym (clears t))
              (let n = nothing t in ground (arith, n))) in
      ground (arith, first, second)

  -- Whenever `compare_data` returns for two dictionaries of dictionaries of which that of the
  -- reference host holds no `None`, its error code is 0 exactly if for each type the two hosts agree
  -- on every name that is not ignored: both have it with the same value, or none of them has it.
  pub compare_data-AgreeOn :
      (ref test : Data) {r : Report}
      → IsData ref
      → IsData test
      → HaveValues ref
      → compare_data ignored ref test ≡ ok r
      → (r.err ≡ 0) ↔ ((t : DataType) → AgreeOn ignored (files_at ref t) (files_at test t))
  unfolding compare_data
  compare_data-AgreeOn ref test {r} i j values e =
      let (q, eq, e₁) = bind-eq-ok (compare_test ignored test (ref, _)) _ e in
      let c = compare_test-IsCompared test ref _ j i eq in
      let total =
        ap (λ s. s.err == 0) (sym (ok-inj e₁))
        ∙ compare_ref_err q.0 q.1
        ∙ ap (λ b. all (λ f. all (quiet ignored) f.1) q.0 && b) c.reports in
      (
        λ zero t.
            found_nothing→AgreeOn ref test q.0 t i (values t) (c.clears t)
              (sym total ∙ (==_iff r.err 0).1 zero),
        λ agree.
            (==_iff r.err 0).0
              (total ∙ AgreeOn→found_nothing ref test q.0 i j c.well c.clears agree),
      )
