-- ===== src/FsDiff/Laws/Dictionaries.antt =====
-- Dictionaries of files: looking up a name, and clearing its value.
use mathlib.Core.Path.{subst}
use xcp_ng_tests.Prelude.{
  ◌≡◌, refl, ap, ◌∙◌, ◌↔◌, Bool, true, false, Bool-cases, inl, inr, ◌&&◌, ◌||◌, Option, none, some,
  [], ◌∷◌, Text, text_eq, text_eq_iff, text_eq_refl, any, all, arith,
}
use xcp_ng_tests.FsDiff.{Files, value_of, clear_value, same_value}

abbrev pub has : Files → Text → Bool
has files name = any (λ f. text_eq f.0 name) files

-- A dictionary: no name occurs twice.
abbrev pub Distinct : Files → Type 0
Distinct [] = Unit
Distinct ((name, v) ∷ files) = (has files name ≡ false) × Distinct files

abbrev pub is_none : Option Text → Bool
is_none none = true
is_none (some t) = false

pub same_value_iff : (a b : Option Text) → (same_value a b ≡ true) ↔ (a ≡ b)
unfolding same_value
same_value_iff none none = (λ _. refl, λ _. refl)
same_value_iff none (some b) = (λ h. cc, λ h. cc)
same_value_iff (some a) none = (λ h. cc, λ h. cc)
same_value_iff (some a) (some b) =
    (λ h. ap some ((text_eq_iff a b).0 h), λ h. (text_eq_iff a b).1 (cc))

pub value_of-clear_value :
    (files : Files) (n m : Text)
    → text_eq n m ≡ false
    → value_of (clear_value n files) m ≡ value_of files m
unfolding value_of clear_value
value_of-clear_value [] n m h = refl
value_of-clear_value ((k, v) ∷ files) n m h = elim (Bool-cases (text_eq k n)) [
  | inl same ↦
      let e = (text_eq_iff k n).0 same in
      let other : text_eq k m ≡ false = rw e h in rw (same, other) refl
  | inr different ↦ rw different (ground (arith, value_of-clear_value files n m h))
]

pub clear_value_absent :
    (files : Files) (n : Text) → value_of files n ≡ none → clear_value n files ≡ files
unfolding value_of clear_value
clear_value_absent [] n h = refl
clear_value_absent ((k, v) ∷ files) n h = ground (arith, clear_value_absent files n)

pub text_eq-swap_false : (a b : Text) → text_eq a b ≡ false → text_eq b a ≡ false
text_eq-swap_false a b h = elim (Bool-cases (text_eq b a)) [
  | inl same ↦
      absurd (let e = (text_eq_iff b a).0 same in let h' = rw (e, text_eq_refl a) at h in cc)
  | inr other ↦ other
]

pub and_swap : (a b c : Bool) → (a && (b && c)) ≡ ((b && a) && c)
and_swap true true c = refl
and_swap true false c = refl
and_swap false true c = refl
and_swap false false c = refl

pub or_swap : (a b c : Bool) → ((a || b) || c) ≡ (a || (c || b))
or_swap true b c = refl
or_swap false true true = refl
or_swap false true false = refl
or_swap false false true = refl
or_swap false false false = refl

-- A name among those behind `k` is not `k`.
pub only_known :
    (k n name : Text) (files : Files)
    → k ≡ n
    → has files k ≡ false
    → has files name ≡ true
    → text_eq n name ≡ false
only_known k n name files is new there = elim (Bool-cases (text_eq n name)) [
  | inl same ↦ let e = is ∙ (text_eq_iff n name).0 same in absurd (let new' = rw e at new in cc)
  | inr other ↦ other
]

pub named_elsewhere :
    (p : Text → Bool) (n name : Text) → text_eq n name ≡ false → p name ≡ p name || text_eq n name
named_elsewhere p n name h = ground arith

pub covered : (p : Text → Bool) (n name : Text) → p n ≡ true → p name ≡ p name || text_eq n name
covered p n name h = elim (Bool-cases (text_eq n name)) [
  | inl same ↦ let e = (text_eq_iff n name).0 same in let h' = rw e at h in ground arith
  | inr other ↦ ground arith
]

has-clear_value : (n m : Text) (files : Files) → has (clear_value n files) m ≡ has files m
unfolding clear_value
has-clear_value n m [] = refl
has-clear_value n m ((k, v) ∷ files) = elim (Bool-cases (text_eq k n)) [
  | inl same ↦ rw same refl
  | inr other ↦ rw other (ap (λ b. text_eq k m || b) (has-clear_value n m files))
]

pub Distinct-clear_value :
    (n : Text) (files : Files) → Distinct files → Distinct (clear_value n files)
unfolding clear_value
Distinct-clear_value n [] d = tt
Distinct-clear_value n ((k, v) ∷ files) (new, d) = elim (Bool-cases (text_eq k n)) [
  | inl same ↦ rw same (new, d)
  | inr other ↦ rw other (has-clear_value n k files ∙ new, Distinct-clear_value n files d)
]

-- A test that all entries pass is passed by the value of each name, and the other way round.
pub all-value_of :
    (p : Text × Option Text → Bool) (files : Files) (name : Text) (v : Option Text)
    → all p files ≡ true
    → value_of files name ≡ some v
    → p (name, v) ≡ true
unfolding value_of
all-value_of p [] name v h e = absurd (cc)
all-value_of p ((k, w) ∷ files) name v h e = elim (Bool-cases (text_eq k name)) [
  | inl same ↦
      let is = (text_eq_iff k name).0 same in
      let val : some w ≡ some v = rw same at e in
      let here : p (k, w) ≡ true = ground arith in
      let w_is_v : w ≡ v = cc in
      subst (λ n. p (n, v) ≡ true) is (subst (λ x. p (k, x) ≡ true) w_is_v here)
  | inr other ↦ all-value_of p files name v (ground arith) (rw other at e)
]

value_of-none : (files : Files) (name : Text) → has files name ≡ false → value_of files name ≡ none
unfolding value_of
value_of-none [] name h = refl
value_of-none ((k, v) ∷ files) name h = ground (arith, value_of-none files name)

pub has-of_none :
    (files : Files) (name : Text) → value_of files name ≡ none → has files name ≡ false
unfolding value_of
has-of_none [] name h = refl
has-of_none ((k, v) ∷ files) name h = ground (arith, has-of_none files name)

pub has-of_some :
    (files : Files) (name : Text) (v : Option Text)
    → value_of files name ≡ some v
    → has files name ≡ true
has-of_some files name v h = elim (Bool-cases (has files name)) [
  | inl there ↦ there
  | inr missing ↦ absurd (let e = value_of-none files name missing in cc)
]

pub all-of-value_of :
    (p : Text × Option Text → Bool) (files : Files)
    → Distinct files
    → ((name : Text) (v : Option Text) → value_of files name ≡ some v → p (name, v) ≡ true)
    → all p files ≡ true
unfolding value_of
all-of-value_of p [] d h = refl
all-of-value_of p ((k, v) ∷ files) (new, d) h =
    let here : p (k, v) ≡ true = h k v (rw (text_eq_refl k) refl) in
    let rest = all-of-value_of p files d λ name w e. h name w (elim (Bool-cases (text_eq k name)) [
      | inl same ↦
          let is = (text_eq_iff k name).0 same in
          let gone = value_of-none files k new in absurd (let e' = rw (← is) at e in cc)
      | inr other ↦ rw other e
    ]) in
    ground arith

-- Dictionaries without an entry that is `None`, such as those that a host is read into.
abbrev pub HasValues : Files → Type 0
HasValues files = (name : Text) (v : Option Text) → value_of files name ≡ some v → is_none v ≡ false
