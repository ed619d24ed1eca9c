-- ===== src/Tools/Laws.antt =====
-- When the check of the consistency of the packages stays silent.
use mathlib.Core.Path.{subst}
use xcp_ng_tests.Prelude.{
  ℕ, length, ◌≡◌, refl, sym, ap, ◌∙◌, ◌↔◌, Bool, true, false, not, ◌&&◌, Bool-cases, inl, inr, List,
  [], ◌∷◌, Text, text_eq, text_eq_iff, text_eq_refl, contains, any, all, select,
}
use xcp_ng_tests.Effect.{ok}
use xcp_ng_tests.Effect.Laws.{ok-inj, bind-eq-ok}
use xcp_ng_tests.Tools.{
  Target, Installed, Log, intersect, is_subset, set_eq, intersect_all, intersection, values, is_key,
  filter_packages, inconsistent, warn_inconsistent, check_consistency,
}

contains-select_at :
    (p : Text → Bool) (s : Text) (xs : List Text) (x : Text)
    → contains (select p xs) x ≡ (p x && contains xs x)
    → contains (select p (s ∷ xs)) x ≡ (p x && contains (s ∷ xs) x)
contains-select_at p s xs x h = elim (Bool-cases (p s)) [
  | inl chosen ↦ elim (Bool-cases (text_eq s x)) [
    | inl same ↦ let e = sym (ap p ((text_eq_iff s x).0 same)) ∙ chosen in rw (chosen, same, e)
    | inr other ↦ rw (chosen, other, h)
  ]
  | inr left ↦ elim (Bool-cases (text_eq s x)) [
    | inl same ↦ let e = sym (ap p ((text_eq_iff s x).0 same)) ∙ left in rw (left, h, e)
    | inr other ↦ rw (left, other, h)
  ]
]

and_false : (b : Bool) → (b && false) ≡ false
and_false true = refl
and_false false = refl

-- A set comprehension with a test.
pub contains-select :
    (p : Text → Bool) (xs : List Text) (x : Text)
    → contains (select p xs) x ≡ (p x && contains xs x)
contains-select p [] x = sym (and_false (p x))
contains-select p (s ∷ xs) x = contains-select_at p s xs x (contains-select p xs x)

and_swap : (a b : Bool) → (a && b) ≡ (b && a)
and_swap true true = refl
and_swap true false = refl
and_swap false true = refl
and_swap false false = refl

and_assoc : (a b c : Bool) → ((a && b) && c) ≡ (a && (b && c))
and_assoc true b c = refl
and_assoc false b c = refl

contains-intersect_all :
    (s : List Text) (sets : List (List Text)) (x : Text)
    → contains (intersect_all s sets) x ≡ (contains s x && all (λ t. contains t x) sets)
unfolding intersect_all
contains-intersect_all s [] x = and_swap true (contains s x)
contains-intersect_all s (t ∷ sets) x =
    contains-intersect_all (intersect s t) sets x
    ∙ ap (λ b. b && all (λ t. contains t x) sets)
        (contains-select (contains t) s x ∙ and_swap (contains t x) (contains s x))
    ∙ and_assoc (contains s x) (contains t x) (all (λ t. contains t x) sets)

and-eq-true : (a b : Bool) → (a && b) ≡ true → (a ≡ true) × (b ≡ true)
and-eq-true true b h = (refl, h)
and-eq-true false b h = absurd (cc)

-- A subset holds each element, and is one if each element is in the other.
is_subset-contains :
    (a b : List Text) (x : Text) → is_subset a b ≡ true → contains a x ≡ true → contains b x ≡ true
is_subset-contains [] b x h i = absurd (cc)
is_subset-contains (s ∷ a) b x h i =
    let (here, rest) = and-eq-true (contains b s) (is_subset a b) h in
    elim (Bool-cases (text_eq s x)) [
      | inl same ↦ subst (λ y. contains b y ≡ true) ((text_eq_iff s x).0 same) here
      | inr other ↦ is_subset-contains a b x rest (rw other at i)
    ]

is_subset_of :
    (a b : List Text)
    → ((x : Text) → contains a x ≡ true → contains b x ≡ true)
    → is_subset a b ≡ true
is_subset_of [] b h = refl
is_subset_of (s ∷ a) b h = rw (
  h s (rw (text_eq_refl s)),
  is_subset_of a b (λ x i.
      h x (elim (Bool-cases (text_eq s x)) [ inl same ↦ rw same | inr other ↦ rw (other, i) ])),
)

abbrev has : Text → Target × List Text → Bool
has x e = contains e.1 x

-- The packages of a host are those of a set, but for the keys of GPG.
abbrev same : List Text → Target × List Text → Bool
same common_set e = set_eq (filter_packages e.1) (filter_packages common_set)

-- What one host has, less the keys of GPG, all have.
abbrev pub IsConsistent : Installed → Type 0
IsConsistent installed =
    (x : Text) → is_key x ≡ false → any (has x) installed ≡ true → all (has x) installed ≡ true

all-values :
    (installed : Installed) (x : Text)
    → all (λ t. contains t x) (values installed) ≡ all (has x) installed
all-values [] x = refl
all-values ((h, pkgs) ∷ installed) x = ap (λ b. contains pkgs x && b) (all-values installed x)

intersection-contains :
    (installed : Installed) (x : Text) {common_set : List Text}
    → intersection (values installed) ≡ ok common_set
    → contains common_set x ≡ all (has x) installed
unfolding intersection
intersection-contains [] x e = absurd (cc)
intersection-contains ((h, pkgs) ∷ installed) x e =
    ap (λ s. contains s x) (sym (ok-inj e))
    ∙ contains-intersect_all pkgs (values installed) x
    ∙ ap (λ b. contains pkgs x && b) (all-values installed x)

inconsistent-nil :
    (common_set : List Text) (installed : Installed)
    → (inconsistent common_set installed ≡ []) ↔ (all (same common_set) installed ≡ true)
unfolding inconsistent
inconsistent-nil common_set [] = (λ e. refl, λ e. refl)
inconsistent-nil common_set ((h, p) ∷ installed) =
    let (to, from) = inconsistent-nil common_set installed in
    elim (Bool-cases (same common_set (h, p))) [
      | inl alike ↦ (λ e. rw (alike, to (rw alike at e)), λ e. rw (alike, from (rw alike at e)))
      | inr unlike ↦
          (λ e. absurd (let e' = rw unlike at e in cc), λ e. absurd (let e' = rw unlike at e in cc))
    ]

kept :
    (pkgs : List Text) (x : Text)
    → is_key x ≡ false
    → contains (filter_packages pkgs) x ≡ contains pkgs x
kept pkgs x h = contains-select (λ p. not (is_key p)) pkgs x ∙ ap (λ b. not b && contains pkgs x) h

in_filter :
    (pkgs : List Text) (x : Text)
    → contains (filter_packages pkgs) x ≡ true
    → (is_key x ≡ false) × (contains pkgs x ≡ true)
in_filter pkgs x h =
    let e = sym (contains-select (λ p. not (is_key p)) pkgs x) ∙ h in
    elim (Bool-cases (is_key x)) [
      | inl key ↦ absurd (let e' = rw key at e in cc)
      | inr other ↦ (other, rw other at e)
    ]

same-contains :
    (common_set : List Text) (h : Target) (p : List Text) (x : Text)
    → same common_set (h, p) ≡ true
    → is_key x ≡ false
    → contains p x ≡ true
    → contains common_set x ≡ true
same-contains common_set h p x alike key here =
    let (sub, sup) =
      and-eq-true (is_subset (filter_packages p) (filter_packages common_set)) _ alike in
    sym (kept common_set x key)
    ∙ is_subset-contains (filter_packages p) (filter_packages common_set) x sub
        (kept p x key ∙ here)

same_of :
    (common_set : List Text) (h : Target) (p : List Text)
    → ((x : Text) → is_key x ≡ false → contains p x ≡ true → contains common_set x ≡ true)
    → ((x : Text) → contains common_set x ≡ true → contains p x ≡ true)
    → same common_set (h, p) ≡ true
same_of common_set h p sub sup = rw (
  is_subset_of (filter_packages p) (filter_packages common_set)
      (λ x i. let (key, here) = in_filter p x i in kept common_set x key ∙ sub x key here),
  is_subset_of (filter_packages common_set) (filter_packages p)
      (λ x i. let (key, here) = in_filter common_set x i in kept p x key ∙ sup x here),
)

all-same-contains :
    (common_set : List Text) (installed : Installed) (x : Text)
    → all (same common_set) installed ≡ true
    → is_key x ≡ false
    → any (has x) installed ≡ true
    → contains common_set x ≡ true
all-same-contains common_set [] x alike key i = absurd (cc)
all-same-contains common_set ((h, p) ∷ installed) x alike key i =
    let (first, rest) = and-eq-true (same common_set (h, p)) _ alike in
    elim (Bool-cases (contains p x)) [
      | inl here ↦ same-contains common_set h p x first key here
      | inr other ↦ all-same-contains common_set installed x rest key (rw other at i)
    ]

all-same_of :
    (common_set : List Text) (installed : Installed)
    → ((x : Text) → is_key x ≡ false → any (has x) installed ≡ true → contains common_set x ≡ true)
    → ((x : Text) → contains common_set x ≡ true → all (has x) installed ≡ true)
    → all (same common_set) installed ≡ true
all-same_of common_set [] sub sup = refl
all-same_of common_set ((h, p) ∷ installed) sub sup = rw (
  same_of common_set h p (λ x key i. sub x key (rw i))
      (λ x i. (and-eq-true (contains p x) _ (sup x i)).0),
  all-same_of common_set installed
      (λ x key i.
        sub x key
          (elim (Bool-cases (contains p x)) [ inl here ↦ rw here | inr other ↦ rw (other, i) ]))
      (λ x i. (and-eq-true (contains p x) _ (sup x i)).1),
)

warn-nil : (n : ℕ) (installed : Installed) → (warn_inconsistent n installed ≡ []) ↔ (installed ≡ [])
unfolding warn_inconsistent
warn-nil n [] = (λ e. refl, λ e. refl)
warn-nil n (e ∷ installed) = (λ h. absurd (cc), λ h. absurd (cc))

-- Whenever the check of the consistency returns, it logged nothing exactly if every package that one
-- of the hosts has, the keys of GPG apart, is on all of them.
pub check_consistency-IsConsistent :
    (installed : Installed) (log : Log)
    → check_consistency installed ≡ ok log
    → (log ≡ []) ↔ IsConsistent installed
unfolding check_consistency
check_consistency-IsConsistent installed log e =
    let (common_set, found, e') = bind-eq-ok (intersection (values installed)) _ e in
    let logged = sym (ok-inj e') in
    let common = λ (x : Text). intersection-contains installed x found in
    let (to, from) = inconsistent-nil common_set installed in
    let (silent, quiet) = warn-nil (length installed) (inconsistent common_set installed) in
    (
      λ empty x key i.
          sym (common x)
          ∙ all-same-contains common_set installed x (to (silent (sym logged ∙ empty))) key i,
      λ consistent.
          logged
          ∙ quiet (
              from (
                all-same_of common_set installed (λ x key i. common x ∙ consistent x key i)
                  (λ x i. sym (common x) ∙ i))),
    )
