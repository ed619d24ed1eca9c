-- ===== src/Hosts/Yum/Laws.antt =====
-- What a restored yum state is, and what the two methods leave when they raise.
use xcp_ng_tests.Prelude.{
  ◌≡◌, refl, sym, ap, ◌∙◌, inl, inr, true, false, not, ◌&&◌, Bool-cases, Option, none, some, List,
  [], ◌∷◌, ◌++◌, Text, text_eq, text_eq_iff, lit, starts_with, contains, list_eq, ℕ,
}
use mathlib.Core.Path.{subst}
use xcp_ng_tests.Effect.{ok, err, assert, exception}
use xcp_ng_tests.Effect.Laws.{>>=-eq-ok}
use xcp_ng_tests.Commands.{Env, Trace}
use xcp_ng_tests.Objects.{Obj, on_trace, assign}
use xcp_ng_tests.Objects.Laws.{
  Keeps, Atomic, on_trace-Keeps, lift-Keeps, with_obj-Atomic, Keeps-Atomic, assign-Atomic,
  >>=-Atomic,
}
use xcp_ng_tests.Hosts.{Host}
use xcp_ng_tests.Hosts.Yum.{
  Saved, missing_from, extra_to, packages, raise_if_any, check_restored, restore_from,
  restore_saved, yum_restore_saved_state,
}

missing_from-nil :
    (ys xs : List Text) (x : Text)
    → missing_from ys xs ≡ []
    → contains xs x ≡ true
    → contains ys x ≡ true
unfolding missing_from
missing_from-nil ys [] x e h = absurd (cc)
missing_from-nil ys (z ∷ xs) x e h = elim (Bool-cases (contains ys z)) [
  | inl there ↦ elim (Bool-cases (text_eq z x)) [
    | inl same ↦ subst (λ t. contains ys t ≡ true) ((text_eq_iff z x).0 same) there
    | inr other ↦ missing_from-nil ys xs x (rw there at e) (rw other at h)
  ]
  | inr missing ↦ absurd (let e' = rw missing at e in cc)
]

-- Every saved package is installed, and every installed one but the keys of GPG was saved.
abbrev pub Restored : List Text → List Text → Type 0
Restored saved pkgs =
    ((x : Text) → contains saved x ≡ true → contains pkgs x ≡ true)
    × ((x : Text)
        → contains pkgs x ≡ true
        → starts_with (lit "gpg-pubkey-") x ≡ false
        → contains saved x ≡ true)

extra_to-nil :
    (ys xs : List Text) (x : Text)
    → extra_to ys xs ≡ []
    → contains xs x ≡ true
    → starts_with (lit "gpg-pubkey-") x ≡ false
    → contains ys x ≡ true
unfolding extra_to
extra_to-nil ys [] x e h g = absurd (cc)
extra_to-nil ys (z ∷ xs) x e h g =
    elim (Bool-cases (not (contains ys z) && not (starts_with (lit "gpg-pubkey-") z))) [
      | inl extra ↦ absurd (let e' = rw extra at e in cc)
      | inr fine ↦ elim (Bool-cases (text_eq z x)) [
        | inl same ↦
            let eq = (text_eq_iff z x).0 same in
            known ys x g (
              subst (λ t. (not (contains ys t) && not (starts_with (lit "gpg-pubkey-") t)) ≡ false)
                eq fine)
        | inr other ↦ extra_to-nil ys xs x (rw fine at e) (rw other at h) g
      ]
    ]
  where
    known :
        (ys : List Text) (x : Text)
        → starts_with (lit "gpg-pubkey-") x ≡ false
        → (not (contains ys x) && not (starts_with (lit "gpg-pubkey-") x)) ≡ false
        → contains ys x ≡ true
    known ys x g h = elim (Bool-cases (contains ys x)) [
      | inl there ↦ there
      | inr missing ↦ absurd (let h' = rw (missing, g) at h in cc)
    ]

texts_eq : (xs ys : List Text) → list_eq text_eq xs ys ≡ true → xs ≡ ys
texts_eq [] [] e = refl
texts_eq [] (y ∷ ys) e = absurd (cc)
texts_eq (x ∷ xs) [] e = absurd (cc)
texts_eq (x ∷ xs) (y ∷ ys) e = elim (Bool-cases (text_eq x y)) [
  | inl same ↦
      let heads = (text_eq_iff x y).0 same in let tails = texts_eq xs ys (rw same at e) in cc
  | inr other ↦ absurd (let e' = rw other at e in cc)
]

append-eq-nil : {A : Type 0} (xs ys : List A) → xs ++ ys ≡ [] → (xs ≡ []) × (ys ≡ [])
append-eq-nil [] ys e = (refl, e)
append-eq-nil (x ∷ xs) ys e = absurd (cc)

raise_if_any-eq-ok :
    {S : Type 0} (xs : List Text) (s : S) {s' : S} {u : Unit {0}}
    → raise_if_any xs s ≡ (ok u, s')
    → (xs ≡ []) × (s' ≡ s)
unfolding raise_if_any
raise_if_any-eq-ok [] s e = (refl, cc)
raise_if_any-eq-ok (x ∷ xs) s e = absurd (cc)

check_restored-eq-ok :
    (saved pkgs : List Text) (s : Obj Saved) {s' : Obj Saved} {u : Unit {0}}
    → check_restored saved pkgs s ≡ (ok u, s')
    → Restored saved pkgs × (s' ≡ s)
unfolding check_restored
check_restored-eq-ok saved pkgs s {s' = s'} e = elim (Bool-cases (list_eq text_eq saved pkgs)) [
  | inl same ↦
      let eq = texts_eq saved pkgs same in
      let e' = rw same at e in (subst (Restored saved) eq ((λ x m. m), (λ x m g. m)), cc)
  | inr other ↦
      let (none_left, kept) = raise_if_any-eq-ok _ s (rw other at e) in
      let (no_missing, no_extra) = append-eq-nil _ _ none_left in
      (
        (λ x. missing_from-nil pkgs saved x no_missing, λ x. extra_to-nil saved pkgs x no_extra),
        kept,
      )
]

raise_if_any-Keeps : (xs : List Text) → Keeps {V = Saved} (raise_if_any xs)
unfolding raise_if_any
raise_if_any-Keeps [] = lift-Keeps Saved (ok tt)
raise_if_any-Keeps (x ∷ xs) = lift-Keeps Saved (err exception)

check_restored-Keeps : (saved pkgs : List Text) → Keeps (check_restored saved pkgs)
unfolding check_restored
check_restored-Keeps saved pkgs = elim (Bool-cases (list_eq text_eq saved pkgs)) [
  | inl same ↦ rw same (lift-Keeps Saved (ok tt))
  | inr other ↦ rw other (raise_if_any-Keeps (missing_from pkgs saved ++ extra_to saved pkgs))
]

module _ (E : Env) (h : Host) where
  restore_from-Atomic : (saved : List Text) (tid : ℕ) → Atomic (restore_from E h saved tid)
  unfolding restore_from
  restore_from-Atomic saved tid = >>=-Atomic _ _ (on_trace-Keeps Saved _) λ u.
      >>=-Atomic _ _ (on_trace-Keeps Saved (packages E h))
        λ pkgs. >>=-Atomic _ _ (check_restored-Keeps saved pkgs) λ v. assign-Atomic _

  restore_saved-Atomic :
      (saved : Option (List Text)) (tid : Option ℕ) → Atomic (restore_saved E h saved tid)
  unfolding restore_saved
  restore_saved-Atomic (some saved) (some tid) = restore_from-Atomic saved tid
  restore_saved-Atomic (some saved) none = Keeps-Atomic _ (lift-Keeps Saved (assert false))
  restore_saved-Atomic none tid = Keeps-Atomic _ (lift-Keeps Saved (assert false))

  -- A restore that raised has left both saved attributes as they were, so that it can be repeated.
  pub yum_restore_saved_state-Atomic : Atomic (yum_restore_saved_state E h)
  unfolding yum_restore_saved_state
  yum_restore_saved_state-Atomic =
      with_obj-Atomic _ λ o. restore_saved-Atomic o.saved_packages_list o.saved_rollback_id

  -- The end of a restore: what the query for the installed packages gave then, and the attributes.
  abbrev pub Ended : Option (List Text) → Obj Saved → Type 0
  Ended saved s' =
      (before : List Text) × (saved ≡ some before)
      × (pkgs : List Text) × (t : Trace) × (packages E h t ≡ (ok pkgs, s'.0))
      × Restored before pkgs
      × (s'.1 ≡ record { saved_packages_list = none; saved_rollback_id = none })

  cleared :
      (saved pkgs : List Text) (s₁ s₂ s₃ : Obj Saved) {s' : Obj Saved} {u : Unit {0}}
      → on_trace {V = Saved} (packages E h) s₁ ≡ (ok pkgs, s₂)
      → s₃ ≡ s₂
      → assign {V = Saved} (λ o. record { saved_packages_list = none; saved_rollback_id = none }) s₃
        ≡ (ok u, s')
      → Restored saved pkgs
      → Ended (some saved) s'
  cleared saved pkgs s₁ s₂ s₃ listed kept done restored = (
    saved,
    refl,
    pkgs,
    s₁.0,
    ap (λ p. (p.0, p.1.0)) listed
        ∙ ap (λ s. (ok pkgs, s.0)) (sym kept)
        ∙ ap (λ p. (ok pkgs, p.1.0)) done,
    restored,
    sym (ap (λ p. p.1.1) done),
  )

  restore_from-eq-ok :
      (saved : List Text) (tid : ℕ) (s : Obj Saved) {s' : Obj Saved} {u : Unit {0}}
      → restore_from E h saved tid s ≡ (ok u, s')
      → Ended (some saved) s'
  unfolding restore_from
  restore_from-eq-ok saved tid s {s' = s'} e =
      let (a, s₁, ea, e₁) = >>=-eq-ok _ _ s e in
      let (pkgs, s₂, eb, e₂) = >>=-eq-ok _ _ s₁ e₁ in
      let (c, s₃, ec, e₃) = >>=-eq-ok _ _ s₂ e₂ in
      let (restored, kept) = check_restored-eq-ok saved pkgs s₂ ec in
      cleared saved pkgs s₁ s₂ s₃ eb kept e₃ restored

  restore_saved-eq-ok :
      (saved : Option (List Text)) (tid : Option ℕ) (s : Obj Saved) {s' : Obj Saved} {u : Unit {0}}
      → restore_saved E h saved tid s ≡ (ok u, s')
      → Ended saved s'
  unfolding restore_saved
  restore_saved-eq-ok (some saved) (some tid) s e = restore_from-eq-ok saved tid s e
  restore_saved-eq-ok (some saved) none s e = absurd (cc)
  restore_saved-eq-ok none tid s e = absurd (cc)

  -- Whenever a restore returns, a package list was saved, the last command of the run listed the
  -- installed packages, every package of the saved list is among them and all of them but the keys
  -- of GPG are in the saved list, and nothing is saved any more, so that a new state can be.
  pub yum_restore_saved_state-eq-ok :
      (s : Obj Saved) {s' : Obj Saved} {u : Unit {0}}
      → yum_restore_saved_state E h s ≡ (ok u, s')
      → Ended s.1.saved_packages_list s'
  unfolding yum_restore_saved_state
  yum_restore_saved_state-eq-ok s e =
      restore_saved-eq-ok s.1.saved_packages_list s.1.saved_rollback_id s e
