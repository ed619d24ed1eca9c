-- ===== src/Jobs/Options.antt =====
-- What `_join_pytest_args` leaves of the arguments.
use xcp_ng_tests.Prelude.{
  ℕ, ◌+◌, ◌*◌, ◌≡◌, refl, false, Bool-cases, inl, inr, Option, List, [], ◌∷◌, Text, text_eq, length,
  arith,
}
use mathlib.Core.Path.{subst}
use xcp_ng_tests.Effect.{ok}
use xcp_ng_tests.Effect.Laws.{bind-eq-ok}
use xcp_ng_tests.Jobs.{take_option, join_pytest_args}

-- Nothing in the list is the option.
abbrev pub Absent : Text → List Text → Type 0
Absent option [] = Unit
Absent option (arg ∷ args) = (text_eq arg option ≡ false) × Absent option args

-- The option occurs no more, and with each value it is gone from the arguments.
abbrev pub IsTaken : Text → List Text → List Text × List Text → Type 0
IsTaken option args p = Absent option p.1 × (length args ≡ length p.1 + 2 * length p.0)

take_option-IsTaken :
    (option : Text) (args : List Text) (p : List Text × List Text)
    → take_option option args ≡ ok p
    → IsTaken option args p
unfolding take_option
take_option-IsTaken option [] p e =
    let same : ([], []) ≡ p = cc in subst (IsTaken option []) same (tt, refl)
take_option-IsTaken option (arg ∷ []) p e = elim (Bool-cases (text_eq arg option)) [
  | inl found ↦ absurd (let e' = rw found at e in cc)
  | inr other ↦
      let e' = rw other at e in
      let same : ([], arg ∷ []) ≡ p = cc in
      subst (IsTaken option (arg ∷ [])) same ((other, tt), refl)
]
take_option-IsTaken option (arg ∷ value ∷ args) p e = elim (Bool-cases (text_eq arg option)) [
  | inl found ↦
      let (q, eq, e₁) = bind-eq-ok (take_option option args) _ (rw found at e) in
      let (absent, lengths) = take_option-IsTaken option args q eq in
      let same : (value ∷ q.0, q.1) ≡ p = cc in
      subst (IsTaken option (arg ∷ value ∷ args)) same (absent, omega arith)
  | inr other ↦
      let (q, eq, e₁) = bind-eq-ok (take_option option (value ∷ args)) _ (rw other at e) in
      let (absent, lengths) = take_option-IsTaken option (value ∷ args) q eq in
      let same : (q.0, arg ∷ q.1) ≡ p = cc in
      subst (IsTaken option (arg ∷ value ∷ args)) same ((other, absent), omega arith)
]

-- When `_join_pytest_args` returns, the option stands nowhere in the arguments that are left, and
-- what it took from them are pairs of an option and a value.
pub join_pytest_args-Absent :
    (arg : Option Text) (option : Text) (args : List Text) {filter : Option Text} {rest : List Text}
    → join_pytest_args arg option args ≡ ok (filter, rest)
    → Absent option rest × ((n : ℕ) × (length args ≡ length rest + 2 * n))
unfolding join_pytest_args
join_pytest_args-Absent arg option args {rest = rest} e =
    let (q, eq, e₁) = bind-eq-ok (take_option option args) _ e in
    let (absent, lengths) = take_option-IsTaken option args q eq in
    let same : q.1 ≡ rest = cc in
    subst (λ l. Absent option l × ((n : ℕ) × (length args ≡ length l + 2 * n))) same
      (absent, (length q.0, lengths))

-- Taking an option leaves no other one in where there was none.
take_option-keeps_Absent :
    (other option : Text) (args : List Text) (p : List Text × List Text)
    → Absent other args
    → take_option option args ≡ ok p
    → Absent other p.1
unfolding take_option
take_option-keeps_Absent other option [] p h e =
    let same : ([], []) ≡ p = cc in subst (λ q. Absent other q.1) same tt
take_option-keeps_Absent other option (arg ∷ []) p h e = elim (Bool-cases (text_eq arg option)) [
  | inl found ↦ absurd (let e' = rw found at e in cc)
  | inr differs ↦
      let e' = rw differs at e in
      let same : ([], arg ∷ []) ≡ p = cc in subst (λ q. Absent other q.1) same h
]
take_option-keeps_Absent other option (arg ∷ value ∷ args) p (h, hs) e =
    elim (Bool-cases (text_eq arg option)) [
      | inl found ↦
          let (q, eq, e₁) = bind-eq-ok (take_option option args) _ (rw found at e) in
          let same : q.1 ≡ p.1 = cc in
          subst (Absent other) same (take_option-keeps_Absent other option args q hs.1 eq)
      | inr differs ↦
          let (q, eq, e₁) = bind-eq-ok (take_option option (value ∷ args)) _ (rw differs at e) in
          let same : arg ∷ q.1 ≡ p.1 = cc in
          subst (Absent other) same
            (h, take_option-keeps_Absent other option (value ∷ args) q hs eq)
    ]

pub join_pytest_args-keeps_Absent :
    (other : Text) (arg : Option Text) (option : Text) (args : List Text)
    {p : Option Text × List Text}
    → Absent other args
    → join_pytest_args arg option args ≡ ok p
    → Absent other p.1
unfolding join_pytest_args
join_pytest_args-keeps_Absent other arg option args h e =
    let (q, eq, e₁) = bind-eq-ok (take_option option args) _ e in
    subst (Absent other) (cc) (take_option-keeps_Absent other option args q h eq)
