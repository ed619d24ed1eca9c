-- ===== src/Jobs/Merging.antt =====
-- What `_join_pytest_args` takes from the arguments of the user, and what it makes of it.
use mathlib.Core.List.{map}
use mathlib.Core.Path.{subst}
use xcp_ng_tests.Prelude.{
  ◌≡◌, refl, sym, ap, ◌∙◌, ◌⊎◌, inl, inr, true, false, Bool-cases, Option, none, some, List, [],
  ◌∷◌, ◌++◌, append_assoc, Text, text_eq, lit, truthy, join, if◌then◌else◌,
}
use xcp_ng_tests.Effect.{ok}
use xcp_ng_tests.Effect.Laws.{bind-eq-ok}
use xcp_ng_tests.Jobs.{take_option, parenthesised, joined, join_pytest_args}

-- From the left, each occurrence of the option goes with the argument behind it, which is a value.
pub data Takes (option : Text) : List Text → List Text → List Text → Type 0 where
  no_more : Takes option [] [] []
  other :
      (arg : Text) {args values rest : List Text}
      → text_eq arg option ≡ false
      → Takes option args values rest
      → Takes option (arg ∷ args) values (arg ∷ rest)
  taken :
      (arg value : Text) {args values rest : List Text}
      → text_eq arg option ≡ true
      → Takes option args values rest
      → Takes option (arg ∷ value ∷ args) (value ∷ values) rest

abbrev IsTake : Text → List Text → List Text × List Text → Type 0
IsTake option args p = Takes option args p.0 p.1

take_option-Takes :
    (option : Text) (args : List Text) (p : List Text × List Text)
    → take_option option args ≡ ok p
    → IsTake option args p
unfolding take_option
take_option-Takes option [] p e =
    let same : ([], []) ≡ p = cc in subst (IsTake option []) same no_more
take_option-Takes option (arg ∷ []) p e = elim (Bool-cases (text_eq arg option)) [
  | inl found ↦ absurd (let e' = rw found at e in cc)
  | inr differs ↦
      let e' = rw differs at e in
      let same : ([], arg ∷ []) ≡ p = cc in
      subst (IsTake option (arg ∷ [])) same (other arg differs no_more)
]
take_option-Takes option (arg ∷ value ∷ args) p e = elim (Bool-cases (text_eq arg option)) [
  | inl found ↦
      let (q, eq, e₁) = bind-eq-ok (take_option option args) _ (rw found at e) in
      let same : (value ∷ q.0, q.1) ≡ p = cc in
      subst (IsTake option (arg ∷ value ∷ args)) same
        (taken arg value found (take_option-Takes option args q eq))
  | inr differs ↦
      let (q, eq, e₁) = bind-eq-ok (take_option option (value ∷ args)) _ (rw differs at e) in
      let same : (q.0, arg ∷ q.1) ≡ p = cc in
      subst (IsTake option (arg ∷ value ∷ args)) same
        (other arg differs (take_option-Takes option (value ∷ args) q eq))
]

abbrev in_parens : Text → Text
in_parens t = lit "(" ++ (t ++ lit ")")

-- The filter of the job, if it says anything.
abbrev of_job : Option Text → List Text
of_job none = []
of_job (some t) = if truthy t then t ∷ [] else []

-- All filters, each in parentheses, with `and` between them.
abbrev all_filters : List Text → Text
all_filters filters = join (lit " and ") (map in_parens filters)

-- The filter that is used: that of the job if the values of the user say nothing, and else all of them.
abbrev pub IsMerged : Option Text → List Text → Option Text → Type 0
IsMerged own values filter =
    ((truthy (join (lit ") and (") values) ≡ false) × (filter ≡ own))
    ⊎ ((truthy (join (lit ") and (") values) ≡ true)
        × (filter ≡ some (all_filters (of_job own ++ values))))

parens-join :
    (v : Text) (values : List Text)
    → in_parens (join (lit ") and (") (v ∷ values)) ≡ all_filters (v ∷ values)
unfolding lit
parens-join v [] = refl
parens-join v (w ∷ values) =
    let rest : Text = join (lit ") and (") (w ∷ values) in
    ap (λ t. b'(' ∷ t)
      (append_assoc v (lit ") and (" ++ rest) (lit ")")
        ∙ ap (λ t. v ++ (lit ") and " ++ t)) (parens-join w values)
        ∙ sym (append_assoc v (lit ")") (lit " and " ++ all_filters (w ∷ values))))

joined_falsy : (own : Option Text) (cli : Text) → truthy cli ≡ false → joined own cli ≡ own
unfolding joined
joined_falsy none cli h = rw h refl
joined_falsy (some arg) cli h = elim (Bool-cases (truthy arg)) [
  | inl says ↦ rw (says, h) refl
  | inr nothing ↦ rw (nothing, h) refl
]

joined_truthy :
    (own : Option Text) (v : Text) (values : List Text)
    → truthy (join (lit ") and (") (v ∷ values)) ≡ true
    → joined own (join (lit ") and (") (v ∷ values))
      ≡ some (all_filters (of_job own ++ (v ∷ values)))
unfolding joined parenthesised
joined_truthy none v values h = rw h (ap some (parens-join v values))
joined_truthy (some arg) v values h = elim (Bool-cases (truthy arg)) [
  | inl says ↦
      rw (says, h) (ap (λ t. some (in_parens arg ++ (lit " and " ++ t))) (parens-join v values))
  | inr nothing ↦ rw (nothing, h) (ap some (parens-join v values))
]

joined-IsMerged :
    (own : Option Text) (values : List Text)
    → IsMerged own values (joined own (join (lit ") and (") values))
joined-IsMerged own [] = inl (refl, joined_falsy own [] refl)
joined-IsMerged own (v ∷ values) = elim (Bool-cases (truthy (join (lit ") and (") (v ∷ values)))) [
  | inl says ↦ inr (says, joined_truthy own v values says)
  | inr nothing ↦ inl (nothing, joined_falsy own (join (lit ") and (") (v ∷ values)) nothing)
]

pub join_pytest_args-IsMerged :
    (arg : Option Text) (option : Text) (args : List Text) {p : Option Text × List Text}
    → join_pytest_args arg option args ≡ ok p
    → (values : List Text) × Takes option args values p.1 × IsMerged arg values p.0
unfolding join_pytest_args
join_pytest_args-IsMerged arg option args {p = p} e =
    let (q, eq, e₁) = bind-eq-ok (take_option option args) _ e in
    let same : (joined arg (join (lit ") and (") q.0), q.1) ≡ p = cc in
    subst (λ p. (values : List Text) × Takes option args values p.1 × IsMerged arg values p.0) same
      (q.0, take_option-Takes option args q eq, joined-IsMerged arg q.0)
