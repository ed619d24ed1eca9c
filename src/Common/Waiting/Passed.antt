-- ===== src/Common/Waiting/Passed.antt =====
-- What the return of `wait_for` means, whatever the clock does.
use xcp_ng_tests.Prelude.{
  ℕ, zero, suc, ◌-◌, ◌≡◌, Bool, true, false, not, Bool-cases, inl, inr, ◌∙◌, ap, refl, leb,
}
use mathlib.Core.Bool.{xor}
use xcp_ng_tests.Effect.{ok, Exec}
use xcp_ng_tests.Effect.Laws.{>>=-eq-ok}
use xcp_ng_tests.Common.Waiting.{Clock, wait_loop, wait_for}

-- The run ended with a test that gave an answer.
abbrev pub Answered : {S : Type 0} → Exec S Bool → Bool → S → Type 0
Answered {S = S} fn b s' = (s : S) × (fn s ≡ (ok b, s'))

xor-true : (b c : Bool) → xor b c ≡ true → b ≡ not c
unfolding xor
xor-true true true h = absurd (cc)
xor-true true false h = refl
xor-true false true h = refl
xor-true false false h = absurd (cc)

module _ {S : Type 0} (W : Clock S) (fn : Exec S Bool) (timeout_secs retry_delay_secs : ℕ)
    (invert : Bool) where
  -- The last thing in the run was a test that answered what was waited for.
  abbrev pub Passed : S → Type 0
  Passed s' = (s : S) × (ret : Bool) × (fn s ≡ (ok ret, s')) × (xor ret invert ≡ true)

  wait_loop-Passed :
      (fuel start : ℕ) (s : S) {u : Unit {0}} {s' : S}
      → wait_loop W fn timeout_secs retry_delay_secs invert fuel start s ≡ (ok u, s')
      → Passed s'
  unfolding wait_loop
  wait_loop-Passed zero start s e = absurd (cc)
  wait_loop-Passed (suc fuel) start s e =
      let (ret, s₁, answered, e₁) = >>=-eq-ok fn _ s e in
      elim (Bool-cases (xor ret invert)) [
        | inl h ↦ (s, ret, answered ∙ ap (λ x. (ok ret, x)) (ap (λ p. p.1) (rw h at e₁)), h)
        | inr h ↦ elim (Bool-cases (leb timeout_secs (W.now s₁ - start))) [
          | inl late ↦ absurd (let e₂ = rw (h, late) at e₁ in cc)
          | inr early ↦ wait_loop-Passed fuel start _ (rw (h, early) at e₁)
        ]
      ]

  pub wait_for-Passed :
      (fuel : ℕ) (s : S) {u : Unit {0}} {s' : S}
      → wait_for W fn timeout_secs retry_delay_secs invert fuel s ≡ (ok u, s')
      → Passed s'
  unfolding wait_for
  wait_for-Passed fuel s e = wait_loop-Passed fuel (W.now s) s e

  pub wait_for-Answered :
      (fuel : ℕ) (s : S) {u : Unit {0}} {s' : S}
      → wait_for W fn timeout_secs retry_delay_secs invert fuel s ≡ (ok u, s')
      → Answered fn (not invert) s'
  wait_for-Answered fuel s {s' = s'} e =
      let (t, ret, answered, h) = wait_for-Passed fuel s e in
      (t, answered ∙ ap {A = Bool} (λ b. (ok b, s')) (xor-true ret invert h))
