-- ===== src/Common/Waiting.antt =====
-- lib/common.py: `wait_for`, its termination and its time bound.
pub mod Passed
use xcp_ng_tests.Prelude.{
  ℕ, zero, suc, ◌+◌, ◌-◌, ◌≤◌, ◌<◌, ◌≡◌, refl, Bool, true, false, xor, Bool-cases, leb→le, inl, inr,
  ◌⊎◌, ◌*◌, ◌∙◌, sym, ◌∷◌, leb, arith,
}
use mathlib.Core.Path.{subst}
use xcp_ng_tests.Effect.{Exn, Result, ok, err, Exec, pure, raise, ◌>>=◌, timeout_error, diverged}
use xcp_ng_tests.Effect.Laws.{>>=-step, >>=-raise}
use xcp_ng_tests.Commands.{Env, Trace, sleep}

-- `time.perf_counter()` and `time.sleep(secs)`, on the state of an action.
pub record Clock (S : Type 0) : Type 0 where
  pub now : S → ℕ
  pub after : ℕ → S → S

abbrev pub trace_clock : Env → Clock Trace
trace_clock E = record { now = E.clock; after = λ n t. sleep n ∷ t }

-- `time.sleep(secs)`
unfoldable pub pause : {S : Type 0} → Clock S → ℕ → Exec S (Unit {0})
pause W secs t = (ok tt, W.after secs t)

module _ {S : Type 0} (W : Clock S) where
  module _ (fn : Exec S Bool) (timeout_secs retry_delay_secs : ℕ) (invert : Bool) where
    -- The loop of `wait_for`, at most `fuel` rounds of it; `diverged` is no Python exception, and
    -- says that the rounds did not suffice.
    unfoldable pub wait_loop : ℕ → ℕ → Exec S (Unit {0})
    wait_loop zero start_time = raise diverged
    wait_loop (suc fuel) start_time = fn >>= λ ret. elim (xor ret invert) [
      | true ↦ pure tt
      | false ↦ λ t. elim (leb timeout_secs (W.now t - start_time)) [
        | true ↦ (err timeout_error, t)
        | false ↦ wait_loop fuel start_time (W.after retry_delay_secs t)
      ]
    ]

    unfoldable pub wait_for : ℕ → Exec S (Unit {0})
    wait_for fuel t = wait_loop fuel (W.now t) t

-- What `wait_for` does with a test that answered, in the state it left.
module _ {S : Type 0} (W : Clock S) (fn : Exec S Bool) (timeout_secs retry_delay_secs : ℕ)
    (invert : Bool) where
  wait_loop_answer :
      (fuel start : ℕ) (t t' : S) (ret : Bool)
      → fn t ≡ (ok ret, t')
      → ((xor ret invert ≡ true)
          × (wait_loop W fn timeout_secs retry_delay_secs invert (suc fuel) start t ≡ (ok tt, t')))
        ⊎ (((xor ret invert ≡ false)
              × (timeout_secs ≤ W.now t' - start)
              × (wait_loop W fn timeout_secs retry_delay_secs invert (suc fuel) start t
                  ≡ (err timeout_error, t')))
            ⊎ ((W.now t' - start < timeout_secs)
                × (wait_loop W fn timeout_secs retry_delay_secs invert (suc fuel) start t
                    ≡ wait_loop W fn timeout_secs retry_delay_secs invert fuel start
                        (W.after retry_delay_secs t'))))
  unfolding wait_loop
  wait_loop_answer fuel start t t' ret e = elim (Bool-cases (xor ret invert)) [
    | inl h ↦ inl (h, >>=-step fn _ t e ∙ simp h)
    | inr h ↦ elim (Bool-cases (leb timeout_secs (W.now t' - start))) [
      | inl late ↦ inr (inl (h, leb→le _ _ late, >>=-step fn _ t e ∙ simp (h, late)))
      | inr early ↦ inr (inr (ground arith, >>=-step fn _ t e ∙ simp (h, early)))
    ]
  ]

  wait_loop_raise :
      (fuel start : ℕ) (t t' : S) (x : Exn)
      → fn t ≡ (err x, t')
      → wait_loop W fn timeout_secs retry_delay_secs invert (suc fuel) start t ≡ (err x, t')
  unfolding wait_loop
  wait_loop_raise fuel start t t' x e = >>=-raise fn _ t e

  -- What a wait that began at `start` can end in.
  unfoldable pub Ends : ℕ → Result (Unit {0}) × S → Type 0
  Ends start p =
      ((t t' : S) × (ret : Bool) × (fn t ≡ (ok ret, t'))
        × (xor ret invert ≡ true)
        × (p ≡ (ok tt, t')))
      ⊎ ((t t' : S) × (ret : Bool) × (fn t ≡ (ok ret, t'))
          × (xor ret invert ≡ false)
          × (timeout_secs ≤ W.now t' - start)
          × (p ≡ (err timeout_error, t')))
      ⊎ ((t t' : S) × (x : Exn) × (fn t ≡ (err x, t')) × (p ≡ (err x, t')))

  module _ (slept : (t : S) (n : ℕ) → W.now t + n ≤ W.now (W.after n t))
      (forward : (t : S) → W.now t ≤ W.now (fn t).1) where
    forwards : (t t' : S) (r : Result Bool) → fn t ≡ (r, t') → W.now t ≤ W.now t'
    forwards t t' r e = subst (λ p. W.now t ≤ W.now p.1) e (forward t)

    still_enough :
        (n start c c' c'' : ℕ)
        → start ≤ c
        → c ≤ c'
        → c' + retry_delay_secs ≤ c''
        → timeout_secs ≤ c - start + suc n * retry_delay_secs
        → timeout_secs ≤ c'' - start + n * retry_delay_secs
    still_enough n start c c' c'' a b d e = omega arith

    -- One round: it ends the wait, or it goes on, later, and the time is not over.
    round :
        (n start : ℕ) (t : S) (p : Result Bool × S)
        → fn t ≡ p
        → Ends start (wait_loop W fn timeout_secs retry_delay_secs invert (suc n) start t)
          ⊎ ((t' t'' : S) × (W.now t ≤ W.now t')
              × (W.now t' - start < timeout_secs)
              × (W.now t' + retry_delay_secs ≤ W.now t'')
              × (wait_loop W fn timeout_secs retry_delay_secs invert (suc n) start t
                  ≡ wait_loop W fn timeout_secs retry_delay_secs invert n start t''))
    unfolding Ends
    round n start t (ok ret, t') e = elim (wait_loop_answer n start t t' ret e) [
      | inl (done, same) ↦ inl (inl (t, t', ret, e, done, same))
      | inr (inl (not_done, late, same)) ↦ inl (inr (inl (t, t', ret, e, not_done, late, same)))
      | inr (inr (early, same)) ↦ inr (
        t',
        W.after retry_delay_secs t',
        forwards t t' _ e,
        early,
        slept t' retry_delay_secs,
        same,
      )
    ]
    round n start t (err x, t') e = inl (inr (inr (t, t', x, e, wait_loop_raise n start t t' x e)))

    wait_loop-Ends :
        (n start : ℕ) (t : S)
        → start ≤ W.now t
        → timeout_secs ≤ W.now t - start + n * retry_delay_secs
        → Ends start (wait_loop W fn timeout_secs retry_delay_secs invert (suc n) start t)
    wait_loop-Ends zero start t late enough = elim (round zero start t _ refl) [
      | inl ends ↦ ends
      | inr (t', t'', ahead, early, on, same) ↦ absurd (omega arith)
    ]
    wait_loop-Ends (suc n) start t late enough = elim (round (suc n) start t _ refl) [
      | inl ends ↦ ends
      | inr (t', t'', ahead, early, on, same) ↦ subst (Ends start) (sym same) (
          wait_loop-Ends n start t'' (omega arith)
            (still_enough n start _ _ _ late ahead on enough))
    ]

    -- With a clock that moves as far as each sleep and never back, and with rounds for the whole
    -- time out, the wait ends in one of three ways: `fn` answered what was waited for and it returns;
    -- `fn` answered something else, the time out had passed since the start, and it raises
    -- `TimeoutError`; or `fn` raised and it raises the same.
    pub wait_for-Ends :
        (n : ℕ) (t : S)
        → timeout_secs ≤ n * retry_delay_secs
        → Ends (W.now t) (wait_for W fn timeout_secs retry_delay_secs invert (suc n) t)
    unfolding wait_for
    wait_for-Ends n t enough = wait_loop-Ends n (W.now t) t (omega arith) (omega arith)
