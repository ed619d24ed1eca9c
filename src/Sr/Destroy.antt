-- ===== src/Sr/Destroy.antt =====
-- What the return of `SR.destroy` means.
use xcp_ng_tests.Prelude.{
  ℕ, zero, suc, Bool, true, false, Bool-cases, [], ◌∷◌, Text, lit, includes, ltb, length, inl, inr,
  ◌⊎◌, ◌≡◌, refl, ap,
}
use mathlib.Core.Path.{subst}
use xcp_ng_tests.Effect.{Exn, ok}
use xcp_ng_tests.Effect.Laws.{>>=-eq-ok, catch_ssh-eq-ok}
use xcp_ng_tests.Commands.{Env, Trace}
use xcp_ng_tests.Common.Waiting.{trace_clock}
use xcp_ng_tests.Common.Waiting.Passed.{Answered, wait_for-Answered}
use xcp_ng_tests.Common.Xe.{text, stdout_of}
use xcp_ng_tests.Sr.{
  run_xe, scan, unplug_pbds, before_retry, destroy_failed, sr_destroy, exists, rounds,
  wait_destroyed, destroy_loop, destroy,
}

module _ (E : Env) (master uuid : Text) where
  before_retry-eq-ok :
      (left : ℕ) (t : Trace) {t' : Trace} {u : Unit {0}}
      → before_retry E master uuid left t ≡ (ok u, t')
      → (more : ℕ) × (left ≡ suc more)
  unfolding before_retry
  before_retry-eq-ok zero t e = absurd (cc)
  before_retry-eq-ok (suc more) t e = (more, refl)

  -- A failed attempt that the loop passes over has another one behind it.
  destroy_failed-eq-ok :
      (left : ℕ) (x : Exn) (t : Trace) {d : Bool} {t' : Trace}
      → destroy_failed E master uuid left x t ≡ (ok d, t')
      → (d ≡ false) × ((more : ℕ) × (left ≡ suc more))
  unfolding destroy_failed
  destroy_failed-eq-ok left x t e =
      elim (Bool-cases (includes (lit "the SR is not empty") (stdout_of x))) [
        | inl empty ↦
            let e₀ = rw empty at e in
            let (a, t₁, ea, e₁) = >>=-eq-ok _ _ t e₀ in
            let (output, t₂, eb, e₂) = >>=-eq-ok _ _ t₁ e₁ in
            let (u, t₃, ec, e₃) = >>=-eq-ok _ _ t₂ e₂ in
            elim (Bool-cases (ltb 0 (length output))) [
              | inl some_left ↦ absurd (let e₄ = rw some_left at ec in cc)
              | inr none_left ↦ (cc, before_retry-eq-ok left t₂ (rw none_left at ec))
            ]
        | inr other ↦ absurd (let e₀ = rw other at e in cc)
      ]

  -- One run of the command `xe sr-destroy`, which returned.
  abbrev pub Destroyed : Trace → Trace → Type 0
  Destroyed t t' =
      run_xe E master uuid (lit "sr-destroy") ((lit "uuid", text uuid) ∷ []) t ≡ (ok tt, t')

  sr_destroy-eq-ok :
      (left : ℕ) (t : Trace) {d : Bool} {t' : Trace}
      → sr_destroy E master uuid left t ≡ (ok d, t')
      → ((d ≡ true) × Destroyed t t') ⊎ ((d ≡ false) × ((more : ℕ) × (left ≡ suc more)))
  unfolding sr_destroy
  sr_destroy-eq-ok left t e = elim (catch_ssh-eq-ok _ _ t e) [
    | inl returned ↦
        let (u, t₁, ed, e₁) = >>=-eq-ok _ _ t returned in
        inl (cc, subst (λ s. Destroyed t s) (ap (λ p. p.1) e₁) ed)
    | inr (x, t₁, failed, e₁) ↦ inr (destroy_failed-eq-ok left x t₁ e₁)
  ]

  -- With `verify`, the run ended with a question whether the SR exists that was answered with no;
  -- without, nothing follows.
  abbrev pub HasWaited : Bool → Trace → Trace → Type 0
  HasWaited verify t t' =
      ((verify ≡ false) × (t ≡ t')) ⊎ ((verify ≡ true) × Answered (exists E master uuid) false t')

  wait_destroyed-HasWaited :
      (verify : Bool) (t : Trace) {u : Unit {0}} {t' : Trace}
      → wait_destroyed E master uuid verify t ≡ (ok u, t')
      → HasWaited verify t t'
  unfolding wait_destroyed
  wait_destroyed-HasWaited false t e = inl (refl, ap (λ p. p.1) e)
  wait_destroyed-HasWaited true t e =
      inr (refl, wait_for-Answered (trace_clock E) (exists E master uuid) 120 2 true rounds t e)

  module _ (verify force : Bool) where
    -- A run of the loop, with the number of attempts that are left, from one state to another: each
    -- attempt unplugs the PBDs; then `sr-destroy` returned, and the wait that follows did; or it
    -- failed in the way that the loop passes over, and another attempt follows.
    unfoldable pub Succeeds : ℕ → Trace → Trace → Type 0
    Succeeds zero t t' = ⊥
    Succeeds (suc left) t t' =
        (t₁ t₂ : Trace) × (unplug_pbds E master uuid force t ≡ (ok tt, t₁))
        × ((Destroyed t₁ t₂
              × (wait_destroyed E master uuid verify t₂ ≡ (ok tt, t'))
              × HasWaited verify t₂ t')
            ⊎ ((sr_destroy E master uuid left t₁ ≡ (ok false, t₂)) × Succeeds left t₂ t'))

    -- One attempt, and what the loop did behind it.
    destroy_loop-attempt :
        (left : ℕ) (t : Trace) {t' : Trace}
        → destroy_loop E master uuid verify force (suc left) t ≡ (ok tt, t')
        → (t₁ t₂ : Trace) × (unplug_pbds E master uuid force t ≡ (ok tt, t₁))
          × ((Destroyed t₁ t₂
                × (wait_destroyed E master uuid verify t₂ ≡ (ok tt, t'))
                × HasWaited verify t₂ t')
              ⊎ ((sr_destroy E master uuid left t₁ ≡ (ok false, t₂))
                  × ((more : ℕ) × (left ≡ suc more))
                  × (destroy_loop E master uuid verify force left t₂ ≡ (ok tt, t'))))
    unfolding destroy_loop
    destroy_loop-attempt left t e =
        let (v, t₁, ev, e₁) = >>=-eq-ok _ _ t e in
        let (d, t₂, ed, e₂) = >>=-eq-ok _ _ t₁ e₁ in
        elim (sr_destroy-eq-ok left t₁ ed) [
          | inl (ended, destroyed) ↦ (
            t₁,
            t₂,
            ev,
            let waited = rw ended at e₂ in
                inl (destroyed, waited, wait_destroyed-HasWaited verify t₂ waited),
          )
          | inr (again, last) ↦ (t₁, t₂, ev, inr (rw again at ed, last, rw again at e₂))
        ]

    destroy_loop-Succeeds :
        (left : ℕ) (t : Trace) {t' : Trace}
        → destroy_loop E master uuid verify force (suc left) t ≡ (ok tt, t')
        → Succeeds (suc left) t t'
    unfolding Succeeds
    destroy_loop-Succeeds zero t e =
        let (t₁, t₂, unplugged, tried) = destroy_loop-attempt zero t e in
        elim tried [
          | inl destroyed ↦ (t₁, t₂, unplugged, inl destroyed)
          | inr (again, (more, same), e₁) ↦ absurd (cc)
        ]
    destroy_loop-Succeeds (suc left) t e =
        let (t₁, t₂, unplugged, tried) = destroy_loop-attempt (suc left) t e in
        elim tried [
          | inl destroyed ↦ (t₁, t₂, unplugged, inl destroyed)
          | inr (again, more, e₁) ↦
              (t₁, t₂, unplugged, inr (again, destroy_loop-Succeeds left t₂ e₁))
        ]

    -- `SR.destroy` never gives up in silence. Whenever it returns, the scan returned first, then came
    -- five attempts at most, of which the last one ran `sr-destroy` with success. With `verify`, the run
    -- ended with a question whether the SR exists that was answered with no; without, it ended there.
    pub destroy-Succeeds :
        (t : Trace) {t' : Trace}
        → destroy E master uuid verify force t ≡ (ok tt, t')
        → (t₀ : Trace) × (scan E master uuid t ≡ (ok tt, t₀)) × Succeeds 5 t₀ t'
    unfolding destroy
    destroy-Succeeds t e =
        let (v, t₁, ev, e₁) = >>=-eq-ok _ _ t e in (t₁, ev, destroy_loop-Succeeds 4 t₁ e₁)
