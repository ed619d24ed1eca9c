-- ===== src/Effect/Laws.antt =====
-- Inversion of a `do` block that returned, and invariants of actions.
use xcp_ng_tests.Prelude.{◌⊎◌, inl, inr, ◌≡◌, refl, ap, Bool, true, false}
use xcp_ng_tests.Effect.{
  catch_ssh, ssh_command_failed, pure, raise, Exn, Result, ok, err, bind, Exec, lift, gets,
  continue, handled, catch, ◌>>=◌, check, try_finally,
}

pub bind-eq-ok {ℓ κ} :
    {A : Type ℓ} {B : Type κ} (m : Result A) (f : A → Result B) {b : B}
    → bind m f ≡ ok b
    → (a : A) × (m ≡ ok a) × (f a ≡ ok b)
bind-eq-ok (ok a) f h = (a, refl, h)
bind-eq-ok (err e) f h = absurd (cc)

module _ {S A B : Type 0} where
  continued :
      (p : Result A × S) (f : A → Exec S B) {b : B} {t : S}
      → continue p.0 f p.1 ≡ (ok b, t)
      → (a : A) × (s' : S) × (p ≡ (ok a, s')) × (f a s' ≡ (ok b, t))
  continued (ok a, s') f h = (a, s', refl, h)
  continued (err e, s') f h = absurd (cc)

  -- A block that returned went through its first step.
  pub >>=-eq-ok :
      (m : Exec S A) (f : A → Exec S B) (s : S) {b : B} {t : S}
      → (m >>= f) s ≡ (ok b, t)
      → (a : A) × (s' : S) × (m s ≡ (ok a, s')) × (f a s' ≡ (ok b, t))
  unfolding ◌>>=◌
  >>=-eq-ok m f s h = continued (m s) f h

  -- A pure step that may raise leaves the state as it is.
  pub lift-eq-ok :
      (r : Result A) (f : A → Exec S B) (s : S) {b : B} {t : S}
      → (lift r >>= f) s ≡ (ok b, t)
      → (a : A) × (r ≡ ok a) × (f a s ≡ (ok b, t))
  unfolding ◌>>=◌
  lift-eq-ok (ok a) f s h = (a, refl, h)
  lift-eq-ok (err e) f s h = absurd (cc)

  pub gets-eq-ok :
      (g : S → A) (f : A → Exec S B) (s : S) {b : B} {t : S}
      → (gets g >>= f) s ≡ (ok b, t)
      → f (g s) s ≡ (ok b, t)
  unfolding ◌>>=◌
  gets-eq-ok g f s h = h

  -- The step after one whose outcome is known.
  pub >>=-step :
      (m : Exec S A) (f : A → Exec S B) (s : S) {a : A} {s' : S}
      → m s ≡ (ok a, s')
      → (m >>= f) s ≡ f a s'
  unfolding ◌>>=◌
  >>=-step m f s e = ap (λ p. continue p.0 f p.1) e

  pub >>=-raise :
      (m : Exec S A) (f : A → Exec S B) (s : S) {x : Exn} {s' : S}
      → m s ≡ (err x, s')
      → (m >>= f) s ≡ (err x, s')
  unfolding ◌>>=◌
  >>=-raise m f s e = ap (λ p. continue p.0 f p.1) e

module _ {S A : Type 0} where
  pub catch-ok :
      (m : Exec S A) (h : Exn → Exec S A) (s : S) {a : A} {s' : S}
      → m s ≡ (ok a, s')
      → catch m h s ≡ (ok a, s')
  unfolding catch
  catch-ok m h s e = ap (λ p. handled p.0 h p.1) e

  pub catch-err :
      (m : Exec S A) (h : Exn → Exec S A) (s : S) {x : Exn} {s' : S}
      → m s ≡ (err x, s')
      → catch m h s ≡ h x s'
  unfolding catch
  catch-err m h s e = ap (λ p. handled p.0 h p.1) e

module _ {S A : Type 0} where
  handled_ssh :
      (h : Exn → Exec S A) (p : Result A × S) {a : A} {t : S}
      → handled p.0
          (λ e. elim e [
            | ssh_command_failed rc stdout cmd ssherr ↦ h (ssh_command_failed rc stdout cmd ssherr)
            | other ↦ raise other
          ])
          p.1
        ≡ (ok a, t)
      → (p ≡ (ok a, t)) ⊎ ((e : Exn) × (s' : S) × (p ≡ (err e, s')) × (h e s' ≡ (ok a, t)))
  handled_ssh h (ok b, s') e = inl e
  handled_ssh h (err (ssh_command_failed rc stdout cmd ssherr), s') e = inr (_, s', refl, e)
  handled_ssh h (err x, s') e = absurd (cc)

  -- An action with a handler that returned: it returned itself, or the handler did.
  pub catch_ssh-eq-ok :
      (m : Exec S A) (h : Exn → Exec S A) (s : S) {a : A} {t : S}
      → catch_ssh m h s ≡ (ok a, t)
      → (m s ≡ (ok a, t)) ⊎ ((e : Exn) × (s' : S) × (m s ≡ (err e, s')) × (h e s' ≡ (ok a, t)))
  unfolding catch_ssh catch
  catch_ssh-eq-ok m h s e = handled_ssh h (m s) e

module _ {S A : Type 0} where
  handled_any :
      (h : Exn → Exec S A) (p : Result A × S) {a : A} {t : S}
      → handled p.0 h p.1 ≡ (ok a, t)
      → (p ≡ (ok a, t)) ⊎ ((e : Exn) × (s' : S) × (p ≡ (err e, s')) × (h e s' ≡ (ok a, t)))
  handled_any h (ok b, s') e = inl e
  handled_any h (err x, s') e = inr (x, s', refl, e)

  pub catch-eq-ok :
      (m : Exec S A) (h : Exn → Exec S A) (s : S) {a : A} {t : S}
      → catch m h s ≡ (ok a, t)
      → (m s ≡ (ok a, t)) ⊎ ((e : Exn) × (s' : S) × (m s ≡ (err e, s')) × (h e s' ≡ (ok a, t)))
  unfolding catch
  catch-eq-ok m h s e = handled_any h (m s) e

pub check-eq-ok :
    {S : Type 0} (b : Bool) (s : S) {u : Unit {0}} {s' : S}
    → check b s ≡ (ok u, s')
    → (b ≡ true) × (s' ≡ s)
check-eq-ok true s e = (refl, cc)
check-eq-ok false s e = absurd (cc)

module _ {S A : Type 0} where
  lift_state : (p : Result (Unit {0}) × S) (r : Result A) → (continue p.0 (λ u. lift r) p.1).1 ≡ p.1
  lift_state (ok u, s) r = refl
  lift_state (err e, s) r = refl

  -- However the first part of a `try` ends, its last part is what runs last, from where it ended.
  pub try_finally-last :
      (m : Exec S A) (last : Exec S (Unit {0})) (s : S)
      → (try_finally m last s).1 ≡ (last (m s).1).1
  unfolding try_finally ◌>>=◌
  try_finally-last m last s = lift_state (last (m s).1) (m s).0

  lifted :
      (p : Result (Unit {0}) × S) (r : Result A)
      → p.0 ≡ ok tt
      → (continue p.0 (λ u. lift r) p.1).0 ≡ r
  lifted (ok u, s) r h = refl
  lifted (err e, s) r h = absurd (cc)

  -- If the last part of a `try` returns, the whole ends as the first part did.
  pub try_finally-result :
      (m : Exec S A) (last : Exec S (Unit {0})) (s : S)
      → (last (m s).1).0 ≡ ok tt
      → (try_finally m last s).0 ≡ (m s).0
  unfolding try_finally ◌>>=◌
  try_finally-result m last s h = lifted (last (m s).1) (m s).0 h

  lift_result :
      (p : Result (Unit {0}) × S) (r : Result A) {a : A} {s' : S}
      → continue p.0 (λ u. lift r) p.1 ≡ (ok a, s')
      → (u : Unit {0}) × (p ≡ (ok u, s')) × (r ≡ ok a)
  lift_result (ok u, s) r e = (u, ap {A = S} (λ t. (ok u, t)) (ap (λ q. q.1) e), ap (λ q. q.0) e)
  lift_result (err x, s) r e = absurd (cc)

  pub try_finally-eq-ok :
      (m : Exec S A) (last : Exec S (Unit {0})) (s : S) {a : A} {s' : S}
      → try_finally m last s ≡ (ok a, s')
      → (u : Unit {0}) × (last (m s).1 ≡ (ok u, s')) × ((m s).0 ≡ ok a)
  unfolding try_finally ◌>>=◌
  try_finally-eq-ok m last s e = lift_result (last (m s).1) (m s).0 e

pub ok-inj {ℓ} : {A : Type ℓ} {a b : A} → ok a ≡ ok b → a ≡ b
ok-inj e = cc

-- The last line of a block.
pub pure-eq-ok :
    {S A : Type 0} (x : A) (s : S) {a : A} {s' : S} → pure x s ≡ (ok a, s') → (x ≡ a) × (s ≡ s')
pure-eq-ok x s e = (ok-inj (ap (λ p. p.0) e), ap (λ p. p.1) e)

module _ {S A B : Type 0} where
  raised_before :
      (p : Result A × S) (f : A → B) {x : Exn} {s' : S}
      → continue p.0 (λ a. pure (f a)) p.1 ≡ (err x, s')
      → p ≡ (err x, s')
  raised_before (ok a, s) f e = absurd (cc)
  raised_before (err x, s) f e = cc

  -- A block whose last line cannot raise raised before it.
  pub >>=-pure-eq-err :
      (m : Exec S A) (f : A → B) (s : S) {x : Exn} {s' : S}
      → (m >>= λ a. pure (f a)) s ≡ (err x, s')
      → m s ≡ (err x, s')
  unfolding ◌>>=◌
  >>=-pure-eq-err m f s e = raised_before (m s) f e
