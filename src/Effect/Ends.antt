-- ===== src/Effect/Ends.antt =====
-- Where an action ends: a predicate on what it returns and the state, and one on the state in which
-- it raises.
use xcp_ng_tests.Effect.{Result, ok, err, Exn, Exec, continue, handled, catch, ◌>>=◌, lift}

module _ {S A : Type 0} where
  abbrev pub EndsIn : (A → S → Type 0) → (S → Type 0) → Result A × S → Type 0
  EndsIn Q E (ok a, s) = Q a s
  EndsIn Q E (err e, s) = E s

  catch-EndsIn_of :
      (Q : A → S → Type 0) (E F : S → Type 0) (h : Exn → Exec S A) (p : Result A × S)
      → EndsIn Q E p
      → ((e : Exn) (s' : S) → E s' → EndsIn Q F (h e s'))
      → EndsIn Q F (handled p.0 h p.1)
  catch-EndsIn_of Q E F h (ok a, s) ends handles = ends
  catch-EndsIn_of Q E F h (err e, s) ends handles = handles e s ends

  pub catch-EndsIn :
      (Q : A → S → Type 0) (E F : S → Type 0) (m : Exec S A) (h : Exn → Exec S A) (s : S)
      → EndsIn Q E (m s)
      → ((e : Exn) (s' : S) → E s' → EndsIn Q F (h e s'))
      → EndsIn Q F (catch m h s)
  unfolding catch
  catch-EndsIn Q E F m h s ends handles = catch-EndsIn_of Q E F h (m s) ends handles

  pub lift-EndsIn : (P : S → Type 0) (r : Result A) (s : S) → P s → EndsIn (λ _. P) P (lift r s)
  lift-EndsIn P (ok a) s h = h
  lift-EndsIn P (err e) s h = h

module _ {S A B : Type 0} where
  >>=-EndsIn_of :
      (Q : A → S → Type 0) (R : B → S → Type 0) (E : S → Type 0) (f : A → Exec S B)
      (p : Result A × S)
      → EndsIn Q E p
      → ((a : A) (s' : S) → Q a s' → EndsIn R E (f a s'))
      → EndsIn R E (continue p.0 f p.1)
  >>=-EndsIn_of Q R E f (ok a, s) ends next = next a s ends
  >>=-EndsIn_of Q R E f (err e, s) ends next = ends

  -- A block ends where its later part ends, or where its first part raised.
  pub >>=-EndsIn :
      (Q : A → S → Type 0) (R : B → S → Type 0) (E : S → Type 0) (m : Exec S A) (f : A → Exec S B)
      (s : S)
      → EndsIn Q E (m s)
      → ((a : A) (s' : S) → Q a s' → EndsIn R E (f a s'))
      → EndsIn R E ((m >>= f) s)
  unfolding ◌>>=◌
  >>=-EndsIn Q R E m f s ends next = >>=-EndsIn_of Q R E f (m s) ends next
