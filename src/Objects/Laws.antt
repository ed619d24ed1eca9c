-- ===== src/Objects/Laws.antt =====
-- Which actions leave the object alone: always, or whenever they raise.
use xcp_ng_tests.Prelude.{
  ℕ, zero, suc, Bool, true, false, xor, leb, ◌-◌, ap, if◌then◌else◌, ◌≡◌, refl, ◌∙◌,
}
use xcp_ng_tests.Effect.{
  Exn, Result, ok, err, Exec, pure, raise, lift, continue, handled, ◌>>=◌, catch, catch_ssh,
  ssh_command_failed, timeout_error, diverged,
}
use xcp_ng_tests.Commands.{Env, Trace}
use xcp_ng_tests.Common.Waiting.{wait_loop, wait_for}
use xcp_ng_tests.Objects.{Obj, on_trace, with_obj, assign, obj_clock}

-- A part of the object is the same afterwards, and all of it is.
unfoldable pub Fixes : {V W A : Type 0} → (V → W) → Exec (Obj V) A → Type 0
Fixes f m = (s : _) → f (m s).1.1 ≡ f s.1

abbrev pub Keeps : {V A : Type 0} → Exec (Obj V) A → Type 0
Keeps = Fixes (λ v. v)

-- An action that raised has changed nothing in the object.
unfoldable pub Atomic : {V A : Type 0} → Exec (Obj V) A → Type 0
Atomic m = (s : _) (x : Exn) → (m s).0 ≡ err x → (m s).1.1 ≡ s.1

module _ (V : Type 0) {A : Type 0} where
  pub on_trace-Keeps : (m : Exec Trace A) → Keeps {V = V} (on_trace m)
  unfolding Fixes
  on_trace-Keeps m s = refl

  pub lift-Keeps : (r : Result A) → Keeps {V = V} (lift r)
  unfolding Fixes
  lift-Keeps r s = refl

module _ {V A : Type 0} where
  pub with_obj-Fixes :
      {W : Type 0} (π : V → W) (f : V → Exec (Obj V) A)
      → ((v : V) → Fixes π (f v))
      → Fixes π (with_obj f)
  unfolding Fixes
  with_obj-Fixes π f h s = h s.1 s

  pub Keeps-Fixes : {W : Type 0} (π : V → W) (m : Exec (Obj V) A) → Keeps m → Fixes π m
  unfolding Fixes
  Keeps-Fixes π m k s = ap π (k s)

  pub with_obj-Atomic : (f : V → Exec (Obj V) A) → ((v : V) → Atomic (f v)) → Atomic (with_obj f)
  unfolding Atomic
  with_obj-Atomic f h s = h s.1 s

  pub Keeps-Atomic : (m : Exec (Obj V) A) → Keeps m → Atomic m
  unfolding Fixes Atomic
  Keeps-Atomic m h s x e = h s

pub assign-Atomic : {V : Type 0} (f : V → V) → Atomic (assign f)
unfolding Atomic
assign-Atomic f s x e = absurd (cc)

pub assign-Fixes :
    {V W : Type 0} (π : V → W) (f : V → V) → ((v : V) → π (f v) ≡ π v) → Fixes π (assign f)
unfolding Fixes
assign-Fixes π f h s = h s.1

pub if-Fixes :
    {V W A : Type 0} (π : V → W) (b : Bool) (m n : Exec (Obj V) A)
    → Fixes π m
    → Fixes π n
    → Fixes π (if b then m else n)
if-Fixes π true m n h k = h
if-Fixes π false m n h k = k

module _ {V W A B : Type 0} (π : V → W) where
  continue-Fixes :
      (p : Result A × Obj V) (f : A → Exec (Obj V) B)
      → ((a : A) → Fixes π (f a))
      → π (continue p.0 f p.1).1.1 ≡ π p.1.1
  unfolding Fixes
  continue-Fixes (ok a, s) f h = h a s
  continue-Fixes (err e, s) f h = refl

  pub >>=-Fixes :
      (m : Exec (Obj V) A) (f : A → Exec (Obj V) B)
      → Fixes π m
      → ((a : A) → Fixes π (f a))
      → Fixes π (m >>= f)
  unfolding ◌>>=◌ Fixes
  >>=-Fixes m f h k s = continue-Fixes (m s) f k ∙ h s

module _ {V A B : Type 0} where
  continue-Atomic :
      (p : Result A × Obj V) (f : A → Exec (Obj V) B) (x : Exn)
      → ((a : A) → Atomic (f a))
      → (continue p.0 f p.1).0 ≡ err x
      → (continue p.0 f p.1).1.1 ≡ p.1.1
  unfolding Atomic
  continue-Atomic (ok a, s) f x h e = h a s x e
  continue-Atomic (err y, s) f x h e = refl

  -- Steps that keep the object, then an atomic one.
  pub >>=-Atomic :
      (m : Exec (Obj V) A) (f : A → Exec (Obj V) B)
      → Keeps m
      → ((a : A) → Atomic (f a))
      → Atomic (m >>= f)
  unfolding ◌>>=◌ Fixes Atomic
  >>=-Atomic m f h k s x e = continue-Atomic (m s) f x k e ∙ h s

module _ {V W A : Type 0} (π : V → W) where
  handled-Fixes :
      (h : Exn → Exec (Obj V) A) (p : Result A × Obj V)
      → ((e : Exn) → Fixes π (h e))
      → π (handled p.0 h p.1).1.1 ≡ π p.1.1
  unfolding Fixes
  handled-Fixes h (ok a, s) k = refl
  handled-Fixes h (err e, s) k = k e s

  pub catch-Fixes :
      (m : Exec (Obj V) A) (h : Exn → Exec (Obj V) A)
      → Fixes π m
      → ((e : Exn) → Fixes π (h e))
      → Fixes π (catch m h)
  unfolding catch Fixes
  catch-Fixes m h k l s = handled-Fixes h (m s) l ∙ k s

  only_ssh :
      (h : Exn → Exec (Obj V) A)
      → ((e : Exn) → Fixes π (h e))
      → (e : Exn)
      → Fixes π (elim e [
        | ssh_command_failed rc stdout cmd ssherr ↦ h (ssh_command_failed rc stdout cmd ssherr)
        | other ↦ raise other
      ])
  unfolding Fixes
  only_ssh h k (ssh_command_failed rc stdout cmd ssherr) s = k _ s
  only_ssh h k e s = refl

  pub catch_ssh-Fixes :
      (m : Exec (Obj V) A) (h : Exn → Exec (Obj V) A)
      → Fixes π m
      → ((e : Exn) → Fixes π (h e))
      → Fixes π (catch_ssh m h)
  unfolding catch_ssh
  catch_ssh-Fixes m h k l = catch-Fixes m _ k (only_ssh h l)

-- A wait changes of the object only what its test does.
module _ {V W : Type 0} (π : V → W) (E : Env) (fn : Exec (Obj V) Bool)
    (timeout_secs retry_delay_secs : ℕ) (invert : Bool) where
  late-Fixes :
      (c : Bool) (rest : Exec (Obj V) (Unit {0})) (s : Obj V)
      → Fixes π rest
      → π
          (elim c as (λ x. Result (Unit {0}) × Obj V) [
            | true ↦ (err timeout_error, s)
            | false ↦ rest ((obj_clock E).after retry_delay_secs s)
          ]).1.1
        ≡ π s.1
  unfolding Fixes
  late-Fixes true rest s k = refl
  late-Fixes false rest s k = k ((obj_clock E).after retry_delay_secs s)

  answered-Fixes :
      (b : Bool) (c : Obj V → Bool) (rest : Exec (Obj V) (Unit {0}))
      → Fixes π rest
      → Fixes π (elim b as (λ x. Exec (Obj V) (Unit {0})) [
        | true ↦ pure tt
        | false ↦ λ t. elim (c t) as (λ x. Result (Unit {0}) × Obj V) [
          | true ↦ (err timeout_error, t)
          | false ↦ rest ((obj_clock E).after retry_delay_secs t)
        ]
      ])
  unfolding Fixes
  answered-Fixes true c rest k s = refl
  answered-Fixes false c rest k s = late-Fixes (c s) rest s k

  wait_loop-Fixes :
      (fuel start : ℕ)
      → Fixes π fn
      → Fixes π (wait_loop (obj_clock E) fn timeout_secs retry_delay_secs invert fuel start)
  unfolding wait_loop
  wait_loop-Fixes zero start k = Keeps-Fixes π _ (lift-Keeps V (err diverged))
  wait_loop-Fixes (suc fuel) start k = >>=-Fixes π fn _ k λ ret.
      answered-Fixes (xor ret invert) (λ t. leb timeout_secs (E.clock t.0 - start)) _
        (wait_loop-Fixes fuel start k)

  pub wait_for-Fixes :
      (fuel : ℕ)
      → Fixes π fn
      → Fixes π (wait_for (obj_clock E) fn timeout_secs retry_delay_secs invert fuel)
  unfolding wait_for Fixes
  wait_for-Fixes fuel k s = wait_loop-Fixes fuel (E.clock s.0) k s
