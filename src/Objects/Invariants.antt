-- ===== src/Objects/Invariants.antt =====
-- Predicates of an object that an action keeps true, whether it returns or raises.
use xcp_ng_tests.Prelude.{Bool, true, false, sym, if◌then◌else◌}
use mathlib.Core.Path.{subst}
use xcp_ng_tests.Effect.{
  Exn, Result, ok, err, Exec, raise, continue, handled, ◌>>=◌, catch, catch_ssh, ssh_command_failed,
}
use xcp_ng_tests.Objects.{Obj, with_obj, assign}
use xcp_ng_tests.Objects.Laws.{Keeps, Fixes}

unfoldable pub Preserves : {V A : Type 0} → (V → Type 0) → Exec (Obj V) A → Type 0
Preserves P m = (s : _) → P s.1 → P (m s).1.1

module _ {V A : Type 0} (P : V → Type 0) where
  pub Keeps-Preserves : (m : Exec (Obj V) A) → Keeps m → Preserves P m
  unfolding Preserves Fixes
  Keeps-Preserves m k s p = subst P (sym (k s)) p

  pub with_obj-Preserves :
      (f : V → Exec (Obj V) A) → ((v : V) → Preserves P (f v)) → Preserves P (with_obj f)
  unfolding Preserves
  with_obj-Preserves f h s = h s.1 s

  pub if-Preserves :
      (b : Bool) (m n : Exec (Obj V) A)
      → Preserves P m
      → Preserves P n
      → Preserves P (if b then m else n)
  if-Preserves true m n h k = h
  if-Preserves false m n h k = k

  handled-Preserves :
      (h : Exn → Exec (Obj V) A) (p : Result A × Obj V)
      → P p.1.1
      → ((e : Exn) → Preserves P (h e))
      → P (handled p.0 h p.1).1.1
  unfolding Preserves
  handled-Preserves h (ok a, s) q k = q
  handled-Preserves h (err e, s) q k = k e s q

  only_ssh :
      (h : Exn → Exec (Obj V) A)
      → ((e : Exn) → Preserves P (h e))
      → (e : Exn)
      → Preserves P (elim e as (λ x. Exec (Obj V) A) [
        | ssh_command_failed rc stdout cmd ssherr ↦ h (ssh_command_failed rc stdout cmd ssherr)
        | other ↦ raise other
      ])
  unfolding Preserves
  only_ssh h k (ssh_command_failed rc stdout cmd ssherr) s p = k _ s p
  only_ssh h k e s p = p

  pub catch_ssh-Preserves :
      (m : Exec (Obj V) A) (h : Exn → Exec (Obj V) A)
      → Preserves P m
      → ((e : Exn) → Preserves P (h e))
      → Preserves P (catch_ssh m h)
  unfolding catch_ssh catch Preserves
  catch_ssh-Preserves m h k l s p = handled-Preserves _ (m s) (k s p) (only_ssh h l)

pub assign-Preserves :
    {V : Type 0} (P : V → Type 0) (f : V → V) → ((v : V) → P v → P (f v)) → Preserves P (assign f)
unfolding Preserves
assign-Preserves P f h s p = h s.1 p

module _ {V A B : Type 0} (P : V → Type 0) where
  continue-Preserves :
      (p : Result A × Obj V) (f : A → Exec (Obj V) B)
      → P p.1.1
      → ((a : A) → Preserves P (f a))
      → P (continue p.0 f p.1).1.1
  unfolding Preserves
  continue-Preserves (ok a, s) f q h = h a s q
  continue-Preserves (err e, s) f q h = q

  pub >>=-Preserves :
      (m : Exec (Obj V) A) (f : A → Exec (Obj V) B)
      → Preserves P m
      → ((a : A) → Preserves P (f a))
      → Preserves P (m >>= f)
  unfolding ◌>>=◌ Preserves
  >>=-Preserves m f h k s p = continue-Preserves (m s) f (h s p) k
