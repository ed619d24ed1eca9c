-- ===== src/Vm/WindowsTools/Laws.antt =====
-- What the return of the insertion of a CD means.
use xcp_ng_tests.Prelude.{
  ℕ, zero, suc, ◌≡◌, ap, ◌∙◌, inl, inr, ◌⊎◌, Bool, true, false, Bool-cases, Text,
}
use mathlib.Core.Path.{subst}
use xcp_ng_tests.Effect.{Result, ok, err, Exec, pure, raise, handled, catch, ◌>>=◌, timeout_error}
use xcp_ng_tests.Effect.Laws.{>>=-eq-ok}
use xcp_ng_tests.Commands.{Env}
use xcp_ng_tests.Common.Waiting.Passed.{Answered}
use xcp_ng_tests.Objects.{Obj}
use xcp_ng_tests.Vm.{Vm}
use xcp_ng_tests.Vm.Booting.{vm_wait-Answered}
use xcp_ng_tests.Vm.Guest.{vm_file_exists}
use xcp_ng_tests.Vm.WindowsTools.{
  catch_timeout, vm_shutdown_without_tools, cd_attempt, insert_cd_safe,
}

module _ {S A : Type 0} where
  handled_timeout :
      (h : Exec S A) (p : Result A × S) {a : A} {s' : S}
      → handled p.0 (λ e. elim e as (λ x. Exec S A) [ timeout_error ↦ h | other ↦ raise other ]) p.1
        ≡ (ok a, s')
      → (p ≡ (ok a, s')) ⊎ ((s₁ : S) × (h s₁ ≡ (ok a, s')))
  handled_timeout h (ok b, s) e = inl e
  handled_timeout h (err timeout_error, s) e = inr (s, e)
  handled_timeout h (err x, s) e = absurd (cc)

  catch_timeout-eq-ok :
      (m h : Exec S A) (s : S) {a : A} {s' : S}
      → catch_timeout m h s ≡ (ok a, s')
      → (m s ≡ (ok a, s')) ⊎ ((s₁ : S) × (h s₁ ≡ (ok a, s')))
  unfolding catch_timeout catch
  catch_timeout-eq-ok m h s e = handled_timeout h (m s) e

module _ (E : Env) (vdi_name cd_path : Text) where
  no_cd :
      (s : Obj Vm) {s' : Obj Vm}
      → (vm_shutdown_without_tools E >>= λ _. pure false) s ≡ (ok true, s')
      → ⊥
  no_cd s e =
      let (u, s₁, down, e₁) = >>=-eq-ok _ _ s e in absurd (let answers = ap (λ p. p.0) e₁ in cc)

  cd_attempt-Answered :
      (s : Obj Vm) {s' : Obj Vm}
      → cd_attempt E vdi_name cd_path s ≡ (ok true, s')
      → Answered (vm_file_exists E cd_path false) true s'
  unfolding cd_attempt
  cd_attempt-Answered s e =
      let (a, s₁, ea, e₁) = >>=-eq-ok _ _ s e in
      let (b, s₂, eb, e₂) = >>=-eq-ok _ _ s₁ e₁ in
      let (c, s₃, ec, e₃) = >>=-eq-ok _ _ s₂ e₂ in
      let (d, s₄, ed, e₄) = >>=-eq-ok _ _ s₃ e₃ in
      let (f, s₅, ef, e₅) = >>=-eq-ok _ _ s₄ e₄ in
      elim (catch_timeout-eq-ok _ _ s₅ e₅) [
        | inl seen ↦
            let (w, s₆, waited, e₆) = >>=-eq-ok _ _ s₅ seen in
            subst (Answered (vm_file_exists E cd_path false) true) (ap (λ p. p.1) e₆)
              (vm_wait-Answered E (vm_file_exists E cd_path false) 60 s₅ waited)
        | inr (s₆, missed) ↦ absurd (no_cd s₆ missed)
      ]

  -- Whenever insert_cd_safe returns, whatever the number of attempts, the run ended with a test
  -- of the path of the CD that found it.
  pub insert_cd_safe-Answered :
      (retries : ℕ) (s : Obj Vm) {u : Unit {0}} {s' : Obj Vm}
      → insert_cd_safe E vdi_name cd_path retries s ≡ (ok u, s')
      → Answered (vm_file_exists E cd_path false) true s'
  unfolding insert_cd_safe
  insert_cd_safe-Answered zero s e = absurd (cc)
  insert_cd_safe-Answered (suc retries) s e =
      let (there, s₁, tried, e₁) = >>=-eq-ok _ _ s e in
      elim (Bool-cases there) [
        | inl found ↦ cd_attempt-Answered s (
            tried
            ∙ ap {A = Bool} (λ b. (ok b, s₁)) found
            ∙ ap (λ p. (ok true, p.1)) (rw found at e₁))
        | inr missed ↦ insert_cd_safe-Answered retries s₁ (rw missed at e₁)
      ]
