-- ===== src/Effect.antt =====
-- Python code that may raise (`Result`), and that also changes a state (`Exec`): what was written
-- before a raise stays written, so the state comes back beside the exception too.
pub mod Ends
pub mod Laws
use xcp_ng_tests.Prelude.{ℕ, Bool, true, false, List, [], ◌∷◌, Text}

-- The exceptions that the program raises or catches. Messages are left out where no code reads
-- them; `stdout` of a failed command is read by several handlers. All but `diverged` are of `Exception`;
-- others, such as an exit of the program, are not modelled as exceptions. `diverged` is none of
-- Python's: it says that the rounds given to a loop did not suffice.
pub data Exn : Type 0 where
  ssh_command_failed : (returncode : ℕ) (stdout cmd ssherr : Text) → Exn
  local_command_failed : (returncode : ℕ) (stdout : Text) → Exn
  timeout_error assertion_error value_error key_error index_error type_error : Exn
  zero_division_error struct_error os_error unicode_encode_error unicode_decode_error
        recursion_error :
      Exn
  runtime_error exception not_a_master_host_error diverged : Exn

pub data Result {ℓ} (A : Type ℓ) : Type ℓ where
  ok : A → Result A
  err : Exn → Result A

abbrev pub bind {ℓ κ} : {A : Type ℓ} {B : Type κ} → Result A → (A → Result B) → Result B
bind (ok a) f = f a
bind (err e) f = err e

-- `assert`
abbrev pub assert : Bool → Result (Unit {0})
assert true = ok tt
assert false = err assertion_error

abbrev pub Exec : Type 0 → Type 0 → Type 0
Exec S A = S → Result A × S

module _ {S A : Type 0} where
  abbrev pub pure : A → Exec S A
  pure a s = (ok a, s)

  abbrev pub raise : Exn → Exec S A
  raise e s = (err e, s)

  abbrev pub lift : Result A → Exec S A
  lift r s = (r, s)

  abbrev pub gets : (S → A) → Exec S A
  gets f s = (ok (f s), s)

  -- `try: … except` with a handler for every exception.
  abbrev pub handled : Result A → (Exn → Exec S A) → Exec S A
  handled (ok a) h s = (ok a, s)
  handled (err e) h s = h e s

  unfoldable pub catch : Exec S A → (Exn → Exec S A) → Exec S A
  catch m h s = let (r, s') = m s in handled r h s'

module _ {S A B : Type 0} where
  abbrev pub continue : Result A → (A → Exec S B) → Exec S B
  continue (ok a) f s = f a s
  continue (err e) f s = (err e, s)

  infixl 5 ◌>>=◌ ◌>>◌
  unfoldable pub ◌>>=◌ : Exec S A → (A → Exec S B) → Exec S B
  ◌>>=◌ m f s = let (r, s') = m s in continue r f s'

  abbrev pub ◌>>◌ : Exec S A → Exec S B → Exec S B
  m >> n = m >>= λ _. n

-- `for x in xs: f(x)`
unfoldable pub for_each : {S A : Type 0} → (A → Exec S (Unit {0})) → List A → Exec S (Unit {0})
for_each f [] = pure tt
for_each f (x ∷ xs) = f x >> for_each f xs

-- `except SSHCommandFailed`: any other exception passes.
unfoldable pub catch_ssh : {S A : Type 0} → Exec S A → (Exn → Exec S A) → Exec S A
unfolding catch
catch_ssh m h = catch m λ e. elim e [
  | ssh_command_failed rc stdout cmd ssherr ↦ h (ssh_command_failed rc stdout cmd ssherr)
  | other ↦ raise other
]

-- `try: … finally: …`: the last part runs in the state in which the first one ended; what it raises
-- takes the place of how the first one ended.
unfoldable pub try_finally : {S A : Type 0} → Exec S A → Exec S (Unit {0}) → Exec S A
unfolding ◌>>=◌
try_finally m last s = let (r, s') = m s in (last >>= λ _. lift r) s'

-- `assert`, as a step.
abbrev pub check : {S : Type 0} → Bool → Exec S (Unit {0})
check b = lift (assert b)
