-- ===== src/FsDiff/Showing/Tests.antt =====
-- Showing the differences of a file whose second copy cannot be fetched, with a temporary file of
-- another program there.
use xcp_ng_tests.Prelude.{
  ℕ, suc, zero, ◌+◌, ◌<◌, ◌≡◌, refl, ap, false, Bool-cases, inl, inr, some, none, List, [], ◌∷◌,
  ◌++◌, Text, text_eq, text_eq_iff, contains, lit, length, length-append, arith, ◌==◌,
  if◌then◌else◌,
}
use xcp_ng_tests.Effect.{ok}
use xcp_ng_tests.Commands.{Env, Trace, Completed}
use xcp_ng_tests.FsDiff.Showing.{Script, remote_diff}
use xcp_ng_tests.FsDiff.Showing.Cleanup.{remote_diff-clean}

ones : ℕ → Text
ones zero = []
ones (suc n) = b'1' ∷ ones n

length-ones : (n : ℕ) → length (ones n) ≡ n
unfolding ones
length-ones zero = refl
length-ones (suc n) = omega (arith, length-ones n)

total : List Text → ℕ
total [] = 0
total (t ∷ temps) = length t + total temps

-- A name that is longer than all the others together.
unfoldable longest : List Text → Text → Text
longest temps suffix = ones (suc (total temps)) ++ suffix

longer-new :
    (temps : List Text) (name : Text) → total temps < length name → contains temps name ≡ false
unfolding total
longer-new [] name h = refl
longer-new (t ∷ temps) name h = elim (Bool-cases (text_eq t name)) [
  | inl same ↦ let e = ap length ((text_eq_iff t name).0 same) in absurd (omega arith)
  | inr other ↦ rw other (longer-new temps name (omega arith))
]

longest-new : (temps : List Text) (suffix : Text) → contains temps (longest temps suffix) ≡ false
longest-new temps suffix = longer-new temps (longest temps suffix) (
    unfold longest in
    omega (arith, length-append (ones (suc (total temps))) suffix, length-ones (suc (total temps))))

-- The third command fails.
abbrev answer : Trace → Completed
answer t =
    if length t == 3
    then record { returncode = 1; stdout = []; ssherr = [] }
    else record { returncode = 0; stdout = lit "ASCII text"; ssherr = [] }

abbrev failing : Env
failing = record {
  reply = answer;
  clock = λ t. 0;
  decode = λ b. some b;
  decode_replace = λ b. b;
  is_ipv6 = λ a. false;
  ignore_ssh_banner = false;
  on_windows = false;
  pid = [];
}

abbrev script : Script
script = record {
  trace = [];
  temp_files = lit "/tmp/1" ∷ [];
  file_ref = none;
  file_test = none;
  printed = [];
  saved = [];
}

remote_diff-clean_example :
    ((remote_diff failing longest (lit "a") (lit "b") (lit "/etc/hosts") script).0 ≡ ok tt)
    × ((remote_diff failing longest (lit "a") (lit "b") (lit "/etc/hosts") script).1.temp_files
        ≡ lit "/tmp/1" ∷ [])
remote_diff-clean_example =
    remote_diff-clean failing longest (lit "a") (lit "b") (lit "/etc/hosts") script longest-new
