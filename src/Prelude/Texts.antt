-- ===== src/Prelude/Texts.antt =====
-- Python's `str` as the list of its code points, and the methods that the program calls on it.
use Prim.Native.Nat.{ℕ, zero, suc, ◌+◌, ◌-◌, ◌*◌, ◌/◌, ◌%◌}
use Prim.Native.Char.{code}
use Prim.Native.String.{String}
use mathlib.Core.Path.{◌≡◌, refl}
use mathlib.Core.Logic.{◌↔◌}
use mathlib.Core.Bool.{Bool, true, false, ◌&&◌, ◌||◌}
use mathlib.Core.List.{List, [], ◌∷◌, ◌++◌, reverse}
use mathlib.Core.Option.{Option, none, some}
use native.Mathlib.Omega.{arith}
use xcp_ng_tests.Prelude.Tests.{◌==◌, leb, ltb, if◌then◌else◌}
use xcp_ng_tests.Prelude.Lists.{length, drop, list_eq}

abbrev pub Text : Type 0
Text = List ℕ

abbrev codes : String → Text
codes String.[] = []
codes (String.◌∷◌ c s) = code c ∷ codes s

-- A literal of the source. It stays folded in proofs that do not look at its characters.
unfoldable pub lit : String → Text
lit s = codes s

-- `==`
abbrev pub text_eq : Text → Text → Bool
text_eq = list_eq ◌==◌

pub text_eq_iff : (s t : Text) → (text_eq s t ≡ true) ↔ (s ≡ t)
text_eq_iff [] [] = (λ _. refl, λ _. refl)
text_eq_iff [] (d ∷ t) = (λ h. cc, λ h. cc)
text_eq_iff (c ∷ s) [] = (λ h. cc, λ h. cc)
text_eq_iff (c ∷ s) (d ∷ t) = ground (arith, text_eq_iff s t)

pub text_eq_refl : (s : Text) → text_eq s s ≡ true
text_eq_refl s = (text_eq_iff s s).1 refl

-- `if s`: a text is true unless it is empty.
abbrev pub truthy : Text → Bool
truthy [] = false
truthy (c ∷ s) = true

abbrev pub starts_with : Text → Text → Bool
starts_with [] t = true
starts_with (c ∷ p) [] = false
starts_with (c ∷ p) (d ∷ t) = c == d && starts_with p t

-- `t.removeprefix(p)`
abbrev pub remove_prefix : Text → Text → Text
remove_prefix t p = if starts_with p t then drop (length p) t else t

-- `x in xs`
abbrev pub contains : List Text → Text → Bool
contains [] t = false
contains (s ∷ texts) t = text_eq s t || contains texts t

is_digit : ℕ → Bool
is_digit c = leb b'0' c && leb c b'9'

digits_from : ℕ → Text → Option ℕ
digits_from n [] = some n
digits_from n (c ∷ t) =
    let rest = digits_from (n * 10 + (c - b'0')) t in if is_digit c then rest else none

-- `int(t)` of decimal digits; `none` stands for `ValueError`. Signs, blanks and underscores, which
-- `int` takes too, do not occur in the texts that the program converts with it.
unfoldable pub parse_int : Text → Option ℕ
unfolding digits_from is_digit
parse_int [] = none
parse_int (c ∷ t) = digits_from 0 (c ∷ t)

-- `p in t`
abbrev pub includes : Text → Text → Bool
includes p [] = starts_with p []
includes p (c ∷ t) = starts_with p (c ∷ t) || includes p t

is_space : ℕ → Bool
is_space c = c == 32 || (leb 9 c && leb c 13) || (leb 28 c && leb c 31)

lstrip : Text → Text
lstrip [] = []
lstrip (c ∷ t) = if is_space c then lstrip t else c ∷ t

-- `t.strip()`, for the blanks of ASCII.
unfoldable pub strip : Text → Text
unfolding lstrip is_space
strip t = reverse (lstrip (reverse (lstrip t)))

-- `t.lower()`, for the letters of ASCII.
abbrev pub lower : Text → Text
lower [] = []
lower (c ∷ t) = (if leb b'A' c && leb c b'Z' then c + 32 else c) ∷ lower t

-- The pieces of a text between separators, the current piece reversed in `piece`.
split_from : ℕ → Text → Text → List Text
split_from sep piece [] = reverse piece ∷ []
split_from sep piece (c ∷ t) =
    if c == sep then reverse piece ∷ split_from sep [] t else split_from sep (c ∷ piece) t

-- `t.split(sep)` for a separator of one character.
unfoldable pub split : ℕ → Text → List Text
unfolding split_from
split sep t = split_from sep [] t

-- `sep.join(texts)`
abbrev pub join : Text → List Text → Text
join sep [] = []
join sep (t ∷ []) = t
join sep (t ∷ u ∷ texts) = t ++ (sep ++ join sep (u ∷ texts))

-- `t.splitlines()`, for lines that end in a line feed.
without_last_empty : List Text → List Text
without_last_empty [] = []
without_last_empty ([] ∷ []) = []
without_last_empty ((c ∷ t) ∷ []) = (c ∷ t) ∷ []
without_last_empty (t ∷ u ∷ lines) = t ∷ without_last_empty (u ∷ lines)

unfoldable pub splitlines : Text → List Text
unfolding without_last_empty
splitlines t = without_last_empty (split 10 t)

-- The words of a text, the current word reversed in `word`.
words_from : Text → Text → List Text
words_from [] [] = []
words_from (c ∷ word) [] = reverse (c ∷ word) ∷ []
words_from [] (d ∷ t) = if is_space d then words_from [] t else words_from (d ∷ []) t
words_from (c ∷ word) (d ∷ t) =
    if is_space d then reverse (c ∷ word) ∷ words_from [] t else words_from (d ∷ c ∷ word) t

-- `t.split()`
unfoldable pub words : Text → List Text
unfolding words_from is_space
words t = words_from [] t

digits : ℕ → ℕ → Text
digits zero n = []
digits (suc fuel) n =
    let rest = digits fuel (n / 10) in
    if ltb n 10 then (b'0' + n) ∷ [] else rest ++ ((b'0' + n % 10) ∷ [])

-- `str(n)`
unfoldable pub show : ℕ → Text
unfolding digits
show n = digits (n + 1) n
