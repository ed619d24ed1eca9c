-- ===== src/Common/Values.antt =====
-- lib/common.py: conversions of texts and collected errors.
use xcp_ng_tests.Prelude.{
  ℕ, Bool, true, false, not, Option, none, some, List, [], ◌∷◌, Text, lit, text_eq, truthy,
  remove_prefix, contains, lower, strip, split, length, ltb, if◌then◌else◌,
}
use mathlib.Core.List.{reverse}
use xcp_ng_tests.Effect.{
  Exn, Result, ok, err, bind, value_error, exception, Exec, pure, catch, ◌>>=◌,
}

pub to_xapi_bool : Bool → Text
to_xapi_bool b = if b then lit "true" else lit "false"

abbrev true_words : List Text
true_words = lit "y" ∷ lit "yes" ∷ lit "t" ∷ lit "true" ∷ lit "on" ∷ lit "1" ∷ []

abbrev false_words : List Text
false_words = lit "n" ∷ lit "no" ∷ lit "f" ∷ lit "false" ∷ lit "off" ∷ lit "0" ∷ []

-- `None` and the empty text are false.
unfoldable pub strtobool : Option Text → Result Bool
strtobool none = ok false
strtobool (some val) =
    if not (truthy val)
    then ok false
    else if contains true_words (lower val)
    then ok true
    else if contains false_words (lower val)
    then ok false
    else err value_error

-- `safe_split(text, sep)` for a separator of one character.
unfoldable pub safe_split : ℕ → Text → List Text
safe_split sep text = if ltb 0 (length text) then split sep text else []

pub strip_prefix : Text → Text → Text
strip_prefix text prefix = remove_prefix text prefix

pub strip_suffix : Text → Text → Text
strip_suffix text suffix = reverse (remove_prefix (reverse text) (reverse suffix))

-- `d[key] = value`
pub set_item : Text → Text → List (Text × Text) → List (Text × Text)
set_item key value [] = (key, value) ∷ []
set_item key value ((k, v) ∷ d) =
    if text_eq k key then (k, value) ∷ d else (k, v) ∷ set_item key value d

-- `key, value = pair.split(':')`
pub split_pair : Text → Result (Text × Text)
split_pair pair = elim (split b':' pair) [
  | k ∷ v ∷ [] ↦ ok (strip k, strip v)
  | _ ↦ err value_error
]

pub parse_pairs : List Text → List (Text × Text) → Result (List (Text × Text))
parse_pairs [] res = ok res
parse_pairs (pair ∷ pairs) res =
    bind (split_pair pair) λ (k, v). parse_pairs pairs (set_item k v res)

pub parse_xe_dict : Text → Result (List (Text × Text))
parse_xe_dict xe_dict = parse_pairs (split b';' xe_dict) []

-- `[]` or the exception that the function raised.
pub exec_nofail : {S : Type 0} → Exec S (Unit {0}) → Exec S (List Exn)
exec_nofail func = catch (func >>= λ _. pure []) (λ e. pure (e ∷ []))

pub raise_errors : List Exn → Result (Unit {0})
raise_errors [] = ok tt
raise_errors (e ∷ []) = err e
raise_errors (e ∷ f ∷ errors) = err exception
