-- ===== src/Common/Nodeids.antt =====
-- lib/common.py and lib/vm.py: the identifiers of tests, in full and shortened, and the keys of cached
-- images.
use xcp_ng_tests.Prelude.{
  ◌&&◌, ◌||◌, Option, none, some, List, [], ◌∷◌, ◌++◌, Text, text_eq, lit, join, length, take, ltb,
  ◌==◌, if◌then◌else◌,
}
use xcp_ng_tests.Effect.{Result, ok, err, bind, key_error, runtime_error}
use xcp_ng_tests.Common.Values.{strip_prefix, strip_suffix}

on_first : (Text → Text) → List Text → List Text
on_first f [] = []
on_first f (c ∷ components) = f c ∷ components

-- `text.split('::')`
pub split_nodeid : Text → List Text
split_nodeid [] = [] ∷ []
split_nodeid (c ∷ []) = (c ∷ []) ∷ []
split_nodeid (c ∷ d ∷ t) =
    let rest = split_nodeid t in
    let on = split_nodeid (d ∷ t) in
    if (c == b':') && (d == b':') then [] ∷ rest else on_first (λ part. c ∷ part) on

-- `text.replace('/', '.')`
dotted : Text → Text
dotted [] = []
dotted (c ∷ t) = (if c == b'/' then b'.' else c) ∷ dotted t

short_module : Text → Text
short_module t = dotted (strip_suffix (strip_prefix t (lit "tests/")) (lit ".py"))

on_second : (Text → Text) → List Text → List Text
on_second f [] = []
on_second f (c ∷ components) = c ∷ on_first f components

on_last : (Text → Text) → List Text → List Text
on_last f [] = []
on_last f (c ∷ []) = f c ∷ []
on_last f (c ∷ d ∷ components) = c ∷ on_last f (d ∷ components)

-- The name of the class, if there is one: a component between the first and the last.
short_class : List Text → List Text
short_class components =
    if ltb 2 (length components)
    then on_second (λ t. strip_prefix t (lit "Test")) components
    else components

pub shortened_nodeid : Text → Text
shortened_nodeid nodeid = join (lit "::") (
    short_class
      (on_last (λ t. strip_prefix t (lit "test_")) (on_first short_module (split_nodeid nodeid))))

-- The part of the reference that a scope keeps: `ref.split("::", n)[:n]` has the first `n` parts, or
-- all of them, if they are fewer.
pub scope_base : Text → Text → Result (List Text)
scope_base scope ref_nodeid =
    if text_eq scope (lit "session") || text_eq scope (lit "package")
    then ok []
    else if text_eq scope (lit "module")
    then ok (take 1 (split_nodeid ref_nodeid))
    else if text_eq scope (lit "class")
    then ok (take 2 (split_nodeid ref_nodeid))
    else err runtime_error

pub expand_scope_relative_nodeid : Text → Text → Text → Result Text
expand_scope_relative_nodeid scoped_nodeid scope ref_nodeid =
    bind (scope_base scope ref_nodeid) λ base. ok (join (lit "::") (base ++ (scoped_nodeid ∷ [])))

pub value_of : Text → List (Text × Text) → Option Text
value_of key [] = none
value_of key ((k, v) ∷ d) = if text_eq k key then some v else value_of key d

-- `d[key]`, and `d.get(key, default)`.
item : Text → List (Text × Text) → Result Text
item key d = elim (value_of key d) [ none ↦ err key_error | some v ↦ ok v ]

item_or : Text → List (Text × Text) → Text → Text
item_or key d default = elim (value_of key d) [ none ↦ default | some v ↦ v ]

-- `image_equivs` stands for `IMAGE_EQUIVS` of the file data.py of the user.
pub vm_cache_key_from_def : List (Text × Text) → List (Text × Text) → Text → Text → Result Text
vm_cache_key_from_def image_equivs vm_def ref_nodeid test_gitref =
    bind (item (lit "name") vm_def) λ vm_name. bind (item (lit "image_test") vm_def) λ image_test.
      bind
        (expand_scope_relative_nodeid image_test (item_or (lit "image_scope") vm_def (lit "module"))
          ref_nodeid)
        λ nodeid.
          let image_key =
            shortened_nodeid nodeid
            ++ (lit "-" ++ (item_or (lit "image_vm") vm_def vm_name ++ (lit "-" ++ test_gitref))) in
          ok (item_or image_key image_equivs image_key)
