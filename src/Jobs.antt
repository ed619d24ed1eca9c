-- ===== src/Jobs.antt =====
-- jobs.py: the choice of VM images, and the options of a job that are merged with those of the
-- command line. `re.match` is the parameter `re_match`; code that prints an error and exits the
-- program is `none`.
pub mod Actions
pub mod Command
pub mod Options
pub mod Merging
mod Tests
use xcp_ng_tests.Prelude.{
  ℕ, Bool, true, false, not, ◌&&◌, Option, none, some, List, [], ◌∷◌, ◌++◌, Text, text_eq, lit,
  truthy, join, if◌then◌else◌,
}
use xcp_ng_tests.Effect.{Result, ok, err, bind, index_error}

-- `VmDef`, where a tuple may have any length.
pub data VmDef : Type 0 where
  str : Text → VmDef
  tuple : List Text → VmDef

-- An entry of `VMS`: one definition or a list.
pub data Entry : Type 0 where
  single : VmDef → Entry
  multi : List VmDef → Entry

-- What `get_vm_or_vms_refs` returns.
pub data Refs : Type 0 where
  one : Text → Refs
  many : List Text → Refs

module _ (re_match : Text → Text → Bool) where
  -- The name of the image, or `none` inside if the version does not match.
  pub filter_vm : VmDef → Option Text → Option (Option Text)
  filter_vm (str vm) host_version = some (some vm)
  filter_vm (tuple (vm ∷ version ∷ [])) none = none
  filter_vm (tuple (vm ∷ version ∷ [])) (some host_version) =
      some (if re_match version host_version then some vm else none)
  filter_vm (tuple vm) host_version = none

  -- The comprehension over the definitions of a list.
  pub filter_vms : List VmDef → Option Text → Option (List Text)
  filter_vms [] host_version = some []
  filter_vms (vm ∷ vms) host_version = elim (filter_vm vm host_version) [
    | none ↦ none
    | some kept ↦ elim (filter_vms vms host_version) [
      | none ↦ none
      | some xvas ↦ some (elim kept [ none ↦ xvas | some xva ↦ xva ∷ xvas ])
    ]
  ]

  nonempty : List Text → Option Refs
  nonempty [] = none
  nonempty (xva ∷ xvas) = some (many (xva ∷ xvas))

  -- `get_vm_or_vms_refs` for an entry that exists. A single tuple passes both tests of its type.
  pub vm_or_vms_refs : Entry → Option Text → Option Refs
  vm_or_vms_refs (multi vms) host_version = elim (filter_vms vms host_version) [
    | none ↦ none
    | some xvas ↦ nonempty xvas
  ]
  vm_or_vms_refs (single (str vm)) host_version = some (one vm)
  vm_or_vms_refs (single (tuple vm)) host_version = some (many [])

-- The loop of `_join_pytest_args`, which takes an option and its value out of the arguments: the
-- values, and the arguments that are left. The source starts each search at the front again, where
-- no argument matches up to the place of the last one.
pub take_option : Text → List Text → Result (List Text × List Text)
take_option option [] = ok ([], [])
take_option option (arg ∷ []) = if text_eq arg option then err index_error else ok ([], arg ∷ [])
take_option option (arg ∷ value ∷ args) =
    if text_eq arg option
    then bind (take_option option args) (λ (values, rest). ok (value ∷ values, rest))
    else bind (take_option option (value ∷ args)) (λ (values, rest). ok (values, arg ∷ rest))

pub parenthesised : Text → Text
parenthesised t = lit "(" ++ (t ++ lit ")")

-- How the values are joined with the filter of the job.
pub joined : Option Text → Text → Option Text
joined none cli = if truthy cli then some (parenthesised cli) else none
joined (some arg) cli =
    if truthy arg && truthy cli
    then some (parenthesised arg ++ (lit " and " ++ parenthesised cli))
    else if truthy cli
    then some (parenthesised cli)
    else some arg

pub join_pytest_args : Option Text → Text → List Text → Result (Option Text × List Text)
join_pytest_args arg option pytest_args =
    bind (take_option option pytest_args)
      λ (values, rest). ok (joined arg (join (lit ") and (") values), rest)
