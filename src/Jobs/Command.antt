-- ===== src/Jobs/Command.antt =====
-- jobs.py: the command line of pytest for a job, from its definition and the arguments of the user.
-- A step that prints an error and exits the program returns `none`. The dictionary `VMS` of the file
-- vm_data.py is the parameter `vms`, which is `none` if the file cannot be imported.
pub mod Params
pub mod Rendered
pub mod Overrides
mod Tests
use mathlib.Core.List.{reverse, map}
use mathlib.Core.Option
use xcp_ng_tests.Prelude.{
  ℕ, Bool, true, false, not, ◌||◌, ◌==◌, Option, none, some, List, [], ◌∷◌, ◌++◌, Text, text_eq,
  lit, truthy, join, contains, includes, split, if◌then◌else◌,
}
use xcp_ng_tests.Effect.{Result, ok, err, bind, value_error, Exec, pure, lift, catch, ◌>>=◌}
use xcp_ng_tests.Commands.{Env, Trace, ssh_text}
use xcp_ng_tests.Jobs.{Entry, Refs, one, many, vm_or_vms_refs, join_pytest_args}

-- `JobData`, without the descriptions.
pub record JobData : Type 0 where
  pub paths : List Text
  pub params : List (Text × Text)
  pub nb_pools : ℕ
  pub markers : Option Text
  pub name_filter : Option Text

abbrev pub Vms : Type 0
Vms = List (Text × List (Text × Entry))

lookup : {V : Type 0} → Text → List (Text × V) → Option V
lookup k [] = none
lookup k ((j, v) ∷ m) = if text_eq j k then some v else lookup k m

-- `t.split(sep)[0]`
pub before : ℕ → Text → Text
before sep [] = []
before sep (c ∷ t) = if c == sep then [] else c ∷ before sep t

drop_brackets : Text → Text
drop_brackets [] = []
drop_brackets (c ∷ t) = if c == b'[' || c == b']' then drop_brackets t else c ∷ t

-- `key.rstrip("[]")`
pub strip_brackets : Text → Text
unfolding drop_brackets
strip_brackets key = reverse (drop_brackets (reverse key))

-- The names of the options that the arguments give a value to.
pub pytest_args_keys : List Text → List Text
pytest_args_keys [] = []
pytest_args_keys (arg ∷ args) =
    if includes (b'=' ∷ []) arg
    then before b'=' arg ∷ pytest_args_keys args
    else pytest_args_keys args

-- The parameters of the job that are left: those that no argument overrides.
pub job_params : List Text → List (Text × Text) → List (Text × Text)
job_params given [] = []
job_params given ((key, value) ∷ params) =
    if contains given (strip_brackets key)
    then job_params given params
    else (key, value) ∷ job_params given params

quoted : Text → Text
quoted t = lit "'" ++ (t ++ lit "'")

-- `str` of a list of texts that hold no quotes and no backslashes.
pub list_str : List Text → Text
list_str texts = lit "[" ++ (join (lit ", ") (map quoted texts) ++ lit "]")

vm_arg : Text → Text
vm_arg vm = lit "--vm=" ++ vm

-- `for vm_ref in vms`, which goes over the characters of a single text.
pub vm_args : Refs → List Text
vm_args (many vms) = map vm_arg vms
vm_args (one vm) = map (λ c. vm_arg (c ∷ [])) vm

pub vms_str : Refs → Text
vms_str (one vm) = vm
vms_str (many vms) = list_str vms

-- `category, key = handle.split("/")`
category_and_key : List Text → Result (Text × Text)
category_and_key (category ∷ key ∷ []) = ok (category, key)
category_and_key parts = err value_error

-- `if filter: cmd += [option, filter]`
pub filter_args : Text → Option Text → List Text
filter_args option none = []
filter_args option (some filter) = if truthy filter then option ∷ filter ∷ [] else []

pub hosts_args : Option Text → List Text
hosts_args none = []
hosts_args (some hosts) = if truthy hosts then (lit "--hosts=" ++ hosts) ∷ [] else []

module _ (re_match : Text → Text → Bool) (vms : Option Vms) where
  entry_of : Vms → Text → Text → Option Entry
  entry_of all_vms category key = elim (lookup category all_vms) [
    | none ↦ none
    | some entries ↦ lookup key entries
  ]

  pub get_vm_or_vms_refs : Text → Option Text → Result (Option Refs)
  get_vm_or_vms_refs handle host_version = elim vms [
    | none ↦ ok none
    | some all_vms ↦ bind (category_and_key (split b'/' handle)) λ (category, key).
        elim (entry_of all_vms category key) [
          | none ↦ ok none
          | some entry ↦ ok (vm_or_vms_refs re_match entry host_version)
        ]
  ]

  -- The arguments for one parameter.
  pub param_args : Text → Text → Option Text → Result (Option (List Text))
  param_args key value host_version =
      if text_eq key (lit "--vm[]")
      then bind (get_vm_or_vms_refs value host_version) (λ vms. ok (Option.map vm_args vms))
      else if text_eq key (lit "--vm")
      then bind (get_vm_or_vms_refs value host_version)
          (λ vms. ok (Option.map (λ refs. vm_arg (vms_str refs) ∷ []) vms))
      else ok (some ((key ++ (b'=' ∷ value)) ∷ []))

  pub params_args : List (Text × Text) → Option Text → Result (Option (List Text))
  params_args [] host_version = ok (some [])
  params_args ((key, value) ∷ params) host_version =
      bind (param_args key value host_version) λ first. elim first [
        | none ↦ ok none
        | some args ↦
            bind (params_args params host_version) λ rest. ok (Option.map (λ l. args ++ l) rest)
      ]

  pub pytest_cmd : JobData → Option Text → Option Text → List Text → Result (Option (List Text))
  pytest_cmd job hosts host_version pytest_args =
      bind (join_pytest_args job.name_filter (lit "-k") pytest_args) λ (name_filter, args₁).
        bind (join_pytest_args job.markers (lit "-m") args₁) λ (markers, args).
          bind (params_args (job_params (pytest_args_keys args) job.params) host_version)
            λ rendered. ok (
              Option.map
                (λ own.
                  (lit "pytest" ∷ job.paths)
                  ++ ((filter_args (lit "-m") markers
                        ++ (filter_args (lit "-k") name_filter ++ hosts_args hosts))
                      ++ (own ++ args)))
                rendered)

  module _ (E : Env) where
    -- The version of the first host takes the place of the one given, unless asking for it raises.
    pub real_version : Option Text → Option Text → Exec Trace (Option Text)
    real_version none host_version = pure host_version
    real_version (some hosts) host_version =
        catch
          (ssh_text E (before b',' hosts) (lit "lsb_release -sr") >>= λ version.
            pure (some version))
          λ e. pure host_version

    pub build_pytest_cmd :
        JobData → Option Text → Option Text → List Text → Exec Trace (Option (List Text))
    build_pytest_cmd job hosts host_version pytest_args = do
      version ← real_version hosts host_version
      lift (pytest_cmd job hosts version pytest_args)
