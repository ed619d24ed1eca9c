-- ===== src/Jobs/Actions.antt =====
-- jobs.py: the actions `collect`, `run` and `check`, over the table of jobs. What they print is left
-- out, but for the three lists of tests that `check` finds.
use xcp_ng_tests.Prelude.{
  ℕ, Bool, true, false, not, ◌&&◌, ◌==◌, Option, none, some, List, [], ◌∷◌, ◌++◌, Text, text_eq,
  lit, starts_with, contains, select, any, split, splitlines, length, ltb, if◌then◌else◌,
}
use xcp_ng_tests.Effect.{Result, ok, bind, Exec, pure, lift, ◌>>=◌}
use xcp_ng_tests.Commands.{Env, Trace, Completed, local_process, decoded}
use xcp_ng_tests.Commands.Local.{start_local}
use xcp_ng_tests.Jobs.Command.{JobData, Vms, before, build_pytest_cmd}

-- How an action ends: it returns, it exits the program with 1, or pytest takes its place.
pub data Ending : Type 0 where
  returned exited : Ending
  replaced_by : List Text → Ending

abbrev pub no_tests_found : ℕ
no_tests_found = 5

-- The tests in the output of a collection, without what stands in brackets.
pub tests_in : List Text → List Text
tests_in [] = []
tests_in (line ∷ lines) =
    if starts_with (lit "tests/") line then before b'[' line ∷ tests_in lines else tests_in lines

-- `a - b` and `a |= b`, of sets.
pub minus : List Text → List Text → List Text
minus a b = select (λ t. not (contains b t)) a

pub union : List Text → List Text → List Text
union a b = a ++ minus b a

-- `sorted(list(tests))` is empty exactly if the set is.
pub is_empty : List Text → Bool
is_empty [] = true
is_empty (t ∷ tests) = false

module _ (re_match : Text → Text → Bool) (vms : Option Vms) (E : Env) where
  pub action_collect : JobData → Option Text → List Text → Exec Trace Ending
  action_collect job host_version pytest_args = do
    cmd ← build_pytest_cmd re_match vms E job none host_version (lit "--collect-only" ∷ pytest_args)
    elim cmd [ none ↦ pure exited | some args ↦ start_local E args >>= λ res. pure returned ]

  -- `os.execvp`
  execvp : List Text → Exec Trace Ending
  execvp cmd t = (ok (replaced_by cmd), local_process cmd ∷ t)

  -- The part of `action_run` behind the printing of the command.
  pub run_cmd : JobData → Text → Bool → List Text → Exec Trace Ending
  run_cmd job hosts print_only cmd =
      if print_only
      then pure returned
      else if ltb (length (split b',' hosts)) job.nb_pools
      then pure exited
      else execvp cmd

  pub action_run : JobData → Text → Bool → List Text → Exec Trace Ending
  action_run job hosts print_only pytest_args = do
    cmd ← build_pytest_cmd re_match vms E job (some hosts) none pytest_args
    elim cmd [ none ↦ pure exited | some args ↦ run_cmd job hosts print_only args ]

  -- `extract_tests`; `none` stands for the exit when the command failed.
  collected : Completed → Result (Option (List Text))
  collected res =
      if not (res.returncode == 0) && not (res.returncode == no_tests_found)
      then ok none
      else bind (decoded E res.stdout) (λ out. ok (some (tests_in (splitlines out))))

  pub extract_tests : List Text → Exec Trace (Option (List Text))
  extract_tests cmd = start_local E cmd >>= λ res. lift (collected res)

  -- A step that may exit, and what follows if it does not.
  then_tests :
      Exec Trace (Option (List Text))
      → (List Text → Exec Trace (Option (List Text)))
      → Exec Trace (Option (List Text))
  then_tests m f = m >>= λ tests. elim tests [ none ↦ pure none | some found ↦ f found ]

  -- The tests at the paths of `BROKEN_TESTS`, added to those found before.
  pub broken_tests : List Text → List Text → Exec Trace (Option (List Text))
  broken_tests found [] = pure (some found)
  broken_tests found (path ∷ paths) =
      then_tests (extract_tests (lit "pytest" ∷ path ∷ lit "--collect-only" ∷ lit "-q" ∷ []))
        λ tests. broken_tests (union found tests) paths

  -- The tests that the given jobs select.
  pub job_tests : List Text → List JobData → Exec Trace (Option (List Text))
  job_tests found [] = pure (some found)
  job_tests found (job ∷ jobs) =
      then_tests
        (then_tests
          (build_pytest_cmd re_match vms E job none none
            (lit "--collect-only" ∷ lit "-q" ∷ lit "--vm=a_vm" ∷ []))
          extract_tests)
        λ tests. job_tests (union found tests) jobs

  pub on_multi_vms : JobData → Bool
  on_multi_vms job = any (λ param. text_eq param.0 (lit "--vm[]")) job.params

  -- `error` after the three checks: whether a test is selected by no job, has no marker of its VMs,
  -- or is marked for many VMs and selected by no job that has them.
  pub action_check : List Text → List JobData → Exec Trace Ending
  action_check broken_paths jobs = do
    result ← then_tests (broken_tests [] broken_paths) λ broken.
        then_tests (extract_tests (lit "pytest" ∷ lit "--collect-only" ∷ lit "-q" ∷ [])) λ all.
          then_tests (job_tests [] jobs) λ selected.
            then_tests
              (extract_tests (
                lit "pytest"
                ∷ lit "--collect-only"
                ∷ lit "-q"
                ∷ lit "-m"
                ∷ lit "not no_vm and not (small_vm or multi_vm or big_vm or debian_uefi_vm)"
                ∷ []))
              λ unmarked.
                then_tests
                  (extract_tests (
                    lit "pytest"
                    ∷ lit "--collect-only"
                    ∷ lit "-q"
                    ∷ lit "-m"
                    ∷ lit "multi_vms"
                    ∷ []))
                  λ multi. then_tests (job_tests [] (select on_multi_vms jobs)) λ multi_selected.
                    pure (
                      some (
                        minus (minus all broken) selected
                        ++ (unmarked ++ minus (minus multi broken) multi_selected)))
    pure (elim result [
      | none ↦ exited
      | some missing ↦ if is_empty missing then returned else exited
    ])
