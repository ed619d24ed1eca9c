-- ===== src/FsDiff/Main.antt =====
-- scripts/xcpng-fs-diff.py: printing a report, and `main` behind the parsing of its arguments. The
-- parser of JSON is the parameter `load`, whether a file can be written is `writable`, and the text
-- of a report in JSON is `dumps`.
use xcp_ng_tests.Prelude.{
  ℕ, Bool, true, false, ◌&&◌, ◌==◌, Option, none, some, List, [], ◌∷◌, ◌++◌, Text, lit, truthy,
  if◌then◌else◌,
}
use xcp_ng_tests.Effect.{ok, Exec, pure, lift, for_each, ◌>>=◌, ◌>>◌}
use xcp_ng_tests.Commands.{Env}
use xcp_ng_tests.FsDiff.{
  DataType, file, file_symlink, dir_symlink, broken_symlink, packages, same_type, Data, Difference,
  named, versions, Report, compare_data,
}
use xcp_ng_tests.FsDiff.Collect.{get_data}
use xcp_ng_tests.FsDiff.Showing.{Script, on_trace, print, remote_diff}

-- The members of `DataType`, in order, and their values.
abbrev data_types : List DataType
data_types = file ∷ file_symlink ∷ dir_symlink ∷ broken_symlink ∷ packages ∷ []

type_name : DataType → Text
type_name file = lit "file"
type_name file_symlink = lit "file_symlink"
type_name dir_symlink = lit "dir_symlink"
type_name broken_symlink = lit "broken_symlink"
type_name packages = lit "package"

version_str : Option Text → Text
version_str none = lit "None"
version_str (some version) = version

-- What `argparse` leaves of the command line.
pub record Arguments : Type 0 where
  pub ref_host : Option Text
  pub test_host : Option Text
  pub save_ref : Option Text
  pub load_ref : Option Text
  pub show_diff : Bool
  pub show_ignored : Bool
  pub folders : List Text
  pub json_output : Bool

-- What the program exits with: -1, or the number that `main` returns.
pub data ExitCode : Type 0 where
  minus_one : ExitCode
  code : ℕ → ExitCode

given : Option Text → Bool
given none = false
given (some t) = truthy t

is_none : Option Text → Bool
is_none none = true
is_none (some t) = false

host_text : Option Text → Text
host_text none = lit "None"
host_text (some host) = host

module _ (E : Env) (mkstemp : List Text → Text → Text) (ref_host test_host : Text) where
  print_difference : Bool → DataType → Difference → Exec Script (Unit {0})
  print_difference show_diff dtype (versions name ref test) =
      if same_type dtype packages
      then print (
          type_name dtype
          ++ (lit " differs: "
              ++ (name
                  ++ (lit " (ref="
                      ++ (version_str ref ++ (lit ", test=" ++ (version_str test ++ lit ")")))))))
      else pure tt
  print_difference show_diff dtype (named t name) =
      if same_type dtype t
      then print (type_name dtype ++ (lit " differs: " ++ name))
        >> (if show_diff then remote_diff E mkstemp ref_host test_host name else pure tt)
      else pure tt

  print_orphan : DataType → Text → DataType × Text → Exec Script (Unit {0})
  print_orphan dtype host (t, name) =
      if same_type dtype t
      then print (type_name dtype ++ (lit " only exists on " ++ (host ++ (lit " host: " ++ name))))
      else pure tt

  print_ignored : Bool → List Text → Exec Script (Unit {0})
  print_ignored show_ignored [] = pure tt
  print_ignored show_ignored (name ∷ names) =
      if show_ignored
      then print (lit "\nIgnored files:") >> for_each print (name ∷ names)
      else pure tt

  pub print_results : Report → Bool → Bool → Exec Script (Unit {0})
  print_results results show_diff show_ignored = do
    for_each (λ t. for_each (print_difference show_diff t) results.differing) data_types
    for_each
        (λ t.
          for_each (print_orphan t (lit "reference")) results.orphan_ref
          >> for_each (print_orphan t (lit "tested")) results.orphan_test)
        data_types
    print_ignored show_ignored results.ignored_files

module _ (E : Env) (mkstemp : List Text → Text → Text) (ignored : Text → Bool)
    (load : Text → Option Data) (writable : Text → Bool) (dumps : Bool → Report → Text)
    (args : Arguments) where
  say : Text → Exec Script (Unit {0})
  say line = if args.json_output then pure tt else print line

  save_reference_data : Data → Text → Exec Script Bool
  save_reference_data files name s =
      if writable name
      then (ok true, record s { saved = (name, files) ∷ s.saved })
      else (ok false, s)

  -- The reference: `none` inside if there is none, and `none` if the program exits.
  reference_of_host : Text → Exec Script (Option (Option Data))
  reference_of_host host = do
    say (lit "Get reference data from " ++ host)
    found ← on_trace (get_data E host args.folders)
    elim found [
      | none ↦ pure none
      | some ref_data ↦
          if given args.save_ref
          then (do
            say (lit "Saving reference data to " ++ host_text args.save_ref)
            written ← save_reference_data ref_data (host_text args.save_ref)
            pure (if written then some (some ref_data) else none))
          else pure (some (some ref_data))
    ]

  reference : Exec Script (Option (Option Data))
  reference =
      if given args.load_ref
      then (do
        say (lit "Get reference data from " ++ host_text args.load_ref)
        pure (elim (load (host_text args.load_ref)) [
          | none ↦ none
          | some ref_data ↦ some (some ref_data)
        ]))
      else if given args.ref_host
      then reference_of_host (host_text args.ref_host)
      else pure (some none)

  show_results : Report → Exec Script (Unit {0})
  show_results results =
      if args.json_output
      then print (dumps args.show_ignored results)
      else if results.err == 0
      then print (lit "No difference found.")
      else print_results E mkstemp (host_text args.ref_host) (host_text args.test_host) results
          args.show_diff args.show_ignored

  compare_hosts : Data → Text → Exec Script ExitCode
  compare_hosts ref_data test_host = do
    say (lit "Get test host data from " ++ test_host)
    found ← on_trace (get_data E test_host args.folders)
    elim found [
      | none ↦ pure minus_one
      | some test_data ↦ do
        results ← lift (compare_data ignored ref_data test_data)
        show_results results
        pure (code (results.err))
    ]

  missing_parameters : Exec Script ExitCode
  missing_parameters =
      if given args.save_ref
      then pure (code 0)
      else print (lit "\nMissing parameters. Try --help") >> pure minus_one

  with_reference : Option Data → Exec Script ExitCode
  with_reference none = missing_parameters
  with_reference (some ref_data) = elim args.test_host [
    | none ↦ missing_parameters
    | some test_host ↦ compare_hosts ref_data test_host
  ]

  pub main : Exec Script ExitCode
  main =
      if is_none args.ref_host && args.show_diff
      then print (lit "Missing parameters. -d must be used with -r. Try --help") >> pure minus_one
      else reference >>= λ r. elim r [
        | none ↦ pure minus_one
        | some ref_data ↦ with_reference ref_data
      ]
