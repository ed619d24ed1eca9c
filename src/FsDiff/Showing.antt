-- ===== src/FsDiff/Showing.antt =====
-- scripts/xcpng-fs-diff.py: the differences of two text files, which are fetched into temporary
-- files.
pub mod Cleanup
mod Tests
use mathlib.Core.List.{map}
use xcp_ng_tests.Prelude.{
  ℕ, Bool, true, false, not, ◌&&◌, ◌||◌, ◌==◌, leb, Option, none, some, List, [], ◌∷◌, ◌++◌, Text,
  text_eq, lit, lower, starts_with, contains, all, select, if◌then◌else◌,
}
use xcp_ng_tests.Effect.{
  Result, ok, err, bind, Exec, pure, raise, lift, ◌>>=◌, ◌>>◌, catch, exception, try_finally,
}
use xcp_ng_tests.Commands.{Env, Trace, Completed, Event, local_process, shell_process, decoded}
use xcp_ng_tests.Common.Xe.{quote}
use xcp_ng_tests.FsDiff.{
  DataType, file, file_symlink, dir_symlink, broken_symlink, packages, same_type, Data, Difference,
  named, versions, Report, compare_data,
}
use xcp_ng_tests.FsDiff.Collect.{ssh_cmd, get_data}

-- What the script changes: the trace of commands, the temporary files that are there, the variables
-- of `remote_diff` that its `finally` reads, and the lines that were printed.
pub record Script : Type 0 where
  pub trace : Trace
  pub temp_files : List Text
  pub file_ref : Option Text
  pub file_test : Option Text
  pub printed : List Text
  pub saved : List (Text × Data)

abbrev pub on_trace : {A : Type 0} → Exec Trace A → Exec Script A
on_trace m s = let (r, t) = m s.trace in (r, record s { trace = t })

unfoldable pub print : Text → Exec Script (Unit {0})
print line s = (ok tt, record s { printed = s.printed ++ (line ∷ []) })

-- `os.path.exists(name)` and `os.remove(name)`, of a temporary file.
unfoldable pub remove_temp : Option Text → Exec Script (Unit {0})
remove_temp none s = (ok tt, s)
remove_temp (some name) s =
    (ok tt, record s { temp_files = select (λ f. not (text_eq f name)) s.temp_files })

-- The `finally` of `remote_diff`.
unfoldable pub remove_both : Option Text → Option Text → Exec Script (Unit {0})
unfolding remove_temp ◌>>=◌
remove_both file_ref file_test = remove_temp file_ref >> remove_temp file_test

pub remove_files : Exec Script (Unit {0})
remove_files s = remove_both s.file_ref s.file_test s

-- `mkstemp` chooses the parameter's value for the files that are there.
module _ (E : Env) (mkstemp : List Text → Text → Text) where
  sftp_command : Text → Text
  sftp_command host =
      lit
        "sftp -o \"StrictHostKeyChecking no\" -o \"LogLevel ERROR\" -o \"UserKnownHostsFile /dev/null\" -b - root@"
      ++ host

  start_sftp : Text → Text → Text → Exec Trace Completed
  start_sftp host remote_file local_file t =
      let t' =
        shell_process (sftp_command host)
          (lit "get " ++ (quote remote_file ++ (lit " " ++ quote local_file)))
        ∷ t in
      (ok (E.reply t'), t')

  pub sftp_get : Text → Text → Text → Exec Trace (Unit {0})
  sftp_get host remote_file local_file = start_sftp host remote_file local_file >>= λ res.
      if res.returncode == 0 then pure tt else raise exception

  start_diff : Text → Text → Exec Trace Completed
  start_diff file_ref file_test t =
      let t' = local_process (lit "diff" ∷ lit "-u" ∷ file_ref ∷ file_test ∷ []) ∷ t in
      (ok (E.reply t'), t')

  -- `fd, file_ref = tempfile.mkstemp(suffix='_ref')`, and the same for `file_test`.
  unfoldable pub make_ref : Exec Script Text
  make_ref s =
      let name = mkstemp s.temp_files (lit "_ref") in
      (ok name, record s { temp_files = name ∷ s.temp_files; file_ref = some name })

  unfoldable pub make_test : Exec Script Text
  make_test s =
      let name = mkstemp s.temp_files (lit "_test") in
      (ok name, record s { temp_files = name ∷ s.temp_files; file_test = some name })

  unfoldable pub show_diff : Completed → Exec Script (Unit {0})
  unfolding print
  show_diff res =
      if res.returncode == 1
      then lift (decoded E res.stdout) >>= print
      else if res.returncode == 2
      then raise exception
      else pure tt

  -- The files of the two hosts, and their differences.
  pub fetch_and_diff : Text → Text → Text → Exec Script (Unit {0})
  fetch_and_diff host_ref host_test filename = do
    file_ref ← make_ref
    on_trace (sftp_get host_ref filename file_ref)
    file_test ← make_test
    on_trace (sftp_get host_test filename file_test)
    res ← on_trace (start_diff file_ref file_test)
    show_diff res

  pub diff_text_files : Text → Text → Text → Exec Script (Unit {0})
  diff_text_files host_ref host_test filename = do
    file_type ← on_trace (ssh_cmd E host_ref (lit "file -b " ++ quote filename))
    if starts_with (lit "ascii") (lower file_type)
        then fetch_and_diff host_ref host_test filename
        else print (lit "Binary file. Not showing diff")

  pub remote_diff : Text → Text → Text → Exec Script (Unit {0})
  remote_diff host_ref host_test filename s =
      try_finally (catch (diff_text_files host_ref host_test filename) λ e. pure tt) remove_files
        (record s { file_ref = none; file_test = none })
