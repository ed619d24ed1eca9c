-- ===== src/FsDiff/Collect.antt =====
-- scripts/xcpng-fs-diff.py: what the two hosts are asked for.
use xcp_ng_tests.Prelude.{
  ◌==◌, Option, none, some, List, [], ◌∷◌, ◌++◌, Text, text_eq, lit, strip, join, splitlines,
  if◌then◌else◌,
}
use xcp_ng_tests.Effect.{Result, ok, err, Exec, pure, lift, ◌>>=◌, catch, exception, index_error}
use xcp_ng_tests.Commands.{Env, Trace, Completed, decoded}
use xcp_ng_tests.Commands.Local.{start_local}
use xcp_ng_tests.FsDiff.{
  DataType, file, file_symlink, dir_symlink, broken_symlink, packages, Files, Data,
}

-- `d[key] = value`
unfoldable pub set_value : Text → Text → Files → Files
set_value key value [] = (key, some value) ∷ []
set_value key value ((k, v) ∷ files) =
    if text_eq k key then (k, some value) ∷ files else (k, v) ∷ set_value key value files

-- `line.split(' ', 1)`: what stands before and behind the first blank, if there is one.
unfoldable pub split_once : Text → Option (Text × Text)
split_once [] = none
split_once (c ∷ t) =
    let rest = split_once t in
    if c == 32
    then some ([], t)
    else elim rest [ none ↦ none | some (first, second) ↦ some (c ∷ first, second) ]

-- The loop over the lines of checksums or links: the name stands behind the first blank.
unfoldable pub files_from : Files → List Text → Result Files
unfolding split_once set_value
files_from res [] = ok res
files_from res (line ∷ lines) = elim (split_once line) [
  | none ↦ err index_error
  | some (value, name) ↦ files_from (set_value (strip name) (strip value) res) lines
]

-- The loop over the lines of packages: the name stands before the first blank.
unfoldable pub packages_from : Files → List Text → Result Files
unfolding split_once set_value
packages_from res [] = ok res
packages_from res (line ∷ lines) = elim (split_once line) [
  | none ↦ err index_error
  | some (name, version) ↦ packages_from (set_value name version res) lines
]

md5sum_files : Text
md5sum_files = lit " -print0 | xargs -0 md5sum"

links : Text
links = lit " -exec readlink -n {} \\; -exec echo -n '  ' \\; -print"

-- What `find` looks for, and what is done with what it finds; `none` for a type that is no file's.
unfoldable pub find_options : DataType → Option Text
unfolding md5sum_files links
find_options file = some (lit "-type f" ++ md5sum_files)
find_options file_symlink = some (lit "-type l -xtype f" ++ md5sum_files)
find_options dir_symlink = some (lit "-type l -xtype d" ++ links)
find_options broken_symlink = some (lit "-xtype l" ++ links)
find_options packages = none

module _ (E : Env) where
  stdout_of : Completed → Result Text
  stdout_of res = if res.returncode == 0 then decoded E res.stdout else err exception

  pub ssh_cmd : Text → Text → Exec Trace Text
  ssh_cmd host cmd =
      start_local E (lit "ssh" ∷ (lit "root@" ++ host) ∷ cmd ∷ []) >>= λ res. lift (stdout_of res)

  pub ssh_get_files : Text → DataType → List Text → Exec Trace Files
  ssh_get_files host file_type folders = elim (find_options file_type) [
    | none ↦ pure []
    | some options ↦
        ssh_cmd host (lit "find " ++ (join (lit " ") folders ++ (lit " " ++ options))) >>= λ rawres.
        lift (files_from [] (splitlines rawres))
  ]

  pub ssh_get_packages : Text → Exec Trace Files
  ssh_get_packages host =
      ssh_cmd host (lit "rpm -qa --queryformat '%{NAME} %{VERSION}\n'") >>= λ res.
      lift (packages_from [] (splitlines res))

  collect : Text → List Text → Exec Trace Data
  collect host folders = do
    files ← ssh_get_files host file folders
    file_symlinks ← ssh_get_files host file_symlink folders
    dir_symlinks ← ssh_get_files host dir_symlink folders
    broken_symlinks ← ssh_get_files host broken_symlink folders
    installed ← ssh_get_packages host
    pure (
        (file, files)
        ∷ (file_symlink, file_symlinks)
        ∷ (dir_symlink, dir_symlinks)
        ∷ (broken_symlink, broken_symlinks)
        ∷ (packages, installed)
        ∷ [])

  -- `none` stands for the exit of the program on an exception.
  pub get_data : Text → List Text → Exec Trace (Option Data)
  get_data host folders = catch (collect host folders >>= λ found. pure (some found)) λ e. pure none
