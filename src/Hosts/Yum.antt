-- ===== src/Hosts/Yum.antt =====
-- lib/host.py: packages, and the state of yum that a host saves and restores.
pub mod Laws
mod Tests
use xcp_ng_tests.Prelude.{
  ℕ, zero, suc, Bool, true, false, not, ◌&&◌, ◌||◌, Option, none, some, List, [], ◌∷◌, ◌++◌, Text,
  text_eq, lit, ltb, ◌==◌, starts_with, contains, join, show, splitlines, words, parse_int, length,
  list_eq, if◌then◌else◌,
}
use xcp_ng_tests.Effect.{
  Exn, Result, ok, err, Exec, pure, raise, lift, check, catch_ssh, ◌>>=◌, ◌>>◌, exception,
  index_error,
}
use xcp_ng_tests.Commands.{Env, Trace}
use xcp_ng_tests.Objects.{Obj, on_trace, with_obj, assign}
use xcp_ng_tests.Hosts.{Host, host_ssh, host_run}

-- `sorted(texts)`, by code points.
pub text_leb : Text → Text → Bool
text_leb [] t = true
text_leb (c ∷ s) [] = false
text_leb (c ∷ s) (d ∷ t) = ltb c d || (c == d && text_leb s t)

pub insert_text : Text → List Text → List Text
insert_text t [] = t ∷ []
insert_text t (u ∷ texts) = if text_leb t u then t ∷ u ∷ texts else u ∷ insert_text t texts

pub sort_texts : List Text → List Text
sort_texts [] = []
sort_texts (t ∷ texts) = insert_text t (sort_texts texts)

-- `history[line_index + 1]` for the first line that starts with dashes; `none` if there is no such
-- line, and inside it an exception if no line follows.
pub after_dashes : List Text → Option (Result Text)
after_dashes [] = none
after_dashes (l ∷ lines) =
    if starts_with (lit "--------") l
    then some (elim lines [ [] ↦ err index_error | m ∷ more ↦ ok m ])
    else after_dashes lines

-- `int(line.split()[0])`, where only `ValueError` is caught.
tid_of : Text → Result ℕ
tid_of line = elim (words line) [
  | [] ↦ err index_error
  | w ∷ ws ↦ elim (parse_int w) [ none ↦ err exception | some n ↦ ok n ]
]

pub parse_history : Text → Result ℕ
parse_history history_str = elim (after_dashes (splitlines history_str)) [
  | none ↦ err exception
  | some (err e) ↦ err e
  | some (ok line) ↦ tid_of line
]

-- `[x for x in xs if x not in set(ys)]`
pub missing_from : List Text → List Text → List Text
missing_from ys [] = []
missing_from ys (x ∷ xs) = if contains ys x then missing_from ys xs else x ∷ missing_from ys xs

-- The same, less the keys of GPG.
pub extra_to : List Text → List Text → List Text
extra_to ys [] = []
extra_to ys (x ∷ xs) =
    if not (contains ys x) && not (starts_with (lit "gpg-pubkey-") x)
    then x ∷ extra_to ys xs
    else extra_to ys xs

-- The attributes that the two methods change.
pub record Saved : Type 0 where
  pub saved_packages_list : Option (List Text)
  pub saved_rollback_id : Option ℕ

is_none : {A : Type 0} → Option A → Bool
is_none none = true
is_none (some a) = false

-- `if missing or extra: raise …`
pub raise_if_any : {S : Type 0} → List Text → Exec S (Unit {0})
raise_if_any [] = pure tt
raise_if_any (x ∷ xs) = raise exception

-- The comparison at the end of a restore.
pub check_restored : List Text → List Text → Exec (Obj Saved) (Unit {0})
check_restored saved pkgs =
    if list_eq text_eq saved pkgs
    then pure tt
    else raise_if_any (missing_from pkgs saved ++ extra_to saved pkgs)

module _ (E : Env) (h : Host) where
  pub yum_install : List Text → Option Text → Exec Trace Text
  yum_install packages enablerepo = host_ssh E h (
      lit "yum install --setopt=skip_missing_names_on_install=False -y"
      ++ (elim enablerepo [ none ↦ [] | some r ↦ lit " --enablerepo=" ++ r ]
          ++ (lit " " ++ join (lit " ") packages)))

  pub yum_remove : List Text → Exec Trace Text
  yum_remove packages = host_ssh E h (lit "yum remove -y " ++ join (lit " ") packages)

  pub packages : Exec Trace (List Text)
  packages =
      host_ssh E h (lit "rpm -qa --qf \"%{NAME}-%{EPOCHNUM}:%{VERSION}-%{RELEASE}.%{ARCH}\n\"")
      >>= λ out. pure (sort_texts (splitlines out))

  pub check_packages_available : List Text → Exec Trace Bool
  check_packages_available names =
      host_ssh E h (lit "repoquery " ++ join (lit " ") names) >>= λ out.
      pure (length (splitlines out) == length names)

  pub get_available_package_versions : Text → Exec Trace (List Text)
  get_available_package_versions name =
      host_ssh E h (lit "repoquery --show-duplicates " ++ name) >>= λ out. pure (splitlines out)

  yum_history : Exec Trace Text
  yum_history = host_ssh E h (lit "yum history list --noplugins")

  pub get_last_yum_history_tid : Exec Trace ℕ
  get_last_yum_history_tid = do
    history_str ← catch_ssh yum_history (λ e.
        yum_install (lit "gpm-libs" ∷ []) none >> yum_remove (lit "gpm-libs" ∷ []) >> yum_history)
    lift (parse_history history_str)

  pub yum_save_state : Exec (Obj Saved) (Unit {0})
  yum_save_state = do
    with_obj (λ o. check (is_none o.saved_packages_list))
    installed ← on_trace packages
    assign (λ o. record o { saved_packages_list = some installed })
    tid ← on_trace get_last_yum_history_tid
    assign (λ o. record o { saved_rollback_id = some tid })

  pub restore_from : List Text → ℕ → Exec (Obj Saved) (Unit {0})
  restore_from saved tid = do
    on_trace (
        host_run E h (
          lit "yum history rollback --enablerepo=xcp-ng-base,xcp-ng-testing,xcp-ng-updates "
          ++ (show tid ++ lit " -y")))
    pkgs ← on_trace packages
    check_restored saved pkgs
    assign (λ o. record { saved_packages_list = none; saved_rollback_id = none })

  pub restore_saved : Option (List Text) → Option ℕ → Exec (Obj Saved) (Unit {0})
  restore_saved (some saved) (some tid) = restore_from saved tid
  restore_saved saved tid = check false

  pub yum_restore_saved_state : Exec (Obj Saved) (Unit {0})
  yum_restore_saved_state = with_obj (λ o. restore_saved o.saved_packages_list o.saved_rollback_id)
