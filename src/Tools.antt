-- ===== src/Tools.antt =====
-- lib/tools/tasks/update.py: what the update of pools reports on their packages. A host is a key of a
-- dictionary by its identity, which is a number here.
pub mod Laws
pub mod Available
pub mod Clean
mod Tests
use xcp_ng_tests.Prelude.{
  ℕ, zero, suc, Bool, true, false, not, ◌&&◌, ◌==◌, leb, Option, none, some, List, [], ◌∷◌, ◌++◌,
  Text, text_eq, lit, starts_with, contains, join, show, splitlines, words, length, all, select,
  if◌then◌else◌,
}
use xcp_ng_tests.Effect.{Result, ok, err, bind, Exec, pure, lift, ◌>>=◌, key_error, type_error}
use xcp_ng_tests.Commands.{Env, Trace}
use xcp_ng_tests.Hosts.{Host, host_ssh}
use xcp_ng_tests.Hosts.Yum.{sort_texts, packages}

pub record Target : Type 0 where
  pub id : ℕ
  pub host : Host

-- A pool of the task, with the repositories that the inventory has for its master, if it has any.
pub record Repositories : Type 0 where
  pub enabled : List Text
  pub disabled : List Text

pub record TargetPool : Type 0 where
  pub master : Target
  pub hosts : List Target
  pub config : Option Repositories

pub data Level : Type 0 where
  info warning : Level

abbrev pub Log : Type 0
Log = List (Level × Text)

-- The installed packages of hosts. A set is the list of its elements, each once.
abbrev pub Installed : Type 0
Installed = List (Target × List Text)

abbrev pub newline : Text
newline = 10 ∷ []

-- `set(texts)`
pub as_set : List Text → List Text
as_set [] = []
as_set (t ∷ texts) = let rest = as_set texts in if contains rest t then rest else t ∷ rest

-- `a - b`
abbrev pub minus : List Text → List Text → List Text
minus a b = select (λ x. not (contains b x)) a

abbrev pub intersect : List Text → List Text → List Text
intersect a b = select (contains b) a

abbrev pub is_subset : List Text → List Text → Bool
is_subset a b = all (contains b) a

abbrev pub set_eq : List Text → List Text → Bool
set_eq a b = is_subset a b && is_subset b a

pub intersect_all : List Text → List (List Text) → List Text
intersect_all s [] = s
intersect_all s (t ∷ sets) = intersect_all (intersect s t) sets

-- `set.intersection(*sets)`
pub intersection : List (List Text) → Result (List Text)
intersection [] = err type_error
intersection (s ∷ sets) = ok (intersect_all s sets)

abbrev pub values : Installed → List (List Text)
values [] = []
values ((h, pkgs) ∷ installed) = pkgs ∷ values installed

-- `installed[h]`
pub packages_of : Installed → Target → Result (List Text)
packages_of [] h = err key_error
packages_of ((k, pkgs) ∷ installed) h = if k.id == h.id then ok pkgs else packages_of installed h

abbrev pub is_key : Text → Bool
is_key p = starts_with (lit "gpg-pubkey-") p

abbrev pub filter_packages : List Text → List Text
filter_packages pkgs = select (λ p. not (is_key p)) pkgs

format_each : List Text → List Text
format_each [] = []
format_each (p ∷ pkgs) = (lit "  - " ++ p) ∷ format_each pkgs

pub format_packages : List Text → Text
format_packages pkgs = join newline (format_each pkgs)

pub counted : Text → List Text → Text
counted text pkgs =
    text
    ++ lit " ("
    ++ show (length pkgs)
    ++ lit "):"
    ++ newline
    ++ format_packages (sort_texts pkgs)

additional : Target → List Text → Text
additional h pkgs =
    counted (lit "Additional packages on [" ++ h.host.hostname_or_ip ++ lit "]") pkgs

-- What each host has beyond the common packages, where it is anything.
pub extras : List Text → Installed → List Text
extras common [] = []
extras common ((h, pkgs) ∷ installed) =
    let rest = extras common installed in
    let extra = minus pkgs common in
    elim extra [ [] ↦ rest | p ∷ more ↦ additional h (p ∷ more) ∷ rest ]

-- `_report_updated`
pub updated_on : Installed → Installed → Result Installed
updated_on after [] = ok []
updated_on after ((h, pkgs) ∷ before) =
    bind (packages_of after h) λ now.
      bind (updated_on after before) λ rest. ok ((h, filter_packages (minus now pkgs)) ∷ rest)

pub common_of : Installed → Result (List Text)
common_of [] = ok []
common_of (e ∷ installed) = intersection (values (e ∷ installed))

as_infos : List Text → Log
as_infos [] = []
as_infos (t ∷ texts) = (info, t) ∷ as_infos texts

pub report_of : Installed → List Text → Log
report_of updated [] = (info, lit "No packages were updated on any host.") ∷ []
report_of updated (p ∷ common) =
    (info, counted (lit "Updated packages on all hosts") (p ∷ common))
    ∷ as_infos (extras (p ∷ common) updated)

pub report_updated : Installed → Installed → Result Log
report_updated before after =
    bind (updated_on after before)
      λ updated. bind (common_of updated) λ common. ok (report_of updated common)

-- `_check_consistency`: the hosts that have other packages than those that all have.
pub inconsistent : List Text → Installed → Installed
inconsistent common_set [] = []
inconsistent common_set ((h, p) ∷ installed) =
    let rest = inconsistent common_set installed in
    if set_eq (filter_packages p) (filter_packages common_set)
    then rest
    else (h, minus (filter_packages p) (filter_packages common_set)) ∷ rest

inconsistent_lines : Installed → List Text
inconsistent_lines [] = []
inconsistent_lines ((h, extra_pkgs) ∷ installed) =
    (lit "  ["
      ++ h.host.hostname_or_ip
      ++ lit "] additional packages:"
      ++ newline
      ++ format_packages (sort_texts extra_pkgs))
    ∷ inconsistent_lines installed

pub warn_inconsistent : ℕ → Installed → Log
warn_inconsistent n [] = []
warn_inconsistent n (e ∷ installed) =
    (
      warning,
      join newline (
          (lit "Not all hosts have the same set of packages (reference: common set of "
            ++ show n
            ++ lit " hosts):")
          ∷ inconsistent_lines (e ∷ installed)),
    )
    ∷ []

pub check_consistency : Installed → Result Log
check_consistency installed =
    bind (intersection (values installed))
      λ common_set. ok (warn_inconsistent (length installed) (inconsistent common_set installed))

module _ (E : Env) where
  -- `_capture_packages`
  pub capture_hosts : List Target → Exec Trace Installed
  capture_hosts [] = pure []
  capture_hosts (h ∷ hosts) = do
    pkgs ← packages E h.host
    rest ← capture_hosts hosts
    pure ((h, as_set pkgs) ∷ rest)

  pub capture_packages : List TargetPool → Exec Trace Installed
  capture_packages [] = pure []
  capture_packages (p ∷ pools) = do
    installed ← capture_hosts p.hosts
    rest ← capture_packages pools
    pure (installed ++ rest)
