-- ===== src/Tools/Available.antt =====
-- The check that all installed packages are available in the chosen repositories.
use xcp_ng_tests.Prelude.{
  ℕ, zero, suc, Bool, true, false, ◌&&◌, ◌==◌, leb, none, some, List, [], ◌∷◌, ◌++◌, Text, text_eq,
  lit, join, splitlines, words, all, if◌then◌else◌,
}
use xcp_ng_tests.Effect.{Result, ok, err, bind, Exec, pure, lift, ◌>>=◌, key_error}
use xcp_ng_tests.Commands.{Env, Trace}
use xcp_ng_tests.Hosts.{host_ssh}
use xcp_ng_tests.Hosts.Yum.{sort_texts}
use xcp_ng_tests.Tools.{
  info, warning, Target, Repositories, TargetPool, Log, Installed, newline, minus, intersection,
  values, packages_of, filter_packages, counted, extras,
}

unfoldable pub is_digit : ℕ → Bool
is_digit c = leb b'0' c && leb c b'9'

-- How many characters an epoch, `\d+:`, has at the start of the text; 0 if there is none.
unfoldable pub epoch_length : Bool → ℕ → Text → ℕ
epoch_length started n [] = 0
epoch_length started n (c ∷ t) =
    let rest = epoch_length true (suc n) t in
    if is_digit c then rest else if started && c == b':' then suc n else 0

-- `re.sub(r'-\d+:', '-', nevra)`
unfoldable pub without_epochs : ℕ → Text → Text
without_epochs skip [] = []
without_epochs zero (c ∷ t) = c ∷ without_epochs (if c == b'-' then epoch_length false 0 t else 0) t
without_epochs (suc skip) (c ∷ t) = without_epochs skip t

unfoldable pub nevra_to_nvra : Text → Text
nevra_to_nvra nevra = without_epochs 0 nevra

specs : List Text → List Text
specs [] = []
specs (p ∷ pkgs) = nevra_to_nvra p ∷ specs pkgs

repo_options : Text → List Text → Text
repo_options option [] = []
repo_options option (r ∷ repos) = option ++ r ++ repo_options option repos

-- What is installed and not available, for the hosts where it is anything.
unavailable_on : Installed → List Text → List Target → Result Installed
unavailable_on installed available [] = ok []
unavailable_on installed available (h ∷ hosts) = bind (packages_of installed h) λ all_pkgs.
    bind (unavailable_on installed available hosts) λ rest.
      let pkgs = minus (filter_packages all_pkgs) available in
      ok (elim pkgs [ [] ↦ rest | p ∷ more ↦ (h, p ∷ more) ∷ rest ])

are_equal : Text → List (Target × Text) → Bool
are_equal t downgrades = all (λ d. text_eq d.1 t) downgrades

downgrade_lines : List (Target × Text) → List Text
downgrade_lines [] = []
downgrade_lines ((h, cmd) ∷ downgrades) =
    (lit "Downgrade command on ["
      ++ h.host.hostname_or_ip
      ++ lit "]:"
      ++ newline
      ++ lit "  "
      ++ cmd)
    ∷ downgrade_lines downgrades

common_downgrade : List (Target × Text) → List Text
common_downgrade [] = []
common_downgrade ((h, cmd) ∷ downgrades) =
    if are_equal cmd downgrades
    then (lit "Downgrade command on all hosts:" ++ newline ++ lit "  " ++ cmd) ∷ []
    else downgrade_lines ((h, cmd) ∷ downgrades)

common_line : List Text → List Text
common_line [] = []
common_line (p ∷ common) =
    counted (lit "Installed packages not available in the selected repositories on all hosts")
      (p ∷ common)
    ∷ []

module _ (E : Env) where
  pub downgrade_command : Target → List Text → Exec Trace Text
  downgrade_command h pkgs = do
    out ←
        host_ssh E h.host
          (lit "rpm -q --qf '%{NAME} ' " ++ join (lit " ") (specs (sort_texts pkgs)))
    pure (lit "yum downgrade -y " ++ join (lit " ") (words out))

  pub downgrades_of : Installed → Exec Trace (List (Target × Text))
  downgrades_of [] = pure []
  downgrades_of ((h, pkgs) ∷ unavailable) = do
    cmd ← downgrade_command h pkgs
    rest ← downgrades_of unavailable
    pure ((h, cmd) ∷ rest)

  config_of : TargetPool → Result Repositories
  config_of p = elim p.config [ none ↦ err key_error | some c ↦ ok c ]

  pub collect_unavailable : Installed → List TargetPool → Exec Trace Installed
  collect_unavailable installed [] = pure []
  collect_unavailable installed (p ∷ pools) = do
    master_cfg ← lift (config_of p)
    out ← host_ssh E p.master.host (
        lit "repoquery --all"
        ++ repo_options (lit " --disablerepo=") master_cfg.disabled
        ++ repo_options (lit " --enablerepo=") master_cfg.enabled)
    unavailable ← lift (unavailable_on installed (splitlines out) p.hosts)
    rest ← collect_unavailable installed pools
    pure (unavailable ++ rest)

  report_unavailable : Installed → Exec Trace Log
  report_unavailable [] =
      pure ((info, lit "All installed packages are available in the selected repositories.") ∷ [])
  report_unavailable (e ∷ unavailable) = do
    common ← lift (intersection (values (e ∷ unavailable)))
    downgrades ← downgrades_of (e ∷ unavailable)
    pure (
        (
          warning,
          join newline (
              common_line common
              ++ (extras common (e ∷ unavailable) ++ common_downgrade downgrades)),
        )
        ∷ [])

  pub check_packages_available : List TargetPool → Installed → Exec Trace Log
  check_packages_available pools installed =
      collect_unavailable installed pools >>= λ unavailable. report_unavailable unavailable
