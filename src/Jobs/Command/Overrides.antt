-- ===== src/Jobs/Command/Overrides.antt =====
-- What a command line for a job holds, and what the user overrides in it.
use mathlib.Core.Option
use xcp_ng_tests.Prelude.{
  ◌≡◌, ◌⊎◌, Bool, true, false, ◌&&◌, Option, none, some, List, [], ◌∷◌, ◌++◌, Text, All, any,
  text_eq, lit, truthy, contains, includes,
}
use xcp_ng_tests.Effect.{Exn, ok, err}
use xcp_ng_tests.Commands.{Env, Trace, ssh_text}
use xcp_ng_tests.Jobs.Command.{JobData, Vms, before}
use xcp_ng_tests.Jobs.Command.Params.{NotGiven}
use xcp_ng_tests.Jobs.Command.Rendered.{Rendered}
use xcp_ng_tests.Jobs.Merging.{Takes, IsMerged}
use xcp_ng_tests.Jobs.Options.{Absent}

-- An argument of the user gives a value to the option.
abbrev pub gives : Text → Text → Bool
gives option arg = includes (b'=' ∷ []) arg && text_eq (before b'=' arg) option

-- The options that the arguments give a value to.
abbrev pub AreGiven : List Text → List Text → Type 0
AreGiven args given = (option : Text) → contains given option ≡ any (gives option) args

-- The arguments for a text that may be missing or empty: none, or those made of it.
abbrev pub IsOptional : (Text → List Text) → Option Text → List Text → Type 0
IsOptional f none args = args ≡ []
IsOptional f (some t) args = ((truthy t ≡ false) × (args ≡ [])) ⊎ ((truthy t ≡ true) × (args ≡ f t))

module _ (re_match : Text → Text → Bool) (vms : Option Vms) where
  -- What the user gave is taken apart into the values of `-k`, those of `-m` and the rest. The command
  -- is pytest with the paths, both filters, the hosts, the arguments of the job and the rest.
  abbrev pub IsCommand : JobData → Option Text → Option Text → List Text → List Text → Type 0
  IsCommand job hosts version args cmd =
      (names marks others rest given : List Text) × (name_filter markers : Option Text) × (m_args
        k_args host_args own : List Text)
      × Takes (lit "-k") args names others
      × Takes (lit "-m") others marks rest
      × IsMerged job.name_filter names name_filter
      × IsMerged job.markers marks markers
      × IsOptional (λ t. lit "-m" ∷ t ∷ []) markers m_args
      × IsOptional (λ t. lit "-k" ∷ t ∷ []) name_filter k_args
      × IsOptional (λ t. (lit "--hosts=" ++ t) ∷ []) hosts host_args
      × AreGiven rest given
      × Rendered re_match vms version given job.params own
      × (cmd ≡ (lit "pytest" ∷ job.paths) ++ ((m_args ++ (k_args ++ host_args)) ++ (own ++ rest)))
      × Absent (lit "-k") rest
      × Absent (lit "-m") rest
      × All (NotGiven given) own

  -- The version that counts: that of the first host, if it answers; else, or without a host, the one
  -- given.
  abbrev pub IsVersion : Env → Option Text → Option Text → Trace → Option Text → Type 0
  IsVersion E none host_version t version = version ≡ host_version
  IsVersion E (some hosts) host_version t version =
      ((out : Text) × (t' : Trace) × (ssh_text E (before b',' hosts) (lit "lsb_release -sr") t
          ≡ (ok out, t'))
        × (version ≡ some out))
      ⊎ ((x : Exn) × (t' : Trace) × (ssh_text E (before b',' hosts) (lit "lsb_release -sr") t
            ≡ (err x, t'))
          × (version ≡ host_version))
