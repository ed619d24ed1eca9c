-- ===== src/Jobs/Command/Tests.antt =====
-- A job with a VM and a setting, of which the user overrides the setting and gives a filter.
use xcp_ng_tests.Prelude.{Bool, false, none, some, List, [], ◌∷◌, Text, lit}
use xcp_ng_tests.Commands.{Env}
use xcp_ng_tests.Jobs.{multi, str, tuple}
use xcp_ng_tests.Jobs.Command.{JobData, Vms}

abbrev quiet : Env
quiet = record {
  reply = λ t. record { returncode = 0; stdout = []; ssherr = [] };
  clock = λ t. 0;
  decode = λ b. some b;
  decode_replace = λ b. b;
  is_ipv6 = λ a. false;
  ignore_ssh_banner = false;
  on_windows = false;
  pid = [];
}

abbrev never : Text → Text → Bool
never version host_version = false

abbrev vms : Vms
vms =
    (
      lit "multi",
      (
        lit "limits",
        multi (str (lit "a.xva") ∷ tuple (lit "b.xva" ∷ lit "8" ∷ []) ∷ str (lit "c.xva") ∷ []),
      )
          ∷ [],
    )
    ∷ []

abbrev job : JobData
job = record {
  paths = lit "tests/limits" ∷ [];
  params =
      (lit "--vm[]", lit "multi/limits") ∷ (lit "--sr", lit "ext") ∷ (lit "--disk", lit "sdb") ∷ [];
  nb_pools = 1;
  markers = some (lit "big");
  name_filter = none;
}

abbrev args : List Text
args = lit "-m" ∷ lit "small" ∷ lit "--sr=zfs" ∷ []

abbrev command : List Text
command =
    lit "pytest"
    ∷ lit "tests/limits"
    ∷ lit "-m"
    ∷ lit "(big) and (small)"
    ∷ lit "--vm=a.xva"
    ∷ lit "--vm=c.xva"
    ∷ lit "--disk=sdb"
    ∷ lit "--sr=zfs"
    ∷ []
