-- ===== src/Tools/Tests.antt =====
-- Two hosts that differ only by a key, and a third that lacks a package.
use xcp_ng_tests.Prelude.{◌≡◌, refl, ◌↔◌, [], ◌∷◌, lit}
use xcp_ng_tests.Effect.{ok}
use xcp_ng_tests.Vm.Disks.Tests.{host}
use xcp_ng_tests.Tools.{
  Target, Installed, Log, info, intersect_all, intersection, inconsistent, warn_inconsistent,
  check_consistency, report_updated, updated_on, common_of, packages_of, report_of,
}
use xcp_ng_tests.Tools.Available.{nevra_to_nvra, without_epochs, epoch_length, is_digit}
use xcp_ng_tests.Tools.Laws.{IsConsistent, check_consistency-IsConsistent}

abbrev target : Target
target = record { id = 0; host = host }

abbrev other : Target
other = record { id = 1; host = host }

abbrev alike : Installed
alike =
    (target, lit "bash-4" ∷ lit "gpg-pubkey-1" ∷ [])
    ∷ (other, lit "gpg-pubkey-2" ∷ lit "bash-4" ∷ [])
    ∷ []

nothing_logged : check_consistency alike ≡ ok []
unfolding check_consistency intersection intersect_all inconsistent warn_inconsistent lit
nothing_logged = refl

check_consistency-IsConsistent_example : (◌≡◌ {A = Log} [] []) ↔ IsConsistent alike
check_consistency-IsConsistent_example = check_consistency-IsConsistent alike [] nothing_logged

nevra : nevra_to_nvra (lit "a-2:3.4-1") ≡ lit "a-3.4-1"
unfolding nevra_to_nvra without_epochs epoch_length is_digit lit
nevra = refl

-- Each host has another package updated, and the report is that nothing was.
nothing_in_common :
    report_updated
      ((target, []) ∷ (other, []) ∷ [])
      ((target, lit "a" ∷ []) ∷ (other, lit "b" ∷ []) ∷ [])
    ≡ ok ((info, lit "No packages were updated on any host.") ∷ [])
unfolding report_updated updated_on common_of packages_of report_of intersection intersect_all lit
nothing_in_common = refl
