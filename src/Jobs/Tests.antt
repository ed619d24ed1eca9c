-- ===== src/Jobs/Tests.antt =====
-- Two filters on the command line beside the filter of the job.
use xcp_ng_tests.Prelude.{◌≡◌, refl, true, some, none, List, [], ◌∷◌, Text, lit}
use xcp_ng_tests.Effect.{ok, err, index_error}
use xcp_ng_tests.Jobs.{
  take_option, joined, parenthesised, join_pytest_args, tuple, single, many, vm_or_vms_refs,
}

abbrev args : List Text
args = lit "-k" ∷ lit "a" ∷ lit "-s" ∷ lit "-k" ∷ lit "b" ∷ []

joined_args :
    join_pytest_args (some (lit "c")) (lit "-k") args
    ≡ ok (some (lit "(c) and (a) and (b)"), lit "-s" ∷ [])
unfolding join_pytest_args take_option joined parenthesised lit
joined_args = refl

-- An option without a value.
no_value : join_pytest_args none (lit "-k") (lit "-k" ∷ []) ≡ err index_error
unfolding join_pytest_args take_option lit
no_value = refl

-- A single definition that is a tuple yields no image, though its version matches.
single_tuple :
    vm_or_vms_refs
      (λ version host_version. true)
      (single (tuple (lit "vm.xva" ∷ lit "8" ∷ [])))
      (some (lit "8.3"))
    ≡ some (many [])
unfolding vm_or_vms_refs
single_tuple = refl
