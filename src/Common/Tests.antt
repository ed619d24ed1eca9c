-- ===== src/Common/Tests.antt =====
-- A test that is true after three sleeps.
use xcp_ng_tests.Prelude.{◌≡◌, refl, Bool, false, [], ◌∷◌, leb, arith}
use mathlib.Core.Bool.{xor}
use xcp_ng_tests.Effect.{ok, Exec, ◌>>=◌}
use xcp_ng_tests.Commands.{Trace, sleep}
use xcp_ng_tests.Commands.Tests.{env, elapsed}
use xcp_ng_tests.Common.Waiting.{trace_clock, wait_loop, wait_for, Ends, wait_for-Ends}

abbrev ready : Exec Trace Bool
ready t = (ok (leb 6 (elapsed t)), t)

waited :
    wait_for (trace_clock env) ready 120 2 false 61 [] ≡ (ok tt, sleep 2 ∷ sleep 2 ∷ sleep 2 ∷ [])
unfolding wait_for wait_loop ◌>>=◌ xor
waited = refl

wait_for-Ends_example :
    Ends (trace_clock env) ready 120 2 false 0 (wait_for (trace_clock env) ready 120 2 false 61 [])
wait_for-Ends_example =
    wait_for-Ends (trace_clock env) ready 120 2 false (λ t n. omega arith) (λ t. omega arith) 60 []
      (omega arith)
