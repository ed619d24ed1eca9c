-- ===== src/Pool/Tests.antt =====
-- Three hosts, of which the second fails. The state is the hosts that were run on, the latest first,
-- and a rollback writes its host twice.
use xcp_ng_tests.Prelude.{ℕ, ◌≡◌, ◌≢◌, refl, some, List, [], ◌∷◌, ◌==◌, if◌then◌else◌}
use xcp_ng_tests.Effect.{ok, err, key_error, exception, Exec, catch, ◌>>=◌}
use xcp_ng_tests.Pool.{
  chosen_hosts, raise_any, continue_loop, exec_on_hosts_on_error_continue, run_rollback,
  rollback_loop, exec_on_hosts_on_error_rollback,
}
use xcp_ng_tests.Pool.Laws.{failures, run_all, exec_on_hosts_on_error_continue_lem}
use xcp_ng_tests.Pool.Rollback.{Ends, exec_on_hosts_on_error_rollback_lem}

abbrev run : ℕ → Exec (List ℕ) (Unit {0})
run h done = if h == 2 then (err key_error, h ∷ done) else (ok tt, h ∷ done)

abbrev undo : ℕ → Exec (List ℕ) (Unit {0})
undo h done = (err exception, h ∷ h ∷ done)

continued :
    exec_on_hosts_on_error_continue run [] (1 ∷ 2 ∷ 3 ∷ []) [] ≡ (err exception, 3 ∷ 2 ∷ 1 ∷ [])
unfolding exec_on_hosts_on_error_continue continue_loop chosen_hosts raise_any catch ◌>>=◌
continued = refl

rolled_back_on_two :
    exec_on_hosts_on_error_rollback run (some undo) [] (1 ∷ 2 ∷ 3 ∷ []) []
    ≡ (err key_error, 2 ∷ 2 ∷ 1 ∷ 1 ∷ 2 ∷ 1 ∷ [])
unfolding exec_on_hosts_on_error_rollback rollback_loop run_rollback exec_on_hosts_on_error_continue
    continue_loop chosen_hosts raise_any catch ◌>>=◌
rolled_back_on_two = refl

exec_on_hosts_on_error_continue_lem_example :
    (failures run (chosen_hosts [] (1 ∷ 2 ∷ [])) [] ≡ []
      → exec_on_hosts_on_error_continue run [] (1 ∷ 2 ∷ []) []
        ≡ (ok tt, run_all run (chosen_hosts [] (1 ∷ 2 ∷ [])) []))
    × (failures run (chosen_hosts [] (1 ∷ 2 ∷ [])) [] ≢ []
        → exec_on_hosts_on_error_continue run [] (1 ∷ 2 ∷ []) []
          ≡ (err exception, run_all run (chosen_hosts [] (1 ∷ 2 ∷ [])) []))
exec_on_hosts_on_error_continue_lem_example =
    exec_on_hosts_on_error_continue_lem run [] (1 ∷ 2 ∷ []) []

exec_on_hosts_on_error_rollback_lem_example :
    Ends run
      (some undo)
      []
      (chosen_hosts [] (1 ∷ 2 ∷ 3 ∷ []))
      []
      (exec_on_hosts_on_error_rollback run (some undo) [] (1 ∷ 2 ∷ 3 ∷ []) [])
exec_on_hosts_on_error_rollback_lem_example =
    exec_on_hosts_on_error_rollback_lem run (some undo) [] (1 ∷ 2 ∷ 3 ∷ []) []
