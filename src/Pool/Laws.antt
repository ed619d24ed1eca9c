-- ===== src/Pool/Laws.antt =====
-- What running on all hosts comes to: the run that goes on after an error, and the one that rolls
-- back.
use xcp_ng_tests.Prelude.{
  Option, none, some, List, [], ◌∷◌, ◌++◌, append-nil, append_assoc, ◌≡◌, ◌≢◌, refl, sym, ap, ◌∙◌,
}
use xcp_ng_tests.Effect.{Exn, Result, ok, err, Exec, pure, catch, ◌>>=◌, exception}
use xcp_ng_tests.Effect.Laws.{>>=-step, >>=-raise, catch-ok, catch-err}
use xcp_ng_tests.Pool.{chosen_hosts, raise_any, continue_loop, exec_on_hosts_on_error_continue}

raise_any_nonempty :
    {S : Type 0} (errors : List Exn) (s : S) → errors ≢ [] → raise_any errors s ≡ (err exception, s)
unfolding raise_any
raise_any_nonempty [] s h = absurd (h refl)
raise_any_nonempty (e ∷ errors) s h = refl

module _ {S Host : Type 0} (func : Host → Exec S (Unit {0})) where
  -- The state after every host has run, whatever each of them raised.
  unfoldable pub run_all : List Host → S → S
  run_all [] s = s
  run_all (h ∷ hosts) s = run_all hosts (func h s).1

  pub failure : Result (Unit {0}) → List Exn
  failure (ok u) = []
  failure (err e) = e ∷ []

  -- What the hosts raised, in order.
  unfoldable pub failures : List Host → S → List Exn
  failures [] s = []
  failures (h ∷ hosts) s = failure (func h s).0 ++ failures hosts (func h s).1

  -- Every host of the list ran in order, and none of them raised.
  unfoldable pub Runs : S → List Host → S → Type 0
  Runs s [] s' = s ≡ s'
  Runs s (h ∷ hosts) s' = (t : S) × (func h s ≡ (ok tt, t)) × Runs t hosts s'

  try_one :
      (h : Host) (s : S) (p : Result (Unit {0}) × S)
      → func h s ≡ p
      → catch (func h >>= λ _. pure []) (λ e. pure (e ∷ [])) s ≡ (ok (failure p.0), p.1)
  unfolding failure
  try_one h s (ok u, t) e = catch-ok _ _ s (>>=-step (func h) _ s e)
  try_one h s (err x, t) e = catch-err _ _ s (>>=-raise (func h) _ s e)

  continue_loop_lem :
      (errors : List Exn) (hosts : List Host) (s : S)
      → continue_loop func errors hosts s ≡ (ok (errors ++ failures hosts s), run_all hosts s)
  unfolding continue_loop failures run_all
  continue_loop_lem errors [] s = ap (λ l. (ok l, s)) (sym (append-nil errors))
  continue_loop_lem errors (h ∷ hosts) s =
      >>=-step _ _ s (try_one h s (func h s) refl)
      ∙ continue_loop_lem (errors ++ failure (func h s).0) hosts (func h s).1
      ∙ ap (λ l. (ok l, run_all hosts (func h s).1))
          (append_assoc errors (failure (func h s).0) (failures hosts (func h s).1))

  -- Running on all hosts to the end: every host of the chosen list runs exactly once, in order, on
  -- the state the one before it left, whatever any of them raised; the call returns if none of them
  -- raised, and raises if one did.
  pub exec_on_hosts_on_error_continue_lem :
      (host_list hosts : List Host) (s : S)
      → (failures (chosen_hosts host_list hosts) s ≡ []
          → exec_on_hosts_on_error_continue func host_list hosts s
            ≡ (ok tt, run_all (chosen_hosts host_list hosts) s))
        × (failures (chosen_hosts host_list hosts) s ≢ []
            → exec_on_hosts_on_error_continue func host_list hosts s
              ≡ (err exception, run_all (chosen_hosts host_list hosts) s))
  unfolding exec_on_hosts_on_error_continue raise_any
  exec_on_hosts_on_error_continue_lem host_list hosts s =
      let looped =
        >>=-step _ (raise_any {S = S}) s (continue_loop_lem [] (chosen_hosts host_list hosts) s) in
      (
        λ none_failed.
            looped ∙ ap (λ l. raise_any l (run_all (chosen_hosts host_list hosts) s)) none_failed,
        λ failed. looped ∙ raise_any_nonempty _ _ failed,
      )

module _ {S Host : Type 0} (rollback_func : Option (Host → Exec S (Unit {0}))) where
  -- The state after the rollback on some hosts.
  unfoldable pub rolled_back : List Host → S → S
  rolled_back hosts s = elim rollback_func [ none ↦ s | some undo ↦ run_all undo hosts s ]
