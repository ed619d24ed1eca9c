-- ===== src/Pool/Rollback.antt =====
-- The rollback of `exec_on_hosts_on_error_rollback`.
use xcp_ng_tests.Prelude.{
  Option, none, some, List, [], ◌∷◌, ◌++◌, append-nil, append_assoc, ◌≡◌, ◌≢◌, refl, sym, ap, ◌∙◌,
  inl, inr, ◌⊎◌,
}
use xcp_ng_tests.Effect.{Exn, Result, ok, err, Exec, raise, catch}
use xcp_ng_tests.Effect.Laws.{>>=-step, >>=-raise, catch-ok, catch-err}
use xcp_ng_tests.Pool.{
  chosen_hosts, exec_on_hosts_on_error_continue, run_rollback, rollback_loop,
  exec_on_hosts_on_error_rollback,
}
use xcp_ng_tests.Pool.Laws.{
  run_all, failures, Runs, rolled_back, exec_on_hosts_on_error_continue_lem,
}

chosen_hosts-snoc :
    {Host : Type 0} (done : List Host) (h : Host) (hosts : List Host)
    → chosen_hosts (done ++ (h ∷ [])) hosts ≡ done ++ (h ∷ [])
unfolding chosen_hosts
chosen_hosts-snoc [] h hosts = refl
chosen_hosts-snoc (d ∷ done) h hosts = refl

empty_or_not : {A : Type 0} (l : List A) → (l ≡ []) ⊎ (l ≢ [])
empty_or_not [] = inl refl
empty_or_not (x ∷ l) = inr (λ e. cc)

module _ {S Host : Type 0} where
  run_all_swallowed :
      (undo : Host → Exec S (Unit {0})) (done : List Host) (h : Host) (hosts : List Host) (s : S)
      → catch (exec_on_hosts_on_error_continue undo (done ++ (h ∷ [])) hosts) (λ e s. (ok tt, s)) s
        ≡ (ok tt, run_all undo (done ++ (h ∷ [])) s)
  run_all_swallowed undo done h hosts s =
      let swallow : Exn → Exec S (Unit {0}) = λ e s. (ok tt, s) in
      let chosen = chosen_hosts-snoc done h hosts in
      let (passes, raises) = exec_on_hosts_on_error_continue_lem undo (done ++ (h ∷ [])) hosts s in
      elim (empty_or_not (failures undo (chosen_hosts (done ++ (h ∷ [])) hosts) s)) [
        | inl none_failed ↦
            catch-ok _ swallow s (passes none_failed) ∙ ap (λ l. (ok tt, run_all undo l s)) chosen
        | inr failed ↦
            catch-err _ swallow s (raises failed) ∙ ap (λ l. (ok tt, run_all undo l s)) chosen
      ]

  run_rollback_lem :
      (rollback_func : Option (Host → Exec S (Unit {0}))) (done : List Host) (h : Host)
      (hosts : List Host) (s : S)
      → run_rollback rollback_func (done ++ (h ∷ [])) hosts s
        ≡ (ok tt, rolled_back rollback_func (done ++ (h ∷ [])) s)
  unfolding run_rollback rolled_back
  run_rollback_lem none done h hosts s = refl
  run_rollback_lem (some undo) done h hosts s = run_all_swallowed undo done h hosts s

  module _ (func : Host → Exec S (Unit {0}))
      (rollback_func : Option (Host → Exec S (Unit {0}))) where
    -- What a run that failed on a host leaves behind.
    unfoldable pub Failed : List Host → List Host → S → Result (Unit {0}) × S → Type 0
    Failed done hosts s p =
        (before : List Host) × (h : Host) × (after : List Host) × (e : Exn) × (at failed_at : S)
        × (hosts ≡ before ++ (h ∷ after))
        × Runs func s before at
        × (func h at ≡ (err e, failed_at))
        × (p ≡ (err e, rolled_back rollback_func (done ++ before ++ (h ∷ [])) failed_at))

    stopped_now :
        (done : List Host) (h : Host) (hosts : List Host) (s t : S) (x : Exn)
        {q : Result (Unit {0}) × S}
        → func h s ≡ (err x, t)
        → q ≡ (err x, rolled_back rollback_func (done ++ (h ∷ [])) t)
        → Failed done (h ∷ hosts) s q
    unfolding Failed Runs
    stopped_now done h hosts s t x fails eq = (
      [],
      h,
      hosts,
      x,
      s,
      t,
      refl,
      refl,
      fails,
      eq ∙ ap (λ l. (err x, rolled_back rollback_func (l ++ (h ∷ [])) t)) (sym (append-nil done)),
    )

    stopped_later :
        (done : List Host) (h : Host) (hosts : List Host) (s t : S) {p q : Result (Unit {0}) × S}
        → func h s ≡ (ok tt, t)
        → Failed (done ++ (h ∷ [])) hosts t p
        → q ≡ p
        → Failed done (h ∷ hosts) s q
    unfolding Failed Runs
    stopped_later done h hosts s t first (before, g, after, e, at, failed_at, eh, runs, fails, ep)
          same =
        (
          h ∷ before,
          g,
          after,
          e,
          at,
          failed_at,
          ap (λ l. h ∷ l) eh,
          (t, first, runs),
          fails,
          same
              ∙ ep
              ∙ ap (λ l. (err e, rolled_back rollback_func (l ++ (g ∷ [])) failed_at))
                  (append_assoc done (h ∷ []) before),
        )

    -- What a loop over some hosts can end in.
    unfoldable pub Ends : List Host → List Host → S → Result (Unit {0}) × S → Type 0
    Ends done hosts s p =
        ((s' : S) × Runs func s hosts s' × (p ≡ (ok tt, s'))) ⊎ Failed done hosts s p

    rollback_loop_step :
        (all done : List Host) (h : Host) (hosts : List Host) (s : S) (p : Result (Unit {0}) × S)
        → func h s ≡ p
        → ((t : S)
            → Ends
                (done ++ (h ∷ []))
                hosts
                t
                (rollback_loop func rollback_func all (done ++ (h ∷ [])) hosts t))
        → Ends done (h ∷ hosts) s (rollback_loop func rollback_func all done (h ∷ hosts) s)
    unfolding rollback_loop Runs Ends
    rollback_loop_step all done h hosts s (ok u, t) e rest =
        let step =
          >>=-step _ (λ _. rollback_loop func rollback_func all (done ++ (h ∷ [])) hosts) s
            (catch-ok (func h) _ s e) in
        elim (rest t) [
          | inl (s', runs, ended) ↦ inl (s', (t, e, runs), step ∙ ended)
          | inr failed ↦ inr (stopped_later done h hosts s t e failed step)
        ]
    rollback_loop_step all done h hosts s (err x, t) e rest =
        let undone =
          >>=-step _ (λ _. raise {S = S} {A = Unit {0}} x) t
            (run_rollback_lem rollback_func done h all t) in
        let stopped =
          >>=-raise _ (λ _. rollback_loop func rollback_func all (done ++ (h ∷ [])) hosts) s
            (catch-err (func h) _ s e ∙ undone) in
        inr (stopped_now done h hosts s t x e stopped)

    rollback_loop_lem :
        (all done hosts : List Host) (s : S)
        → Ends done hosts s (rollback_loop func rollback_func all done hosts s)
    unfolding rollback_loop Runs Ends
    rollback_loop_lem all done [] s = inl (s, refl, refl)
    rollback_loop_lem all done (h ∷ hosts) s =
        rollback_loop_step all done h hosts s (func h s) refl
          (rollback_loop_lem all (done ++ (h ∷ [])) hosts)

    -- Either every chosen host ran in order and none raised, and the call returns in the state they
    -- left; or they ran up to the first that raised, then the rollback ran on exactly those that had
    -- run and the failed one, every one of them even if another rollback raised, and the call raises
    -- the exception of the failed host, not one of the rollback.
    pub exec_on_hosts_on_error_rollback_lem :
        (host_list hosts : List Host) (s : S)
        → Ends []
            (chosen_hosts host_list hosts)
            s
            (exec_on_hosts_on_error_rollback func rollback_func host_list hosts s)
    unfolding exec_on_hosts_on_error_rollback
    exec_on_hosts_on_error_rollback_lem host_list hosts s =
        rollback_loop_lem hosts [] (chosen_hosts host_list hosts) s
