-- ===== src/Pool.antt =====
-- lib/pool.py: running a function on the hosts of a pool, with a rollback or to the end. A host is
-- a value of any type, and the function any action on any state.
pub mod Laws
pub mod Rollback
pub mod Certs
mod Tests
use xcp_ng_tests.Prelude.{Option, none, some, List, [], ◌∷◌, ◌++◌}
use xcp_ng_tests.Effect.{Exn, Result, ok, err, Exec, pure, raise, catch, ◌>>=◌, ◌>>◌, exception}

-- `host_list if host_list else self.hosts`
pub chosen_hosts : {Host : Type 0} → List Host → List Host → List Host
chosen_hosts [] hosts = hosts
chosen_hosts (h ∷ host_list) hosts = h ∷ host_list

-- `if errors: raise Exception(…)`; only whether the dictionary `errors` is empty is read.
pub raise_any : {S : Type 0} → List Exn → Exec S (Unit {0})
raise_any [] = pure tt
raise_any (e ∷ errors) = raise exception

module _ {S Host : Type 0} where
  -- The loop of `exec_on_hosts_on_error_continue`, with the errors so far.
  pub continue_loop : (Host → Exec S (Unit {0})) → List Exn → List Host → Exec S (List Exn)
  continue_loop func errors [] = pure errors
  continue_loop func errors (h ∷ hosts) = do
    failed ← catch (func h >>= λ _. pure []) (λ e. pure (e ∷ []))
    continue_loop func (errors ++ failed) hosts

  pub exec_on_hosts_on_error_continue :
      (Host → Exec S (Unit {0})) → List Host → List Host → Exec S (Unit {0})
  exec_on_hosts_on_error_continue func host_list hosts = do
    errors ← continue_loop func [] (chosen_hosts host_list hosts)
    raise_any errors

  -- What the handler does before it raises the error again; an error of the rollback is dropped.
  pub run_rollback : Option (Host → Exec S (Unit {0})) → List Host → List Host → Exec S (Unit {0})
  run_rollback none rollback_hosts hosts = pure tt
  run_rollback (some rollback_func) rollback_hosts hosts =
      catch (exec_on_hosts_on_error_continue rollback_func rollback_hosts hosts) (λ e. pure tt)

  -- The loop of `exec_on_hosts_on_error_rollback`, with the hosts that are done.
  pub rollback_loop :
      (Host → Exec S (Unit {0}))
      → Option (Host → Exec S (Unit {0}))
      → List Host
      → List Host
      → List Host
      → Exec S (Unit {0})
  rollback_loop func rollback_func all_hosts hosts_done [] = pure tt
  rollback_loop func rollback_func all_hosts hosts_done (h ∷ hosts) = do
    catch (func h) (λ e. do run_rollback rollback_func (hosts_done ++ (h ∷ [])) all_hosts; raise e)
    rollback_loop func rollback_func all_hosts (hosts_done ++ (h ∷ [])) hosts

  pub exec_on_hosts_on_error_rollback :
      (Host → Exec S (Unit {0}))
      → Option (Host → Exec S (Unit {0}))
      → List Host
      → List Host
      → Exec S (Unit {0})
  exec_on_hosts_on_error_rollback func rollback_func host_list hosts =
      rollback_loop func rollback_func hosts [] (chosen_hosts host_list hosts)
