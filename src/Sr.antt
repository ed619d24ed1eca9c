-- ===== src/Sr.antt =====
-- lib/sr.py: a storage repository, through `xe` on the master of the pool.
pub mod Destroy
mod Tests
use xcp_ng_tests.Prelude.{
  ℕ, zero, suc, Bool, true, false, not, ◌&&◌, Option, none, some, List, [], ◌∷◌, ◌++◌, Text,
  text_eq, lit, includes, contains, length, ltb, ◌==◌, if◌then◌else◌,
}
use xcp_ng_tests.Effect.{
  Exn, Result, ok, err, Exec, pure, raise, lift, catch_ssh, for_each, ◌>>=◌, ◌>>◌,
  ssh_command_failed, index_error, exception,
}
use xcp_ng_tests.Commands.{Env, Trace}
use xcp_ng_tests.Common.Values.{safe_split, strtobool}
use xcp_ng_tests.Common.Waiting.{trace_clock, pause, wait_for}
use xcp_ng_tests.Common.Xe.{Args, text, bool, xe, xe_minimal, param_get, stdout_of}

-- The rounds of a wait with the default time out and delay, 120 and 2 seconds.
abbrev pub rounds : ℕ
rounds = 61

-- `xs[0]`
pub first : List Text → Result Text
first [] = err index_error
first (x ∷ xs) = ok x

module _ (E : Env) (master uuid : Text) where
  -- A command of which no one reads the output.
  pub run_xe : Text → Args → Exec Trace (Unit {0})
  run_xe action args = xe E master action args >>= λ _. pure tt

  -- The list that `xe --minimal` prints, split at its commas.
  unfoldable pub list_xe : Text → Args → Exec Trace (List Text)
  list_xe action args = xe_minimal E master action args >>= λ out. pure (safe_split b',' out)

  pub pbd_uuids : Exec Trace (List Text)
  pbd_uuids = list_xe (lit "pbd-list") ((lit "sr-uuid", text uuid) ∷ [])

  pub pbd_for_host : Text → Exec Trace Text
  pbd_for_host host_uuid = do
    uuids ←
        list_xe (lit "pbd-list")
          ((lit "sr-uuid", text uuid) ∷ (lit "host-uuid", text host_uuid) ∷ [])
    lift (first uuids)

  pub unplug_pbd : Bool → Text → Exec Trace (Unit {0})
  unplug_pbd force pbd_uuid =
      catch_ssh (run_xe (lit "pbd-unplug") ((lit "uuid", text pbd_uuid) ∷ []))
        (λ e. if force then pure tt else raise e)

  pub unplug_pbds : Bool → Exec Trace (Unit {0})
  unplug_pbds force = pbd_uuids >>= for_each (unplug_pbd force)

  -- The loop of `all_pbds_attached`; once the answer is false no further PBD is asked for.
  pub attached_from : Bool → List Text → Exec Trace Bool
  attached_from all_attached [] = pure all_attached
  attached_from false (pbd_uuid ∷ uuids) = attached_from false uuids
  attached_from true (pbd_uuid ∷ uuids) = do
    answer ←
        xe E master (lit "pbd-param-get")
          ((lit "uuid", text pbd_uuid) ∷ (lit "param-name", text (lit "currently-attached")) ∷ [])
    attached ← lift (strtobool (some answer))
    attached_from attached uuids

  pub all_pbds_attached : Exec Trace Bool
  all_pbds_attached = pbd_uuids >>= attached_from true

  pub plug_pbd : Text → Exec Trace (Unit {0})
  plug_pbd pbd_uuid = run_xe (lit "pbd-plug") ((lit "uuid", text pbd_uuid) ∷ [])

  pub plug_pbds : Bool → Exec Trace (Unit {0})
  plug_pbds verify = do
    uuids ← pbd_uuids
    for_each plug_pbd uuids
    if verify then wait_for (trace_clock E) all_pbds_attached 120 2 false rounds else pure tt

  pub try_plug_pbds : Exec Trace Bool
  try_plug_pbds = catch_ssh (plug_pbds true >>= λ _. pure true) (λ e. pure false)

  unfoldable pub vdi_uuids : Bool → Option Text → Exec Trace (List Text)
  vdi_uuids managed name_label = list_xe (lit "vdi-list") (
      (lit "sr-uuid", text uuid)
      ∷ (lit "managed", bool managed)
      ∷ elim name_label [ none ↦ [] | some label ↦ (lit "name-label", text label) ∷ [] ])

  pub scan : Exec Trace (Unit {0})
  scan = run_xe (lit "sr-scan") ((lit "uuid", text uuid) ∷ [])

  pub exists : Exec Trace Bool
  exists = do
    out ← xe_minimal E master (lit "sr-list") ((lit "uuid", text uuid) ∷ [])
    pure (text_eq out uuid)

  -- The pause before another attempt; `left` attempts are left.
  pub before_retry : ℕ → Exec Trace (Unit {0})
  before_retry zero = raise exception
  before_retry (suc zero) = pause (trace_clock E) 600
  before_retry (suc (suc left)) = pure tt

  -- The handler of a failed `sr-destroy`: false if the loop goes on.
  pub destroy_failed : ℕ → Exn → Exec Trace Bool
  destroy_failed left e =
      if not (includes (lit "the SR is not empty") (stdout_of e)) then raise e else do
        catch_ssh (plug_pbds true >> scan) (λ _. raise exception)
        output ← vdi_uuids true none
        if ltb 0 (length output) then raise exception else before_retry left
        pure false

  -- What an attempt does after `sr-destroy`.
  pub sr_destroy : ℕ → Exec Trace Bool
  sr_destroy left =
      catch_ssh (run_xe (lit "sr-destroy") ((lit "uuid", text uuid) ∷ []) >>= λ _. pure true)
        (destroy_failed left)

  pub wait_destroyed : Bool → Exec Trace (Unit {0})
  wait_destroyed verify =
      if verify then wait_for (trace_clock E) exists 120 2 true rounds else pure tt

  -- The loop of `destroy`, with the number of attempts that are left.
  pub destroy_loop : Bool → Bool → ℕ → Exec Trace (Unit {0})
  destroy_loop verify force zero = pure tt
  destroy_loop verify force (suc left) = do
    unplug_pbds force
    destroyed ← sr_destroy left
    elim destroyed [ true ↦ wait_destroyed verify | false ↦ destroy_loop verify force left ]

  pub destroy : Bool → Bool → Exec Trace (Unit {0})
  destroy verify force = scan >> destroy_loop verify force 5

  pub forget : Bool → Exec Trace (Unit {0})
  forget force = unplug_pbds force >> run_xe (lit "sr-forget") ((lit "uuid", text uuid) ∷ [])

  unfoldable pub hosts_uuids : Exec Trace (List Text)
  hosts_uuids =
      list_xe (lit "pbd-list")
        ((lit "sr-uuid", text uuid) ∷ (lit "params", text (lit "host-uuid")) ∷ [])

  unfoldable pub attached_to_host : Text → Exec Trace Bool
  attached_to_host host_uuid = hosts_uuids >>= λ uuids. pure (contains uuids host_uuid)
