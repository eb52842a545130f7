-- ===== src/Worker/Runs.antt =====
-- A whole run: fetch, check, send, and the record of the run. Any fault rolls the tables back; what
-- the provider has done stays done.
use amz_command_center.Base.{
  Bool, List, Option, Result, String, [], false, if◌then◌else◌, length, none, ok, raised, some,
  true, ℕ, ◌+◌, ◌∷◌,
}
use amz_command_center.Number.{Number, nought, ticks}
use amz_command_center.Json.{Members}
use amz_command_center.StateMachine.{Action, Refusal, applied, status_eq}
use amz_command_center.Audit.{stored}
use amz_command_center.Worker.Defs.{
  ActionClient, Fault, Proc, Surroundings, Tables, WorkerResult, dry_run_client, no_result,
}
use amz_command_center.Worker.Procs.{
  fetch_approved, finish_worker_run, modify, persist_action_failure_alert,
  persist_auth_failure_alert, pure, start_worker_run, ◌>>=◌, ◌>>◌,
}
use amz_command_center.Worker.Applying.{apply_action, persist_apply_result, record_apply_start}
use amz_command_center.Worker.Batches.{
  block_live_actions, count_failed, one_if, or_refused, require_current_live_consent,
  validate_control_batch, validate_live_batch,
}

-- After the checks of a batch: the run is over, or there is something to send.
pub data Plan (W : Type 0) : Type 0 where
  stop : WorkerResult → Plan W
  send : List (Action W) → WorkerResult → Plan W

abbrev pub is_none_left : {A : Type 0} → List A → Bool
is_none_left [] = true
is_none_left (a ∷ rest) = false

module _ {W S : Type 0} ⦃n : Number W⦄ (w : Surroundings W S) where
  abbrev pub finish : ℕ → WorkerResult → Option String → Proc W (Plan W)
  finish id result error = do finish_worker_run id result error; pure (stop result)

  -- The part under `if live_ads`, before the client.
  unfoldable pub check_live : ℕ → List (Action W) → WorkerResult → Proc W (Plan W)
  check_live id actions result db = elim (require_current_live_consent w db.settings) [
    | raised e ↦
        (do
          tally ← block_live_actions w actions (w.config_error_text e) result
          finish id tally (some (w.config_error_text e)))
          db
    | ok cfg ↦
        (do
          (eligible, tally) ← validate_live_batch w actions cfg 0 nought result
          if is_none_left eligible
              then finish id tally (some "all actions blocked by guardrails")
              else pure (send eligible tally))
          db
  ]

  unfoldable pub check_batch : ℕ → Bool → List (Action W) → WorkerResult → Proc W (Plan W)
  unfolding check_live
  check_batch id live_ads actions result =
      if is_none_left actions then finish id result none else (do
        (eligible, tally) ← validate_control_batch w actions result
        if is_none_left eligible
            then finish id tally (some "all actions blocked by human control")
            else if live_ads
            then check_live id eligible tally
            else pure (send eligible tally))

  -- What is stored of one call, and the tally.
  unfoldable pub store_result :
      Bool → WorkerResult → Result Refusal (Action W × Option (Members W)) → Proc W WorkerResult
  unfolding status_eq
  store_result live_ads result done = do
    (updated, response) ← or_refused done
    persist_apply_result w live_ads updated response
    if status_eq updated.status applied
        then pure (record result { applied = result.applied + 1 })
        else (do created ← persist_action_failure_alert updated; pure (count_failed result created))

  -- The loop over the actions, on the tables and the provider.
  unfoldable pub send_all :
      ActionClient W S
      → Bool
      → List (Action W)
      → WorkerResult
      → S
      → Tables W
      → Result Fault (WorkerResult × Tables W) × S
  send_all c live_ads [] result s db = (ok (result, db), s)
  send_all c live_ads (a ∷ rest) result s db =
      elim ((if live_ads then record_apply_start w a else pure tt) db) [
        | raised e ↦ (raised e, s)
        | ok (_, started) ↦
            let (done, s1) = apply_action w c a s in
            elim (store_result live_ads result done started) [
              | raised e ↦ (raised e, s1)
              | ok (tally, stored) ↦ send_all c live_ads rest tally s1 stored
            ]
      ]

  -- The end of a run that has sent its actions.
  abbrev pub end_run :
      ℕ
      → Bool
      → Result Fault (WorkerResult × Tables W) × S
      → Result Fault (WorkerResult × Tables W) × S
  end_run id is_ads (raised e, s) = (raised e, s)
  end_run id is_ads (ok (result, db), s) = (
    (do
      if is_ads then modify (λ t. record t { refresh_token = some (w.sealed_token s) }) else pure tt
      finish_worker_run id result none
      pure result)
        db,
    s,
  )

  -- The choice of the client and the loop.
  unfoldable pub send_batch :
      String
      → ℕ
      → Bool
      → Option (ActionClient W S)
      → List (Action W)
      → WorkerResult
      → S
      → Tables W
      → Result Fault (WorkerResult × Tables W) × S
  send_batch tenant id live_ads (some c) actions result s db =
      end_run id false (send_all c live_ads actions result s db)
  send_batch tenant id false none actions result s db =
      end_run id false (send_all dry_run_client false actions result s db)
  send_batch tenant id true none actions result s db = elim w.live_client [
    | raised message ↦ (
      (do
        created ← persist_auth_failure_alert tenant message
        let tally = record result { alerts_created = result.alerts_created + one_if created }
        finish_worker_run id tally (some message)
        pure tally)
          db,
      s,
    )
    | ok c ↦ end_run id true (send_all c true actions result s db)
  ]

  -- From the start of the run to the decision what to send.
  unfoldable pub plan_run : String → ℕ → Bool → Proc W (ℕ × Plan W)
  unfolding check_batch
  plan_run tenant limit live_ads = do
    id ← start_worker_run tenant
    actions ← λ t. ok (fetch_approved tenant limit t, t)
    plan ← check_batch id live_ads actions (record no_result { scanned = length actions })
    pure (id, plan)

  unfoldable pub run_steps :
      String
      → ℕ
      → Option (ActionClient W S)
      → Bool
      → S
      → Tables W
      → Result Fault (WorkerResult × Tables W) × S
  unfolding plan_run send_batch
  run_steps tenant limit client live_ads s db = elim (plan_run tenant limit live_ads db) [
    | raised e ↦ (raised e, s)
    | ok ((id, plan), ready) ↦ elim plan [
      | stop result ↦ (ok (result, ready), s)
      | send actions result ↦ send_batch tenant id live_ads client actions result s ready
    ]
  ]

  -- Commit, or roll back and raise.
  abbrev pub committed :
      Tables W
      → Result Fault (WorkerResult × Tables W) × S
      → Result Fault WorkerResult × Tables W × S
  committed before (ok (result, after), s) = (ok result, after, s)
  committed before (raised e, s) = (raised e, before, s)

  unfoldable pub run_once :
      String
      → ℕ
      → Option (ActionClient W S)
      → Bool
      → S
      → Tables W
      → Result Fault WorkerResult × Tables W × S
  unfolding run_steps
  run_once tenant limit client live_ads s db =
      committed db (run_steps tenant limit client live_ads s db)
