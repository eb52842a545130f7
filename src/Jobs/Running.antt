-- ===== src/Jobs/Running.antt =====
-- A queued job is claimed, finished and, if it failed, queued again.
use Prim.Native.String.{◌++◌ as append}
use amz_command_center.Base.{
  Bool, Option, String, best, false, first_of, if◌then◌else◌, leb, ltb, none, not, ok, opt_str_eq,
  raise_if, raised, select, some, str_eq, update_where, ℕ, ◌&&◌, ◌+◌, ◌==◌, ◌>>◌, ◌||◌,
}
use amz_command_center.Number.{ticks}
use amz_command_center.Json.{Members, empty, or_empty, put, text}
use amz_command_center.HumanControl.{TextCase}
use amz_command_center.Jobs.Tables.{
  Job, JobEvent, JobRef, JobStatus, JobWorld, error_required, failed, is_status, job_status_name,
  no_running_job, not_retryable, queued, running, succeeded,
}
use amz_command_center.Jobs.Defs.{JobCall, is_job, job_event, or_default, ref_of}

module _ {W : Type 0} where
  abbrev pub is_due_job : JobWorld W → String → ℕ → Job W → Bool
  is_due_job w tenant now j =
      str_eq j.tenant_id tenant
      && is_status j.status queued
      && leb j.next_attempt_at now
      && not (w.is_locked j)

  -- `order by next_attempt_at,queued_at`
  abbrev pub job_before : Job W → Job W → Bool
  job_before i j =
      ltb i.next_attempt_at j.next_attempt_at
      || (i.next_attempt_at == j.next_attempt_at && ltb i.queued_at j.queued_at)

  abbrev pub claimed : String → ℕ → Job W → Job W
  claimed worker now j = record j {
    status = running;
    attempt = j.attempt + 1;
    worker_id = some worker;
    started_at = some now;
    finished_at = none;
    error = none;
  }

  -- The `attempt:n:what` of a dedupe key.
  abbrev pub attempt_key : JobWorld W → ℕ → String → String
  attempt_key w attempt what = append "attempt:" (append (w.show attempt) (append ":" what))

  abbrev pub is_claimable : String → String → Job W → Bool
  is_claimable tenant id j = is_job tenant id j && is_status j.status queued

  abbrev pub start_event : JobWorld W → String → String → Job W → JobEvent W
  start_event w tenant worker started = record {
    tenant_id = tenant;
    job_id = started.id;
    event_type = "report.started";
    previous_state = some queued;
    new_state = running;
    attempt = started.attempt;
    actor_type = "worker";
    actor_id = worker;
    dedupe_key = attempt_key w started.attempt "start";
    metadata = empty;
  }

  -- The update of the row that was found, and its event.
  unfoldable pub claim_row : JobWorld W → String → String → ℕ → String → JobCall W (Option JobRef)
  unfolding is_status job_event
  claim_row w tenant worker now id t = elim (first_of (select (is_claimable tenant id) t.jobs)) [
    | none ↦ ok (none, t)
    | some j ↦
        let next = claimed worker now j in
        ok (
          some (ref_of next false),
          job_event (start_event w tenant worker next) (record t {
            jobs = update_where (is_claimable tenant id) (claimed worker now) t.jobs;
          }),
        )
  ]

  unfoldable pub claim_next_job :
      JobWorld W → String → String → Option ℕ → JobCall W (Option JobRef)
  unfolding claim_row is_status update_where
  claim_next_job w tenant worker at t =
      let now = or_default w.clock at in
      elim (best job_before (select (is_due_job w tenant now) t.jobs)) [
        | none ↦ ok (none, t)
        | some j ↦ claim_row w tenant worker now j.id t
      ]

  -- A running job of this worker.
  abbrev pub is_held : String → String → String → Job W → Bool
  is_held tenant id worker j =
      is_job tenant id j && is_status j.status running && opt_str_eq j.worker_id (some worker)

  abbrev pub finished : JobStatus → ℕ → Option String → Job W → Job W
  finished target now error j = record j { status = target; finished_at = some now; error = error }

  -- `if error: event_metadata["error"] = error`
  abbrev pub with_error : Option String → Members W → Members W
  with_error none metadata = metadata
  with_error (some message) metadata =
      if str_eq message "" then metadata else put "error" (text message) metadata

  -- `_finish`
  unfoldable pub finish_job :
      JobWorld W
      → String
      → String
      → String
      → JobStatus
      → Option String
      → Option ℕ
      → Option (Members W)
      → JobCall W JobRef
  unfolding job_event job_status_name is_status opt_str_eq update_where
  finish_job w tenant id worker target error at metadata t =
      let now = or_default w.clock at in
      elim (first_of (select (is_held tenant id worker) t.jobs)) [
        | none ↦ raised no_running_job
        | some j ↦ ok (
          record { id = id; status = target; attempt = j.attempt; is_created = false },
          job_event
              (record {
                tenant_id = tenant;
                job_id = id;
                event_type = append "report." (job_status_name target);
                previous_state = some running;
                new_state = target;
                attempt = j.attempt;
                actor_type = "worker";
                actor_id = worker;
                dedupe_key = attempt_key w j.attempt (job_status_name target);
                metadata = with_error error (or_empty metadata);
              })
              (record t {
                jobs = update_where (is_held tenant id worker) (finished target now error) t.jobs;
              }),
        )
      ]

  unfoldable pub succeed_job :
      JobWorld W → String → String → String → Option (Members W) → JobCall W JobRef
  unfolding finish_job
  succeed_job w tenant id worker metadata =
      finish_job w tenant id worker succeeded none none metadata

  unfoldable pub fail_job :
      ⦃t : TextCase⦄ → JobWorld W → String → String → String → String → JobCall W JobRef
  unfolding finish_job
  fail_job ⦃t = c⦄ w tenant id worker error t =
      raise_if (str_eq (c.strip error) "") error_required
      >> finish_job w tenant id worker failed (some error) none none t

  abbrev pub is_retryable : String → String → Job W → Bool
  is_retryable tenant id j =
      is_job tenant id j && is_status j.status failed && ltb j.attempt j.scope.max_attempts

  abbrev pub requeued : ℕ → Job W → Job W
  requeued at j = record j {
    status = queued;
    queued_at = at;
    next_attempt_at = at;
    started_at = none;
    finished_at = none;
    worker_id = none;
    error = none;
  }

  unfoldable pub retry_job : JobWorld W → String → String → String → Option ℕ → JobCall W JobRef
  unfolding job_event is_status update_where
  retry_job w tenant id actor next t =
      let at = or_default w.clock next in
      elim (first_of (select (is_retryable tenant id) t.jobs)) [
        | none ↦ raised not_retryable
        | some j ↦ ok (
          record { id = id; status = queued; attempt = j.attempt; is_created = false },
          job_event
              (record {
                tenant_id = tenant;
                job_id = id;
                event_type = "report.retry_queued";
                previous_state = some failed;
                new_state = queued;
                attempt = j.attempt;
                actor_type = "user";
                actor_id = actor;
                dedupe_key = attempt_key w j.attempt "retry";
                metadata = empty;
              })
              (record t { jobs = update_where (is_retryable tenant id) (requeued at) t.jobs }),
        )
      ]
