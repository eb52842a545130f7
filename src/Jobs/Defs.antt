-- ===== src/Jobs/Defs.antt =====
-- The operations on the tables of report jobs. A call returns the tables after it, or raises and, with
-- the rollback of its transaction, leaves them.
use amz_command_center.Base.{
  Bool, List, Option, Result, String, exists, false, first_of, if◌then◌else◌, ltb, member, none,
  not, ok, raise_if, raised, select, some, str_eq, true, ℕ, ◌&&◌, ◌==◌, ◌>>◌, ◌||◌, ◌∷◌,
}
use amz_command_center.Base.Int.{ltb_ℤ, pos, pos_part, ℤ}
use amz_command_center.Number.{Number, ticks}
use amz_command_center.Json.{Members, dict_eq, empty, entry, integer, or_empty, text}
use amz_command_center.HumanControl.{TextCase}
use amz_command_center.Jobs.Tables.{
  Definition, Job, JobError, JobEvent, JobRef, JobWorld, Reports, Scope, attempts_out_of_range,
  check_violated, dates_reversed, idempotency_conflict, key_required, no_definition, queued,
  supported_formats, unsupported_format,
}

-- A call on the tables.
abbrev pub JobCall : Type 0 → Type 0 → Type 0
JobCall W A = Reports W → Result JobError (A × Reports W)

-- `x or default`
abbrev pub or_default : ℕ → Option ℕ → ℕ
or_default default none = default
or_default default (some x) = x

module _ {W : Type 0} where
  abbrev pub same_event : JobEvent W → JobEvent W → Bool
  same_event e f =
      str_eq e.tenant_id f.tenant_id
      && str_eq e.job_id f.job_id
      && str_eq e.event_type f.event_type
      && e.attempt == f.attempt
      && str_eq e.dedupe_key f.dedupe_key

  -- `_event`: an insertion, or nothing on a conflict.
  unfoldable pub job_event : JobEvent W → Reports W → Reports W
  job_event e t = if exists (same_event e) t.events then t else record t { events = e ∷ t.events }

  abbrev pub ref_of : Job W → Bool → JobRef
  ref_of j is_created = record {
    id = j.id;
    status = j.status;
    attempt = j.attempt;
    is_created = is_created;
  }

  abbrev pub is_job : String → String → Job W → Bool
  is_job tenant id j = str_eq j.tenant_id tenant && str_eq j.id id

  abbrev pub has_key : String → String → Job W → Bool
  has_key tenant key j = str_eq j.tenant_id tenant && str_eq j.idempotency_key key

  abbrev pub is_definition : String → String → ℕ → Definition W → Bool
  is_definition tenant code version d =
      str_eq d.tenant_id tenant && str_eq d.code code && d.version == version && d.is_active

  abbrev pub snapshot_of : Definition W → Members W
  snapshot_of d = entry "code" (text d.code) (
      entry "version" (integer (pos d.version)) (
        entry "title" (text d.title) (
          entry "source_contract" (text d.source_contract) (
            entry "render_contract_version" (integer (pos d.render_contract_version))
              (entry "definition" d.definition empty)))))

  abbrev pub new_job : JobWorld W → String → String → Scope W → Definition W → List (Job W) → Job W
  new_job w tenant key scope d jobs = record {
    id = w.new_id jobs;
    tenant_id = tenant;
    definition_id = d.id;
    definition_snapshot = snapshot_of d;
    idempotency_key = key;
    scope = scope;
    status = queued;
    attempt = 0;
    worker_id = none;
    queued_at = w.database_now;
    next_attempt_at = w.database_now;
    started_at = none;
    finished_at = none;
    error = none;
  }

module _ {W : Type 0} ⦃n : Number W⦄ where
  -- `actual == expected` of the two tuples.
  unfoldable pub same_scope : Scope W → Scope W → Bool
  same_scope a b =
      str_eq a.definition_code b.definition_code
      && a.definition_version == b.definition_version
      && str_eq a.requested_by b.requested_by
      && a.date_from == b.date_from
      && a.date_to == b.date_to
      && dict_eq a.filters b.filters
      && str_eq a.output_format b.output_format
      && a.max_attempts == b.max_attempts

  -- The scope of a request, once its number of attempts is known to be possible.
  abbrev pub scope_of :
      ⦃t : TextCase⦄ → String → ℕ → String → ℕ → ℕ → Option (Members W) → String → ℤ → Scope W
  scope_of ⦃t⦄ code version requested_by date_from date_to filters output_format max_attempts =
      record {
        definition_code = code;
        definition_version = version;
        requested_by = requested_by;
        date_from = date_from;
        date_to = date_to;
        filters = or_empty filters;
        output_format = t.lower output_format;
        max_attempts = pos_part max_attempts;
      }

  -- The end of `enqueue_job`, with the definition found and the arguments checked.
  unfoldable pub insert_job :
      JobWorld W → String → String → Scope W → Definition W → JobCall W JobRef
  unfolding same_scope job_event
  insert_job w tenant key scope d t = elim (first_of (select (has_key tenant key) t.jobs)) [
    | none ↦
        let j = new_job w tenant key scope d t.jobs in
        ok (
          ref_of j true,
          job_event
              (record {
                tenant_id = tenant;
                job_id = j.id;
                event_type = "report.queued";
                previous_state = none;
                new_state = queued;
                attempt = 0;
                actor_type = "user";
                actor_id = scope.requested_by;
                dedupe_key = "enqueue";
                metadata = empty;
              })
              (record t { jobs = j ∷ t.jobs }),
        )
    | some j ↦
        if same_scope j.scope scope then ok (ref_of j false, t) else raised idempotency_conflict
  ]

  unfoldable pub enqueue_job :
      ⦃t : TextCase⦄
      → JobWorld W
      → String
      → String
      → ℕ
      → String
      → String
      → ℕ
      → ℕ
      → Option (Members W)
      → String
      → ℤ
      → JobCall W JobRef
  unfolding insert_job
  enqueue_job ⦃t = c⦄ w tenant code version requested_by key date_from date_to filters output_format
        max_attempts t =
      do
        raise_if (not (member (c.lower output_format) supported_formats)) unsupported_format
        raise_if (ltb date_to date_from) dates_reversed
        raise_if (str_eq (c.strip key) "") key_required
        raise_if (ltb_ℤ max_attempts (pos 1) || ltb_ℤ (pos 10) max_attempts) attempts_out_of_range
        elim (first_of (select (is_definition tenant code version) t.definitions)) [
          | none ↦ raised no_definition
          | some d ↦ do
            raise_if (ltb version 1) check_violated
            insert_job w tenant key
                (scope_of code version requested_by date_from date_to filters output_format
                  max_attempts)
                d t
        ]
