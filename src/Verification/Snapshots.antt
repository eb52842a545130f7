-- ===== src/Verification/Snapshots.antt =====
-- The evidence of one horizon: `_mature`, `verify_horizon` and `fetch_due_snapshots`.
use amz_command_center.Base.{
  Bool, List, Option, Result, String, [], exists, false, if◌then◌else◌, leb, ltb, none, not, ok,
  raise_if, raised, some, str_eq, true, update_where, ℕ, ◌&&◌, ◌+◌, ◌-◌, ◌/◌, ◌==◌, ◌>>=◌, ◌>>◌,
  ◌||◌, ◌∷◌,
}
use amz_command_center.Number.{Number, nought, ticks}
use amz_command_center.Json.{Members, empty, entry, get}
use amz_command_center.StateMachine.{Action, Refusal, asserted, day}
use amz_command_center.Audit.{ExecutionEvent}
use amz_command_center.Verification.Windows.{
  Marts, MetricWindow, VerifyError, VerifyWorld, action_metrics, date_out_of_range, horizons,
  is_horizon, judge, metrics, metrics_of, performance_window, refused, unsupported_horizon,
}

pub data SnapshotStatus : Type 0 where
  complete insufficient snapshot_failed : SnapshotStatus

unfoldable pub is_complete : SnapshotStatus → Bool
is_complete complete = true
is_complete _ = false

-- A row of `action_verification_snapshot`.
pub record Snapshot (W : Type 0) : Type 0 where
  pub tenant_id : String
  pub action_id : String
  pub horizon_days : ℕ
  pub status : SnapshotStatus
  pub outcome : Option String
  pub metric_keys : List String
  pub baseline_metrics : Members W
  pub observed_metrics : Members W
  pub before_start : ℕ
  pub before_end : ℕ
  pub after_start : ℕ
  pub after_end : ℕ
  pub data_through : Option ℕ
  pub reason_code : Option String
  pub checked_at : ℕ
  pub completed_at : Option ℕ

-- A row of `action`, with its column `impact_jsonb`.
pub record Judged (W : Type 0) : Type 0 where
  pub action : Action W
  pub impact : Option (Members W)

pub record Evidence (W : Type 0) : Type 0 where
  pub marts : Marts W
  pub rows : List (Judged W)
  pub snapshots : List (Snapshot W)
  pub journal : List (ExecutionEvent W)

-- `applied_at.date()`, counted in days.
abbrev pub date_of : ℕ → ℕ
date_of moment = moment / day

abbrev pub lift : {A : Type 0} → Result Refusal A → Result VerifyError A
lift (raised e) = raised (refused e)
lift (ok a) = ok a

abbrev pub is_at_least : ℕ → Option ℕ → Bool
is_at_least d none = false
is_at_least d (some e) = leb d e

-- What is measured of a horizon: status, outcome, reason and the two windows.
pub record Measured (W : Type 0) : Type 0 where
  pub status : SnapshotStatus
  pub outcome : Option String
  pub reason : Option String
  pub before : MetricWindow W
  pub after : MetricWindow W

-- `keys or ()`
abbrev pub keys_or : Option (List String) → List String
keys_or none = []
keys_or (some keys) = keys

module _ {W : Type 0} where
  -- `_mature`; `start` is not after `end`.
  unfoldable pub is_mature : MetricWindow W → ℕ → ℕ → Bool
  is_mature m start end =
      ltb 0 (end - start)
      && leb (end - start) m.observed_days
      && is_at_least (end - 1) m.data_through

  -- `{key: metrics.get(key) for key in keys}`
  unfoldable pub selected : List String → Members W → Members W
  selected [] m = empty
  selected (key ∷ keys) m = entry key (get key m) (selected keys m)

  abbrev pub same_snapshot : Snapshot W → Snapshot W → Bool
  same_snapshot s x =
      str_eq x.tenant_id s.tenant_id
      && str_eq x.action_id s.action_id
      && x.horizon_days == s.horizon_days

  -- The columns that `do update set` lists.
  abbrev pub replaced : Snapshot W → Snapshot W → Snapshot W
  replaced s old = record old {
    status = s.status;
    outcome = s.outcome;
    metric_keys = s.metric_keys;
    baseline_metrics = s.baseline_metrics;
    observed_metrics = s.observed_metrics;
    data_through = s.data_through;
    reason_code = s.reason_code;
    checked_at = s.checked_at;
    completed_at = s.completed_at;
  }

  -- The insertion: on a conflict the row is updated unless it is complete.
  unfoldable pub upsert_snapshot : Snapshot W → List (Snapshot W) → List (Snapshot W)
  unfolding is_complete update_where
  upsert_snapshot s table =
      if exists (same_snapshot s) table
      then update_where (λ x. same_snapshot s x && not (is_complete x.status)) (replaced s) table
      else s ∷ table

  abbrev pub no_window : ⦃n : Number W⦄ → MetricWindow W
  no_window = record {
    cost = nought;
    sales = nought;
    clicks = 0;
    orders = 0;
    observed_days = 0;
    data_through = none;
  }

module _ {W : Type 0} ⦃n : Number W⦄ (w : VerifyWorld W) where
  -- The branch of an action whose metrics are known.
  unfoldable pub measure : Marts W → Action W → ℕ → ℕ → ℕ → Result VerifyError (Measured W)
  unfolding performance_window is_mature judge
  measure marts a before_start day_applied after_end = do
    before ← performance_window w marts a before_start day_applied
    after ← performance_window w marts a day_applied after_end
    ok (
        if not (is_mature before before_start day_applied)
          || not (is_mature after day_applied after_end)
        then record {
          status = insufficient;
          outcome = none;
          reason = some "WINDOW_NOT_MATURE";
          before = before;
          after = after;
        }
        else record {
          status = complete;
          outcome = some (judge before after).0;
          reason = none;
          before = before;
          after = after;
        })

  abbrev pub unmeasured : Measured W
  unmeasured = record {
    status = snapshot_failed;
    outcome = none;
    reason = some "UNSUPPORTED_ACTION_METRICS";
    before = no_window;
    after = no_window;
  }

  -- The start of `verify_horizon`: the day of the change, and what is measured around it.
  unfoldable pub measure_horizon : Marts W → Action W → ℕ → Result VerifyError (ℕ × Measured W)
  unfolding is_horizon metrics_of measure
  measure_horizon marts a horizon = do
    raise_if (not (is_horizon horizon horizons)) unsupported_horizon
    since ← lift (asserted a.applied_at)
    raise_if (ltb (date_of since) horizon) date_out_of_range
    m ← elim (metrics_of a.action_type action_metrics) [
      | none ↦ ok unmeasured
      | some keys ↦
          measure marts a (date_of since - horizon) (date_of since) (date_of since + horizon)
    ]
    ok (date_of since, m)

  -- The row that is inserted.
  unfoldable pub snapshot_of : Action W → ℕ → ℕ → ℕ → Measured W → Snapshot W
  unfolding metrics_of metrics selected is_complete
  snapshot_of a horizon now date m =
      let keys = keys_or (metrics_of a.action_type action_metrics) in
      record {
        tenant_id = a.tenant_id;
        action_id = a.id;
        horizon_days = horizon;
        status = m.status;
        outcome = m.outcome;
        metric_keys = keys;
        baseline_metrics = selected keys (metrics w m.before);
        observed_metrics = selected keys (metrics w m.after);
        before_start = date - horizon;
        before_end = date;
        after_start = date;
        after_end = date + horizon;
        data_through = m.after.data_through;
        reason_code = m.reason;
        checked_at = now;
        completed_at = if is_complete m.status then some now else none;
      }

  unfoldable pub verify_horizon :
      Action W → ℕ → ℕ → Evidence W → Result VerifyError (SnapshotStatus × Evidence W)
  unfolding measure_horizon snapshot_of upsert_snapshot
  verify_horizon a horizon now db = do
    (date, m) ← measure_horizon db.marts a horizon
    ok (
      m.status,
      record db { snapshots = upsert_snapshot (snapshot_of a horizon now date m) db.snapshots },
    )
