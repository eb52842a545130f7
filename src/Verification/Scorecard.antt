-- ===== src/Verification/Scorecard.antt =====
-- The scorecard of an action after seven days, `verify_action`, and the run, `run_once`. Any exception
-- rolls the tables back.
use Prim.Native.String.{◌++◌ as append}
use amz_command_center.Base.{
  Bool, List, Option, Result, String, [], exists, false, if◌then◌else◌, is_some, leb, length, ltb,
  none, not, ok, opt_str_eq, raise_if, some, sort_by, str_eq, take, update_where, ℕ, ◌&&◌, ◌*◌,
  ◌++◌, ◌+◌, ◌-◌, ◌==◌, ◌>>=◌, ◌>>◌, ◌||◌, ◌∷◌,
}
use amz_command_center.Base.Int.{pos}
use amz_command_center.Number.{Number, ticks}
use amz_command_center.Json.{Json, Members, dict, empty, entry, integer, null, put, real, text}
use amz_command_center.StateMachine.{Action, applied, asserted, day, status_eq, verify, verified}
use amz_command_center.Audit.{
  EventType, ExecutionEvent, append_event, event_for, verification_checkpoint,
  verification_scheduled, verification_terminal, verification_result,
}
use amz_command_center.Verification.Windows.{
  MetricWindow, VerifyError, VerifyWorld, date_out_of_range, horizons, judge, not_serializable,
  performance_window, window_days,
}
use amz_command_center.Verification.Snapshots.{
  Evidence, Judged, Snapshot, SnapshotStatus, complete, date_of, insufficient, is_complete, lift,
  snapshot_failed, verify_horizon,
}

pub record VerificationResult : Type 0 where
  pub scanned : ℕ
  pub verified : ℕ
  pub inconclusive : ℕ
  pub worsened : ℕ
  pub snapshots_complete : ℕ
  pub insufficient_data : ℕ

abbrev pub or_never : Option ℕ → ℕ
or_never none = 0
or_never (some t) = t

abbrev pub count_verdict : Option String → VerificationResult → VerificationResult
count_verdict outcome r = record r {
  verified = r.verified + 1;
  inconclusive = r.inconclusive + (if opt_str_eq outcome (some "inconclusive") then 1 else 0);
  worsened = r.worsened + (if opt_str_eq outcome (some "worsened") then 1 else 0);
}

module _ {W : Type 0} where
  -- The columns that the queries name; the other fields have their defaults.
  unfoldable pub to_measured : Action W → Action W
  to_measured a = record a {
    requested_by = none;
    requested_at = none;
    approved_by = none;
    approved_at = none;
    verified_at = none;
    rolled_back_at = none;
    outcome = none;
    error = none;
    control_id = none;
    request_origin = "automation";
  }

  -- The `where` of the query for one action and one horizon.
  unfoldable pub is_due_pair : String → ℕ → List (Snapshot W) → Action W → ℕ → Bool
  unfolding status_eq is_complete
  is_due_pair tenant now table a horizon =
      str_eq a.tenant_id tenant
      && (status_eq a.status applied || status_eq a.status verified)
      && elim a.applied_at [ none ↦ false | some since ↦ leb (since + horizon * day) now ]
      && not (
          exists
            (λ s.
              str_eq s.tenant_id a.tenant_id
              && str_eq s.action_id a.id
              && s.horizon_days == horizon
              && is_complete s.status)
            table)

  unfoldable pub due_horizons :
      String → ℕ → List (Snapshot W) → Action W → List ℕ → List (Action W × ℕ)
  unfolding is_due_pair to_measured
  due_horizons tenant now table a [] = []
  due_horizons tenant now table a (h ∷ hs) =
      let rest = due_horizons tenant now table a hs in
      if is_due_pair tenant now table a h then (to_measured a, h) ∷ rest else rest

  unfoldable pub due_pairs : String → ℕ → List (Snapshot W) → List (Judged W) → List (Action W × ℕ)
  unfolding due_horizons
  due_pairs tenant now table [] = []
  due_pairs tenant now table (r ∷ rows) =
      due_horizons tenant now table r.action horizons ++ due_pairs tenant now table rows

  -- `order by a.applied_at,h.horizon_days`
  abbrev pub pair_before : Action W × ℕ → Action W × ℕ → Bool
  pair_before (a, h) (b, k) =
      ltb (or_never a.applied_at) (or_never b.applied_at)
      || (or_never a.applied_at == or_never b.applied_at && ltb h k)

  unfoldable pub fetch_due_snapshots : String → ℕ → ℕ → Evidence W → List (Action W × ℕ)
  unfolding due_pairs sort_by
  fetch_due_snapshots tenant now limit db =
      take limit (sort_by pair_before (due_pairs tenant now db.snapshots db.rows))

  -- The update of the action's row.
  unfoldable pub store_verdict : Action W → Members W → List (Judged W) → List (Judged W)
  unfolding update_where
  store_verdict a impact =
      update_where (λ r. str_eq r.action.tenant_id a.tenant_id && str_eq r.action.id a.id)
        (λ r. record r {
          action = record r.action {
            status = a.status;
            verified_at = a.verified_at;
            outcome = a.outcome;
          };
          impact = some impact;
        })

module _ {W : Type 0} ⦃n : Number W⦄ (w : VerifyWorld W) where
  -- `{"window": m.__dict__}` as `json.dumps` takes it: a `datetime.date` raises a TypeError.
  unfoldable pub window_metadata : MetricWindow W → Result VerifyError (Json W)
  window_metadata m = do
    raise_if (is_some m.data_through) not_serializable
    ok (
        dict (
          entry "window"
            (dict (
              entry "cost" (real m.cost) (
                entry "sales" (real m.sales) (
                  entry "clicks" (integer (pos m.clicks)) (
                    entry "orders" (integer (pos m.orders)) (
                      entry "observed_days" (integer (pos m.observed_days))
                        (entry "data_through" null empty)))))))
            empty))

  abbrev pub journalled : ExecutionEvent W → Evidence W → Evidence W
  journalled e db = record db { journal = append_event ⦃r = w.redactor⦄ e db.journal }

  unfoldable pub verification_event : Action W → EventType → ℕ → String → ExecutionEvent W
  unfolding event_for
  verification_event a kind since suffix =
      record (event_for a kind
        (append "verification:" (append a.id (append ":" (w.iso_moment since))))
        (append "verification:" suffix)) {
          actor_type = "system";
          actor_id = some "verification-worker";
        }

  unfoldable pub checkpoint :
      Action W → ℕ → String → String → MetricWindow W → Evidence W → Result VerifyError (Evidence W)
  unfolding window_metadata append_event verification_event
  checkpoint a since suffix name m db = do
    metadata ← window_metadata m
    ok (
        journalled
          (record (verification_event a verification_checkpoint since suffix) {
            verification_checkpoint = some name;
            metadata = metadata;
          })
          db)

  -- The event of the verdict, of either kind.
  unfoldable pub verdict_event :
      Action W → EventType → ℕ → String → String → Members W → ExecutionEvent W
  unfolding verification_event
  verdict_event a kind since suffix outcome impact =
      record (verification_event a kind since suffix) {
        previous_state = some applied;
        new_state = some a.status;
        provider_result_classification = some outcome;
        verification_checkpoint = some outcome;
        metadata = dict (entry "impact" (dict impact) empty);
      }

  unfoldable pub verify_action :
      Action W → ℕ → Evidence W → Result VerifyError (Action W × Evidence W)
  unfolding checkpoint verdict_event verification_event append_event performance_window
      store_verdict judge
  verify_action a now db = do
    since ← lift (asserted a.applied_at)
    let scheduled =
        journalled
          (record (verification_event a verification_scheduled since "scheduled") {
            previous_state = some a.status;
            new_state = some a.status;
          })
          db
    raise_if (ltb (date_of since) window_days) date_out_of_range
    before ← performance_window w db.marts a (date_of since - window_days) (date_of since)
    loaded ← checkpoint a since "before-window" "before_window_loaded" before scheduled
    after ← performance_window w db.marts a (date_of since) (date_of since + window_days)
    measured ← checkpoint a since "after-window" "after_window_loaded" after loaded
    let outcome = (judge before after).0
    let impact = put "entity_type" (text a.entity_type) (judge before after).1
    updated ← lift (verify now outcome a)
    ok (
      updated,
      journalled (verdict_event updated verification_terminal since "terminal" outcome impact) (
          journalled (verdict_event updated verification_result since "result" outcome impact)
            (record measured { rows = store_verdict updated impact measured.rows })),
    )

  -- The body of the loop once the evidence has been stored.
  unfoldable pub score_pair :
      Action W
      → ℕ
      → ℕ
      → VerificationResult
      → Evidence W
      → SnapshotStatus
      → Result VerifyError (VerificationResult × Evidence W)
  unfolding verify_action status_eq
  score_pair a horizon now result db insufficient =
      ok (record result { insufficient_data = result.insufficient_data + 1 }, db)
  score_pair a horizon now result db snapshot_failed = ok (result, db)
  score_pair a horizon now result db complete =
      let counted : VerificationResult = record result {
        snapshots_complete = result.snapshots_complete + 1;
      } in
      if horizon == window_days && status_eq a.status applied
      then (do
        (updated, scored) ← verify_action a now db
        ok (count_verdict updated.outcome counted, scored))
      else ok (counted, db)

  unfoldable pub verify_pair :
      Action W
      → ℕ
      → ℕ
      → VerificationResult
      → Evidence W
      → Result VerifyError (VerificationResult × Evidence W)
  unfolding verify_horizon score_pair
  verify_pair a horizon now result db = do
    (status, evidence) ← verify_horizon w a horizon now db
    score_pair a horizon now result evidence status

  unfoldable pub verify_pairs :
      List (Action W × ℕ)
      → ℕ
      → VerificationResult
      → Evidence W
      → Result VerifyError (VerificationResult × Evidence W)
  unfolding verify_pair
  verify_pairs [] now result db = ok (result, db)
  verify_pairs ((a, horizon) ∷ due) now result db = do
    (counted, evidence) ← verify_pair a horizon now result db
    verify_pairs due now counted evidence

  unfoldable pub run_verification :
      String → ℕ → ℕ → Evidence W → Result VerifyError (VerificationResult × Evidence W)
  unfolding verify_pairs fetch_due_snapshots
  run_verification tenant limit now db =
      let due = fetch_due_snapshots tenant now limit db in
      verify_pairs due now
        (record {
          scanned = length due;
          verified = 0;
          inconclusive = 0;
          worsened = 0;
          snapshots_complete = 0;
          insufficient_data = 0;
        })
        db
