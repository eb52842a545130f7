-- ===== src/Scheduler/Open.antt =====
-- Alerts are stored once while they are open.
use text.Mathlib.TextPositions.{eq_refl}
use amz_command_center.Base.{
  All, Bool, Bool-cases, List, Option, Option-cases, String, [], arith, exists, false,
  if◌then◌else◌, inl, inr, none, refl, some, str_eq, true, ℕ, ◌*◌, ◌++◌, ◌+◌, ◌↔◌, ◌∷◌, ◌≡◌, ◌≤◌,
}
use amz_command_center.StateMachine.{hour}
use amz_command_center.Scheduler.CatchUp.{PipelineRun, ads_datasets}
use amz_command_center.Scheduler.Alerts.{
  Alert, AlertRow, alert_of, alert_row, alerts_of, evaluate_alerts, is_open, latest_run,
  persist_alerts, row_kind, sorted_set,
}

alert_row-is_open :
    (W : Type 0) (tenant : String) (a : Alert)
    → is_open {W = W} tenant a (alert_row tenant a) ≡ true
alert_row-is_open W tenant a =
    ground (arith, eq_refl tenant, eq_refl (row_kind a), eq_refl a.dataset)

module _ {W : Type 0} where
  persist_alerts-keeps :
      (tenant : String) (p : AlertRow W → Bool) (alerts : List Alert) (table : List (AlertRow W))
      → exists p table ≡ true
      → exists p (persist_alerts tenant alerts table).1 ≡ true
  unfolding persist_alerts
  persist_alerts-keeps tenant p [] table h = h
  persist_alerts-keeps tenant p (a ∷ alerts) table h =
      elim (Bool-cases (exists (is_open tenant a) table)) [
        | inl e ↦ rw (persist_alerts, e) (persist_alerts-keeps tenant p alerts table h)
        | inr e ↦
            rw (persist_alerts, e)
              (persist_alerts-keeps tenant p alerts (alert_row tenant a ∷ table) (ground arith))
      ]

  -- The table with a row for the alert.
  with_row :
      (tenant : String) (a : Alert) (table : List (AlertRow W))
      → exists
          (is_open tenant a)
          (if exists (is_open tenant a) table then table else alert_row tenant a ∷ table)
        ≡ true
  with_row tenant a table = elim (Bool-cases (exists (is_open tenant a) table)) [
    | inl e ↦ rw e e
    | inr e ↦ rw e (ground (arith, alert_row-is_open W tenant a))
  ]

  -- Each alert has an open row afterwards.
  persist_alerts-open :
      (tenant : String) (alerts : List Alert) (table : List (AlertRow W))
      → All (λ a. exists (is_open tenant a) (persist_alerts tenant alerts table).1 ≡ true) alerts
  unfolding persist_alerts
  persist_alerts-open tenant [] table = tt
  persist_alerts-open tenant (a ∷ alerts) table =
      let next : List (AlertRow W) =
        if exists (is_open tenant a) table then table else alert_row tenant a ∷ table in
      (
        persist_alerts-keeps tenant (is_open tenant a) alerts next (with_row tenant a table),
        persist_alerts-open tenant alerts next,
      )

  persist_alerts-none :
      (tenant : String) (alerts : List Alert) (table : List (AlertRow W))
      → All (λ a. exists (is_open tenant a) table ≡ true) alerts
      → persist_alerts tenant alerts table ≡ (0, table)
  unfolding persist_alerts
  persist_alerts-none tenant [] table h = refl
  persist_alerts-none tenant (a ∷ alerts) table h =
      rw (persist_alerts, h.0, persist_alerts-none tenant alerts table h.1) refl

  -- Storing the same alerts again inserts nothing and leaves the table, as long as no row has been
  -- resolved in between.
  pub persist_alerts-again :
      (tenant : String) (alerts : List Alert) (table : List (AlertRow W))
      → persist_alerts tenant alerts (persist_alerts tenant alerts table).1
        ≡ (0, (persist_alerts tenant alerts table).1)
  persist_alerts-again tenant alerts table =
      persist_alerts-none tenant alerts _ (persist_alerts-open tenant alerts table)

-- The last run of a dataset ended well, and not too long ago.
abbrev pub IsHealthy : List PipelineRun → String → ℕ → ℕ → String → Type 0
IsHealthy runs tenant now stale_hours dataset =
    (run : PipelineRun) × (finished : ℕ) × (latest_run tenant dataset runs ≡ some run)
    × (str_eq run.status "failed" ≡ false)
    × (str_eq run.status "partial" ≡ false)
    × (run.finished_at ≡ some finished)
    × (now ≤ finished + stale_hours * hour)

alert_of-IsHealthy :
    (show : ℕ → String) (runs : List PipelineRun) (tenant : String) (now stale_hours : ℕ)
    (dataset : String) (o : Option PipelineRun)
    → latest_run tenant dataset runs ≡ o
    → alert_of show now stale_hours dataset o ≡ none
    → IsHealthy runs tenant now stale_hours dataset
unfolding alert_of
alert_of-IsHealthy show runs tenant now stale_hours dataset none e h = cc
alert_of-IsHealthy show runs tenant now stale_hours dataset (some run) e h =
    elim (Option-cases run.finished_at) [
      | inl q ↦ ground arith
      | inr (t, q) ↦ (run, t, e, ground arith, ground arith, q, ground arith)
    ]

healthy-none :
    (show : ℕ → String) (runs : List PipelineRun) (tenant : String) (now stale_hours : ℕ)
    (dataset : String)
    → IsHealthy runs tenant now stale_hours dataset
    → alert_of show now stale_hours dataset (latest_run tenant dataset runs) ≡ none
unfolding alert_of
healthy-none show runs tenant now stale_hours dataset (run, t, e, f, p, q, b) =
    rw (e, alert_of, f, p, q) (ground arith)

silent-IsHealthy :
    (show : ℕ → String) (runs : List PipelineRun) (tenant : String) (now stale_hours : ℕ)
    (names : List String)
    → alerts_of show runs tenant now stale_hours names ≡ []
    → All (IsHealthy runs tenant now stale_hours) names
unfolding alerts_of
silent-IsHealthy show runs tenant now stale_hours [] e = tt
silent-IsHealthy show runs tenant now stale_hours (d ∷ names) e =
    elim (Option-cases (alert_of show now stale_hours d (latest_run tenant d runs))) [
      | inl q ↦ (
        alert_of-IsHealthy show runs tenant now stale_hours d _ refl q,
        silent-IsHealthy show runs tenant now stale_hours names (ground arith),
      )
      | inr (a, q) ↦ ground arith
    ]

IsHealthy-silent :
    (show : ℕ → String) (runs : List PipelineRun) (tenant : String) (now stale_hours : ℕ)
    (names : List String)
    → All (IsHealthy runs tenant now stale_hours) names
    → alerts_of show runs tenant now stale_hours names ≡ []
unfolding alerts_of
IsHealthy-silent show runs tenant now stale_hours [] h = refl
IsHealthy-silent show runs tenant now stale_hours (d ∷ names) h =
    rw
      (
        alerts_of,
        healthy-none show runs tenant now stale_hours d h.0,
        IsHealthy-silent show runs tenant now stale_hours names h.1,
      )
      refl

-- There is no alert exactly when the last run of every dataset, of those expected and the
-- advertising ones, exists, has not failed in whole or part, and finished within the hours allowed.
pub evaluate_alerts-IsHealthy_iff :
    (show : ℕ → String) (runs : List PipelineRun) (tenant : String) (now stale_hours : ℕ)
    (expected : List String)
    → (evaluate_alerts show runs tenant now stale_hours expected ≡ [])
      ↔ All (IsHealthy runs tenant now stale_hours) (sorted_set (expected ++ ads_datasets))
unfolding evaluate_alerts
evaluate_alerts-IsHealthy_iff show runs tenant now stale_hours expected =
    let names = sorted_set (expected ++ ads_datasets) in
    (
      silent-IsHealthy show runs tenant now stale_hours names,
      IsHealthy-silent show runs tenant now stale_hours names,
    )
