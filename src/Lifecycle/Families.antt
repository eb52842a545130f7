-- ===== src/Lifecycle/Families.antt =====
-- The families of recommendations, each gated on the freshness of its sources, and `run_analysis`.
use amz_command_center.Base.{List, Result, String, if◌then◌else◌, ok, raised, ℕ, ◌-◌, ◌/◌, ◌>>=◌}
use amz_command_center.Number.{Number, ticks}
use amz_command_center.Harvest.{TermText}
use amz_command_center.HumanControl.{TextCase}
use amz_command_center.StateMachine.{day}
use amz_command_center.Guardrails.{TenantGuardConfig}
use amz_command_center.Settings.{load_tenant_guard_config}
use amz_command_center.Freshness.{
  SourceFreshness, block_reason, is_usable, min_of, resolve_source_freshness,
}
use amz_command_center.Lifecycle.Defs.{Finding, Thresholds}
use amz_command_center.Lifecycle.Isolation.{isolation_findings}
use amz_command_center.Lifecycle.Revive.{LifecycleError, revive_findings, settings_refused}
use amz_command_center.Lifecycle.Run.{
  LifecycleRun, LifecycleTables, Recommendation, isolation_family, revive_family, set_key, started,
  store_family, through_of, unusable_run,
}

module _ {W : Type 0} ⦃n : Number W⦄ ⦃c : TextCase⦄ ⦃u : TermText⦄ where
  -- `_fresh`
  abbrev pub lifecycle_source :
      LifecycleTables W → String → ℕ → TenantGuardConfig W → String → SourceFreshness
  lifecycle_source db tenant now cfg scope =
      resolve_source_freshness db.loads tenant scope now (now / day - cfg.settlement_lag_days)
        cfg.max_data_age_hours

  -- With keyword data: the revivals are stored, and the isolations where the search terms are usable.
  unfoldable pub stored_families :
      LifecycleTables W
      → String
      → ℕ
      → Thresholds W
      → SourceFreshness
      → SourceFreshness
      → LifecycleRun
      → List (Finding W)
      → Result LifecycleError (LifecycleRun × List (Recommendation W))
  unfolding store_family isolation_findings set_key
  stored_families db tenant now t keyword term run findings =
      let through = min_of (through_of keyword) (through_of term) in
      if is_usable term.state
      then store_family db.numeric t revive_family (through_of keyword) findings
          (run, db.recommendations)
        >>= store_family db.numeric t isolation_family through
            (isolation_findings (db.isolating through) tenant now t db.lineages)
      else store_family db.numeric t revive_family (through_of keyword) findings (
        record run { status = set_key isolation_family (block_reason term.state) run.status },
        db.recommendations,
      )

  unfoldable pub run_families :
      LifecycleTables W
      → String
      → ℕ
      → TenantGuardConfig W
      → Thresholds W
      → SourceFreshness
      → SourceFreshness
      → LifecycleRun
      → Result LifecycleError (LifecycleRun × List (Recommendation W))
  unfolding stored_families revive_findings
  run_families db tenant now cfg t keyword term run = do
    findings ←
        revive_findings db.last_applied db.actions tenant now cfg t
          (db.keywords (through_of keyword))
    stored_families db tenant now t keyword term run findings

  -- With the configuration of the tenant.
  unfoldable pub run_configured :
      LifecycleTables W
      → String
      → String
      → ℕ
      → TenantGuardConfig W
      → Thresholds W
      → Result LifecycleError (LifecycleRun × List (Recommendation W))
  unfolding run_families resolve_source_freshness unusable_run
  run_configured db tenant run_id now cfg t =
      let keyword = lifecycle_source db tenant now cfg "keyword" in
      let term = lifecycle_source db tenant now cfg "search_term" in
      let run = started tenant run_id in
      if is_usable keyword.state
      then run_families db tenant now cfg t keyword term run
      else ok (unusable_run run keyword, db.recommendations)

  unfoldable pub run_analysis :
      LifecycleTables W
      → String
      → String
      → ℕ
      → Thresholds W
      → Result LifecycleError (LifecycleRun × List (Recommendation W))
  unfolding run_configured load_tenant_guard_config
  run_analysis db tenant run_id now t = elim (load_tenant_guard_config (db.settings tenant)) [
    | raised e ↦ raised (settings_refused e)
    | ok cfg ↦ run_configured db tenant run_id now cfg t
  ]
