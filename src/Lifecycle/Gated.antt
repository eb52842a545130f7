-- ===== src/Lifecycle/Gated.antt =====
-- How a run ends, and what it has stored then.
use amz_command_center.Base.{List, Result, String, ok, raised, ℕ, ◌++◌, ◌≡◌, ◌⊎◌}
use amz_command_center.Number.{Number, ticks}
use amz_command_center.Harvest.{TermText}
use amz_command_center.HumanControl.{TextCase}
use amz_command_center.Guardrails.{TenantGuardConfig}
use amz_command_center.Freshness.{min_of}
use amz_command_center.Lifecycle.Defs.{Finding, Thresholds}
use amz_command_center.Lifecycle.Isolation.{isolation_findings}
use amz_command_center.Lifecycle.Revive.{LifecycleError, recommendation_refused, revive_findings}
use amz_command_center.Lifecycle.Run.{LifecycleRun, LifecycleTables, Recommendation, through_of}
use amz_command_center.Lifecycle.Families.{lifecycle_source}
use amz_command_center.Lifecycle.Stored.{Refuses}
use amz_command_center.Lifecycle.Fresh.{IsGated}

module _ {W : Type 0} ⦃n : Number W⦄ ⦃c : TextCase⦄ ⦃u : TermText⦄ where
  module _ (db : LifecycleTables W) (tenant : String) (now : ℕ) (cfg : TenantGuardConfig W)
      (t : Thresholds W) where
    -- A finding that the run makes is refused by the database, behind what is stored before it.
    pub record IsRefused : Type 0 where
      pub findings : List (Finding W)
      pub earlier : List (Recommendation W)
      pub made :
          (revive_findings db.last_applied db.actions tenant now cfg t
              (db.keywords (through_of (lifecycle_source db tenant now cfg "keyword")))
            ≡ ok findings)
          ⊎ (isolation_findings
                (db.isolating (
                  min_of
                    (through_of (lifecycle_source db tenant now cfg "keyword"))
                    (through_of (lifecycle_source db tenant now cfg "search_term"))))
                tenant
                now
                t
                db.lineages
              ≡ findings)
      pub refuses : Refuses db.numeric findings (db.recommendations ++ earlier)

    -- How a run with its configuration ends.
    abbrev pub Ends : Result LifecycleError (LifecycleRun × List (Recommendation W)) → Type 0
    Ends m =
        ((end : LifecycleRun × List (Recommendation W)) × (m ≡ ok end)
          × IsGated db tenant now cfg t end.1)
        ⊎ ((m ≡ raised recommendation_refused) × IsRefused)
