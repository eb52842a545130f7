-- ===== src/Lifecycle/Fresh.antt =====
-- The rows of a run that rest on sources that may be used.
use mathlib.Core.List.{append-nil}
use amz_command_center.Base.{
  All, All-imp, List, String, [], ap, arith, false, if◌then◌else◌, inl, inr, map, ok, refl, sym,
  true, ℕ, ◌&&◌, ◌++◌, ◌-◌, ◌/◌, ◌∙◌, ◌∷◌, ◌≡◌, ◌≤◌,
}
use amz_command_center.Number.{Number, ticks}
use amz_command_center.Harvest.{TermText, or_nought}
use amz_command_center.HumanControl.{TextCase}
use amz_command_center.StateMachine.{day}
use amz_command_center.Guardrails.{TenantGuardConfig}
use amz_command_center.Freshness.{is_usable, min_of, resolve_source_freshness}
use amz_command_center.Freshness.Usable.{IsUsableSource, resolve_source_freshness-IsUsableSource}
use amz_command_center.Lifecycle.Defs.{Finding, Thresholds}
use amz_command_center.Lifecycle.Isolation.{isolation_findings}
use amz_command_center.Lifecycle.Revive.{revive_findings}
use amz_command_center.Lifecycle.Run.{LifecycleTables, Recommendation, through_of}
use amz_command_center.Lifecycle.Families.{lifecycle_source}
use amz_command_center.Lifecycle.Stored.{Adds}

module _ {W : Type 0} where
  -- The source of a scope is usable at least up to the date of the recommendation.
  pub record IsFreshFor (db : LifecycleTables W) (tenant : String) (now : ℕ)
      (cfg : TenantGuardConfig W) (scope : String) (row : Recommendation W) : Type 0 where
    pub usable :
        IsUsableSource db.loads tenant scope now
          (now / day - cfg.settlement_lag_days)
          cfg.max_data_age_hours
          (resolve_source_freshness db.loads tenant scope now
            (now / day - cfg.settlement_lag_days)
            cfg.max_data_age_hours)
    pub within : row.data_through ≤ usable.through

module _ {W : Type 0} ⦃n : Number W⦄ ⦃c : TextCase⦄ ⦃u : TermText⦄ where
  module _ (db : LifecycleTables W) (tenant : String) (now : ℕ) (cfg : TenantGuardConfig W)
      (t : Thresholds W) where
    -- The sources of a scope, when they are usable.
    usable_lem :
        (scope : String)
        → is_usable (lifecycle_source db tenant now cfg scope).state ≡ true
        → IsUsableSource db.loads tenant scope now
            (now / day - cfg.settlement_lag_days)
            cfg.max_data_age_hours
            (lifecycle_source db tenant now cfg scope)
    usable_lem scope e =
        elim (resolve_source_freshness-IsUsableSource db.loads tenant scope now
          (now / day - cfg.settlement_lag_days) cfg.max_data_age_hours) [
            | inl (f, g) ↦ absurd (cc)
            | inr (f, g) ↦ g
          ]

    fresh_rows :
        (scope : String) (through : ℕ) (rows : List (Recommendation W))
        → is_usable (lifecycle_source db tenant now cfg scope).state ≡ true
        → through ≤ through_of (lifecycle_source db tenant now cfg scope)
        → All (λ row. row.data_through ≡ through) rows
        → All (IsFreshFor db tenant now cfg scope) rows
    fresh_rows scope through rows e le h =
        let g = usable_lem scope e in
        let at : through_of (lifecycle_source db tenant now cfg scope) ≡ g.through =
          ap or_nought g.dated in
        All-imp _ _ rows (λ row q. record { usable = g; within = omega (arith, q, at, le) }) h

    -- What a run adds: the findings of each family whose sources are usable, all of them, each stored
    -- under a date that its sources reach; the isolations want the search terms and the keywords.
    pub record IsGated (rows : List (Recommendation W)) : Type 0 where
      pub revived : List (Recommendation W)
      pub isolated : List (Recommendation W)
      pub split : rows ≡ (db.recommendations ++ revived) ++ isolated
      pub fresh_revived : All (IsFreshFor db tenant now cfg "keyword") revived
      pub fresh_isolated :
          All
            (λ row.
              IsFreshFor db tenant now cfg "keyword" row
              × IsFreshFor db tenant now cfg "search_term" row)
            isolated
      pub all_revived :
          (if is_usable (lifecycle_source db tenant now cfg "keyword").state
            then revive_findings db.last_applied db.actions tenant now cfg t
                (db.keywords (through_of (lifecycle_source db tenant now cfg "keyword")))
            else ok [])
          ≡ ok (map (λ (row : Recommendation W). row.finding) revived)
      pub all_isolated : map (λ (row : Recommendation W). row.finding) isolated ≡ (
          if is_usable (lifecycle_source db tenant now cfg "keyword").state
            && is_usable (lifecycle_source db tenant now cfg "search_term").state
          then isolation_findings
              (db.isolating (
                min_of
                  (through_of (lifecycle_source db tenant now cfg "keyword"))
                  (through_of (lifecycle_source db tenant now cfg "search_term"))))
              tenant
              now
              t
              db.lineages
          else [])

    both_fresh :
        (rows : List (Recommendation W))
        → All (IsFreshFor db tenant now cfg "keyword") rows
        → All (IsFreshFor db tenant now cfg "search_term") rows
        → All
            (λ row.
              IsFreshFor db tenant now cfg "keyword" row
              × IsFreshFor db tenant now cfg "search_term" row)
            rows
    both_fresh [] h k = tt
    both_fresh (row ∷ rows) h k = ((h.0, k.0), both_fresh rows h.1 k.1)

    -- With keyword data: what the first family adds, and then the second where it runs.
    module _ (fs : List (Finding W))
        (usable : is_usable (lifecycle_source db tenant now cfg "keyword").state ≡ true)
        (found : revive_findings db.last_applied db.actions tenant now cfg t
            (db.keywords (through_of (lifecycle_source db tenant now cfg "keyword")))
          ≡ ok fs) where
      pub revived_lem :
          (rows : List (Recommendation W))
          → is_usable (lifecycle_source db tenant now cfg "search_term").state ≡ false
          → Adds
              (through_of (lifecycle_source db tenant now cfg "keyword"))
              fs
              db.recommendations
              rows
          → IsGated rows
      revived_lem rows d (rev, a, h, k) = record {
        revived = rev;
        isolated = [];
        split = a ∙ sym (append-nil (db.recommendations ++ rev));
        fresh_revived = fresh_rows "keyword" _ rev usable (omega arith) h;
        fresh_isolated = tt;
        all_revived = rw usable (found ∙ ap ok (sym k));
        all_isolated = rw (usable, d) refl;
      }

      pub isolated_lem :
          (middle rows : List (Recommendation W))
          → is_usable (lifecycle_source db tenant now cfg "search_term").state ≡ true
          → let keyword = lifecycle_source db tenant now cfg "keyword" in
            let term = lifecycle_source db tenant now cfg "search_term" in
            let through = min_of (through_of keyword) (through_of term) in
            Adds (through_of keyword) fs db.recommendations middle
            → Adds through
                (isolation_findings (db.isolating through) tenant now t db.lineages)
                middle
                rows
            → IsGated rows
      isolated_lem middle rows d (rev, a, h, k) (iso, b, h', k') =
          let keyword = lifecycle_source db tenant now cfg "keyword" in
          let term = lifecycle_source db tenant now cfg "search_term" in
          let through = min_of (through_of keyword) (through_of term) in
          let (lower, upper) = min_lem (through_of keyword) (through_of term) in
          record {
            revived = rev;
            isolated = iso;
            split = b ∙ ap (λ l. l ++ iso) a;
            fresh_revived = fresh_rows "keyword" (through_of keyword) rev usable (omega arith) h;
            fresh_isolated =
                both_fresh iso (fresh_rows "keyword" through iso usable lower h')
                  (fresh_rows "search_term" through iso d upper h');
            all_revived = rw usable (found ∙ ap ok (sym k));
            all_isolated = rw (usable, d) k';
          }
        where
          min_lem : (a b : ℕ) → (min_of a b ≤ a) × (min_of a b ≤ b)
          min_lem a b = ground arith
