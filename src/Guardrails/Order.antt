-- ===== src/Guardrails/Order.antt =====
-- `check` against a table of the guardrails in their documented order: it blocks by the first one
-- whose condition holds, and allows exactly when none does.
use amz_command_center.Base.{
  Bool, List, Option, [], arith, false, if◌then◌else◌, is_some, none, not, some, true, ◌∷◌, ◌≡◌,
}
use amz_command_center.Base.Int.{ℤ}
use amz_command_center.Number.{Number, ticks}
use amz_command_center.Guardrails.Defs.{
  Decision, Guard, Proposal, RunContext, TenantGuardConfig, blast_radius, change_guard, cooldown,
  cooldown_guard, daily_budget_limit, daily_change_limit, data_quality, in_cooldown,
  is_change_limit, is_diagnostic, is_stale, is_thin, is_unsettled, kill_switch, noted, stale_data,
  thin_data, unsettled_data, would_do,
}
use amz_command_center.Guardrails.Checks.{
  blast_guard, budget_guard, check, check_change, fresh, is_blast, is_sized, over_daily_budget,
  size_guard, target_value,
}

-- The first guard of a table whose condition holds.
unfoldable pub first_violation : List (Guard × Bool) → Option Guard
first_violation [] = none
first_violation ((guard, holds) ∷ rest) = if holds then some guard else first_violation rest

module _ {W : Type 0} where
  abbrev pub data_guards :
      Proposal W
      → TenantGuardConfig W
      → RunContext W
      → ℤ
      → ℤ
      → List (Guard × Bool)
      → List (Guard × Bool)
  data_guards p cfg ctx min_clicks min_impressions rest =
      (stale_data, is_stale cfg ctx)
      ∷ (unsettled_data, is_unsettled cfg ctx)
      ∷ (thin_data, is_thin p min_clicks min_impressions)
      ∷ rest

module _ {W : Type 0} ⦃n : Number W⦄ where
  abbrev pub exceeds_budget : Proposal W → TenantGuardConfig W → RunContext W → Bool
  exceeds_budget p cfg ctx = elim p.after_value [
    | none ↦ false
    | some after ↦ over_daily_budget p (target_value p after cfg) cfg ctx
  ]

  -- A diagnosis is held to the quality of its data alone.
  abbrev pub guard_table :
      Proposal W → TenantGuardConfig W → RunContext W → ℤ → ℤ → List (Guard × Bool)
  guard_table p cfg ctx min_clicks min_impressions =
      if is_diagnostic p.action_type
      then data_guards p cfg ctx min_clicks min_impressions []
      else (kill_switch, not cfg.automation_enabled)
        ∷ data_guards p cfg ctx min_clicks min_impressions (
            (cooldown, in_cooldown cfg ctx)
            ∷ (blast_radius, is_blast cfg ctx)
            ∷ (daily_change_limit, is_change_limit cfg ctx)
            ∷ (daily_budget_limit, exceeds_budget p cfg ctx)
            ∷ [])

  size_guard_lem :
      (d : Decision W) (p : Proposal W) (cfg : TenantGuardConfig W) (ctx : RunContext W)
      → d.blocked_by ≡ none
      → d.is_allowed ≡ true
      → ((size_guard d p cfg ctx).blocked_by
          ≡ (if exceeds_budget p cfg ctx then some daily_budget_limit else none))
        × ((size_guard d p cfg ctx).is_allowed ≡ not (exceeds_budget p cfg ctx))
  unfolding size_guard budget_guard over_daily_budget is_sized
  size_guard_lem d p cfg ctx b a = ground arith

  check_change_lem :
      (p : Proposal W) (cfg : TenantGuardConfig W) (ctx : RunContext W)
      (min_clicks min_impressions : ℤ)
      → is_diagnostic p.action_type ≡ false
      → cfg.automation_enabled ≡ true
      → let d = check_change p cfg ctx min_clicks min_impressions in
        (d.blocked_by ≡ first_violation (guard_table p cfg ctx min_clicks min_impressions))
        × (d.is_allowed ≡ not (is_some d.blocked_by))
  unfolding check_change data_quality cooldown_guard in_cooldown blast_guard change_guard
      first_violation
  check_change_lem p cfg ctx min_clicks min_impressions a b =
      ground (
        arith,
        size_guard_lem (if cfg.dry_run then noted (fresh p) would_do else fresh p) p cfg ctx,
      )

  -- `check` blocks by the first guardrail of the table whose condition holds, and by none if there
  -- is none; and it allows a proposal exactly when it blocks it by none.
  pub check-first_violation :
      (p : Proposal W) (cfg : TenantGuardConfig W) (ctx : RunContext W)
      (min_clicks min_impressions : ℤ)
      → let d = check p cfg ctx min_clicks min_impressions in
        (d.blocked_by ≡ first_violation (guard_table p cfg ctx min_clicks min_impressions))
        × (d.is_allowed ≡ not (is_some d.blocked_by))
  unfolding check data_quality first_violation
  check-first_violation p cfg ctx min_clicks min_impressions =
      ground (arith, check_change_lem p cfg ctx min_clicks min_impressions)

  -- Every guardrail of a change is clear.
  pub record IsClear (p : Proposal W) (cfg : TenantGuardConfig W) (ctx : RunContext W)
      (min_clicks min_impressions : ℤ) : Type 0 where
    pub is_on : cfg.automation_enabled ≡ true
    pub is_fresh : is_stale cfg ctx ≡ false
    pub is_settled : is_unsettled cfg ctx ≡ false
    pub is_thick : is_thin p min_clicks min_impressions ≡ false
    pub is_cool : in_cooldown cfg ctx ≡ false
    pub is_narrow : is_blast cfg ctx ≡ false
    pub has_changes : is_change_limit cfg ctx ≡ false
    pub has_budget : exceeds_budget p cfg ctx ≡ false

  pub check-IsClear :
      (p : Proposal W) (cfg : TenantGuardConfig W) (ctx : RunContext W)
      (min_clicks min_impressions : ℤ)
      → is_diagnostic p.action_type ≡ false
      → (check p cfg ctx min_clicks min_impressions).is_allowed ≡ true
      → IsClear p cfg ctx min_clicks min_impressions
  unfolding first_violation
  check-IsClear p cfg ctx min_clicks min_impressions g h =
      ground (arith, check-first_violation p cfg ctx min_clicks min_impressions)
