-- ===== src/Guardrails/Checks.antt =====
-- The sizes of a change: its clamping, bounds and budget; and `check`, which runs every guardrail.
use amz_command_center.Base.{
  Bool, Option, String, [], false, if◌then◌else◌, is_some, leb, none, not, some, str_eq, true, ◌&&◌,
  ◌++◌, ◌||◌, ◌∷◌,
}
use amz_command_center.Base.Int.{pos, ℤ}
use amz_command_center.Number.{Number, lt, nought, of_nat, ticks}
use amz_command_center.Guardrails.Defs.{
  Decision, Note, Proposal, RunContext, TenantGuardConfig, automation_off, blast_radius, block,
  bounded_to, budget_increase, change_guard, clamped_to, cooldown_guard, daily_budget_limit,
  data_quality, diagnostic_only, is_diagnostic, kill_switch, matched_ratio, noted, would_do,
}

-- A value, whether it was changed, and the note that says so.
abbrev pub Limited : Type 0 → Type 0
Limited W = W × Bool × Option (Note W)

module _ {W : Type 0} ⦃n : Number W⦄ where
  -- `before` is not None where the code calls this.
  unfoldable pub clamp_change : W → W → TenantGuardConfig W → Limited W
  clamp_change before after cfg =
      let limit = n.mul (n.abs before) cfg.max_change_pct in
      let lo = n.sub before limit in
      let hi = n.add before limit in
      if not (lt nought before)
      then (after, false, none)
      else if lt hi after
      then (hi, true, some (clamped_to after hi))
      else if lt after lo
      then (lo, true, some (clamped_to after lo))
      else (after, false, none)

  -- The two bid tests fall through to the budget test, which another action type fails.
  unfoldable pub apply_bounds : String → W → TenantGuardConfig W → Limited W
  apply_bounds action_type value cfg =
      if str_eq action_type "set_bid" && lt value cfg.min_bid
      then (cfg.min_bid, true, some (bounded_to cfg.min_bid))
      else if str_eq action_type "set_bid" && lt cfg.max_bid value
      then (cfg.max_bid, true, some (bounded_to cfg.max_bid))
      else if str_eq action_type "set_budget" && lt cfg.max_daily_budget value
      then (cfg.max_daily_budget, true, some (bounded_to cfg.max_daily_budget))
      else (value, false, none)

  abbrev pub match_ratio : RunContext W → W
  match_ratio ctx = n.div (of_nat ctx.entities_matched) (of_nat ctx.entities_evaluated)

  unfoldable pub is_blast : TenantGuardConfig W → RunContext W → Bool
  is_blast cfg ctx = leb 20 ctx.entities_evaluated && lt cfg.blast_radius_pct (match_ratio ctx)

  unfoldable pub blast_guard : Decision W → TenantGuardConfig W → RunContext W → Option (Decision W)
  unfolding block
  blast_guard d cfg ctx =
      if is_blast cfg ctx
      then some (block d blast_radius (matched_ratio (match_ratio ctx) cfg.blast_radius_pct))
      else none

  unfoldable pub is_sized : Proposal W → Bool
  is_sized p =
      (str_eq p.action_type "set_bid" || str_eq p.action_type "set_budget") && is_some p.after_value

  -- `if changed: d.clamped = True; if note: d.notes.append(note)`
  abbrev pub recorded : Decision W → Limited W → Decision W
  recorded d (_, false, _) = d
  recorded d (_, true, none) = record d { clamped = true }
  recorded d (_, true, some line) = record d { clamped = true; notes = d.notes ++ line ∷ [] }

  -- `clamp_change`, where there is a value to clamp against.
  unfoldable pub clamp_step : Proposal W → W → TenantGuardConfig W → Limited W
  clamp_step p after cfg = elim p.before_value [
    | none ↦ (after, false, none)
    | some before ↦ clamp_change before after cfg
  ]

  -- The value that step 9 leaves: clamped, then bounded, then rounded to two places.
  unfoldable pub target_value : Proposal W → W → TenantGuardConfig W → W
  target_value p after cfg = n.round2 (apply_bounds p.action_type (clamp_step p after cfg).0 cfg).0

  -- The test of step 10, on the value after step 9.
  unfoldable pub over_daily_budget : Proposal W → W → TenantGuardConfig W → RunContext W → Bool
  over_daily_budget p value cfg ctx = elim p.before_value [
    | none ↦ false
    | some before ↦
        str_eq p.action_type "set_budget"
        && lt nought (n.sub value before)
        && lt cfg.max_budget_increase_per_day (n.add ctx.budget_increase_today (n.sub value before))
  ]

  unfoldable pub budget_guard :
      Decision W → Proposal W → W → TenantGuardConfig W → RunContext W → Decision W
  unfolding block
  budget_guard d p value cfg ctx = elim p.before_value [
    | none ↦ d
    | some before ↦
        if over_daily_budget p value cfg ctx
        then block d daily_budget_limit
            (budget_increase (n.sub value before) cfg.max_budget_increase_per_day)
        else d
  ]

  -- Steps 9 and 10.
  unfoldable pub size_guard :
      Decision W → Proposal W → TenantGuardConfig W → RunContext W → Decision W
  unfolding target_value
  size_guard d p cfg ctx = elim p.after_value [
    | none ↦ d
    | some after ↦
        let clamp = clamp_step p after cfg in
        let bound = apply_bounds p.action_type clamp.0 cfg in
        let value = n.round2 bound.0 in
        let sized = record (recorded (recorded d clamp) bound) { value = some value } in
        if is_sized p then budget_guard sized p value cfg ctx else d
  ]

  -- `if blocked is not None: return blocked`
  abbrev pub or_else : Option (Decision W) → Decision W → Decision W
  or_else none d = d
  or_else (some blocked) d = blocked

  abbrev pub fresh : Proposal W → Decision W
  fresh p = record {
    is_allowed = true;
    value = p.after_value;
    clamped = false;
    notes = [];
    blocked_by = none;
  }

  -- Step 0.
  unfoldable pub check_diagnostic :
      Proposal W → TenantGuardConfig W → RunContext W → ℤ → ℤ → Decision W
  check_diagnostic p cfg ctx min_clicks min_impressions =
      or_else (data_quality (fresh p) p cfg ctx min_clicks min_impressions)
        (noted (record (fresh p) { value = none }) diagnostic_only)

  -- Steps 2 to 10, with automation on.
  unfoldable pub check_change : Proposal W → TenantGuardConfig W → RunContext W → ℤ → ℤ → Decision W
  check_change p cfg ctx min_clicks min_impressions =
      let d = if cfg.dry_run then noted (fresh p) would_do else fresh p in
      or_else (data_quality d p cfg ctx min_clicks min_impressions) (
        or_else (cooldown_guard d cfg ctx) (
          or_else (blast_guard d cfg ctx)
            (or_else (change_guard d cfg ctx) (size_guard d p cfg ctx))))

  unfoldable pub check : Proposal W → TenantGuardConfig W → RunContext W → ℤ → ℤ → Decision W
  unfolding check_diagnostic check_change block
  check p cfg ctx min_clicks min_impressions =
      if is_diagnostic p.action_type
      then check_diagnostic p cfg ctx min_clicks min_impressions
      else if cfg.automation_enabled
      then check_change p cfg ctx min_clicks min_impressions
      else block (fresh p) kill_switch automation_off

abbrev pub default_min_clicks : ℤ
default_min_clicks = pos 15

abbrev pub default_min_impressions : ℤ
default_min_impressions = pos 500
