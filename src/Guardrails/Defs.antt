-- ===== src/Guardrails/Defs.antt =====
-- The definitions of services/rules/guardrails.py.
use amz_command_center.Base.{
  Bool, List, Option, String, [], false, if◌then◌else◌, leb, ltb, member, none, some, ℕ, ◌&&◌, ◌*◌,
  ◌++◌, ◌-◌, ◌/◌, ◌||◌, ◌∷◌,
}
use amz_command_center.Base.Int.{ltb_ℤ, ℤ}
use amz_command_center.Number.{ticks}
use amz_command_center.StateMachine.{day, hour}

pub data Guard : Type 0 where
  kill_switch dry_run stale_data unsettled_data thin_data cooldown daily_change_limit : Guard
  daily_budget_limit blast_radius bounds economics_incomplete protected_entity : Guard
  human_control duplicate_target harvest_route_missing harvest_route_conflict : Guard

abbrev pub diagnostic_actions : List String
diagnostic_actions = "flag" ∷ []

unfoldable pub is_diagnostic : String → Bool
is_diagnostic action_type = member action_type diagnostic_actions

-- `TenantGuardConfig`; the whole numbers are not negative (services/rules/settings.py checks it).
pub record TenantGuardConfig (W : Type 0) : Type 0 where
  pub automation_enabled : Bool
  pub dry_run : Bool
  pub max_change_pct : W
  pub cooldown_days : ℕ
  pub max_changes_per_day : ℕ
  pub max_budget_increase_per_day : W
  pub blast_radius_pct : W
  pub min_bid : W
  pub max_bid : W
  pub max_daily_budget : W
  pub max_data_age_hours : ℕ
  pub settlement_lag_days : ℕ

pub record Proposal (W : Type 0) : Type 0 where
  pub entity_type : String
  pub entity_id : String
  pub action_type : String
  pub before_value : Option W
  pub after_value : Option W
  pub clicks : ℤ
  pub impressions : ℤ
  pub break_even_acos : Option W

-- A line of the notes, with the values that its text shows.
pub data Note (W : Type 0) : Type 0 where
  diagnostic_only automation_off would_do : Note W
  data_age : ℕ → ℕ → Note W
  newer_than_settled : ℕ → ℕ → Note W
  thin : ℤ → ℤ → Note W
  changed_ago : ℕ → ℕ → ℕ → Note W
  matched_ratio : W → W → Note W
  changes_today : ℕ → Note W
  clamped_to : W → W → Note W
  bounded_to : W → Note W
  budget_increase : W → W → Note W

pub record Decision (W : Type 0) : Type 0 where
  pub is_allowed : Bool
  pub value : Option W
  pub clamped : Bool
  pub notes : List (Note W)
  pub blocked_by : Option Guard

pub record RunContext (W : Type 0) : Type 0 where
  pub now : ℕ
  pub data_through : ℕ
  pub data_loaded_at : ℕ
  pub changes_applied_today : ℕ
  pub budget_increase_today : W
  pub entities_evaluated : ℕ
  pub entities_matched : ℕ
  pub last_applied_at : Option ℕ

module _ {W : Type 0} where
  -- `Decision.block`
  unfoldable pub block : Decision W → Guard → Note W → Decision W
  block d guard note = record d {
    is_allowed = false;
    blocked_by = some guard;
    notes = d.notes ++ note ∷ [];
  }

  -- `d.notes.append(note)`
  abbrev pub noted : Decision W → Note W → Decision W
  noted d note = record d { notes = d.notes ++ note ∷ [] }

  -- The tests of `_data_quality`. The hours are compared as microseconds; data that was loaded
  -- after `now` is not old, as `-` stops at 0.
  unfoldable pub is_stale : TenantGuardConfig W → RunContext W → Bool
  is_stale cfg ctx = ltb (cfg.max_data_age_hours * hour) (ctx.now - ctx.data_loaded_at)

  abbrev pub latest_settled : TenantGuardConfig W → RunContext W → ℕ
  latest_settled cfg ctx = ctx.now / day - cfg.settlement_lag_days

  unfoldable pub is_unsettled : TenantGuardConfig W → RunContext W → Bool
  is_unsettled cfg ctx = ltb (latest_settled cfg ctx) ctx.data_through

  unfoldable pub is_thin : Proposal W → ℤ → ℤ → Bool
  is_thin p min_clicks min_impressions =
      ltb_ℤ p.clicks min_clicks && ltb_ℤ p.impressions min_impressions

  unfoldable pub data_quality :
      Decision W → Proposal W → TenantGuardConfig W → RunContext W → ℤ → ℤ → Option (Decision W)
  unfolding block
  data_quality d p cfg ctx min_clicks min_impressions =
      if is_stale cfg ctx
      then some (block d stale_data (data_age ctx.now ctx.data_loaded_at))
      else if is_unsettled cfg ctx
      then some
          (block d unsettled_data (newer_than_settled ctx.data_through (latest_settled cfg ctx)))
      else if is_thin p min_clicks min_impressions
      then some (block d thin_data (thin p.clicks p.impressions))
      else none

  -- `(now - last).days` is negative, and so below the cooldown, where the last change lies ahead.
  unfoldable pub in_cooldown : TenantGuardConfig W → RunContext W → Bool
  in_cooldown cfg ctx = elim ctx.last_applied_at [
    | none ↦ false
    | some last ↦ ltb ctx.now last || ltb ((ctx.now - last) / day) cfg.cooldown_days
  ]

  unfoldable pub cooldown_guard :
      Decision W → TenantGuardConfig W → RunContext W → Option (Decision W)
  unfolding block
  cooldown_guard d cfg ctx = elim ctx.last_applied_at [
    | none ↦ none
    | some last ↦
        if in_cooldown cfg ctx
        then some (block d cooldown (changed_ago ctx.now last cfg.cooldown_days))
        else none
  ]

  unfoldable pub is_change_limit : TenantGuardConfig W → RunContext W → Bool
  is_change_limit cfg ctx = leb cfg.max_changes_per_day ctx.changes_applied_today

  unfoldable pub change_guard :
      Decision W → TenantGuardConfig W → RunContext W → Option (Decision W)
  unfolding block
  change_guard d cfg ctx =
      if is_change_limit cfg ctx
      then some (block d daily_change_limit (changes_today ctx.changes_applied_today))
      else none
