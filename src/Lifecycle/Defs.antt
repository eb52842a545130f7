-- ===== src/Lifecycle/Defs.antt =====
-- A finding, and what it tells. Sums and bids are a `Number`.
use mathlib.Core.Option
use amz_command_center.Base.{
  Bool, List, Option, String, [], best, false, if◌then◌else◌, ltb, member, none, not, select, some,
  str_eq, ℕ, ◌&&◌, ◌==◌, ◌||◌, ◌∷◌,
}
use amz_command_center.Number.{Number, nought, of_nat, ticks}
use amz_command_center.Harvest.{before_text}
use amz_command_center.HumanControl.{TextCase}
use amz_command_center.Protections.{Protections, active_protection}

pub data BlockedReason : Type 0 where
  unsupported_match_type same_ad_group duplicate already_negative protected : BlockedReason
  destination_missing destination_inactive destination_no_traffic : BlockedReason
  source_no_traffic recent_traffic thin_history economics_unknown : BlockedReason
  poor_history bid_unknown bounds cooldown : BlockedReason

pub record Thresholds (W : Type 0) : Type 0 where
  pub min_destination_impressions : ℕ
  pub min_destination_clicks : ℕ
  pub history_days : ℕ
  pub dormant_days : ℕ
  pub revive_min_clicks : ℕ
  pub revive_min_orders : ℕ
  pub revive_max_acos_ratio : W

-- A promoted term with the time at which its action was applied.
pub record Lineage : Type 0 where
  pub id : String
  pub action_id : String
  pub route_code : String
  pub normalized_term : String
  pub source_campaign_id : String
  pub source_ad_group_id : String
  pub destination_campaign_id : String
  pub destination_ad_group_id : String
  pub destination_match_type : String
  pub applied_at : ℕ

-- The rows of DESTINATION_SQL, SOURCE_SQL and REVIVE_SQL.
pub record Target (W : Type 0) : Type 0 where
  pub keyword_id : String
  pub status : Option String
  pub impressions : Option W
  pub clicks : Option W
  pub cost : Option W
  pub orders : Option W

pub record SourceUse (W : Type 0) : Type 0 where
  pub clicks : Option W
  pub cost : Option W
  pub orders : Option W
  pub is_already_negative : Bool

pub record Keyword (W : Type 0) : Type 0 where
  pub keyword_id : String
  pub campaign_id : String
  pub ad_group_id : String
  pub keyword_text : Option String
  pub match_type : Option String
  pub keyword_status : Option String
  pub clicks : Option W
  pub orders : Option W
  pub cost : Option W
  pub sales : Option W
  pub break_even_acos : Option W
  pub last_bid : Option W
  pub last_click_date : Option ℕ
  pub recent_clicks : Option W

-- What `evidence` holds, by the values that it is built from.
pub data LifecycleEvidence (W : Type 0) : Type 0 where
  isolation_evidence : Lineage → Option (Target W) → SourceUse W → LifecycleEvidence W
  revive_evidence : Keyword W → W → W → ℕ → Option ℕ → List String → LifecycleEvidence W

-- `break_even_cpc` is the value of the evidence before it is rounded to four places.
pub record Finding (W : Type 0) : Type 0 where
  pub recommendation_type : String
  pub subject_key : String
  pub campaign_id : String
  pub ad_group_id : String
  pub term : String
  pub match_type : String
  pub keyword_id : Option String
  pub is_recommended : Bool
  pub blocked_reason : Option BlockedReason
  pub lineage_id : Option String
  pub protection_id : Option String
  pub current_bid : Option W
  pub proposed_bid : Option W
  pub break_even_cpc : Option W
  pub evidence : LifecycleEvidence W

-- `if text:` of a text that may be None.
abbrev pub is_given : Option String → Bool
is_given none = false
is_given (some s) = not (str_eq s "")

module _ {W : Type 0} where
  -- `Finding.block`; the note repeats the values of the evidence.
  unfoldable pub block_finding : Finding W → BlockedReason → Finding W
  block_finding f reason = record f { is_recommended = false; blocked_reason = some reason }

module _ {W : Type 0} ⦃n : Number W⦄ where
  -- `_f`
  abbrev pub float_or_nought : Option W → W
  float_or_nought none = nought
  float_or_nought (some x) = x

  abbrev pub default_thresholds : Thresholds W
  default_thresholds = record {
    min_destination_impressions = 100;
    min_destination_clicks = 5;
    history_days = 180;
    dormant_days = 14;
    revive_min_clicks = 20;
    revive_min_orders = 3;
    revive_max_acos_ratio = of_nat 1;
  }

-- A row of `action`.
pub record OpenAction : Type 0 where
  pub id : String
  pub tenant_id : String
  pub entity_type : String
  pub entity_id : String
  pub action_type : String
  pub status : String
  pub requested_at : ℕ

abbrev pub open_statuses : List String
open_statuses = "pending" ∷ "approved" ∷ []

abbrev pub asked_before : OpenAction → OpenAction → Bool
asked_before a b =
    ltb a.requested_at b.requested_at || (a.requested_at == b.requested_at && before_text a.id b.id)

module _ ⦃c : TextCase⦄ where
  -- `_open_action`
  unfoldable pub open_action :
      List OpenAction → String → String → String → List String → Option String
  unfolding best
  open_action actions tenant entity_type entity_id action_types =
      Option.map (λ (a : OpenAction). a.id)
        (best asked_before (
          select
            (λ (a : OpenAction).
              str_eq a.tenant_id tenant
              && str_eq a.entity_type entity_type
              && str_eq (c.lower (c.strip a.entity_id)) (c.lower entity_id)
              && member a.action_type action_types
              && member a.status open_statuses)
            actions))

  -- `_protection`
  unfoldable pub protection_of : Protections → String → String → ℕ → Option String
  protection_of db tenant term now =
      let p = active_protection tenant "search_term" term "*" "add_negative_exact" now db in
      let q = active_protection tenant "keyword" term "*" "add_negative_exact" now db in
      if p.is_blocked then p.protection_id else if q.is_blocked then q.protection_id else none
