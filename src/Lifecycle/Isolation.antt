-- ===== src/Lifecycle/Isolation.antt =====
-- `decide_isolation` and the loop over the promoted terms.
use Prim.Native.String.{◌++◌ as append}
use amz_command_center.Base.{
  Bool, List, Option, String, [], false, if◌then◌else◌, member, none, not, some, str_eq, true, ℕ,
  ◌||◌, ◌∷◌,
}
use amz_command_center.Number.{Number, lt, nought, of_nat, ticks}
use amz_command_center.Harvest.{or_blank}
use amz_command_center.HumanControl.{TextCase}
use amz_command_center.Protections.{Protections}
use amz_command_center.Lifecycle.Defs.{
  BlockedReason, Finding, Lineage, OpenAction, SourceUse, Target, Thresholds, already_negative,
  block_finding, destination_inactive, destination_missing, destination_no_traffic, duplicate,
  float_or_nought, is_given, isolation_evidence, open_action, protected, protection_of,
  same_ad_group, source_no_traffic, unsupported_match_type,
}

-- `f"{campaign}|{ad group}|{term}"`
abbrev pub isolation_key : String → String → String → String
isolation_key campaign ad_group term =
    append campaign (append "|" (append ad_group (append "|" term)))

abbrev pub key_of : Lineage → String
key_of l = isolation_key l.source_campaign_id l.source_ad_group_id l.normalized_term

-- Those of the set `seen`: an element, and the set with it.
abbrev pub with_key : String → List String → List String
with_key key seen = if member key seen then seen else key ∷ seen

-- The rows that the loop reads for a promoted term: the destination, the source, a protection and
-- a negative that is pending.
pub record Isolating (W : Type 0) : Type 0 where
  pub destination_of : Lineage → Option (Target W)
  pub source_of : Lineage → SourceUse W
  pub protections : Protections
  pub actions : List OpenAction

abbrev pub is_protected : BlockedReason → Bool
is_protected protected = true
is_protected _ = false

module _ {W : Type 0} ⦃n : Number W⦄ ⦃c : TextCase⦄ where
  abbrev pub isolation_finding : Lineage → Option (Target W) → SourceUse W → Finding W
  isolation_finding l destination source = record {
    recommendation_type = "isolation_negative";
    subject_key = append (key_of l) (append "|" l.id);
    campaign_id = l.source_campaign_id;
    ad_group_id = l.source_ad_group_id;
    term = l.normalized_term;
    match_type = "negative_exact";
    keyword_id = none;
    is_recommended = true;
    blocked_reason = none;
    lineage_id = some l.id;
    protection_id = none;
    current_bid = none;
    proposed_bid = none;
    break_even_cpc = none;
    evidence = isolation_evidence l destination source;
  }

  abbrev pub is_enabled : Target W → Bool
  is_enabled d = str_eq (c.lower (or_blank d.status)) "enabled"

  abbrev pub is_quiet : Thresholds W → Target W → Bool
  is_quiet t d =
      lt (float_or_nought d.impressions) (of_nat t.min_destination_impressions)
      || lt (float_or_nought d.clicks) (of_nat t.min_destination_clicks)

  -- From the destination on; the reason to block, or none.
  unfoldable pub destination_fault :
      Thresholds W → Option (Target W) → SourceUse W → Option BlockedReason
  destination_fault t none source = some destination_missing
  destination_fault t (some d) source =
      if not (is_enabled d)
      then some destination_inactive
      else if is_quiet t d
      then some destination_no_traffic
      else if not (lt nought (float_or_nought source.clicks))
      then some source_no_traffic
      else none

  unfoldable pub isolation_fault :
      Thresholds W
      → Lineage
      → Option (Target W)
      → SourceUse W
      → Option String
      → Option String
      → Bool
      → Option BlockedReason
  unfolding destination_fault
  isolation_fault t l destination source protection pending first =
      if not (str_eq l.destination_match_type "exact")
      then some unsupported_match_type
      else if str_eq l.source_ad_group_id l.destination_ad_group_id
      then some same_ad_group
      else if not first
      then some duplicate
      else if is_given pending
      then some duplicate
      else if source.is_already_negative
      then some already_negative
      else if is_given protection
      then some protected
      else destination_fault t destination source

  -- The protection's id is set where it is the reason.
  abbrev pub with_fault : Finding W → Option String → Option BlockedReason → Finding W
  with_fault f protection none = f
  with_fault f protection (some reason) =
      block_finding
        (record f { protection_id = if is_protected reason then protection else f.protection_id })
        reason

  -- The finding and the keys seen after it.
  unfoldable pub decide_isolation :
      Thresholds W
      → Lineage
      → Option (Target W)
      → SourceUse W
      → Option String
      → Option String
      → List String
      → Finding W × List String
  unfolding isolation_fault block_finding
  decide_isolation t l destination source protection pending seen = (
    with_fault (isolation_finding l destination source) protection
        (isolation_fault t l destination source protection pending (not (member (key_of l) seen))),
    with_key (key_of l) seen,
  )

  unfoldable pub isolate :
      Isolating W → String → ℕ → Thresholds W → List Lineage → List String → List (Finding W)
  unfolding decide_isolation open_action protection_of
  isolate db tenant now t [] seen = []
  isolate db tenant now t (l ∷ lineages) seen =
      let (f, seen') =
        decide_isolation t l (db.destination_of l) (db.source_of l)
          (protection_of db.protections tenant l.normalized_term now)
          (open_action db.actions tenant "search_term" l.normalized_term
            ("add_negative_exact" ∷ []))
          seen in
      f ∷ isolate db tenant now t lineages seen'

  -- `lineages` are the rows of ISOLATION_LINEAGE_SQL in its order.
  unfoldable pub isolation_findings :
      Isolating W → String → ℕ → Thresholds W → List Lineage → List (Finding W)
  unfolding isolate
  isolation_findings db tenant now t lineages = isolate db tenant now t lineages []
