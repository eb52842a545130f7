-- ===== src/Harvest/Lineages.antt =====
-- `record_lineage`: the record of a promotion that is queued.
use amz_command_center.Base.{
  Bool, not, ◌&&◌, exists, member, is_blank, str_eq, [], raise_if, ◌>>◌, List, Option, Result,
  String, none, ok, raised, some, ◌>>=◌, ◌∷◌,
}
use amz_command_center.Number.{ticks}
use amz_command_center.Guardrails.{Guard}
use amz_command_center.Harvest.Terms.{Source}
use amz_command_center.Harvest.Routes.{Candidate, Route}
use amz_command_center.Harvest.Plans.{
  lineage_refused, HarvestError, HarvestNote, HarvestPlan, plan_not_allowed,
}

-- A row of `search_term_harvest_lineage`, with the plan that its evidence tells.
pub record LineageRow (W : Type 0) : Type 0 where
  pub tenant_id : String
  pub run_id : String
  pub evaluation_id : String
  pub action_id : String
  pub route : Route
  pub candidate : Candidate
  pub source : Source W
  pub destination_match_type : String
  pub routing_reason : HarvestNote
  pub evidence : HarvestPlan W

abbrev pub brand_classes : List String
brand_classes = "own_brand" ∷ "competitor" ∷ "generic" ∷ []

abbrev pub funnel_purposes : List String
funnel_purposes = "brand_defense" ∷ "conquest" ∷ "performance" ∷ []

abbrev pub match_types : List String
match_types = "exact" ∷ "product" ∷ []

module _ {W : Type 0} where
  abbrev pub same_action : LineageRow W → LineageRow W → Bool
  same_action x y = str_eq x.tenant_id y.tenant_id && str_eq x.action_id y.action_id

  abbrev pub lineage_row :
      String
      → String
      → String
      → String
      → HarvestPlan W
      → Route
      → Candidate
      → Source W
      → LineageRow W
  lineage_row tenant run evaluation action p r c s = record {
    tenant_id = tenant;
    run_id = run;
    evaluation_id = evaluation;
    action_id = action;
    route = r;
    candidate = c;
    source = s;
    destination_match_type = c.match_type;
    routing_reason = p.note;
    evidence = p;
  }

  abbrev pub lineage_of :
      String
      → String
      → String
      → String
      → HarvestPlan W
      → Option Guard
      → Option Route
      → Option Candidate
      → Option (Source W)
      → Result HarvestError (LineageRow W)
  lineage_of tenant run evaluation action p none (some r) (some c) (some s) =
      ok (lineage_row tenant run evaluation action p r c s)
  lineage_of tenant run evaluation action p _ _ _ _ = raised plan_not_allowed

  -- The checks of `search_term_harvest_lineage` on the columns of the candidate, and its unique key.
  -- (The text of the reason is never blank, and the foreign keys are those of the caller's rows.)
  unfoldable pub accepts_lineage : List (LineageRow W) → LineageRow W → Bool
  unfolding member
  accepts_lineage rows row =
      not (is_blank row.candidate.search_term)
      && not (is_blank row.candidate.normalized_term)
      && member row.candidate.brand_class brand_classes
      && member row.candidate.funnel_purpose funnel_purposes
      && member row.destination_match_type match_types
      && not (exists (same_action row) rows)

  unfoldable pub record_lineage :
      String
      → String
      → String
      → String
      → HarvestPlan W
      → List (LineageRow W)
      → Result HarvestError (List (LineageRow W))
  unfolding accepts_lineage
  record_lineage tenant run evaluation action p rows = do
    row ← lineage_of tenant run evaluation action p p.blocked_by p.route p.candidate p.source
    raise_if (not (accepts_lineage rows row)) lineage_refused
    ok (row ∷ rows)
