-- ===== src/ApplyGuardrails/Defs.antt =====
-- `validate_apply_guardrails` and its helpers.
use amz_command_center.Base.{
  Bool, Option, Result, String, false, if◌then◌else◌, none, not, ok, raise_if, raised, some, str_eq,
  true, ℕ, ◌+◌, ◌>>=◌, ◌>>◌, ◌||◌,
}
use amz_command_center.Base.Int.{ltb_ℤ, pos, pos_part, ℤ}
use amz_command_center.Number.{Number, eqb, max_of, nought, ticks}
use amz_command_center.Json.{
  Json, Members, dict, float_of, get, int_of, integer, is_truthy, json_eq, null, or_empty, text,
}
use amz_command_center.StateMachine.{Action}
use amz_command_center.Guardrails.{Decision, Guard, Proposal, RunContext, TenantGuardConfig, check}

-- ApplyGuardrailError by its message.
pub data ApplyError : Type 0 where
  evidence_missing context_unsupported source_not_fresh invalid_counts impossible_counts :
      ApplyError
  would_change_target : ApplyError
  must_be_numeric is_invalid lacks_timezone : String → ApplyError
  blocked : Option Guard → ApplyError

-- What `dt.datetime.fromisoformat` reads: a moment, or a time of no zone.
pub data Stamp : Type 0 where
  aware : ℕ → Stamp
  naive : ℕ → Stamp

pub record IsoFormat : Type 0 where
  pub from_iso : String → Option Stamp

-- The row of the query in `load_apply_evidence`. The columns have the database's types, so that of
-- `_date` only the case of a date is met.
pub record EvidenceRow (W : Type 0) : Type 0 where
  pub data_through : Option ℕ
  pub metrics_snapshot : Json W
  pub applied_today : ℕ
  pub budget_delta_today : W
  pub last_applied_at : Option ℕ

-- The row with the columns that are there.
pub record Evidence (W : Type 0) : Type 0 where
  pub through : ℕ
  pub metrics : Members W
  pub row : EvidenceRow W

abbrev pub context_version : ℕ
context_version = 1

-- The counts of the snapshot.
pub record Counts : Type 0 where
  pub evaluated : ℤ
  pub matched : ℤ
  pub min_clicks : ℤ
  pub min_impressions : ℤ
  pub clicks : ℤ
  pub impressions : ℤ

abbrev pub is_negative : ℤ → Bool
is_negative i = ltb_ℤ i (pos 0)

unfoldable pub are_impossible : Counts → Bool
are_impossible c =
    is_negative c.evaluated
    || is_negative c.matched
    || ltb_ℤ c.evaluated c.matched
    || is_negative c.min_clicks
    || is_negative c.min_impressions

-- What `check` is asked.
pub record Question (W : Type 0) : Type 0 where
  pub proposal : Proposal W
  pub context : RunContext W
  pub counts : Counts

module _ {W : Type 0} where
  unfoldable pub load_apply_evidence : Option (EvidenceRow W) → Result ApplyError (Evidence W)
  load_apply_evidence none = raised evidence_missing
  load_apply_evidence (some row) = elim row.data_through [
    | none ↦ raised evidence_missing
    | some through ↦ elim row.metrics_snapshot [
      | dict metrics ↦ ok (record { through = through; metrics = metrics; row = row })
      | _ ↦ raised evidence_missing
    ]
  ]

module _ {W : Type 0} ⦃n : Number W⦄ where
  -- `_number`
  unfoldable pub to_number : Json W → String → Result ApplyError (Option W)
  to_number null name = ok none
  to_number v name = elim (float_of v) [
    | some x ↦ ok (some x)
    | none ↦ raised (must_be_numeric name)
  ]

  -- A dict under `key` whose entry `tag` equals `wanted`.
  unfoldable pub tagged :
      Members W → String → String → Json W → ApplyError → Result ApplyError (Members W)
  tagged d key tag wanted e = elim (get key d) [
    | dict inner ↦ if json_eq (get tag inner) wanted then ok inner else raised e
    | _ ↦ raised e
  ]

  -- `int(value)` among the counts.
  unfoldable pub count_of : Json W → Result ApplyError ℤ
  count_of v = elim (int_of v) [ some i ↦ ok i | none ↦ raised invalid_counts ]

  -- `int(value or 0)`
  unfoldable pub count_or_zero : Json W → Result ApplyError ℤ
  unfolding count_of
  count_or_zero v = if is_truthy v then count_of v else ok (pos 0)

  -- `_datetime` of a value of the snapshot.
  unfoldable pub to_datetime : ⦃t : IsoFormat⦄ → Json W → String → Result ApplyError ℕ
  to_datetime ⦃t⦄ (text s) name = elim (t.from_iso s) [
    | none ↦ raised (is_invalid name)
    | some stamp ↦ elim stamp [ aware at ↦ ok at | naive at ↦ raised (lacks_timezone name) ]
  ]
  to_datetime v name = raised (is_invalid name)

  -- `value != after` where either may be None.
  unfoldable pub opt_eqb : Option W → Option W → Bool
  opt_eqb none none = true
  opt_eqb (some x) (some y) = eqb x y
  opt_eqb _ _ = false

  unfoldable pub read_counts : Members W → Members W → Result ApplyError Counts
  read_counts context metrics = do
    evaluated ← count_of (get "entities_evaluated" context)
    matched ← count_of (get "entities_matched" context)
    min_clicks ← count_of (get "min_clicks" context)
    min_impressions ← count_of (get "min_impressions" context)
    clicks ← count_or_zero (get "clicks" metrics)
    impressions ← count_or_zero (get "impressions" metrics)
    ok (record {
      evaluated = evaluated;
      matched = matched;
      min_clicks = min_clicks;
      min_impressions = min_impressions;
      clicks = clicks;
      impressions = impressions;
    })

  abbrev pub proposal_of : Action W → Counts → Option W → Option W → Option W → Proposal W
  proposal_of a c before after break_even = record {
    entity_type = a.entity_type;
    entity_id = a.entity_id;
    action_type = a.action_type;
    before_value = before;
    after_value = after;
    clicks = c.clicks;
    impressions = c.impressions;
    break_even_acos = break_even;
  }

  -- The counts have been found possible, so they are not negative.
  abbrev pub context_of : Evidence W → Counts → ℕ → ℕ → ℕ → W → RunContext W
  context_of e c loaded now projected_changes projected_increase = record {
    now = now;
    data_through = e.through;
    data_loaded_at = loaded;
    changes_applied_today = e.row.applied_today + projected_changes;
    budget_increase_today = n.add e.row.budget_delta_today projected_increase;
    entities_evaluated = pos_part c.evaluated;
    entities_matched = pos_part c.matched;
    last_applied_at = e.row.last_applied_at;
  }

  -- The value that a budget action adds to the day.
  unfoldable pub budget_increase_of : Action W → Option W → Option W → W
  budget_increase_of a (some before) (some after) =
      if str_eq a.action_type "set_budget" then max_of (n.sub after before) nought else nought
  budget_increase_of a _ _ = nought

  -- The verdict on the answer of `check`.
  unfoldable pub accept : Decision W → Option W → Result ApplyError (Unit {0})
  accept d after = do
    raise_if (not d.is_allowed) (blocked d.blocked_by)
    raise_if (d.clamped || not (opt_eqb d.value after)) would_change_target

  module _ ⦃t : IsoFormat⦄ where
    -- The proposal and the context, rebuilt from the action and its evidence.
    unfoldable pub rebuild :
        Option (EvidenceRow W) → Action W → ℕ → ℕ → W → Result ApplyError (Question W)
    rebuild found a now projected_changes projected_increase = do
      e ← load_apply_evidence found
      context ←
          tagged e.metrics "guardrail_context" "version" (integer (pos context_version))
            context_unsupported
      freshness ← tagged context "source_freshness" "state" (text "fresh") source_not_fresh
      c ← read_counts context e.metrics
      raise_if (are_impossible c) impossible_counts
      before ← to_number (get "value" (or_empty a.before_value)) "before_value"
      after ← to_number (get "value" a.after_value) "after_value"
      break_even ← to_number (get "break_even_acos" e.metrics) "break_even_acos"
      loaded ← to_datetime (get "data_loaded_at" freshness) "data_loaded_at"
      ok (record {
        proposal = proposal_of a c before after break_even;
        context = context_of e c loaded now projected_changes projected_increase;
        counts = c;
      })

    abbrev pub answer : Question W → TenantGuardConfig W → Decision W
    answer q cfg = check q.proposal cfg q.context q.counts.min_clicks q.counts.min_impressions

    -- The amount that is returned is the budget increase.
    unfoldable pub validate_apply_guardrails :
        Option (EvidenceRow W) → Action W → TenantGuardConfig W → ℕ → ℕ → W → Result ApplyError W
    unfolding accept
    validate_apply_guardrails found a cfg now projected_changes projected_increase = do
      q ← rebuild found a now projected_changes projected_increase
      accept (answer q cfg) q.proposal.after_value
      ok (budget_increase_of a q.proposal.before_value q.proposal.after_value)
