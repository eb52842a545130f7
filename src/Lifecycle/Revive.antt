-- ===== src/Lifecycle/Revive.antt =====
-- `decide_revive` and the loop over the keywords of an account.
use amz_command_center.Base.{
  Bool, List, Option, Result, String, [], false, if◌then◌else◌, ltb, map, none, not, ok, raised,
  select, some, sort_by, str_eq, true, ℕ, ◌&&◌, ◌-◌, ◌/◌, ◌>>=◌, ◌||◌, ◌∷◌,
}
use amz_command_center.Number.{Number, eqb, lt, nought, of_nat, ticks}
use amz_command_center.Harvest.{TermText, before_text, normalize_term, or_blank}
use amz_command_center.HumanControl.{TextCase}
use amz_command_center.StateMachine.{day}
use amz_command_center.Guardrails.{TenantGuardConfig}
use amz_command_center.Settings.{ConfigError}
use amz_command_center.Lifecycle.Defs.{
  BlockedReason, Finding, Keyword, OpenAction, Thresholds, bid_unknown, block_finding, duplicate,
  economics_unknown, float_or_nought, is_given, open_action, poor_history, recent_traffic,
  revive_evidence, thin_history,
}

pub data LifecycleError : Type 0 where
  zero_division : LifecycleError
  -- The configuration of the tenant cannot be loaded, or the database refuses a recommendation.
  settings_refused : ConfigError → LifecycleError
  recommendation_refused : LifecycleError

abbrev pub has_any : List String → Bool
has_any [] = false
has_any (s ∷ siblings) = true

module _ {W : Type 0} ⦃n : Number W⦄ ⦃c : TextCase⦄ ⦃u : TermText⦄ where
  -- `cost / sales if sales > 0 else None`
  abbrev pub acos_of : Keyword W → Option W
  acos_of kw =
      if lt nought (float_or_nought kw.sales)
      then some (n.div (float_or_nought kw.cost) (float_or_nought kw.sales))
      else none

  abbrev pub keyword_match : Keyword W → String
  keyword_match kw = c.lower (or_blank kw.match_type)

  abbrev pub revive_finding : Keyword W → TenantGuardConfig W → Option ℕ → List String → Finding W
  revive_finding kw cfg last siblings = record {
    recommendation_type = "revive_target";
    subject_key = kw.keyword_id;
    campaign_id = kw.campaign_id;
    ad_group_id = kw.ad_group_id;
    term = normalize_term (or_blank kw.keyword_text);
    match_type = keyword_match kw;
    keyword_id = some kw.keyword_id;
    is_recommended = true;
    blocked_reason = none;
    lineage_id = none;
    protection_id = none;
    current_bid = kw.last_bid;
    proposed_bid = none;
    break_even_cpc = none;
    evidence = revive_evidence kw cfg.min_bid cfg.max_bid cfg.cooldown_days last siblings;
  }

  -- `(now - last_applied_at).days` is negative, and so below the cooldown, for a later change.
  abbrev pub is_cooling : TenantGuardConfig W → ℕ → Option ℕ → Bool
  is_cooling cfg now none = false
  is_cooling cfg now (some last) = ltb now last || ltb ((now - last) / day) cfg.cooldown_days

  -- `orders < min or acos is None or acos > be * ratio`
  abbrev pub is_poor : Thresholds W → Keyword W → W → Bool
  is_poor t kw be =
      lt (float_or_nought kw.orders) (of_nat t.revive_min_orders)
      || elim (acos_of kw) [ none ↦ true | some acos ↦ lt (n.mul be t.revive_max_acos_ratio) acos ]

  -- The tests before the history.
  unfoldable pub traffic_fault :
      Thresholds W → Keyword W → List String → Option String → Option BlockedReason
  traffic_fault t kw siblings open_action_id =
      if has_any siblings
      then some duplicate
      else if is_given open_action_id
      then some duplicate
      else if lt nought (float_or_nought kw.recent_clicks)
      then some recent_traffic
      else if lt (float_or_nought kw.clicks) (of_nat t.revive_min_clicks)
      then some thin_history
      else none

  -- `sales / clicks * be`
  abbrev pub break_even_of : Keyword W → W → W
  break_even_of kw be = n.mul (n.div (float_or_nought kw.sales) (float_or_nought kw.clicks)) be

  -- Python's `min`, which returns its first argument unless the second is less.
  abbrev pub min_bid_of : W → W → W
  min_bid_of x y = if lt y x then y else x

  -- The end: the bid is bounded, and too low a one blocks.
  unfoldable pub propose : TenantGuardConfig W → W → W → Finding W → Finding W
  unfolding block_finding
  propose cfg bid cpc f =
      let target = min_bid_of bid cpc in
      let noted = record f { break_even_cpc = some cpc } in
      if lt target cfg.min_bid
      then block_finding noted BlockedReason.bounds
      else record noted { proposed_bid = some (n.round2 (min_bid_of target cfg.max_bid)) }

  -- From the last bid on.
  unfoldable pub decide_bid :
      Keyword W
      → W
      → Option W
      → TenantGuardConfig W
      → ℕ
      → Option ℕ
      → Finding W
      → Result LifecycleError (Finding W)
  unfolding block_finding propose
  decide_bid kw be none cfg now last f = ok (block_finding f bid_unknown)
  decide_bid kw be (some bid) cfg now last f =
      if not (lt nought bid)
      then ok (block_finding f bid_unknown)
      else if is_cooling cfg now last
      then ok (block_finding f BlockedReason.cooldown)
      else if eqb (float_or_nought kw.clicks) nought
      then raised zero_division
      else ok (propose cfg bid (break_even_of kw be) f)

  -- From the break-even ratio on.
  unfoldable pub decide_history :
      Thresholds W
      → Keyword W
      → Option W
      → TenantGuardConfig W
      → ℕ
      → Option ℕ
      → Finding W
      → Result LifecycleError (Finding W)
  unfolding block_finding decide_bid
  decide_history t kw none cfg now last f = ok (block_finding f economics_unknown)
  decide_history t kw (some be) cfg now last f =
      if is_poor t kw be
      then ok (block_finding f poor_history)
      else decide_bid kw be kw.last_bid cfg now last f

  -- `siblings` are sorted, and the action is the one that is open.
  unfoldable pub decide_revive :
      Thresholds W
      → Keyword W
      → List String
      → Option String
      → Option ℕ
      → TenantGuardConfig W
      → ℕ
      → Result LifecycleError (Finding W)
  unfolding traffic_fault block_finding decide_history
  decide_revive t kw siblings open_action_id last cfg now =
      let f = revive_finding kw cfg last siblings in
      elim (traffic_fault t kw siblings open_action_id) [
        | some reason ↦ ok (block_finding f reason)
        | none ↦ decide_history t kw kw.break_even_acos cfg now last f
      ]

  abbrev pub has_status : String → Keyword W → Bool
  has_status status kw = str_eq (c.lower (or_blank kw.keyword_status)) status

  -- The enabled keywords with the same ad group, text and match type.
  abbrev pub is_sibling : Keyword W → Keyword W → Bool
  is_sibling kw r =
      has_status "enabled" r
      && str_eq r.ad_group_id kw.ad_group_id
      && str_eq (normalize_term (or_blank r.keyword_text))
          (normalize_term (or_blank kw.keyword_text))
      && str_eq (keyword_match r) (keyword_match kw)

  unfoldable pub siblings_of : List (Keyword W) → Keyword W → List String
  unfolding sort_by
  siblings_of rows kw =
      sort_by before_text (map (λ (r : Keyword W). r.keyword_id) (select (is_sibling kw) rows))

  -- The loop; `last_applied` is the view of the last applied changes.
  unfoldable pub revive_all :
      (String → Option ℕ)
      → List OpenAction
      → String
      → ℕ
      → TenantGuardConfig W
      → Thresholds W
      → List (Keyword W)
      → List (Keyword W)
      → Result LifecycleError (List (Finding W))
  unfolding decide_revive open_action siblings_of
  revive_all last_applied actions tenant now cfg t rows [] = ok []
  revive_all last_applied actions tenant now cfg t rows (kw ∷ kws) = do
    f ←
        decide_revive t kw (siblings_of rows kw)
          (open_action actions tenant "keyword" kw.keyword_id ("enable" ∷ "set_bid" ∷ []))
          (last_applied kw.keyword_id) cfg now
    fs ← revive_all last_applied actions tenant now cfg t rows kws
    ok (f ∷ fs)

  -- `rows` are those of REVIVE_SQL.
  unfoldable pub revive_findings :
      (String → Option ℕ)
      → List OpenAction
      → String
      → ℕ
      → TenantGuardConfig W
      → Thresholds W
      → List (Keyword W)
      → Result LifecycleError (List (Finding W))
  unfolding revive_all
  revive_findings last_applied actions tenant now cfg t rows =
      revive_all last_applied actions tenant now cfg t rows (select (has_status "paused") rows)
