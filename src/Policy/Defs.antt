-- ===== src/Policy/Defs.antt =====
-- `_validate`, `load_preference`, `_quiet_end` and `evaluate_delivery_policy`. A time of day is
-- microseconds since midnight, and a date is a number of days.
use mathlib.Core.Option
use amz_command_center.Base.{
  Bool, List, Option, Result, String, [], best, exists, false, if◌then◌else◌, is_some, leb, ltb,
  member, none, not, ok, raise_if, raised, select, some, str_eq, ℕ, ◌&&◌, ◌+◌, ◌==◌, ◌>>=◌, ◌>>◌,
  ◌||◌, ◌∷◌,
}
use amz_command_center.ApplyGuardrails.{Stamp, aware, naive}

abbrev pub allowed_event_types : List String
allowed_event_types =
    "auth_expiring" ∷ "auth_expired" ∷ "pipeline_failed" ∷ "data_stale" ∷ "blast_radius_halt"
    ∷ "budget_guard" ∷ "action_failed" ∷ "economics_incomplete" ∷ "low_inventory"
    ∷ "projected_stockout" ∷ "reorder_due" ∷ "inbound_delayed" ∷ "excess_stock" ∷ "unusual_demand"
    ∷ "report_ready" ∷ "product_opportunity_digest" ∷ []

abbrev pub allowed_severities : List String
allowed_severities = "info" ∷ "warning" ∷ "critical" ∷ []

abbrev pub allowed_channels : List String
allowed_channels = "in_app" ∷ "email" ∷ "whatsapp" ∷ "sms" ∷ []

abbrev pub allowed_modes : List String
allowed_modes = "immediate" ∷ "digest" ∷ []

abbrev pub digest_intervals : List ℕ
digest_intervals = 60 ∷ 1440 ∷ []

-- The texts of the statuses.
pub data Verdict : Type 0 where
  immediate blocked_disabled blocked_consent blocked_configuration deferred_quiet_hours : Verdict
  queued_digest eligible : Verdict

-- ValueError by its message.
pub data PolicyError : Type 0 where
  unsupported_event unsupported_channel unsupported_mode half_quiet empty_quiet : PolicyError
  unsupported_interval interval_without_digest in_app_changed invalid_timezone : PolicyError
  lacks_zone unsupported_severity : PolicyError

pub record RoutePreference : Type 0 where
  pub event_type : String
  pub channel : String
  pub is_enabled : Bool
  pub delivery_mode : String
  pub digest_interval_minutes : Option ℕ
  pub timezone : String
  pub quiet_start : Option ℕ
  pub quiet_end : Option ℕ
  pub critical_bypass : Bool

pub record PolicyDecision : Type 0 where
  pub status : Verdict
  pub eligible_at : Option ℕ

-- A `ZoneInfo`: the local date and time of day of a moment, and the moment of a date and time.
pub record Zone : Type 0 where
  pub local : ℕ → ℕ × ℕ
  pub combine : ℕ → ℕ → ℕ

-- `ZoneInfo(name)`, where `none` is ZoneInfoNotFoundError.
pub record Zones : Type 0 where
  pub zone_info : String → Option Zone

-- A row of `notification_route_preference`.
pub record StoredPreference : Type 0 where
  pub tenant_id : String
  pub preference : RoutePreference

unfoldable pub has_half_quiet : RoutePreference → Bool
has_half_quiet p = if is_some p.quiet_start then not (is_some p.quiet_end) else is_some p.quiet_end

unfoldable pub has_empty_quiet : RoutePreference → Bool
has_empty_quiet p = elim p.quiet_start [
  | none ↦ false
  | some start ↦ elim p.quiet_end [ none ↦ false | some end ↦ start == end ]
]

abbrev pub is_interval : Option ℕ → Bool
is_interval none = false
is_interval (some minutes) = exists (λ i. i == minutes) digest_intervals

unfoldable pub has_bad_digest : RoutePreference → Bool
has_bad_digest p = str_eq p.delivery_mode "digest" && not (is_interval p.digest_interval_minutes)

unfoldable pub is_bad_in_app : RoutePreference → Bool
is_bad_in_app p =
    str_eq p.channel "in_app"
    && (not p.is_enabled
        || not (str_eq p.delivery_mode "immediate")
        || is_some p.quiet_start
        || p.critical_bypass)

module _ ⦃z : Zones⦄ where
  -- `_validate`
  unfoldable pub validate_preference : RoutePreference → Result PolicyError Zone
  unfolding has_half_quiet has_empty_quiet has_bad_digest is_bad_in_app
  validate_preference p = do
    raise_if (not (str_eq p.event_type "*") && not (member p.event_type allowed_event_types))
        unsupported_event
    raise_if (not (member p.channel allowed_channels)) unsupported_channel
    raise_if (not (member p.delivery_mode allowed_modes)) unsupported_mode
    raise_if (has_half_quiet p) half_quiet
    raise_if (has_empty_quiet p) empty_quiet
    raise_if (has_bad_digest p) unsupported_interval
    raise_if (not (str_eq p.delivery_mode "digest") && is_some p.digest_interval_minutes)
        interval_without_digest
    raise_if (is_bad_in_app p) in_app_changed
    elim (z.zone_info p.timezone) [ none ↦ raised invalid_timezone | some zone ↦ ok zone ]

  unfoldable pub default_preference : String → String → Result PolicyError RoutePreference
  unfolding validate_preference
  default_preference event_type channel =
      let p : RoutePreference = record {
        event_type = event_type;
        channel = channel;
        is_enabled = str_eq channel "in_app";
        delivery_mode = "immediate";
        digest_interval_minutes = none;
        timezone = "UTC";
        quiet_start = none;
        quiet_end = none;
        critical_bypass = false;
      } in
      validate_preference p >>= λ zone. ok p

  abbrev pub is_route : String → String → String → StoredPreference → Bool
  is_route tenant event_type channel row =
      str_eq row.tenant_id tenant
      && str_eq row.preference.channel channel
      && (str_eq row.preference.event_type event_type || str_eq row.preference.event_type "*")

  -- The row of the event goes before that of every event.
  abbrev pub route_before : String → StoredPreference → StoredPreference → Bool
  route_before event_type x y =
      str_eq x.preference.event_type event_type && not (str_eq y.preference.event_type event_type)

  unfoldable pub load_preference :
      List StoredPreference → String → String → String → Result PolicyError RoutePreference
  unfolding validate_preference default_preference
  load_preference rows tenant event_type channel = do
    standard ← default_preference event_type channel
    elim (best (route_before event_type) (select (is_route tenant event_type channel) rows)) [
      | none ↦ ok standard
      | some row ↦
          let p = record row.preference { event_type = event_type } in
          validate_preference p >>= λ zone. ok p
    ]

-- The date on which quiet hours that hold now end, from the local date and time of day.
unfoldable pub end_date : ℕ → ℕ → ℕ → ℕ → Option ℕ
end_date start end date current =
    if ltb start end
    then if leb start current && ltb current end then some date else none
    else if leb start current
    then some (date + 1)
    else if ltb current end
    then some date
    else none

-- `_quiet_end`
unfoldable pub quiet_end : RoutePreference → ℕ → Zone → Option ℕ
unfolding end_date
quiet_end p occurred zone = elim p.quiet_start [
  | none ↦ none
  | some start ↦ elim p.quiet_end [
    | none ↦ none
    | some end ↦
        Option.map (λ date. zone.combine date end)
          (end_date start end (zone.local occurred).0 (zone.local occurred).1)
  ]
]

abbrev pub decided : Verdict → PolicyDecision
decided status = record { status = status; eligible_at = none }

module _ ⦃z : Zones⦄ where
  -- The tests after the validation; `loaded` is what `load_effective_consent` says, where a
  -- connection is given.
  unfoldable pub decide_delivery :
      RoutePreference → ℕ → String → Bool → Bool → Option Bool → Zone → PolicyDecision
  unfolding quiet_end
  decide_delivery p occurred severity consent configured loaded zone =
      if str_eq p.channel "in_app"
      then decided immediate
      else if not p.is_enabled
      then decided blocked_disabled
      else if not (elim loaded [ none ↦ consent | some found ↦ found ])
      then decided blocked_consent
      else if not configured
      then decided blocked_configuration
      else if is_some (quiet_end p occurred zone)
          && not (str_eq severity "critical" && p.critical_bypass)
      then record { status = deferred_quiet_hours; eligible_at = quiet_end p occurred zone }
      else if str_eq p.delivery_mode "digest"
      then decided queued_digest
      else decided eligible

  unfoldable pub evaluate_delivery_policy :
      RoutePreference
      → Stamp
      → String
      → Bool
      → Bool
      → Option Bool
      → Result PolicyError PolicyDecision
  unfolding validate_preference decide_delivery
  evaluate_delivery_policy p occurred severity consent configured loaded =
      validate_preference p >>= λ zone. elim occurred [
        | naive at ↦ raised lacks_zone
        | aware at ↦
            if not (member severity allowed_severities)
            then raised unsupported_severity
            else ok (decide_delivery p at severity consent configured loaded zone)
      ]
