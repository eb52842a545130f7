-- ===== src/Policy/Delivery.antt =====
-- When a delivery is sent at once, and until when quiet hours put it off.
use amz_command_center.Base.{
  >>=-eq-ok, Bool, Option, Option-cases, String, arith, false, inl, inr, member, none, ok, some,
  str_eq, str_eq_iff, true, ℕ, ◌*◌, ◌+◌, ◌<◌, ◌↔◌, ◌≡◌, ◌≤◌, ◌⊎◌,
}
use amz_command_center.ApplyGuardrails.{aware}
use amz_command_center.StateMachine.{day}
use amz_command_center.Policy.{
  RoutePreference, Zone, Zones, allowed_severities, decide_delivery, decided, eligible, end_date,
  evaluate_delivery_policy, quiet_end, validate_preference,
}

-- If quiet hours hold at a local date and time of day, then the local date and time at which they
-- end lie after it, and at most a day after it.
pub end_date_bounds :
    (start end date current : ℕ) {ends : ℕ}
    → current < day
    → end < day
    → end_date start end date current ≡ some ends
    → (date * day + current < ends * day + end) × (ends * day + end ≤ date * day + current + day)
unfolding end_date
end_date_bounds start end date current c e h = ground arith

module _ ⦃z : Zones⦄ where
  -- What a delivery outside the application needs to be sent at once.
  pub record IsEligible (p : RoutePreference) (at : ℕ) (severity : String)
      (consent configured : Bool) (loaded : Option Bool) : Type 0 where
    pub zone : Zone
    pub is_valid : validate_preference p ≡ ok zone
    pub is_known : member severity allowed_severities ≡ true
    pub is_outside : str_eq p.channel "in_app" ≡ false
    pub is_on : p.is_enabled ≡ true
    pub has_consent : elim loaded [ none ↦ consent | some found ↦ found ] ≡ true
    pub has_provider : configured ≡ true
    pub is_awake :
        (quiet_end p at zone ≡ none) ⊎ ((severity ≡ "critical") × (p.critical_bypass ≡ true))
    pub is_immediate : str_eq p.delivery_mode "digest" ≡ false

  -- A delivery is eligible to be sent at once exactly when the preference is valid and enabled, the
  -- severity is known, the recipient consents, the provider is configured, no quiet hours hold
  -- unless a critical message may break them, and the route is neither in-app nor a digest.
  pub evaluate-IsEligible_iff :
      (p : RoutePreference) (at : ℕ) (severity : String) (consent configured : Bool)
      (loaded : Option Bool)
      → (evaluate_delivery_policy p (aware at) severity consent configured loaded
          ≡ ok (decided eligible))
        ↔ IsEligible p at severity consent configured loaded
  unfolding evaluate_delivery_policy decide_delivery
  evaluate-IsEligible_iff p at severity consent configured loaded = (to, from)
    where
      to :
          evaluate_delivery_policy p (aware at) severity consent configured loaded
            ≡ ok (decided eligible)
          → IsEligible p at severity consent configured loaded
      to e =
          let (zone, valid, rest) = >>=-eq-ok (validate_preference p) _ e in
          let awake : (quiet_end p at zone ≡ none)
              ⊎ ((str_eq severity "critical" ≡ true) × (p.critical_bypass ≡ true)) =
            elim (Option-cases (quiet_end p at zone)) [
              | inl free ↦ inl free
              | inr (end, quiet) ↦ inr (ground (arith, rest, quiet), ground (arith, rest, quiet))
            ] in
          record {
            zone = zone;
            is_valid = valid;
            is_known = ground (arith, rest);
            is_outside = ground (arith, rest);
            is_on = ground (arith, rest);
            has_consent = ground (arith, rest);
            has_provider = ground (arith, rest);
            is_awake = elim awake [
              | inl free ↦ inl free
              | inr (critical, bypass) ↦ inr ((str_eq_iff severity "critical").0 critical, bypass)
            ];
            is_immediate = ground (arith, rest);
          }

      from :
          IsEligible p at severity consent configured loaded
          → evaluate_delivery_policy p (aware at) severity consent configured loaded
            ≡ ok (decided eligible)
      from x = ground (
        arith,
        x.is_valid,
        x.is_known,
        x.is_outside,
        x.is_on,
        x.has_consent,
        x.has_provider,
        x.is_awake,
        x.is_immediate,
        str_eq_iff severity "critical",
      )
