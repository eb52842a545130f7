-- ===== src/Tests/Policy.antt =====
-- An email route with quiet hours from 22:00 to 7:00.
use amz_command_center.Base.{false, none, ok, refl, some, true, ◌%◌, ◌*◌, ◌+◌, ◌/◌, ◌↔◌, ◌≡◌}
use amz_command_center.ApplyGuardrails.{aware}
use amz_command_center.StateMachine.{day, hour}
use amz_command_center.Policy.{
  RoutePreference, Zones, decided, eligible, end_date, evaluate_delivery_policy,
}
use amz_command_center.Policy.Delivery.{IsEligible, evaluate-IsEligible_iff}

-- One zone, whose clock shows the moments themselves.
instance abbrev universal : Zones
universal = record {
  zone_info =
      λ name. some (record { local = λ t. (t / day, t % day); combine = λ date t. date * day + t });
}

abbrev email_route : RoutePreference
email_route = record {
  event_type = "action_failed";
  channel = "email";
  is_enabled = true;
  delivery_mode = "immediate";
  digest_interval_minutes = none;
  timezone = "UTC";
  quiet_start = some (22 * hour);
  quiet_end = some (7 * hour);
  critical_bypass = false;
}

evening_lem : end_date (22 * hour) (7 * hour) 3 (23 * hour) ≡ some 4
unfolding end_date
evening_lem = refl

evaluate-IsEligible_iff_example :
    (evaluate_delivery_policy email_route (aware (3 * day + 12 * hour)) "warning" true true none
      ≡ ok (decided eligible))
    ↔ IsEligible email_route (3 * day + 12 * hour) "warning" true true none
evaluate-IsEligible_iff_example =
    evaluate-IsEligible_iff email_route (3 * day + 12 * hour) "warning" true true none
