-- ===== src/Tests/Delivery.antt =====
-- A message by mail whose first attempt may be tried again.
use amz_command_center.Base.{
  All, String, [], false, member, none, ok, refl, some, update_where, ◌∷◌, ◌≡◌,
}
use amz_command_center.Number.{Ticks, ticks}
use amz_command_center.Samples.{one_stamp, same_case, ticks_repr, token_redactor}
use amz_command_center.ApplyGuardrails.{aware}
use amz_command_center.Delivery.{
  AdapterResult, Delivery, DeliveryWorld, Outbox, next_state, record_attempt, retry_at,
}
use amz_command_center.Delivery.Once.{IsSoundDelivery, record_attempt-IsSoundDelivery}

abbrev world : DeliveryWorld Ticks
world = record {
  placeholders = λ s. [];
  substitute = λ s safe. s;
  show = λ v. "";
  strip = λ s. s;
  database_now = 9;
}

abbrev waiting : Delivery Ticks
waiting = record {
  id = "n-1";
  tenant_id = "t-1";
  channel = "email";
  status = "PENDING";
  attempt = 0;
  retry_eligible = false;
  next_attempt_at = none;
  dead_lettered_at = none;
  provider_reference = none;
  error = none;
  cost_amount = 0;
  cost_currency = none;
  delivered_at = none;
}

abbrev outbox : Outbox Ticks
outbox = record { deliveries = waiting ∷ []; attempts = []; callbacks = [] }

abbrev busy : AdapterResult Ticks
busy = record {
  outcome = "RETRYABLE";
  provider_reference = none;
  provider_status = some "451";
  error_code = none;
  error_detail = some "busy";
  cost_amount = 0;
  cost_currency = none;
}

attempt_lem :
    (status : String) × (t' : Outbox Ticks) × (record_attempt world "t-1" "n-1" 1 5 "k-1" busy
        (aware 9)
        outbox
      ≡ ok (status, t'))
unfolding record_attempt next_state retry_at member update_where
attempt_lem = (_, _, refl)

record_attempt-IsSoundDelivery_example : All IsSoundDelivery attempt_lem.1.deliveries
record_attempt-IsSoundDelivery_example =
    record_attempt-IsSoundDelivery world "t-1" "n-1" 1 5 "k-1" busy (aware 9) outbox
      ((refl, refl), tt) attempt_lem.2
