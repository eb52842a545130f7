-- ===== src/Delivery/Tables.antt =====
-- Templates, messages and the tables of deliveries, with the errors.
use amz_command_center.Base.{Bool, List, Option, String, [], ℕ, ◌∷◌}
use amz_command_center.Json.{Json}

abbrev pub external_channels : List String
external_channels = "email" ∷ "whatsapp" ∷ "sms" ∷ []

pub record ApprovedTemplate : Type 0 where
  pub template_id : String
  pub channel : String
  pub subject : Option String
  pub body : String
  pub variable_allowlist : List String

pub record RenderedMessage : Type 0 where
  pub subject : Option String
  pub body : String

pub record AdapterResult (W : Type 0) : Type 0 where
  pub outcome : String
  pub provider_reference : Option String
  pub provider_status : Option String
  pub error_code : Option String
  pub error_detail : Option String
  pub cost_amount : W
  pub cost_currency : Option String

-- The ValueErrors, and the database's refusal of a row.
pub data DeliveryError : Type 0 where
  unsupported_channel not_allowed missing_variable not_scalar : DeliveryError
  bad_retry unsupported_outcome bad_cost unverified bad_callback refused_row : DeliveryError

-- A row of `notification_delivery_attempt`.
pub record Attempt (W : Type 0) : Type 0 where
  pub tenant_id : String
  pub delivery_id : String
  pub attempt_number : ℕ
  pub idempotency_key : String
  pub outcome : String
  pub result : AdapterResult W
  pub attempted_at : ℕ

-- A row of `notification_callback_event`.
pub record Callback : Type 0 where
  pub tenant_id : String
  pub delivery_id : String
  pub channel : String
  pub provider_callback_id : String
  pub delivery_status : String
  pub provider_reference : Option String

-- The columns of `notification_delivery` that are read or written.
pub record Delivery (W : Type 0) : Type 0 where
  pub id : String
  pub tenant_id : String
  pub channel : String
  pub status : String
  pub attempt : ℕ
  pub retry_eligible : Bool
  pub next_attempt_at : Option ℕ
  pub dead_lettered_at : Option ℕ
  pub provider_reference : Option String
  pub error : Option String
  pub cost_amount : W
  pub cost_currency : Option String
  pub delivered_at : Option ℕ

pub record Outbox (W : Type 0) : Type 0 where
  pub deliveries : List (Delivery W)
  pub attempts : List (Attempt W)
  pub callbacks : List Callback

-- What comes from outside: the matches of PLACEHOLDER, `Template.substitute`, `str` of a scalar, the
-- trimming of a text, and the clock of the database.
pub record DeliveryWorld (W : Type 0) : Type 0 where
  pub placeholders : String → List String
  pub substitute : String → List (String × String) → String
  pub show : Json W → String
  pub strip : String → String
  pub database_now : ℕ
