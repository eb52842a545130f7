-- ===== src/Delivery/Defs.antt =====
-- `render_template`, `retry_at`, `record_attempt` and `accept_verified_callback`, with what the tables of
-- packages/db/migrations/0055_notification_delivery_governance.sql check.
use amz_command_center.Base.{
  is_blank, Bool, List, Option, Result, String, [], exists, false, first_of, if◌then◌else◌, is_some,
  leb, ltb, member, none, not, ok, raise_if, raised, select, some, str_eq, true, update_where, ℕ,
  ◌&&◌, ◌*◌, ◌++◌, ◌+◌, ◌-◌, ◌/◌, ◌==◌, ◌>>=◌, ◌>>◌, ◌^◌, ◌||◌, ◌∷◌,
}
use amz_command_center.Number.{Number, eqb, nought, ticks}
use amz_command_center.Json.{Json, Members, boolean, empty, entry, get, integer, real, text}
use amz_command_center.StateMachine.{hour, terminal}
use amz_command_center.ApplyGuardrails.{Stamp, aware, naive}
use amz_command_center.Delivery.Tables.{
  AdapterResult, ApprovedTemplate, Attempt, Callback, Delivery, DeliveryError, DeliveryWorld,
  Outbox, RenderedMessage, bad_callback, bad_cost, bad_retry, external_channels, missing_variable,
  not_allowed, not_scalar, refused_row, unsupported_channel, unsupported_outcome, unverified,
}

abbrev pub subset : List String → List String → Bool
subset [] ys = true
subset (x ∷ xs) ys = member x ys && subset xs ys

-- `x or None` of a text, as `if template.subject` tests it.
abbrev pub set_text : Option String → Option String
set_text none = none
set_text (some s) = if str_eq s "" then none else some s

module _ {W : Type 0} (w : DeliveryWorld W) where
  abbrev pub is_scalar : Json W → Bool
  is_scalar (text s) = true
  is_scalar (integer i) = true
  is_scalar (real x) = true
  is_scalar (boolean b) = true
  is_scalar _ = false

  abbrev pub keys : Members W → List String
  keys empty = []
  keys (entry k v rest) = k ∷ keys rest

  -- `safe[key] = str(value)` for each name.
  unfoldable pub scalars : List String → Members W → Result DeliveryError (List (String × String))
  scalars [] variables = ok []
  scalars (key ∷ names) variables = do
    raise_if (not (is_scalar (get key variables))) not_scalar
    safe ← scalars names variables
    ok ((key, w.show (get key variables)) ∷ safe)

  unfoldable pub render_template :
      ApprovedTemplate → Members W → Result DeliveryError RenderedMessage
  unfolding scalars member
  render_template t variables = do
    raise_if (not (member t.channel external_channels)) unsupported_channel
    let subject = set_text t.subject
    let required = w.placeholders t.body ++ elim subject [ none ↦ [] | some s ↦ w.placeholders s ]
    raise_if (not (subset required t.variable_allowlist)) not_allowed
    raise_if (not (subset required (keys variables))) missing_variable
    safe ← scalars required variables
    ok (record {
      subject = elim subject [ none ↦ none | some s ↦ some (w.substitute s safe) ];
      body = w.substitute t.body safe;
    })

abbrev pub minute : ℕ
minute = hour / 60

-- 1m, 5m, 25m, and so on, at most 6h.
abbrev pub retry_minutes : ℕ → ℕ
retry_minutes attempt = if ltb (5 ^ (attempt - 1)) 360 then 5 ^ (attempt - 1) else 360

-- `0` stands for each attempt below one.
unfoldable pub retry_at : ℕ → Stamp → Result DeliveryError ℕ
retry_at attempt (naive now) = raised bad_retry
retry_at attempt (aware now) = do
  raise_if (ltb attempt 1) bad_retry
  ok (now + retry_minutes attempt * minute)

abbrev pub moment_of : Stamp → ℕ
moment_of (naive t) = t
moment_of (aware t) = t

-- What follows from the outcome: the status, the next attempt and the time of a dead letter.
unfoldable pub next_state :
    String → ℕ → ℕ → Stamp → Result DeliveryError (String × Option ℕ × Option ℕ)
unfolding retry_at
next_state outcome attempt max_attempts at =
    if not (str_eq outcome "RETRYABLE")
    then ok (outcome, none, none)
    else if leb max_attempts attempt
    then ok ("DEAD_LETTER", none, some (moment_of at))
    else (do next ← retry_at attempt at; ok (outcome, some next, none))

-- `coalesce(x, y)`
abbrev pub coalesce : Option String → Option String → Option String
coalesce none y = y
coalesce (some x) y = some x

abbrev pub same_callback : String → String → String → Callback → Bool
same_callback tenant channel id c =
    str_eq c.tenant_id tenant && str_eq c.channel channel && str_eq c.provider_callback_id id

module _ {W : Type 0} where
  abbrev pub has_attempt_key : String → String → Attempt W → Bool
  has_attempt_key tenant key a = str_eq a.tenant_id tenant && str_eq a.idempotency_key key

  abbrev pub same_attempt : String → String → ℕ → Attempt W → Bool
  same_attempt tenant id number a =
      str_eq a.tenant_id tenant && str_eq a.delivery_id id && a.attempt_number == number

  abbrev pub is_delivery : String → String → Delivery W → Bool
  is_delivery tenant id d = str_eq d.tenant_id tenant && str_eq d.id id

module _ {W : Type 0} ⦃n : Number W⦄ (w : DeliveryWorld W) where
  abbrev pub is_bad_cost : AdapterResult W → Bool
  is_bad_cost r =
      n.lt r.cost_amount nought
      || (not (eqb r.cost_amount nought) && not (is_some (set_text r.cost_currency)))

  -- The checks of `notification_delivery_attempt` on its number, its key and the currency of a cost.
  abbrev pub is_refused : ℕ → String → AdapterResult W → Bool
  is_refused number key r =
      ltb number 1
      || str_eq (w.strip key) ""
      || (not (eqb r.cost_amount nought)
          && elim r.cost_currency [ none ↦ false | some s ↦ is_blank s ])

  -- The update of the delivery.
  abbrev pub advanced :
      ℕ → AdapterResult W → ℕ → String × Option ℕ × Option ℕ → Delivery W → Delivery W
  advanced number r at (terminal, next, dead) d = record d {
    status = terminal;
    attempt = number;
    retry_eligible = str_eq terminal "RETRYABLE";
    next_attempt_at = next;
    dead_lettered_at = dead;
    provider_reference = r.provider_reference;
    error = r.error_detail;
    cost_amount = n.add d.cost_amount r.cost_amount;
    cost_currency = coalesce r.cost_currency d.cost_currency;
    delivered_at = if str_eq terminal "DELIVERED" then some at else d.delivered_at;
  }

  unfoldable pub record_attempt :
      String
      → String
      → ℕ
      → ℕ
      → String
      → AdapterResult W
      → Stamp
      → Outbox W
      → Result DeliveryError (String × Outbox W)
  unfolding next_state member update_where
  record_attempt tenant id number max_attempts key r at t = do
    raise_if (not (member r.outcome ("DELIVERED" ∷ "RETRYABLE" ∷ "FAILED" ∷ [])))
        unsupported_outcome
    raise_if (is_bad_cost r) bad_cost
    state ← next_state r.outcome number max_attempts at
    raise_if (is_refused number key r) refused_row
    elim (first_of (select (has_attempt_key tenant key) t.attempts)) [
      | some a ↦ ok (a.outcome, t)
      | none ↦ (do
        raise_if
            (exists (same_attempt tenant id number) t.attempts
              || not (exists (is_delivery tenant id) t.deliveries))
            refused_row
        ok (
          state.0,
          record t {
            attempts =
                record {
                  tenant_id = tenant;
                  delivery_id = id;
                  attempt_number = number;
                  idempotency_key = key;
                  outcome = state.0;
                  result = r;
                  attempted_at = moment_of at;
                }
                ∷ t.attempts;
            deliveries =
                update_where (is_delivery tenant id) (advanced number r (moment_of at) state)
                  t.deliveries;
          },
        ))
    ]

  -- The update of a callback.
  abbrev pub called_back : String → Option String → Delivery W → Delivery W
  called_back status reference d = record d {
    status = status;
    provider_reference = coalesce reference d.provider_reference;
    delivered_at = if str_eq status "DELIVERED" then some w.database_now else d.delivered_at;
    retry_eligible = str_eq status "RETRYABLE";
  }

  unfoldable pub accept_verified_callback :
      String
      → String
      → String
      → String
      → String
      → Option String
      → Bool
      → Outbox W
      → Result DeliveryError (Bool × Outbox W)
  unfolding member update_where
  accept_verified_callback tenant id channel callback_id status reference is_verified t = do
    raise_if (not is_verified) unverified
    raise_if
        (not (member channel external_channels)
          || not (member status ("DELIVERED" ∷ "FAILED" ∷ "RETRYABLE" ∷ [])))
        bad_callback
    raise_if (str_eq (w.strip callback_id) "") refused_row
    if exists (same_callback tenant channel callback_id) t.callbacks then ok (false, t) else (do
      raise_if (not (exists (is_delivery tenant id) t.deliveries)) refused_row
      ok (
        true,
        record t {
          callbacks =
              record {
                tenant_id = tenant;
                delivery_id = id;
                channel = channel;
                provider_callback_id = callback_id;
                delivery_status = status;
                provider_reference = reference;
              }
              ∷ t.callbacks;
          deliveries =
              update_where
                (λ d.
                  is_delivery tenant id d
                  && str_eq d.channel channel
                  && not (str_eq d.status "DEAD_LETTER"))
                (called_back status reference) t.deliveries;
        },
      ))
