-- ===== src/Delivery/Once.antt =====
-- Evidence of a delivery is taken once, and what it leaves in the row.
use text.Mathlib.TextPositions.{eq_refl}
use amz_command_center.Base.{
  >>=-eq-ok, All, Bool, Bool-cases, List, Option, Option-cases, Result-cases, String, [], ap, arith,
  exists, false, first_of, inl, inr, is_some, leb, member, none, not, ok, raise_if, refl, select,
  some, str_eq, str_eq_iff, sym, true, update-All, update_where, ℕ, ◌&&◌, ◌∙◌, ◌∷◌, ◌≡◌,
}
use amz_command_center.Number.{Number, ticks}
use amz_command_center.ApplyGuardrails.{Stamp}
use amz_command_center.Delivery.Tables.{
  AdapterResult, Attempt, Delivery, DeliveryError, DeliveryWorld, Outbox, bad_cost, refused_row,
  unsupported_outcome,
}
use amz_command_center.Delivery.Defs.{
  accept_verified_callback, advanced, called_back, has_attempt_key, is_bad_cost, is_delivery,
  is_refused, moment_of, next_state, record_attempt, retry_at, same_callback,
}

-- A dead letter has its time and nothing else has one; what may be retried says so.
abbrev pub IsSoundDelivery : {W : Type 0} → Delivery W → Type 0
IsSoundDelivery d =
    (str_eq d.status "DEAD_LETTER" ≡ is_some d.dead_lettered_at)
    × (d.retry_eligible ≡ str_eq d.status "RETRYABLE")

-- What an adapter may answer.
abbrev answers : List String
answers = "DELIVERED" ∷ "RETRYABLE" ∷ "FAILED" ∷ []

no_dead_letter : (s : String) → member s answers ≡ true → str_eq s "DEAD_LETTER" ≡ false
unfolding member
no_dead_letter s m = elim (Bool-cases (str_eq s "DEAD_LETTER")) [
  | inl e ↦
      let same : s ≡ "DEAD_LETTER" = (str_eq_iff s "DEAD_LETTER").0 e in
      let absurd : member "DEAD_LETTER" answers ≡ true =
        ap (λ x. member x answers) (sym same) ∙ m in
      cc
  | inr e ↦ e
]

next_state_sound :
    (outcome : String) (attempt max_attempts : ℕ) (at : Stamp)
    {state : String × Option ℕ × Option ℕ}
    → member outcome answers ≡ true
    → next_state outcome attempt max_attempts at ≡ ok state
    → str_eq state.0 "DEAD_LETTER" ≡ is_some state.2
unfolding next_state
next_state_sound outcome attempt max_attempts at {state} m e =
    let alive = no_dead_letter outcome m in
    elim (Bool-cases (str_eq outcome "RETRYABLE")) [
      | inl f ↦ elim (Bool-cases (leb max_attempts attempt)) [
        | inl g ↦
            let dead : ("DEAD_LETTER", none, some (moment_of at)) ≡ state = ground arith in
            rw (← dead) refl
        | inr g ↦ elim (Result-cases (retry_at attempt at)) [
          | inl (x, q) ↦ ground arith
          | inr (next, q) ↦
              let again : (outcome, some next, none) ≡ state = ground arith in rw (← again) alive
        ]
      ]
      | inr f ↦ let final : (outcome, none, none) ≡ state = ground arith in rw (← final) alive
    ]

module _ {W : Type 0} ⦃n : Number W⦄ (w : DeliveryWorld W) where
  -- The row that an attempt leaves under its key.
  record_attempt-found :
      (tenant id : String) (number max_attempts : ℕ) (key : String) (r : AdapterResult W)
      (at : Stamp) (t : Outbox W) {status : String} {t' : Outbox W}
      → record_attempt w tenant id number max_attempts key r at t ≡ ok (status, t')
      → (state : String × Option ℕ × Option ℕ) × (a : Attempt W) × (raise_if {E = DeliveryError}
            (not (member r.outcome answers))
            unsupported_outcome
          ≡ ok tt)
        × (raise_if (is_bad_cost w r) bad_cost ≡ ok tt)
        × (next_state r.outcome number max_attempts at ≡ ok state)
        × (raise_if (is_refused w number key r) refused_row ≡ ok tt)
        × (first_of (select (has_attempt_key tenant key) t'.attempts) ≡ some a)
        × (a.outcome ≡ status)
  unfolding record_attempt
  record_attempt-found tenant id number max_attempts key r at t {status} {t'} e =
      let (u0, p0, e0) =
        >>=-eq-ok (raise_if (not (member r.outcome answers)) unsupported_outcome) _ e in
      let (u1, p1, e1) = >>=-eq-ok (raise_if (is_bad_cost w r) bad_cost) _ e0 in
      let (state, p2, e2) = >>=-eq-ok (next_state r.outcome number max_attempts at) _ e1 in
      let (u3, p3, e3) = >>=-eq-ok (raise_if (is_refused w number key r) refused_row) _ e2 in
      elim (Option-cases (first_of (select (has_attempt_key tenant key) t.attempts))) [
        | inl h ↦ (
          state,
          record {
            tenant_id = tenant;
            delivery_id = id;
            attempt_number = number;
            idempotency_key = key;
            outcome = state.0;
            result = r;
            attempted_at = moment_of at;
          },
          p0,
          p1,
          p2,
          p3,
          ground (arith, eq_refl tenant, eq_refl key),
          ground arith,
        )
        | inr (a, h) ↦ (state, a, p0, p1, p2, p3, ground arith, ground arith)
      ]

  -- The same attempt recorded again returns the same status and changes nothing.
  pub record_attempt-again :
      (tenant id : String) (number max_attempts : ℕ) (key : String) (r : AdapterResult W)
      (at : Stamp) (t : Outbox W) {status : String} {t' : Outbox W}
      → record_attempt w tenant id number max_attempts key r at t ≡ ok (status, t')
      → record_attempt w tenant id number max_attempts key r at t' ≡ ok (status, t')
  unfolding record_attempt
  record_attempt-again tenant id number max_attempts key r at t {status} {t'} e =
      let (state, a, p0, p1, p2, p3, found, same) =
        record_attempt-found tenant id number max_attempts key r at t e in
      rw (record_attempt, p0, p1, p2, p3, found, same) refl

  -- A callback is taken once: recorded again it is refused, and changes nothing.
  pub accept_verified_callback_once :
      (tenant id channel callback_id status : String) (reference : Option String)
      (is_verified is_taken : Bool) (t : Outbox W) {t' : Outbox W}
      → accept_verified_callback w tenant id channel callback_id status reference is_verified t
        ≡ ok (is_taken, t')
      → accept_verified_callback w tenant id channel callback_id status reference is_verified t'
        ≡ ok (false, t')
  unfolding accept_verified_callback
  accept_verified_callback_once tenant id channel callback_id status reference is_verified is_taken
        t {t'} e =
      elim (Bool-cases (exists (same_callback tenant channel callback_id) t.callbacks)) [
        | inl h ↦ ground arith
        | inr h ↦ ground (arith, eq_refl tenant, eq_refl channel, eq_refl callback_id)
      ]

  advanced-IsSoundDelivery :
      (number : ℕ) (r : AdapterResult W) (at : ℕ) (state : String × Option ℕ × Option ℕ)
      (d : Delivery W)
      → str_eq state.0 "DEAD_LETTER" ≡ is_some state.2
      → IsSoundDelivery (advanced w number r at state d)
  advanced-IsSoundDelivery number r at state d h = (h, refl)

  called_back-IsSoundDelivery :
      (status : String) (reference : Option String) (d : Delivery W)
      → member status answers ≡ true
      → str_eq d.status "DEAD_LETTER" ≡ false
      → IsSoundDelivery d
      → IsSoundDelivery (called_back w status reference d)
  called_back-IsSoundDelivery status reference d m a h =
      let alive = no_dead_letter status m in (ground arith, refl)

  -- Recording an attempt keeps every delivery sound: a dead letter has its time and no other status
  -- has one, and a delivery is eligible for a retry exactly when its status says so.
  pub record_attempt-IsSoundDelivery :
      (tenant id : String) (number max_attempts : ℕ) (key : String) (r : AdapterResult W)
      (at : Stamp) (t : Outbox W) {status : String} {t' : Outbox W}
      → All IsSoundDelivery t.deliveries
      → record_attempt w tenant id number max_attempts key r at t ≡ ok (status, t')
      → All IsSoundDelivery t'.deliveries
  unfolding record_attempt
  record_attempt-IsSoundDelivery tenant id number max_attempts key r at t {status} {t'} h e =
      let (_, p0, e0) =
        >>=-eq-ok (raise_if (not (member r.outcome answers)) unsupported_outcome) _ e in
      let (_, p1, e1) = >>=-eq-ok (raise_if (is_bad_cost w r) bad_cost) _ e0 in
      let (state, p2, e2) = >>=-eq-ok (next_state r.outcome number max_attempts at) _ e1 in
      let sound = next_state_sound r.outcome number max_attempts at (ground arith) p2 in
      elim (Option-cases (first_of (select (has_attempt_key tenant key) t.attempts))) [
        | inl q ↦
            let rows : t'.deliveries
                ≡ update_where (is_delivery tenant id) (advanced w number r (moment_of at) state)
                    t.deliveries =
              ground arith in
            rw rows (
              update-All IsSoundDelivery _ _ t.deliveries
                (λ d c k. advanced-IsSoundDelivery number r (moment_of at) state d sound) h)
        | inr (a, q) ↦ let rows : t'.deliveries ≡ t.deliveries = ground arith in rw rows h
      ]

  -- A callback keeps every delivery sound, and leaves a dead letter as it is.
  pub accept_verified_callback-IsSoundDelivery :
      (tenant id channel callback_id status : String) (reference : Option String)
      (is_verified is_taken : Bool) (t : Outbox W) {t' : Outbox W}
      → All IsSoundDelivery t.deliveries
      → accept_verified_callback w tenant id channel callback_id status reference is_verified t
        ≡ ok (is_taken, t')
      → All IsSoundDelivery t'.deliveries
  unfolding accept_verified_callback
  accept_verified_callback-IsSoundDelivery tenant id channel callback_id status reference
        is_verified is_taken t {t'} h e =
      elim (Bool-cases (member status answers)) [
        | inl m ↦
            elim (Bool-cases (exists (same_callback tenant channel callback_id) t.callbacks)) [
              | inl q ↦ let rows : t'.deliveries ≡ t.deliveries = ground arith in rw rows h
              | inr q ↦
                  let rows : t'.deliveries
                      ≡ update_where
                          (λ d.
                            is_delivery tenant id d
                            && str_eq d.channel channel
                            && not (str_eq d.status "DEAD_LETTER"))
                          (called_back w status reference) t.deliveries =
                    ground arith in
                  rw rows (
                    update-All IsSoundDelivery _ _ t.deliveries
                      (λ d c k. called_back-IsSoundDelivery status reference d m (ground arith) k)
                      h)
            ]
        | inr m ↦ ground arith
      ]
