-- ===== src/Worker/Sending.antt =====
-- The provider's calls of one action. Whatever the client does, an approved action comes out applied
-- or failed; and it is applied exactly when both calls return and the live value is the baseline.
use amz_command_center.Base.{
  Bool, Option, Result, Result-cases, String, arith, false, inl, inr, none, ok, refl, some, true,
  ◌↔◌, ◌≡◌, ◌⊎◌,
}
use amz_command_center.Number.{Number, ticks}
use amz_command_center.Json.{Members}
use amz_command_center.StateMachine.{
  Action, applied, apply, approved, drift_error, failed, has_drifted, live_or, status_eq,
}
use amz_command_center.StateMachine.Drift.{apply_approved, starts_with-drift_error}
use amz_command_center.Worker.Defs.{ActionClient, Surroundings}
use amz_command_center.Worker.Applying.{apply_action, is_drift}

module _ {W S : Type 0} ⦃n : Number W⦄ (w : Surroundings W S) where
  -- The two calls as the loop makes them.
  abbrev pub read_of : ActionClient W S → Action W → S → Result String (Option (Members W)) × S
  read_of c a s = c.read_before_value a s

  abbrev pub write_of : ActionClient W S → Action W → S → Result String (Members W) × S
  write_of c a s = c.apply a (read_of c a s).1

  -- An action that is settled: applied or failed, and otherwise the same change.
  abbrev pub IsSettled : Action W → Action W → Type 0
  IsSettled a b =
      ((b.status ≡ applied) ⊎ (b.status ≡ failed))
      × (b.id ≡ a.id)
      × (b.tenant_id ≡ a.tenant_id)
      × (b.control_id ≡ a.control_id)
      × (b.after_value ≡ a.after_value)

  apply-IsSettled :
      (live : Option (Members W)) (api_ok : Bool) (error : Option String) (a : Action W)
      → a.status ≡ approved
      → (b : Action W) × (apply ⦃r = w.repr⦄ w.now live api_ok error a ≡ ok b) × IsSettled a b
  apply-IsSettled live api_ok error a h =
      elim (apply_approved ⦃r = w.repr⦄ w.now live api_ok error a h) [
        | inl (y, d, e) ↦ (_, e, (inr refl, refl, refl, refl, refl))
        | inr (inl (y, e)) ↦ (_, e, (inr refl, refl, refl, refl, refl))
        | inr (inr (y, d, e)) ↦ (_, e, (inl refl, refl, refl, refl, refl))
      ]

  -- An approved action never raises: it comes out applied or failed, for the same change.
  pub apply_action_total :
      (c : ActionClient W S) (a : Action W) (s : S)
      → a.status ≡ approved
      → (b : Action W) × (response : Option (Members W)) × ((apply_action w c a s).0
          ≡ ok (b, response))
        × IsSettled a b
  unfolding apply_action
  apply_action_total c a s h = elim (Result-cases (read_of c a s).0) [
    | inl (e, unread) ↦
        let (b, done, settled) = apply-IsSettled a.before_value false (some e) a h in
        (b, none, ground (arith, unread, done), settled)
    | inr (live, read) ↦ elim (Result-cases (write_of c a s).0) [
      | inl (e, unsent) ↦
          let (b, done, settled) = apply-IsSettled a.before_value false (some e) a h in
          (b, none, ground (arith, read, unsent, done), settled)
      | inr (response, sent) ↦
          let (b, done, settled) = apply-IsSettled live true none a h in
          (b, some response, ground (arith, read, sent, done), settled)
    ]
  ]

  -- Both calls of an action return, and the live value is no drift from its baseline.
  pub record IsSent (c : ActionClient W S) (a : Action W) (s : S) : Type 0 where
    pub live : Option (Members W)
    pub response : Members W
    pub was_read : (read_of c a s).0 ≡ ok live
    pub was_written : (write_of c a s).0 ≡ ok response
    pub no_drift : has_drifted live a.before_value ≡ false

  pub record IsApplied (c : ActionClient W S) (a : Action W) (s : S) : Type 0 where
    pub updated : Action W
    pub response : Option (Members W)
    pub result : (apply_action w c a s).0 ≡ ok (updated, response)
    pub is_applied : updated.status ≡ applied

  -- An approved action is applied exactly when both calls return and the live value that was read
  -- has not drifted from the baseline.
  pub apply_action-IsApplied_iff :
      (c : ActionClient W S) (a : Action W) (s : S)
      → a.status ≡ approved
      → IsApplied c a s ↔ IsSent c a s
  unfolding apply_action apply status_eq
  apply_action-IsApplied_iff c a s h = (to, from)
    where
      to : IsApplied c a s → IsSent c a s
      to x = elim (Result-cases (read_of c a s).0) [
        | inl (e, unread) ↦ ground (arith, x.result, x.is_applied)
        | inr (live, read) ↦ elim (Result-cases (write_of c a s).0) [
          | inl (e, unsent) ↦ ground (arith, x.result, x.is_applied)
          | inr (response, sent) ↦ record {
            live = live;
            response = response;
            was_read = read;
            was_written = sent;
            no_drift = ground (arith, x.result, x.is_applied);
          }
        ]
      ]

      from : IsSent c a s → IsApplied c a s
      from x = record {
        updated = record a {
          before_value = live_or x.live a.before_value;
          status = applied;
          applied_at = some w.now;
        };
        response = some x.response;
        result = ground (arith, x.was_read, x.was_written, x.no_drift);
        is_applied = refl;
      }

  -- Where the live value has drifted and the write returns, the action is failed with the drift,
  -- but the provider is left in the state after the write.
  pub apply_action_drift :
      (c : ActionClient W S) (a : Action W) (s : S) (live : Option (Members W))
      (response : Members W)
      → a.status ≡ approved
      → (read_of c a s).0 ≡ ok live
      → (write_of c a s).0 ≡ ok response
      → has_drifted live a.before_value ≡ true
      → (b : Action W) × (apply_action w c a s ≡ (ok (b, some response), (write_of c a s).1))
        × (b.status ≡ failed)
        × (is_drift w b ≡ true)
  unfolding apply_action is_drift status_eq
  apply_action_drift c a s live response h read sent d =
      elim (apply_approved ⦃r = w.repr⦄ w.now live true none a h) [
        | inl (y, d', e) ↦ (
          record a { status = failed; error = some (drift_error ⦃r = w.repr⦄ live a.before_value) },
          ground (arith, read, sent, e),
          refl,
          starts_with-drift_error ⦃r = w.repr⦄ live a.before_value,
        )
        | inr (inl (y, e)) ↦ cc
        | inr (inr (y, d', e)) ↦ cc
      ]
