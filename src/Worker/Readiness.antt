-- ===== src/Worker/Readiness.antt =====
-- The live client without the evidence that live work is ready.
use amz_command_center.Base.{
  Result-cases, String, ap, arith, false, inl, inr, none, ok, raised, refl, some, true, ◌≡◌, ◌⊎◌,
}
use amz_command_center.Number.{Number, ticks}
use amz_command_center.StateMachine.{Action, api_error, apply, approved, failed}
use amz_command_center.Capabilities.{assert_worker_capability, capability, is_supported, live_ready}
use amz_command_center.Worker.Defs.{ActionClient, Surroundings}
use amz_command_center.Worker.Ads.{
  AdsActionClient, ads_action_client, called, read_call, read_live, require,
}
use amz_command_center.Worker.Applying.{apply_action}

module _ {W S : Type 0} ⦃n : Number W⦄ (w : Surroundings W S) where
  -- Live work on the action is not supported, or not ready.
  abbrev pub IsUnready : AdsActionClient W S → Action W → Type 0
  IsUnready c a =
      let item = capability c.registry a.entity_type a.action_type in
      (live_ready c.readiness_state c.verification_level ≡ false)
      ⊎ (item.local_only ≡ true)
      ⊎ (item.live_baseline_read_supported ≡ false)

  require_unready :
      (c : AdsActionClient W S) (a : Action W)
      → IsUnready c a
      → (e : String) × (require c a "baseline" ≡ raised e)
  unfolding require assert_worker_capability is_supported
  require_unready c a x = elim (Result-cases (require c a "baseline")) [
    | inl unread ↦ unread
    | inr (_, read) ↦ ground arith
  ]

  read_live_unready :
      (c : AdsActionClient W S) (a : Action W) (s : S) {e : String}
      → require c a "baseline" ≡ raised e
      → read_live c a s ≡ (raised e, s)
  unfolding read_live
  read_live_unready c a s q = ap (λ r. called c r (λ _. read_call c a) s) q

  apply_action_unread :
      (c : ActionClient W S) (a : Action W) (s : S) {e : String}
      → a.status ≡ approved
      → c.read_before_value a s ≡ (raised e, s)
      → apply_action w c a s
        ≡ (ok (record a { status = failed; error = some (api_error (some e)) }, none), s)
  unfolding apply_action apply
  apply_action_unread c a s h q = ground (arith, q)

  -- If live work on an approved action is not ready, because its type is not supported or is local
  -- only, or because the dependency is not ready with authorized evidence, then the action fails and
  -- the provider is not called: its state is as before.
  pub apply_action_unready :
      (c : AdsActionClient W S) (a : Action W) (s : S)
      → a.status ≡ approved
      → IsUnready c a
      → (b : Action W) × (apply_action w (ads_action_client c) a s ≡ (ok (b, none), s))
        × (b.status ≡ failed)
        × (b.after_value ≡ a.after_value)
  unfolding ads_action_client
  apply_action_unready c a s h x =
      let (e, unread) = require_unready c a x in
      (
        record a { status = failed; error = some (api_error (some e)) },
        apply_action_unread (ads_action_client c) a s h (read_live_unready c a s unread),
        refl,
        refl,
      )
