-- ===== src/Worker/Ads.antt =====
-- `AdsActionClient`: an action as calls of the Ads API. The calls of the API's client are parameters.
use amz_command_center.Base.{
  Bool, Option, Result, String, if◌then◌else◌, none, ok, raised, some, str_eq, ◌&&◌, ◌>>=◌,
}
use amz_command_center.Number.{Number, ticks}
use amz_command_center.Json.{Json, Members, find, float_of, get, is_nonempty}
use amz_command_center.StateMachine.{Action}
use amz_command_center.Capabilities.{Registry, assert_worker_capability}
use amz_command_center.Worker.Defs.{ActionClient}

-- The calls that `AdsClient` has for the worker; each may raise, with a message.
pub record AdsCalls (W S : Type 0) : Type 0 where
  pub keyword_bid : String → S → Result String (Option (Members W)) × S
  pub target_bid : String → S → Result String (Option (Members W)) × S
  pub placement_modifier : String → String → S → Result String (Option (Members W)) × S
  pub update_bid : String → W → S → Result String (Members W) × S
  pub update_target_bid : String → W → S → Result String (Members W) × S
  pub update_placement_modifier : String → String → W → Option W → S → Result String (Members W) × S

-- The client with what `load_action_readiness` found, `str` of a value and the messages of the
-- KeyError, of the failed `float` and of the NotImplementedError.
pub record AdsActionClient (W S : Type 0) : Type 0 where
  pub ads : AdsCalls W S
  pub registry : Registry
  pub readiness_state : Option String
  pub verification_level : Option String
  pub show : Json W → String
  pub key_error : String → String
  pub float_error : Json W → String
  pub not_implemented : Action W → String

module _ {W S : Type 0} ⦃n : Number W⦄ (c : AdsActionClient W S) where
  -- `_require`
  unfoldable pub require : Action W → String → Result String (Unit {0})
  unfolding assert_worker_capability
  require a phase =
      assert_worker_capability c.registry a.entity_type a.action_type phase c.readiness_state
        c.verification_level

  abbrev pub is_keyword_bid : Action W → Bool
  is_keyword_bid a = str_eq a.action_type "set_bid" && str_eq a.entity_type "keyword"

  abbrev pub is_target_bid : Action W → Bool
  is_target_bid a = str_eq a.action_type "set_bid" && str_eq a.entity_type "target"

  -- `d[key]`
  abbrev pub item_of : Members W → String → Result String (Json W)
  item_of d key = elim (find key d) [ none ↦ raised (c.key_error key) | some v ↦ ok v ]

  -- `float(value)`
  abbrev pub to_float : Json W → Result String W
  to_float v = elim (float_of v) [ none ↦ raised (c.float_error v) | some x ↦ ok x ]

  -- `float(before["value"]) if before else None`
  abbrev pub old_value : Option (Members W) → Result String (Option W)
  old_value none = ok none
  old_value (some d) =
      if is_nonempty d
      then item_of d "value" >>= (λ v. to_float v >>= λ x. ok (some x))
      else ok none

  -- A call with an argument that may have raised first.
  abbrev pub called :
      {A B : Type 0} → Result String A → (A → S → Result String B × S) → S → Result String B × S
  called (raised e) call s = (raised e, s)
  called (ok a) call s = call a s

  -- The call that reads the live value.
  abbrev pub read_call : Action W → S → Result String (Option (Members W)) × S
  read_call a =
      if is_keyword_bid a
      then c.ads.keyword_bid a.entity_id
      else if is_target_bid a
      then c.ads.target_bid a.entity_id
      else if str_eq a.action_type "set_placement_modifier"
      then called (item_of a.after_value "placement")
          (λ v. c.ads.placement_modifier a.entity_id (c.show v))
      else (λ s. (raised (c.not_implemented a), s))

  unfoldable pub read_live : Action W → S → Result String (Option (Members W)) × S
  unfolding require
  read_live a = called (require a "baseline") (λ _. read_call a)

  -- The arguments of a change of a placement, in the order of their evaluation.
  abbrev pub placement_change : Action W → Result String (String × W × Option W)
  placement_change a = item_of a.after_value "placement" >>= λ v.
      to_float (get "value" a.after_value) >>= λ x.
      old_value a.before_value >>= λ old. ok (c.show v, x, old)

  unfoldable pub write_live : Action W → S → Result String (Members W) × S
  unfolding require
  write_live a = called (require a "apply") (λ _.
      if is_keyword_bid a
      then called (to_float (get "value" a.after_value)) (c.ads.update_bid a.entity_id)
      else if is_target_bid a
      then called (to_float (get "value" a.after_value)) (c.ads.update_target_bid a.entity_id)
      else if str_eq a.action_type "set_placement_modifier"
      then called (placement_change a)
          (λ (placement, x, old). c.ads.update_placement_modifier a.entity_id placement x old)
      else (λ s. (raised (c.not_implemented a), s)))

  -- The client as the worker uses it.
  unfoldable pub ads_action_client : ActionClient W S
  unfolding read_live write_live
  ads_action_client = record { read_before_value = read_live; apply = write_live }
