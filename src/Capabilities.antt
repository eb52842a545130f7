-- ===== src/Capabilities.antt =====
-- Which live changes are supported (packages/shared/action_capabilities.py). The registry that is read
-- from the JSON file is given as an association list.
use Prim.Native.String.{◌++◌ as append}
use amz_command_center.Base.{
  Bool, List, Option, Result, String, [], false, if◌then◌else◌, not, opt_str_eq, raise_if, some,
  str_eq, ◌&&◌, ◌>>◌, ◌||◌, ◌∷◌,
}

pub record ActionCapability : Type 0 where
  pub recommendation_supported : Bool
  pub approval_supported : Bool
  pub live_baseline_read_supported : Bool
  pub live_apply_supported : Bool
  pub rollback_supported : Bool
  pub verification_supported : Bool
  pub local_only : Bool

abbrev pub no_capability : ActionCapability
no_capability = record {
  recommendation_supported = false;
  approval_supported = false;
  live_baseline_read_supported = false;
  live_apply_supported = false;
  rollback_supported = false;
  verification_supported = false;
  local_only = false;
}

abbrev pub Registry : Type 0
Registry = List (String × ActionCapability)

unfoldable pub lookup : String → ActionCapability → Registry → ActionCapability
lookup key other [] = other
lookup key other ((name, item) ∷ rest) = if str_eq name key then item else lookup key other rest

unfoldable pub capability : Registry → String → String → ActionCapability
unfolding lookup
capability registry entity_type action_type =
    lookup (append entity_type (append ":" action_type))
      (lookup (append "*:" action_type) no_capability registry) registry

unfoldable pub live_ready : Option String → Option String → Bool
live_ready readiness_state verification_level =
    opt_str_eq readiness_state (some "LIVE_READY")
    && (opt_str_eq verification_level (some "AUTHORIZED_LIVE_READ")
        || opt_str_eq verification_level (some "AUTHORIZED_LIVE_WRITE"))

-- The phases of the worker.
unfoldable pub is_supported : ActionCapability → String → Bool
is_supported item phase =
    if str_eq phase "baseline"
    then item.live_baseline_read_supported
    else if str_eq phase "apply"
    then item.live_apply_supported
    else if str_eq phase "rollback"
    then item.rollback_supported
    else str_eq phase "verify" && item.verification_supported

unfoldable pub assert_worker_capability :
    Registry → String → String → String → Option String → Option String → Result String (Unit {0})
unfolding capability is_supported live_ready
assert_worker_capability registry entity_type action_type phase readiness_state verification_level =
    do
      let item = capability registry entity_type action_type
      raise_if (item.local_only || not (is_supported item phase)) (
          append "unsupported capability: "
            (append entity_type (append "/" (append action_type (append "/" phase)))))
      raise_if (not (live_ready readiness_state verification_level))
          "capability is not LIVE_READY with authorized live evidence"
