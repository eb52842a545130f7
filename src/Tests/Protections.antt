-- ===== src/Tests/Protections.antt =====
-- A keyword that the tenant protects, and a rule that would pause it.
use amz_command_center.Base.{[], best, member, none, opt_str_eq, refl, true, ◌↔◌, ◌∷◌, ◌≡◌}
use amz_command_center.Samples.{one_stamp, same_case, ticks_repr, token_redactor}
use amz_command_center.Protections.{
  Protections, active_protection, destructive_actions, find_protection, latest_event, unprotected,
}
use amz_command_center.Protections.Blocking.{Protects, active_protection-Protects_iff}

abbrev kept : Protections
kept = record {
  rows =
      record {
        id = "p-1";
        tenant_id = "t-1";
        entity_type = "keyword";
        entity_value = "shoes";
        product_scope = "*";
        policy = "protect";
        reason = "brand term";
        duration = "permanent";
        expires_at = none;
        created_at = 1;
      }
      ∷ [];
  events = [];
}

-- A newer protection that was released hides the one in force.
abbrev hidden : Protections
hidden = record {
  rows =
      record {
        id = "p-2";
        tenant_id = "t-1";
        entity_type = "keyword";
        entity_value = "shoes";
        product_scope = "*";
        policy = "protect";
        reason = "season";
        duration = "permanent";
        expires_at = none;
        created_at = 2;
      }
      ∷ kept.rows;
  events =
      record {
        id = "e-1";
        tenant_id = "t-1";
        protection_id = "p-2";
        event_type = "released";
        reason = "season over";
        actor_user_id = "u-1";
        occurred_at = 3;
      }
      ∷ [];
}

hidden_lem : active_protection "t-1" "keyword" "shoes" "*" "pause" 5 hidden ≡ unprotected
unfolding active_protection member find_protection best latest_event opt_str_eq
hidden_lem = refl

active_protection-Protects_iff_example :
    ((active_protection "t-1" "keyword" "shoes" "*" "pause" 5 kept).is_blocked ≡ true)
    ↔ ((member "pause" destructive_actions ≡ true) × Protects "t-1" "keyword" "shoes" "*" 5 kept)
active_protection-Protects_iff_example =
    active_protection-Protects_iff "t-1" "keyword" "shoes" "*" "pause" 5 kept
