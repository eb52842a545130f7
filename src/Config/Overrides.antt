-- ===== src/Config/Overrides.antt =====
-- Overrides are published, detached and rolled back, by owners and admins.
use amz_command_center.Base.{
  Bool, List, Option, Result, String, [], best, false, first_of, if◌then◌else◌, member, none, not,
  ok, opt_str_eq, raise_if, raised, select, some, str_eq, true, ℕ, ◌&&◌, ◌+◌, ◌>>=◌, ◌>>◌, ◌||◌,
  ◌∷◌,
}
use amz_command_center.Json.{Members, empty, entry}
use amz_command_center.Config.Tables.{
  ConfigError, ConfigWorld, OverrideVersion, no_target, not_admin, other_scope, values_required,
  unsupported_operation, reason_required, detach_with_values,
}
use amz_command_center.Config.Defs.{in_scope, is_later, validate_scopes}

module _ {W : Type 0} (w : ConfigWorld W) where
  unfoldable pub is_admin : String → String → Bool
  unfolding opt_str_eq
  is_admin tenant user =
      opt_str_eq (w.role_of tenant user) (some "owner")
      || opt_str_eq (w.role_of tenant user) (some "admin")

  abbrev pub next_version : Option (OverrideVersion W) → ℕ
  next_version none = 1
  next_version (some o) = o.version + 1

  abbrev pub id_of : Option (OverrideVersion W) → Option String
  id_of none = none
  id_of (some o) = some o.id

  -- `normalized[scope_type]` of the two scopes of a publication, of which the second wins.
  abbrev pub published_scope : String → String → String → List (String × String)
  published_scope tenant scope_type scope_id =
      if str_eq scope_type "tenant"
      then ("tenant", scope_id) ∷ []
      else ("tenant", tenant) ∷ (scope_type, scope_id) ∷ []

  abbrev pub has_values : Members W → Bool
  has_values empty = false
  has_values (entry k v rest) = true

  -- The row is put in front; its id is returned.
  unfoldable pub publish_override :
      String
      → String
      → String
      → Members W
      → String
      → String
      → String
      → Option String
      → List (OverrideVersion W)
      → Result ConfigError (String × List (OverrideVersion W))
  unfolding validate_scopes member is_admin best opt_str_eq
  publish_override tenant scope_type scope_id values actor reason operation rollback_of table = do
    normalized ← validate_scopes w tenant (published_scope tenant scope_type scope_id)
    raise_if (not (member operation ("apply" ∷ "detach" ∷ "rollback" ∷ []))) unsupported_operation
    raise_if (str_eq (w.strip reason) "") reason_required
    raise_if (str_eq operation "detach" && has_values values) detach_with_values
    raise_if (not (str_eq operation "detach") && not (has_values values)) values_required
    raise_if (not (is_admin tenant actor)) not_admin
    let id = w.strip scope_id
    let previous = best (is_later w) (select (in_scope w tenant scope_type (some id)) table)
    ok (
      w.new_id table,
      record {
        id = w.new_id table;
        tenant_id = tenant;
        scope_type = scope_type;
        scope_id = id;
        version = next_version previous;
        operation = operation;
        values = values;
        supersedes_id = id_of previous;
        rollback_of_id = rollback_of;
        reason = w.strip reason;
        created_by = actor;
      }
          ∷ table,
    )

  unfoldable pub detach_override :
      String
      → String
      → String
      → String
      → String
      → List (OverrideVersion W)
      → Result ConfigError (String × List (OverrideVersion W))
  unfolding publish_override
  detach_override tenant scope_type scope_id actor reason table =
      publish_override tenant scope_type scope_id empty actor reason "detach" none table

  unfoldable pub rollback_override :
      String
      → String
      → String
      → String
      → String
      → String
      → List (OverrideVersion W)
      → Result ConfigError (String × List (OverrideVersion W))
  unfolding publish_override
  rollback_override rollback_to tenant scope_type scope_id actor reason table =
      elim (first_of (
        select (λ (o : OverrideVersion W). str_eq o.tenant_id tenant && str_eq o.id rollback_to)
          table)) [
            | none ↦ raised no_target
            | some target ↦ (do
              raise_if
                  (not (str_eq target.scope_type scope_type)
                    || not (str_eq target.scope_id scope_id))
                  other_scope
              publish_override tenant scope_type scope_id target.values actor reason "rollback"
                  (some rollback_to) table)
          ]
