-- ===== src/Config/Published.antt =====
-- A published override is the one that is read next.
use text.Mathlib.TextPositions.{eq_refl}
use amz_command_center.Base.{
  >>=-eq-ok, All, All-imp, Bool, List, Option, Option-cases, Result, String, [], ap, arith, best,
  best-cons, best-least, false, inl, inr, member, none, not, ok, opt_str_eq, raise_if, refl, select,
  some, str_eq, true, ◌&&◌, ◌∙◌, ◌∷◌, ◌≡◌,
}
use amz_command_center.Json.{Members}
use amz_command_center.Config.Tables.{
  ConfigError, ConfigWorld, OverrideVersion, not_admin, values_required, unsupported_operation,
  reason_required, detach_with_values,
}
use amz_command_center.Config.Defs.{
  active_override, in_scope, is_later, scope_id_of, validate_scopes,
}
use amz_command_center.Config.Overrides.{
  has_values, id_of, is_admin, next_version, publish_override, published_scope,
}

module _ {W : Type 0} (w : ConfigWorld W) where
  is_later_asym : (x y : OverrideVersion W) → is_later w x y ≡ true → is_later w y x ≡ false
  is_later_asym x y e = ground arith

  is_later_trans :
      (x y z : OverrideVersion W)
      → is_later w y x ≡ false
      → is_later w z y ≡ false
      → is_later w z x ≡ false
  is_later_trans x y z e f = ground arith

  -- The next version is above those of the scope.
  next_version-latest :
      (rows : List (OverrideVersion W)) (row : OverrideVersion W)
      → row.version ≡ next_version w (best (is_later w) rows)
      → best (is_later w) (row ∷ rows) ≡ some row
  unfolding best
  next_version-latest rows row e = elim (Option-cases (best (is_later w) rows)) [
    | inl q ↦ best-cons (is_later w) row rows (none_lem rows q)
    | inr (b, q) ↦
        let least = best-least (is_later w) rows b is_later_asym is_later_trans q in
        best-cons (is_later w) row rows (
          All-imp (λ x. is_later w x b ≡ false) (λ x. is_later w x row ≡ false) rows
            (λ x h. ground arith) least)
  ]
    where
      none_lem :
          (ys : List (OverrideVersion W))
          → best (is_later w) ys ≡ none
          → All (λ x. is_later w x row ≡ false) ys
      none_lem [] q = tt
      none_lem (y ∷ ys) q = cc

  -- After a publication that returns, the active override of its scope is the new row, with the
  -- operation and the values that were given, by an owner or an admin of the tenant.
  pub publish_override-active :
      (tenant scope_type scope_id : String) (values : Members W) (actor reason operation : String)
      (rollback_of : Option String) (table : List (OverrideVersion W))
      (scopes : List (String × String)) {id : String} {after : List (OverrideVersion W)}
      → scope_id_of scope_type scopes ≡ some (w.strip scope_id)
      → publish_override w tenant scope_type scope_id values actor reason operation rollback_of
          table
        ≡ ok (id, after)
      → (row : OverrideVersion W) × (active_override w tenant scopes after scope_type ≡ some row)
        × (row.operation ≡ operation)
        × (row.values ≡ values)
        × (is_admin w tenant actor ≡ true)
  unfolding publish_override active_override opt_str_eq
  publish_override-active tenant scope_type scope_id values actor reason operation rollback_of table
        scopes {id} {after} h e =
      let (_, _, e0) =
        >>=-eq-ok (validate_scopes w tenant (published_scope w tenant scope_type scope_id)) _ e in
      let (_, _, e1) =
        >>=-eq-ok
          (raise_if (not (member operation ("apply" ∷ "detach" ∷ "rollback" ∷ [])))
            unsupported_operation)
          _ e0 in
      let (_, _, e2) = >>=-eq-ok (raise_if (str_eq (w.strip reason) "") reason_required) _ e1 in
      let (_, _, e3) =
        >>=-eq-ok (raise_if (str_eq operation "detach" && has_values w values) detach_with_values) _
          e2 in
      let (_, _, e4) =
        >>=-eq-ok
          (raise_if (not (str_eq operation "detach") && not (has_values w values)) values_required)
          _ e3 in
      let (_, allowed, e5) = >>=-eq-ok (raise_if (not (is_admin w tenant actor)) not_admin) _ e4 in
      let scope = w.strip scope_id in
      let rows = select (in_scope w tenant scope_type (some scope)) table in
      let previous = best (is_later w) rows in
      let row : OverrideVersion W = record {
        id = w.new_id table;
        tenant_id = tenant;
        scope_type = scope_type;
        scope_id = scope;
        version = next_version w previous;
        operation = operation;
        values = values;
        supersedes_id = id_of w previous;
        rollback_of_id = rollback_of;
        reason = w.strip reason;
        created_by = actor;
      } in
      let stored : after ≡ row ∷ table = stored_lem e5 in
      let found : in_scope w tenant scope_type (some scope) row ≡ true =
        rw (eq_refl tenant, eq_refl scope_type, eq_refl scope) refl in
      let latest : best (is_later w)
            (select (in_scope w tenant scope_type (some scope)) (row ∷ table))
          ≡ some row =
        rw found (next_version-latest rows row refl) in
      let opened : active_override w tenant scopes (row ∷ table) scope_type
          ≡ best (is_later w) (select (in_scope w tenant scope_type (some scope)) (row ∷ table)) =
        ap (λ o. best (is_later w) (select (in_scope w tenant scope_type o) (row ∷ table))) h in
      (row, rw stored (opened ∙ latest), refl, refl, may_lem (is_admin w tenant actor) allowed)
    where
      stored_lem :
          {x y : String} {a b : List (OverrideVersion W)}
          → ◌≡◌ {A = Result ConfigError (String × List (OverrideVersion W))} (ok (x, a)) (ok (y, b))
          → b ≡ a
      stored_lem q = ground arith

      may_lem :
          (b : Bool) {u : Unit {0}}
          → ◌≡◌ {A = Result ConfigError (Unit {0})} (raise_if (not b) not_admin) (ok u)
          → b ≡ true
      may_lem true q = refl
      may_lem false q = cc
