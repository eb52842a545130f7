-- ===== src/Config/Guards.antt =====
-- A hard guard keeps the value of its definition.
use amz_command_center.Base.{
  >>=-eq-ok, Bool, Bool-cases, List, Option, Result, String, [], ap, arith, exists, false, inl, inr,
  is_some, member, none, not, ok, raise_if, refl, some, str_eq, str_eq_iff, sym, true, ℕ, ◌∙◌, ◌∷◌,
  ◌≡◌,
}
use amz_command_center.Base.Int.{pos}
use amz_command_center.Json.{Members, empty, entry, find, integer, put, real}
use amz_command_center.Config.Tables.{
  ConfigError, ConfigSource, ConfigWorld, DefinitionVersion, Draft, EffectiveConfiguration,
  OverrideVersion, hard_caps, hard_guard_replaced, scope_precedence, unknown_key,
}
use amz_command_center.Config.Defs.{
  active_override, apply_cap, apply_caps, apply_override, apply_overrides, apply_values, compared,
  definitions_at, put_source, resolve_effective_configuration, system_draft, validate_scopes,
  value_or,
}
use amz_command_center.Config.Caps.{apply_cap-other, find-put_other, passed_test}

module _ {W : Type 0} (w : ConfigWorld W) where
  -- The guards are the same, and so is the value of each.
  abbrev pub IsGuarded : Draft W → Draft W → Type 0
  IsGuarded draft after =
      (after.hard_guards ≡ draft.hard_guards)
      × ((key : String)
          → member key draft.hard_guards ≡ true
          → find key after.values ≡ find key draft.values)

  IsGuarded-trans : (a b c : Draft W) → IsGuarded a b → IsGuarded b c → IsGuarded a c
  IsGuarded-trans a b c (p, h) (q, k) = (q ∙ p, λ key m. k key (ap (member key) p ∙ m) ∙ h key m)

  abbrev Resolved : Type 0
  Resolved = Result ConfigError (Draft W)

  IsGuarded-same :
      (draft after : Draft W) → ◌≡◌ {A = Resolved} (ok draft) (ok after) → IsGuarded draft after
  IsGuarded-same draft after e = (ground arith, λ key m. ground arith)

  apply_values-IsGuarded :
      (source : ConfigSource) (values : Members W) (draft : Draft W) {after : Draft W}
      → apply_values w source values draft ≡ ok after
      → IsGuarded draft after
  unfolding apply_values
  apply_values-IsGuarded source empty draft {after} e = IsGuarded-same draft after e
  apply_values-IsGuarded source (entry k v rest) draft {after} e =
      let (_, free, e1) =
        >>=-eq-ok (raise_if (member k draft.hard_guards) hard_guard_replaced) _ e in
      let (_, _, e2) =
        >>=-eq-ok (raise_if (not (is_some (find k draft.values))) unknown_key) _ e1 in
      let next : Draft W = record draft {
        values = put k v draft.values;
        sources = put_source k source draft.sources;
      } in
      let rest_guarded = apply_values-IsGuarded source rest next e2 in
      IsGuarded-trans draft next after
        (refl, λ key m. find-put_other k key v draft.values (apart key m (free_of _ free)))
        rest_guarded
    where
      free_of : (b : Bool) {u : Unit {0}} → raise_if b hard_guard_replaced ≡ ok u → b ≡ false
      free_of true q = cc
      free_of false q = refl

      apart :
          (key : String)
          → member key draft.hard_guards ≡ true
          → member k draft.hard_guards ≡ false
          → str_eq k key ≡ false
      apart key m f = elim (Bool-cases (str_eq k key)) [
        | inl q ↦
            let same : k ≡ key = (str_eq_iff k key).0 q in
            let also = ap (λ s. member s draft.hard_guards) same in cc
        | inr q ↦ q
      ]

  apply_override-IsGuarded :
      (o : Option (OverrideVersion W)) (draft : Draft W) {after : Draft W}
      → apply_override w o draft ≡ ok after
      → IsGuarded draft after
  unfolding apply_override
  apply_override-IsGuarded none draft {after} e = IsGuarded-same draft after e
  apply_override-IsGuarded (some o) draft {after} e =
      elim (Bool-cases (str_eq o.operation "detach")) [
        | inl d ↦ IsGuarded-same draft after (ground arith)
        | inr d ↦
            apply_values-IsGuarded
              (record {
                level = o.scope_type;
                source_id = o.scope_id;
                version = o.version;
                is_hard = false;
              })
              o.values draft {after = after} (ground arith)
      ]

  apply_overrides-IsGuarded :
      (tenant : String) (scopes : List (String × String)) (table : List (OverrideVersion W))
      (order : List String) (draft : Draft W) {after : Draft W}
      → apply_overrides w tenant scopes table order draft ≡ ok after
      → IsGuarded draft after
  unfolding apply_overrides
  apply_overrides-IsGuarded tenant scopes table [] draft {after} e =
      (ground arith, λ key m. ground arith)
  apply_overrides-IsGuarded tenant scopes table (scope ∷ order) draft {after} e =
      let (next, p, e1) =
        >>=-eq-ok (apply_override w (active_override w tenant scopes table scope) draft) _ e in
      IsGuarded-trans draft next after
        (apply_override-IsGuarded (active_override w tenant scopes table scope) draft p)
        (apply_overrides-IsGuarded tenant scopes table order next e1)

  apply_caps-other :
      (key : String) (caps : List (String × String)) (draft : Draft W) {after : Draft W}
      → exists (λ (c : String × String). str_eq c.0 key) caps ≡ false
      → apply_caps w caps draft ≡ ok after
      → find key after.values ≡ find key draft.values
  unfolding apply_caps
  apply_caps-other key [] draft h e = ground arith
  apply_caps-other key ((local, upper) ∷ caps) draft h e =
      let (next, p, e1) = >>=-eq-ok (apply_cap w local upper draft) _ e in
      apply_caps-other key caps next (ground arith) e1
      ∙ apply_cap-other w local upper key draft (ground arith) p

  -- In every effective configuration that is returned, a hard guard that is not itself capped has the
  -- value of its definition in force, whatever overrides are stored.
  pub resolve-guarded :
      (definitions : List (DefinitionVersion W)) (overrides : List (OverrideVersion W))
      (tenant : String) (scopes : List (String × String)) (at : ℕ) (key : String)
      {c : EffectiveConfiguration W}
      → member key
          (system_draft w
            (definitions_at w at definitions)
            (record { values = empty; sources = []; hard_guards = [] })).hard_guards
        ≡ true
      → exists (λ (c : String × String). str_eq c.0 key) hard_caps ≡ false
      → resolve_effective_configuration w definitions overrides tenant scopes at ≡ ok c
      → find key c.values
        ≡ find key
            (system_draft w
              (definitions_at w at definitions)
              (record { values = empty; sources = []; hard_guards = [] })).values
  unfolding resolve_effective_configuration
  resolve-guarded definitions overrides tenant scopes at key {c} hard free e =
      let start =
        system_draft w (definitions_at w at definitions)
          (record { values = empty; sources = []; hard_guards = [] }) in
      let (normalized, _, e0) = >>=-eq-ok (validate_scopes w tenant scopes) _ e in
      let (merged, p, e1) =
        >>=-eq-ok (apply_overrides w tenant normalized overrides scope_precedence start) _ e0 in
      let (draft, q, e2) = >>=-eq-ok (apply_caps w hard_caps merged) _ e1 in
      let (above, _, e3) =
        >>=-eq-ok
          (compared w (value_or (integer (pos 0)) (find "min_bid" draft.values))
            (value_or (real w.infinity) (find "max_bid" draft.values)))
          _ e2 in
      let (_, ends) =
        passed_test above
          (record { values = draft.values; sources = draft.sources; resolved_at = at }) e3 in
      let (_, kept) =
        apply_overrides-IsGuarded tenant normalized overrides scope_precedence start p in
      ap (λ (x : EffectiveConfiguration W). find key x.values) (sym ends)
      ∙ apply_caps-other key hard_caps merged free q
      ∙ kept key hard
