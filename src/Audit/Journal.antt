-- ===== src/Audit/Journal.antt =====
-- The journal has one event for each key, and an insertion changes nothing that is there.
use package.text.Mathlib.TextPositions.{eq_refl}
use amz_command_center.Base.{
  All, Bool-cases, List, [], false, inl, inr, refl, true, ◌∙◌, ◌∷◌, ◌≡◌, exists,
}
use amz_command_center.Audit.{ExecutionEvent, Redactor, append_event, event_name, same_key, stored}
use amz_command_center.Audit.Redaction.{IsClean, sanitize-IsClean}

module _ {W : Type 0} ⦃r : Redactor⦄ where
  -- No two events of the journal have one key.
  abbrev pub IsUnique : List (ExecutionEvent W) → Type 0
  IsUnique [] = Unit
  IsUnique (e ∷ es) = (exists (same_key e) es ≡ false) × IsUnique es

  -- No dict of the journal shows a secret.
  abbrev pub HidesSecrets : List (ExecutionEvent W) → Type 0
  HidesSecrets = All λ e.
      IsClean e.before_value
      × IsClean e.proposed_value
      × IsClean e.applied_value
      × IsClean e.metadata

  same_key-stored : (e f : ExecutionEvent W) → same_key (stored e) f ≡ same_key e f
  unfolding same_key stored
  same_key-stored e f = refl

  exists-stored :
      (e : ExecutionEvent W) (es : List (ExecutionEvent W))
      → exists (same_key (stored e)) es ≡ exists (same_key e) es
  unfolding same_key stored
  exists-stored e es = refl

  same_key_self : (e : ExecutionEvent W) → same_key e (stored e) ≡ true
  unfolding same_key stored
  same_key_self e = rw (
    eq_refl e.tenant_id,
    eq_refl e.action_id,
    eq_refl (event_name e.event_type),
    eq_refl e.dedupe_key,
  )

  -- An insertion keeps the keys unique and the secrets hidden, the event's key is in the journal
  -- afterwards, and a second insertion changes nothing.
  pub append_event-IsUnique :
      (e : ExecutionEvent W) (es : List (ExecutionEvent W))
      → IsUnique es
      → HidesSecrets es
      → IsUnique (append_event e es)
        × HidesSecrets (append_event e es)
        × (exists (same_key e) (append_event e es) ≡ true)
        × (append_event e (append_event e es) ≡ append_event e es)
  unfolding append_event
  append_event-IsUnique e es u h = elim (Bool-cases (exists (same_key e) es)) [
    | inl there ↦ rw there (u, h, there, rw there refl)
    | inr new ↦ rw new (
      (exists-stored e es ∙ new, u),
      (
        unfold stored in
            (
              sanitize-IsClean e.before_value,
              sanitize-IsClean e.proposed_value,
              sanitize-IsClean e.applied_value,
              sanitize-IsClean e.metadata,
            ),
        h,
      ),
      rw (same_key_self e) refl,
      rw (same_key_self e) refl,
    )
  ]
