-- ===== src/Audit/Redaction.antt =====
-- What `sanitize` leaves: no value under a key that names a secret, at any depth.
use amz_command_center.Base.{Bool, String, false, if◌then◌else◌, refl, true, ◌≡◌}
use amz_command_center.Json.{
  Items, Json, Members, array, boolean, cons, dict, empty, entry, integer, nil, null, real, text,
}
use amz_command_center.Audit.{Redactor, redacted, sanitize, sanitize_items, sanitize_members}

-- Under each key that names a secret stands the mark, in every dict of the value.
abbrev mutual
  pub IsClean : {W : Type 0} ⦃r : Redactor⦄ → Json W → Type 0
  IsClean (dict d) = AreClean d
  IsClean (array xs) = EachClean xs
  IsClean v = Unit

  pub EachClean : {W : Type 0} ⦃r : Redactor⦄ → Items W → Type 0
  EachClean nil = Unit
  EachClean (cons v xs) = IsClean v × EachClean xs

  pub AreClean : {W : Type 0} ⦃r : Redactor⦄ → Members W → Type 0
  AreClean empty = Unit
  AreClean ⦃r⦄ (entry k v rest) =
      (r.is_secret k ≡ true → v ≡ text redacted) × IsClean v × AreClean rest

secret_entry :
    {W : Type 0} ⦃r : Redactor⦄ (k : String) (v : Json W)
    → r.is_secret k ≡ true
    → (if r.is_secret k then text redacted else v) ≡ text redacted
secret_entry k v h = rw h refl

IsClean-entry :
    {W : Type 0} ⦃r : Redactor⦄ (b : Bool) (v : Json W)
    → IsClean v
    → IsClean (if b then text redacted else v)
IsClean-entry true v h = tt
IsClean-entry false v h = h

mutual
  unfolding sanitize

  IsClean-value : {W : Type 0} ⦃r : Redactor⦄ (v : Json W) → IsClean (sanitize v)
  IsClean-value (dict d) = AreClean-members d
  IsClean-value (array xs) = EachClean-items xs
  IsClean-value null = tt
  IsClean-value (boolean b) = tt
  IsClean-value (integer i) = tt
  IsClean-value (real x) = tt
  IsClean-value (text s) = tt

  EachClean-items : {W : Type 0} ⦃r : Redactor⦄ (xs : Items W) → EachClean (sanitize_items xs)
  EachClean-items nil = tt
  EachClean-items (cons v xs) = (IsClean-value v, EachClean-items xs)

  AreClean-members : {W : Type 0} ⦃r : Redactor⦄ (d : Members W) → AreClean (sanitize_members d)
  AreClean-members empty = tt
  AreClean-members ⦃r⦄ (entry k v rest) = (
    secret_entry k (sanitize v),
    IsClean-entry (r.is_secret k) (sanitize v) (IsClean-value v),
    AreClean-members rest,
  )

-- Whatever value goes to the journal, what is stored has the mark for a value under each key that
-- names a secret, in nested dicts and lists too.
pub sanitize-IsClean : {W : Type 0} ⦃r : Redactor⦄ (v : Json W) → IsClean (sanitize v)
sanitize-IsClean v = IsClean-value v
