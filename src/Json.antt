-- ===== src/Json.antt =====
-- The values of a `jsonb` column as psycopg hands them over: Python's None, bool, int, float, str,
-- list and dict, with Python's `==`, truth and `dict.get`. `str(value)` is part of `Repr`.
use amz_command_center.Base.{
  ℕ, suc, Bool, true, false, ◌&&◌, Option, none, some, String, str_eq, ◌==◌, if◌then◌else◌, not,
}
use amz_command_center.Base.Int.{ℤ, pos, eqb_ℤ}
use amz_command_center.Number.{Number, eqb, nought}

mutual
  pub data Json (W : Type 0) : Type 0 where
    null : Json W
    boolean : Bool → Json W
    integer : ℤ → Json W
    real : W → Json W
    text : String → Json W
    array : Items W → Json W
    dict : Members W → Json W

  pub data Items (W : Type 0) : Type 0 where
    nil : Items W
    cons : Json W → Items W → Items W

  pub data Members (W : Type 0) : Type 0 where
    empty : Members W
    entry : String → Json W → Members W → Members W

pub record Repr (W : Type 0) : Type 0 where
  pub show : Members W → String

-- `True` and `False` are the integers 1 and 0.
abbrev pub bool_int : Bool → ℤ
bool_int b = pos (if b then 1 else 0)

module _ {W : Type 0} where
  -- `d.get(key)`, where None stands for a missing key.
  unfoldable pub find : String → Members W → Option (Json W)
  find key empty = none
  find key (entry k v rest) = if str_eq k key then some v else find key rest

  abbrev or_null : Option (Json W) → Json W
  or_null none = null
  or_null (some v) = v

  unfoldable pub get : String → Members W → Json W
  unfolding find
  get key d = or_null (find key d)

  -- `bool(d)` of a dict.
  abbrev pub is_nonempty : Members W → Bool
  is_nonempty empty = false
  is_nonempty (entry k v rest) = true

  -- `d or {}` where `d` may be None.
  abbrev pub or_empty : Option (Members W) → Members W
  or_empty none = empty
  or_empty (some d) = d

  -- `d[key] = value`: in its place, or at the end.
  unfoldable pub put : String → Json W → Members W → Members W
  put key value empty = entry key value empty
  put key value (entry k v rest) =
      if str_eq k key then entry k value rest else entry k v (put key value rest)

  unfoldable pub size : Members W → ℕ
  size empty = 0
  size (entry k v rest) = suc (size rest)

module _ {W : Type 0} ⦃n : Number W⦄ where
  -- `==` of two values that are not both containers: bool, int and float compare as numbers.
  atom_eq : Json W → Json W → Bool
  atom_eq null null = true
  atom_eq (boolean b) (boolean c) = eqb_ℤ (bool_int b) (bool_int c)
  atom_eq (boolean b) (integer j) = eqb_ℤ (bool_int b) j
  atom_eq (boolean b) (real y) = eqb (n.of_int (bool_int b)) y
  atom_eq (integer i) (boolean c) = eqb_ℤ i (bool_int c)
  atom_eq (integer i) (integer j) = eqb_ℤ i j
  atom_eq (integer i) (real y) = eqb (n.of_int i) y
  atom_eq (real x) (boolean c) = eqb x (n.of_int (bool_int c))
  atom_eq (real x) (integer j) = eqb x (n.of_int j)
  atom_eq (real x) (real y) = eqb x y
  atom_eq (text s) (text t) = str_eq s t
  atom_eq _ _ = false

  -- Each entry of the left dict must be met by the right one; `dict_eq` compares the sizes too.
  unfoldable mutual
    unfolding find atom_eq

    pub json_eq : Json W → Json W → Bool
    json_eq (array xs) (array ys) = items_eq xs ys
    json_eq (dict d) (dict e) = size d == size e && members_in d e
    json_eq v w = atom_eq v w

    items_eq : Items W → Items W → Bool
    items_eq nil nil = true
    items_eq (cons v xs) (cons w ys) = json_eq v w && items_eq xs ys
    items_eq xs ys = false

    members_in : Members W → Members W → Bool
    members_in empty e = true
    members_in (entry k v rest) e = elim (find k e) [
      | none ↦ false
      | some w ↦ json_eq v w && members_in rest e
    ]

  unfoldable pub dict_eq : Members W → Members W → Bool
  unfolding json_eq
  dict_eq d e = json_eq (dict d) (dict e)

  -- `bool(value)`
  unfoldable pub is_truthy : Json W → Bool
  is_truthy null = false
  is_truthy (boolean b) = b
  is_truthy (integer i) = not (eqb_ℤ i (pos 0))
  is_truthy (real x) = not (eqb x nought)
  is_truthy (text String.[]) = false
  is_truthy (text (String.◌∷◌ c s)) = true
  is_truthy (array nil) = false
  is_truthy (array (cons v vs)) = true
  is_truthy (dict d) = is_nonempty d

  -- `int(value)`, where `none` is the TypeError or ValueError.
  unfoldable pub int_of : Json W → Option ℤ
  int_of (boolean b) = some (bool_int b)
  int_of (integer i) = some i
  int_of (real x) = some (n.truncate x)
  int_of (text s) = n.parse_int s
  int_of _ = none

  -- `float(value)`, where `none` is the TypeError or ValueError.
  unfoldable pub float_of : Json W → Option W
  float_of (boolean b) = some (n.of_int (bool_int b))
  float_of (integer i) = some (n.of_int i)
  float_of (real x) = some x
  float_of (text s) = n.parse_float s
  float_of _ = none
