-- ===== src/Number.antt =====
-- What the program takes from Python's numbers: the arithmetic and comparisons of `float`, `round`
-- to two places, and the conversions `int(x)` and `float(x)`. There are no floats here, so the type
-- and its operations are a parameter, `Number`, and `IsOrdered` lists the documented laws that the
-- proofs use. They hold of the values other than NaN, and nothing is assumed of rounding but that
-- it keeps the order: neither `add` nor `mul` is associative.
use amz_command_center.Base.{
  ℕ, ◌+◌, ◌-◌, ◌*◌, ◌/◌, ◌≡◌, ◌⊎◌, Bool, false, not, ◌&&◌, Option, none, String, arith, ltb,
  if◌then◌else◌,
}
use amz_command_center.Base.Int.{ℤ, pos, pos_part}

pub record Number (W : Type 0) : Type 0 where
  pub of_int : ℤ → W
  pub lt : W → W → Bool
  pub add : W → W → W
  pub sub : W → W → W
  pub mul : W → W → W
  pub div : W → W → W
  pub abs : W → W
  pub round2 : W → W
  pub truncate : W → ℤ
  pub parse_float : String → Option W
  pub parse_int : String → Option ℤ

module _ {W : Type 0} ⦃n : Number W⦄ where
  -- `x < y` as a test, and its negation `y <= x` as a statement.
  abbrev pub lt : W → W → Bool
  lt = n.lt

  infix 4 ◌≼◌
  abbrev pub ◌≼◌ : W → W → Type 0
  x ≼ y = n.lt y x ≡ false

  -- `x == y` away from NaN.
  abbrev pub eqb : W → W → Bool
  eqb x y = not (n.lt x y) && not (n.lt y x)

  abbrev pub of_nat : ℕ → W
  of_nat k = n.of_int (pos k)

  abbrev pub nought : W
  nought = n.of_int (pos 0)

  -- Python's `max`, which returns its first argument unless the second is greater.
  abbrev pub max_of : W → W → W
  max_of x y = if n.lt x y then y else x

pub record IsOrdered (W : Type 0) ⦃n : Number W⦄ : Type 0 where
  pub ≼_refl : (x : W) → x ≼ x
  pub ≼_trans : (x y z : W) → x ≼ y → y ≼ z → x ≼ z
  pub ≼_total : (x y : W) → (x ≼ y) ⊎ (y ≼ x)
  pub le_add : (x l : W) → nought ≼ l → x ≼ n.add x l
  pub sub_le : (x l : W) → nought ≼ l → n.sub x l ≼ x
  pub sub_mono_left : (x y z : W) → x ≼ y → n.sub x z ≼ n.sub y z
  pub add_mono_right : (x y z : W) → y ≼ z → n.add x y ≼ n.add x z
  pub mul_nonneg : (x y : W) → nought ≼ x → nought ≼ y → nought ≼ n.mul x y
  pub abs_nonneg : (x : W) → nought ≼ n.abs x
  pub round2_mono : (x y : W) → x ≼ y → n.round2 x ≼ n.round2 y
  pub round2_idem : (x : W) → n.round2 (n.round2 x) ≡ n.round2 x

-- The laws can be met: amounts in hundredths of a penny that stop at nought, `round2` to the whole
-- penny, a half up. The tests run on these.
abbrev pub Ticks : Type 0
Ticks = ℕ

instance abbrev pub ticks : Number Ticks
ticks = record {
  of_int = λ i. 10_000 * pos_part i;
  lt = ltb;
  add = λ x y. x + y;
  sub = λ x y. x - y;
  mul = λ x y. x * y / 10_000;
  div = λ x y. 10_000 * x / y;
  abs = λ x. x;
  round2 = λ x. (x + 50) / 100 * 100;
  truncate = λ x. pos (x / 10_000);
  parse_float = λ s. none;
  parse_int = λ s. none;
}

pub Ticks-IsOrdered : IsOrdered Ticks
Ticks-IsOrdered = ground arith
