-- ===== src/Prelude/Floats.antt =====
-- Python's float, by the operations that the program uses of it.
pub mod Bounds
use Prim.Native.Nat.{ℕ, suc, ◌*◌, ◌≤◌, ◌<◌}
use mathlib.Core.Path.{◌≡◌}
use mathlib.Core.Bool.{Bool, true, false}
use wealthfinder.Prelude.Int.{ℤ, pos, negsuc}

pub record Floats (F : Type 0) : Type 0 where
  -- the float nearest to n / 100
  pub hundredths : ℕ → F
  -- the quotient of two ints, of which the second is not 0
  pub quotient : ℕ → ℕ → F
  pub neg : F → F
  pub abs : F → F
  pub add : F → F → F
  pub mul : F → F → F
  pub div : F → F → F
  pub le : F → F → Bool
  pub lt : F → F → Bool
  pub eq : F → F → Bool

module _ {F : Type 0} ⦃f : Floats F⦄ where
  infixl 65 ◌+f◌
  infixl 70 ◌*f◌ ◌/f◌
  infix 4 ◌≼◌
  abbrev pub ◌+f◌ : F → F → F
  ◌+f◌ = f.add

  abbrev pub ◌*f◌ : F → F → F
  ◌*f◌ = f.mul

  abbrev pub ◌/f◌ : F → F → F
  ◌/f◌ = f.div

  abbrev pub ◌≼◌ : F → F → Type 0
  x ≼ y = f.le x y ≡ true

  -- an int as an operand of float arithmetic
  abbrev pub of_int : ℤ → F
  of_int (pos n) = f.hundredths (100 * n)
  of_int (negsuc n) = f.neg (f.hundredths (100 * suc n))

  abbrev pub nought : F
  nought = f.hundredths 0

  abbrev pub one : F
  one = f.hundredths 100

  abbrev pub ten : F
  ten = f.hundredths 1000

-- What IEEE 754 gives for values that are numbers, as long as no operation overflows; 0.0 and -0.0
-- are one value. Rounding is monotone, and products by 0, 1 and -1 are exact.
pub record IsArithmetic (F : Type 0) ⦃f : Floats F⦄ : Type 0 where
  pub le_refl : (x : F) → x ≼ x
  pub le_trans : (x y z : F) → x ≼ y → y ≼ z → x ≼ z
  pub le_of_lt : (x y : F) → f.lt x y ≡ true → x ≼ y
  pub le_of_not_lt : (x y : F) → f.lt x y ≡ false → y ≼ x
  pub lt_irrefl : (x : F) → f.lt x x ≡ false
  pub hundredths_mono : (m n : ℕ) → m ≤ n → f.hundredths m ≼ f.hundredths n
  pub quotient_pos : (m n : ℕ) → 0 < n → nought ≼ f.quotient m n
  pub add_mono : (x y z w : F) → x ≼ y → z ≼ w → x +f z ≼ y +f w
  pub add_zero : (x : F) → x +f nought ≡ x
  pub add-neg : (x y : F) → f.neg x +f f.neg y ≡ f.neg (x +f y)
  pub neg_mono : (x y : F) → x ≼ y → f.neg y ≼ f.neg x
  pub neg_zero : f.neg nought ≡ nought
  pub mul_mono : (x y w : F) → nought ≼ w → x ≼ y → x *f w ≼ y *f w
  pub zero_mul : (x : F) → nought *f x ≡ nought
  pub mul_zero : (x : F) → x *f nought ≡ nought
  pub one_mul : (x : F) → one *f x ≡ x
  pub mul_one : (x : F) → x *f one ≡ x
  pub mul-neg : (x y : F) → x *f f.neg y ≡ f.neg (x *f y)
  pub neg-mul : (x y : F) → f.neg x *f y ≡ f.neg (x *f y)
  pub div_mono : (x y w : F) → nought ≼ w → f.eq w nought ≡ false → x ≼ y → x /f w ≼ y /f w
  pub zero_div : (w : F) → f.eq w nought ≡ false → nought /f w ≡ nought
  pub div_self : (w : F) → f.eq w nought ≡ false → w /f w ≡ one
  pub neg-div : (x w : F) → f.neg x /f w ≡ f.neg (x /f w)
  pub abs_pos : (x : F) → nought ≼ x → f.abs x ≡ x
  pub abs-neg : (x : F) → f.abs (f.neg x) ≡ f.abs x
  -- 10.0 * 0.30 + 10.0 * 0.25 + 10.0 * 0.15 + 10.0 * 0.10 is 8.0
  pub weights_of_ten :
      ten *f f.hundredths 30
        +f ten *f f.hundredths 25
        +f ten *f f.hundredths 15
        +f ten *f f.hundredths 10
      ≡ f.hundredths 800
