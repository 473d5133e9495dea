-- ===== src/Base/Float.antt =====
-- Go's float64 as a parameter: the operations that the program uses, and the IEEE 754 facts that
-- its bounds rest on. Values are only compared, computed with and rounded.
use Prim.Native.Nat.{ℕ, ◌*◌, ◌<◌, ◌≤◌}
use mathlib.Core.Path.{◌≡◌}
use mathlib.Core.Bool.{Bool, false}
use whcms.Base.Int.{ℤ, pos, ◌≤ℤ◌}

pub record Float : Type 1 where
  pub Real : Type 0
  pub of_int : ℤ → Real
  pub half : Real
  pub add : Real → Real → Real
  pub mul : Real → Real → Real
  pub div : Real → Real → Real
  pub neg : Real → Real
  pub less : Real → Real → Bool
  pub leq : Real → Real → Bool
  -- int64(math.Floor(v))
  pub floor : Real → ℤ

-- Below 2^52, and below 2^53 for a product, integers and their halves are represented exactly.
abbrev pub two52 : ℕ
two52 = 4_503_599_627_370_496

abbrev pub two53 : ℕ
two53 = 9_007_199_254_740_992

pub record FloatLaws (f : Float) : Type 0 where
  -- a product of integers that fits the mantissa is exact
  pub mul_exact :
      (a b : ℕ)
      → a * b < two53
      → f.mul (f.of_int (pos a)) (f.of_int (pos b)) ≡ f.of_int (pos (a * b))
  -- rounding is monotone, so a quotient at most an integer rounds to at most that integer
  pub div_le :
      (n d a : ℕ)
      → 0 < d
      → n ≤ a * d
      → a < two52
      → f.less (f.of_int (pos a)) (f.div (f.of_int (pos n)) (f.of_int (pos d))) ≡ false
  pub div_nonneg :
      (n d : ℕ) → f.less (f.div (f.of_int (pos n)) (f.of_int (pos d))) (f.of_int (pos 0)) ≡ false
  -- adding a half and taking the floor does not pass an integer that bounds the value
  pub round_le :
      (x : f.Real) (a : ℕ)
      → a < two52
      → f.less (f.of_int (pos a)) x ≡ false
      → f.floor (f.add x f.half) ≤ℤ pos a
  pub round_nonneg :
      (x : f.Real) → f.less x (f.of_int (pos 0)) ≡ false → pos 0 ≤ℤ f.floor (f.add x f.half)
