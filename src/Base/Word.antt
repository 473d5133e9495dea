-- ===== src/Base/Word.antt =====
-- Go's int64: an integer whose operations wrap around at 2^63.
use Prim.Native.Nat.{ℕ, suc, ◌+◌, ◌-◌, ◌*◌, ◌/◌, ◌%◌, ◌≤◌, ◌<◌}
use mathlib.Core.Path.{◌≡◌}
use native.Mathlib.Omega.{arith}
use whcms.Base.Tests.{ltb, if◌then◌else◌}
use whcms.Base.Int.{ℤ, pos, negsuc, pos_part, neg_part, ◌+ℤ◌, ◌-ℤ◌, ◌*ℤ◌, quot}

abbrev pub two63 : ℕ
two63 = 9_223_372_036_854_775_808

abbrev pub two64 : ℕ
two64 = 18_446_744_073_709_551_616

-- The values of an int64.
abbrev pub Int64 : ℤ → Type 0
Int64 z = (pos_part z < two63) × (neg_part z ≤ two63)

-- The bit pattern, as a number below 2^64, and the integer that a pattern stands for.
residue : ℤ → ℕ
residue (pos n) = n % two64
residue (negsuc n) = two64 - 1 - n % two64

signed : ℕ → ℤ
signed m = if ltb m two63 then pos m else negsuc (two64 - 1 - m)

unfoldable pub wrap64 : ℤ → ℤ
unfolding residue signed
wrap64 z = signed (residue z)

unfoldable pub add64 : ℤ → ℤ → ℤ
unfolding wrap64 ◌+ℤ◌
add64 a b = wrap64 (a +ℤ b)

unfoldable pub sub64 : ℤ → ℤ → ℤ
unfolding wrap64 ◌-ℤ◌
sub64 a b = wrap64 (a -ℤ b)

unfoldable pub mul64 : ℤ → ℤ → ℤ
unfolding wrap64 ◌*ℤ◌
mul64 a b = wrap64 (a *ℤ b)

unfoldable pub div64 : ℤ → ℤ → ℤ
unfolding wrap64 quot
div64 a b = wrap64 (quot a b)

unfoldable pub neg64 : ℤ → ℤ
unfolding wrap64 ◌-ℤ◌
neg64 a = wrap64 (pos 0 -ℤ a)

pub wrap64-Int64 : (z : ℤ) → Int64 (wrap64 z)
unfolding wrap64
wrap64-Int64 z = ground arith

-- A value in range is left alone.
pub wrap64_in_range : (z : ℤ) → Int64 z → wrap64 z ≡ z
unfolding wrap64
wrap64_in_range z h = ground arith

pub add64-in_range : (a b : ℤ) → Int64 (a +ℤ b) → add64 a b ≡ a +ℤ b
unfolding add64
add64-in_range a b h = wrap64_in_range (a +ℤ b) h

pub sub64-in_range : (a b : ℤ) → Int64 (a -ℤ b) → sub64 a b ≡ a -ℤ b
unfolding sub64
sub64-in_range a b h = wrap64_in_range (a -ℤ b) h

pub add64-pos : (a b : ℕ) → a + b < two63 → add64 (pos a) (pos b) ≡ pos (a + b)
unfolding add64
add64-pos a b h = ground arith

pub sub64-pos : (a b : ℕ) → b ≤ a → a < two63 → sub64 (pos a) (pos b) ≡ pos (a - b)
unfolding sub64
sub64-pos a b h k = ground arith

pub mul64-pos : (a b : ℕ) → a * b < two63 → mul64 (pos a) (pos b) ≡ pos (a * b)
unfolding mul64
mul64-pos a b h = ground arith

pub div64-pos : (a b : ℕ) → a / b < two63 → div64 (pos a) (pos b) ≡ pos (a / b)
unfolding div64
div64-pos a b h = ground arith

-- What is taken off and put back, in wrapping arithmetic, is no change.
pub add64-sub64_cancel : (a b : ℤ) → Int64 a → add64 (sub64 a b) b ≡ a
unfolding add64 sub64
add64-sub64_cancel a b h = ground arith

pub add64-zero : (a : ℤ) → Int64 a → add64 a (pos 0) ≡ a
unfolding add64
add64-zero a h = ground arith

pub neg64-negsuc : (n : ℕ) → suc n < two63 → neg64 (negsuc n) ≡ pos (suc n)
unfolding neg64
neg64-negsuc n h = ground arith

pub sub64-Int64 : (a b : ℤ) → Int64 (sub64 a b)
unfolding sub64
sub64-Int64 a b = wrap64-Int64 (a -ℤ b)
