-- ===== src/Base/Decimal.antt =====
-- Decimal numerals: Go's strconv.FormatInt and fmt's %0kd for numbers that are not negative.
use whcms.Base.Tests.{ltb, leb, if◌then◌else◌, Bool-cases}
use whcms.Base.Lists.{length, All, length-append}
use whcms.Base.Text.{Text}
use Prim.Native.Nat.{ℕ, zero, suc, ◌+◌, ◌-◌, ◌*◌, ◌/◌, ◌%◌, ◌^◌, ◌≤◌, ◌<◌}
use mathlib.Core.Path.{◌≡◌, refl, ◌∙◌, ap}
use mathlib.Core.Logic.{inl, inr}
use mathlib.Core.Bool.{Bool, true, ◌&&◌}
use mathlib.Core.List.{[], ◌∷◌, ◌++◌}
use native.Mathlib.Omega.{arith}

-- Digits are produced from the right, so they gather in front of `acc`.
pub decimal_onto : ℕ → ℕ → Text → Text
decimal_onto zero n acc = acc
decimal_onto (suc f) n acc =
    let rest = decimal_onto f (n / 10) ((48 + n % 10) ∷ acc) in
    if ltb n 10 then (48 + n) ∷ acc else rest

-- `n + 1` rounds are more than a number has digits.
unfoldable pub decimal : ℕ → Text
unfolding decimal_onto
decimal n = decimal_onto (n + 1) n []

abbrev pub replicate : ℕ → ℕ → Text
replicate zero c = []
replicate (suc n) c = c ∷ replicate n c

-- `%0kd`
unfoldable pub pad : ℕ → ℕ → Text
unfolding decimal
pad k n = replicate (k - length (decimal n)) b'0' ++ decimal n

unfoldable pub is_digit : ℕ → Bool
is_digit c = leb b'0' c && leb c b'9'

-- The number that a text of digits stands for, read from the left.
abbrev pub value_from : ℕ → Text → ℕ
value_from acc [] = acc
value_from acc (c ∷ cs) = value_from (acc * 10 + (c - 48)) cs

abbrev pub value : Text → ℕ
value = value_from 0

value-decimal_onto :
    (f n : ℕ) (acc : Text) → n < f → value_from 0 (decimal_onto f n acc) ≡ value_from n acc
unfolding decimal_onto
value-decimal_onto zero n acc h = elim h [ ]
value-decimal_onto (suc f) n acc h = elim (Bool-cases (ltb n 10)) [
  | inl one ↦
      let e : 0 * 10 + (48 + n - 48) ≡ n = omega arith in
      ground (arith, ap (λ k. value_from k acc) e)
  | inr more ↦
      let e : n / 10 * 10 + (48 + n % 10 - 48) ≡ n = omega arith in
      ground
        (arith, ap (λ k. value_from k acc) e, value-decimal_onto f (n / 10) ((48 + n % 10) ∷ acc))
]

-- Reading a decimal numeral gives the number back.
pub value-decimal : (n : ℕ) → value (decimal n) ≡ n
unfolding decimal
value-decimal n = value-decimal_onto (n + 1) n [] (omega arith)

value_zeros : (k : ℕ) (s : Text) → value_from 0 (replicate k b'0' ++ s) ≡ value_from 0 s
value_zeros zero s = refl
value_zeros (suc k) s = value_zeros k s

pub value-pad : (k n : ℕ) → value (pad k n) ≡ n
unfolding pad
value-pad k n = value_zeros (k - length (decimal n)) (decimal n) ∙ value-decimal n

length-decimal_onto :
    (f n k : ℕ) (acc : Text) → n < 10 ^ suc k → length (decimal_onto f n acc) ≤ suc k + length acc
unfolding decimal_onto
length-decimal_onto zero n k acc h = omega arith
length-decimal_onto (suc f) n zero acc h = ground arith
length-decimal_onto (suc f) n (suc k) acc h =
    ground (arith, length-decimal_onto f (n / 10) k ((48 + n % 10) ∷ acc))

length-replicate : (k c : ℕ) → length (replicate k c) ≡ k
length-replicate zero c = refl
length-replicate (suc k) c = ap suc (length-replicate k c)

-- A number below 10^(k + 1) has at most k + 1 digits, and at least one.
pub length-decimal : (k n : ℕ) → n < 10 ^ suc k → length (decimal n) ≤ suc k
unfolding decimal
length-decimal k n h = omega (arith, length-decimal_onto (n + 1) n k [] h)

-- A number below 10^(k + 1) is padded to exactly k + 1 digits.
pub length-pad : (k n : ℕ) → n < 10 ^ suc k → length (pad (suc k) n) ≡ suc k
unfolding pad decimal
length-pad k n h = omega (
  arith,
  length-append (replicate (suc k - length (decimal n)) b'0') (decimal n),
  length-replicate (suc k - length (decimal n)) b'0',
  length-decimal_onto (n + 1) n k [] h,
)

All-decimal_onto :
    (f n : ℕ) (acc : Text)
    → All (λ c. is_digit c ≡ true) acc
    → All (λ c. is_digit c ≡ true) (decimal_onto f n acc)
unfolding decimal_onto is_digit
All-decimal_onto zero n acc h = h
All-decimal_onto (suc f) n acc h = elim (Bool-cases (ltb n 10)) [
  | inl one ↦ rw one (ground arith, h)
  | inr more ↦ rw more (All-decimal_onto f (n / 10) ((48 + n % 10) ∷ acc) (ground arith, h))
]

-- A decimal numeral is made of digits only.
pub All-decimal : (n : ℕ) → All (λ c. is_digit c ≡ true) (decimal n)
unfolding decimal
All-decimal n = All-decimal_onto (n + 1) n [] tt
