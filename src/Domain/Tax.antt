-- ===== src/Domain/Tax.antt =====
-- backend/internal/domain/tax.go. Amounts are int64; the rate is a float64.
use whcms.Base.{◌≡◌, Bool, true, false, ◌||◌, if◌then◌else◌, refl, inl, inr, Bool-cases}
use whcms.Base.Int.{ℤ, pos, eqb_ℤ}
use whcms.Base.Word.{Int64, add64, sub64, neg64, add64-sub64_cancel, add64-zero}
use whcms.Base.Float.{Float}

pub record TaxResult : Type 0 where
  pub base : ℤ
  pub tax : ℤ
  pub gross : ℤ

-- The two results, once the tax is known: taken out of the amount, or put on top of it.
abbrev with_tax_inside : ℤ → ℤ → TaxResult
with_tax_inside amount tax = record { base = sub64 amount tax; tax = tax; gross = amount }

abbrev with_tax_on_top : ℤ → ℤ → TaxResult
with_tax_on_top amount tax = record { base = amount; tax = tax; gross = add64 amount tax }

module _ (f : Float) where
  open f use {Real, of_int, half, add, mul, div, neg, less, leq, floor}

  unfoldable pub round_half_up : Real → ℤ
  round_half_up v =
      if less v (of_int (pos 0)) then neg64 (floor (add (neg v) half)) else floor (add v half)

  unfoldable pub calc_tax : ℤ → Real → Bool → TaxResult
  calc_tax amount rate_percent inclusive =
      let rate = div rate_percent (of_int (pos 100)) in
      if leq rate_percent (of_int (pos 0)) || eqb_ℤ amount (pos 0)
      then record { base = amount; tax = pos 0; gross = amount }
      else (if inclusive
          then with_tax_inside amount
              (round_half_up (div (mul (of_int amount) rate) (add (of_int (pos 1)) rate)))
          else with_tax_on_top amount (round_half_up (mul (of_int amount) rate)))

  abbrev pub Balanced : ℤ → Bool → TaxResult → Type 0
  Balanced amount inclusive r =
      (add64 r.base r.tax ≡ r.gross)
      × (inclusive ≡ true → r.gross ≡ amount)
      × (inclusive ≡ false → r.base ≡ amount)

  -- Whatever the rate and however the float rounds, base and tax make up the gross amount exactly;
  -- an inclusive tax leaves the gross at the amount given, an exclusive one leaves the base at it.
  pub calc_tax_balances :
      (amount : ℤ) (rate : Real) (inclusive : Bool)
      → Int64 amount
      → Balanced amount inclusive (calc_tax amount rate inclusive)
  unfolding calc_tax
  calc_tax_balances amount rate inclusive h =
      elim (Bool-cases (leq rate (of_int (pos 0)) || eqb_ℤ amount (pos 0))) [
        | inl exempt ↦ rw exempt (add64-zero amount h, λ e. refl, λ e. refl)
        | inr taxed ↦ elim (Bool-cases inclusive) [
          | inl inside ↦ rw (taxed, inside) (add64-sub64_cancel amount _ h, λ e. refl, λ e. cc)
          | inr on_top ↦ rw (taxed, on_top) (refl, λ e. cc, λ e. refl)
        ]
      ]
