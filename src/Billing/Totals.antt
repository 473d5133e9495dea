-- ===== src/Billing/Totals.antt =====
-- The totals that `CreateInvoice` of backend/internal/modules/billing/service.go computes.
use whcms.Base.{◌≡◌, refl, sym, ◌&&◌, if◌then◌else◌, Bool-cases, inl, inr, arith}
use whcms.Base.Int.{ℤ, pos, ltb_ℤ, ◌≤ℤ◌}
use whcms.Base.Word.{add64, sub64, add64-zero, sub64-Int64}
use whcms.Base.Float.{Float}
use whcms.Billing.Create.{Settings, Totals, invoice_totals, clamp_to}

clamp_to_bounds :
    (limit x : ℤ)
    → pos 0 ≤ℤ limit
    → pos 0 ≤ℤ x
    → (pos 0 ≤ℤ clamp_to limit x) × (clamp_to limit x ≤ℤ limit)
clamp_to_bounds limit x h k = (ground arith, ground arith)

-- What the tax adds to the discounted amount.
abbrev pub tax_on_top : Settings → Totals → ℤ
tax_on_top settings t = if settings.tax_inclusive then pos 0 else t.tax_total

-- An invoice adds up: its discount is never negative and never more than the subtotal, and its total
-- is the subtotal less the discount, plus the tax unless prices include it. This holds for every tax
-- setting, however the float rounds.
pub invoice_totals_add_up :
    (f : Float) (settings : Settings) (subtotal taxed_sum requested : ℤ)
    → pos 0 ≤ℤ subtotal
    → pos 0 ≤ℤ requested
    → let t = invoice_totals f settings subtotal taxed_sum requested in
      (pos 0 ≤ℤ t.discount)
      × (t.discount ≤ℤ subtotal)
      × (t.total ≡ add64 (sub64 subtotal t.discount) (tax_on_top settings t))
unfolding invoice_totals
invoice_totals_add_up f settings subtotal taxed_sum requested h k =
    let bounds = clamp_to_bounds subtotal requested h k in
    let net = sub64 subtotal (clamp_to subtotal requested) in
    let whole : add64 net (pos 0) ≡ net =
      add64-zero net (sub64-Int64 subtotal (clamp_to subtotal requested)) in
    elim (Bool-cases
      (settings.tax_enabled && ltb_ℤ (pos 0) taxed_sum && ltb_ℤ (pos 0) settings.tax_rate)) [
        | inl taxed ↦ elim (Bool-cases settings.tax_inclusive) [
          | inl inside ↦ rw (taxed, inside) (bounds.0, bounds.1, sym whole)
          | inr on_top ↦ rw (taxed, on_top) (bounds.0, bounds.1, refl)
        ]
        | inr plain ↦ elim (Bool-cases settings.tax_inclusive) [
          | inl inside ↦ rw (plain, inside) (bounds.0, bounds.1, sym whole)
          | inr on_top ↦ rw (plain, on_top) (bounds.0, bounds.1, sym whole)
        ]
      ]
