-- ===== src/Tests/Hunts.antt =====
-- Runs of the theorems about invoice totals and domain hunts.
use whcms.Base.{◌+◌, ◌*◌, ◌≤◌, ◌<◌, ◌≡◌, ◌≢◌, refl, true, false, arith}
use whcms.Base.Int.{pos, ◌≤ℤ◌}
use whcms.Base.Word.{two63, add64, sub64}
use whcms.Domain.Enums.{SnipeStatus}
use whcms.Billing.Create.{Settings, invoice_totals}
use whcms.Billing.Totals.{invoice_totals_add_up, tax_on_top}
use whcms.Tests.Sample.{hunt}
use whcms.Snipe.Refunds.{refund_for, refund_for_bounds}
use whcms.Tests.Sample.{halves}

abbrev taxed_settings : Settings
taxed_settings = record {
  tax_enabled = true;
  tax_rate = pos 11;
  tax_inclusive = false;
  invoice_due_days = 3;
}

subtotal_nonneg : pos 0 ≤ℤ pos 1000
subtotal_nonneg = omega arith

discount_nonneg : pos 0 ≤ℤ pos 100
discount_nonneg = omega arith

invoice_totals_add_up_example :
    let t = invoice_totals halves taxed_settings (pos 1000) (pos 1000) (pos 100) in
    (pos 0 ≤ℤ t.discount)
    × (t.discount ≤ℤ pos 1000)
    × (t.total ≡ add64 (sub64 (pos 1000) t.discount) (tax_on_top taxed_settings t))
invoice_totals_add_up_example =
    invoice_totals_add_up halves taxed_settings (pos 1000) (pos 1000) (pos 100) subtotal_nonneg
      discount_nonneg

subtotal_in_range : 250 < two63
subtotal_in_range = omega arith

fee_is_part : 50 ≤ 250
fee_is_part = omega arith

product_fits : 278 * 50 < two63
product_fits = omega arith

total_fits : 278 < two63
total_fits = omega arith

parts_fit : 223 + 55 < two63
parts_fit = omega arith

refund_for_bounds_example :
    let r = refund_for hunt SnipeStatus.failed false in
    (pos 0 ≤ℤ r)
    × (r ≤ℤ pos (223 + 55))
    × (SnipeStatus.failed ≡ SnipeStatus.won → r ≡ pos 0)
    × (hunt.status ≢ SnipeStatus.active → r ≡ pos 0)
    × (hunt.status ≡ SnipeStatus.active
        → SnipeStatus.failed ≡ SnipeStatus.failed
        → r ≡ pos (223 + 55))
refund_for_bounds_example =
    refund_for_bounds hunt SnipeStatus.failed false 223 55 refl refl parts_fit
