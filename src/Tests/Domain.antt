-- ===== src/Tests/Domain.antt =====
-- Runs of the theorems about backend/internal/domain and the coupons.
use whcms.Base.{ℕ, ◌+◌, ◌*◌, ◌≤◌, ◌<◌, ◌≡◌, refl, min, true, false, none, some, [], ◌∷◌, arith}
use whcms.Base.Int.{pos, pos_part, neg_part}
use whcms.Base.Word.{sub64, add64}
use whcms.Base.Action.{ok}
use whcms.Domain.Enums.{InvoiceStatus, BillingCycle, CouponType, InvoiceStatus-discrete}
use whcms.Domain.StateMachine.{transition_invoice, invoice_can_transition}
use whcms.Domain.Lifecycle.{InvoiceRun, InvoiceRun-bounded}
use whcms.Domain.Calendar.{Time, IsDate, days_in, days_between}
use whcms.Domain.Cycle.{add_months_clamped, add_cycle, month_index, add_months_clamped_lem}
use whcms.Domain.Tax.{calc_tax, calc_tax_balances, Balanced}
use whcms.Domain.Money.{format_idr, format_idr_reads_back, digits_value, starts_negative}
use whcms.Store.Tables.{Coupon}
use whcms.Billing.Discount.{
  ItemPlan, coupon_discount, recurring_with_coupon, eligible_base, recurring_with_coupon_agrees,
}
use whcms.Tests.Sample.{halves, noon}

unpaid_to_paid : transition_invoice InvoiceStatus.unpaid InvoiceStatus.paid ≡ ok InvoiceStatus.paid
unfolding transition_invoice invoice_can_transition InvoiceStatus-discrete
unpaid_to_paid = refl

paid_to_refunded :
    transition_invoice InvoiceStatus.paid InvoiceStatus.refunded ≡ ok InvoiceStatus.refunded
unfolding transition_invoice invoice_can_transition InvoiceStatus-discrete
paid_to_refunded = refl

refunded_run : InvoiceRun InvoiceStatus.unpaid InvoiceStatus.refunded 2
refunded_run = InvoiceRun.then (InvoiceRun.then InvoiceRun.here unpaid_to_paid) paid_to_refunded

InvoiceRun-bounded_example : 2 ≤ 4
InvoiceRun-bounded_example = InvoiceRun-bounded refunded_run

noon-IsDate : IsDate noon
unfolding days_in
noon-IsDate = record {
  month_from_1 = omega arith;
  month_to_12 = omega arith;
  day_from_1 = omega arith;
  day_in_month = omega arith;
}

add_months_clamped_lem_example :
    let r = add_months_clamped noon 1 in
    (month_index r ≡ month_index noon + 1)
    × IsDate r
    × (r.day ≡ min 31 (days_in r.year r.month))
    × (r.clock ≡ 0)
add_months_clamped_lem_example = add_months_clamped_lem noon 1 noon-IsDate

in_range :
    (pos_part (pos 100) < 9_223_372_036_854_775_808)
    × (neg_part (pos 100) ≤ 9_223_372_036_854_775_808)
in_range = (omega arith, omega arith)

calc_tax_balances_example : Balanced halves (pos 100) false (calc_tax halves (pos 100) 22 false)
calc_tax_balances_example = calc_tax_balances halves (pos 100) 22 false in_range

abbrev march : Time
march = record { year = 2026; month = 3; day = 10; clock = 0 }

abbrev mid_march : Time
mid_march = record { year = 2026; month = 3; day = 20; clock = 0 }

hundred_small : 100 < 4_503_599_627_370_496
hundred_small = omega arith

cycle_small :
    100 * pos_part (days_between march (add_cycle march (some BillingCycle.monthly)))
    < 9_007_199_254_740_992
unfolding days_between add_cycle
cycle_small = omega arith

abbrev int64_max : ℕ
int64_max = 9_223_372_036_854_775_808

positive_in_range : pos_part (pos 1_500_000) < int64_max
positive_in_range = omega arith

no_negative_part : neg_part (pos 1_500_000) < int64_max
no_negative_part = omega arith

format_idr_reads_back_example :
    (digits_value (format_idr (pos 1_500_000)) ≡ 1_500_000)
    × (starts_negative (format_idr (pos 1_500_000)) ≡ false)
format_idr_reads_back_example =
    format_idr_reads_back (pos 1_500_000) positive_in_range no_negative_part

abbrev tenth : Coupon
tenth = record {
  type = CouponType.percentage;
  value = pos 10;
  recurring = true;
  active = true;
  expires_at = none;
  product_ids = [];
  max_uses = 0;
  used_count = 0;
}

abbrev hosting : ItemPlan
hosting = record { product = some 4; unit = pos 95 }

hosting_base : eligible_base tenth (hosting ∷ []) (pos 0) ≡ pos 95
unfolding eligible_base add64
hosting_base = refl

base_small : 95 < 9_000_000_000_000_000
base_small = omega arith

ten_percent : tenth.type ≡ CouponType.percentage → 10 ≤ 100
ten_percent e = omega arith

positive_price : 1 ≤ 95
positive_price = omega arith

price_in_range : 95 < int64_max
price_in_range = omega arith

recurring_with_coupon_agrees_example :
    recurring_with_coupon tenth (pos 95) ≡ sub64 (pos 95) (coupon_discount tenth (hosting ∷ []))
recurring_with_coupon_agrees_example =
    recurring_with_coupon_agrees tenth hosting 95 refl refl positive_price price_in_range
