-- ===== src/Tests/Jobs.antt =====
-- Runs of the theorems about the nightly billing jobs and about renewed services.
use whcms.Base.{arith, false, none, refl, some, true, ℕ, ◌<◌, ◌≡◌, ◌≢◌}
use whcms.Base.Action.{gets, ok, or_raise, pure, raise, raise_if, rollback, within_tx, ◌>>=◌, ◌>>◌}
use whcms.Base.Decimal.{decimal, pad}
use whcms.Base.Int.{pos, quot, ◌*ℤ◌, ◌+ℤ◌, ◌-ℤ◌}
use whcms.Base.Keeps.{Keeps}
use whcms.Base.Text.{bytes}
use whcms.Base.Word.{add64, div64, mul64, neg64, sub64, wrap64}
use whcms.Billing.Create.{create_invoice, invoice_totals, store_invoice, sum_items}
use whcms.Billing.Discount.{recurring_discount}
use whcms.Billing.FeeOnce.{IsChargedOnce, apply_late_fees-IsChargedOnce, fee_count}
use whcms.Billing.MarkedOverdue.{after_marking, mark_overdue_complete}
use whcms.Billing.Overdue.{apply_late_fees, mark_overdue}
use whcms.Billing.Renewals.{
  Renewal, SkipReason, generate_service_renewal_invoice, invoice_once,
  panel_meta_cancel_at_period_end, renew_service_due, service_renewal_in_tx,
}
use whcms.Billing.RenewedOnce.{generate_service_renewal_invoice_again}
use whcms.Domain.Calendar.{IsDate, after, day_number, days_in, is_leap}
use whcms.Domain.Cycle.{add_cycle, date_key}
use whcms.Domain.Enums.{
  BillingCycle, InvoiceStatus, InvoiceStatus-discrete, RelatedType-discrete, ServiceStatus-discrete,
}
use whcms.Domain.Numbers.{format_invoice_number, invoice_counter_scope, year_month}
use whcms.Domain.Tax.{calc_tax, round_half_up}
use whcms.Provisioning.Renewal.{apply_decoded, apply_upgrade, put_on_queue, renew_service}
use whcms.Provisioning.Renewed.{renew_service_later}
use whcms.Store.Invoices.{has_open_renewal_invoice, insert_invoice, next_number}
use whcms.Store.Keyed.{IsKeyed}
use whcms.Store.Services.{get_service, update_service}
use whcms.Store.Tables.{Db, Invoice}
use whcms.Tests.Sample.{bill, halves, hunt, noon, shop}
use whcms.Tests.Shop.{busy_shop, hosting, provisioning, settings}

abbrev rented : Db
rented = busy_shop InvoiceStatus.paid hunt

not_zero : hosting.id ≢ 0
not_zero = ground arith

abbrev renewal : Invoice
renewal = record {
  id = 2;
  number = bytes "INV-202601-000001";
  client_id = 7;
  status = InvoiceStatus.unpaid;
  subtotal = pos 100;
  discount = pos 0;
  tax_rate = pos 11;
  tax_total = pos 0;
  credit_applied = pos 0;
  total = pos 100;
  due_date = day_number noon;
  paid_at = none;
}

invoiced :
    (generate_service_renewal_invoice halves settings noon (λ t. none) 3 rented).0
    ≡ ok (Renewal.created renewal)
unfolding gets or_raise pure raise raise_if rollback within_tx decimal pad quot ◌*ℤ◌ ◌+ℤ◌ ◌-ℤ◌ add64
    div64 mul64 neg64 sub64 wrap64 create_invoice invoice_totals store_invoice sum_items
    recurring_discount generate_service_renewal_invoice invoice_once panel_meta_cancel_at_period_end
    renew_service_due service_renewal_in_tx after day_number InvoiceStatus-discrete
    RelatedType-discrete ServiceStatus-discrete format_invoice_number invoice_counter_scope
    year_month calc_tax round_half_up has_open_renewal_invoice insert_invoice next_number
    get_service ◌>>◌ ◌>>=◌
invoiced = refl

generate_service_renewal_invoice_again_example :
    let once = generate_service_renewal_invoice halves settings noon (λ t. none) 3 rented in
    generate_service_renewal_invoice halves settings noon (λ t. none) 3 once.1
    ≡ (ok (Renewal.skipped SkipReason.already_invoiced), once.1)
generate_service_renewal_invoice_again_example =
    generate_service_renewal_invoice_again halves settings noon (λ t. none) hosting rented renewal
      not_zero refl invoiced

shop-IsKeyed : (status : InvoiceStatus) → IsKeyed (shop status)
shop-IsKeyed status = record { row = λ k. ground arith }

mark_overdue_complete_example :
    (mark_overdue 740_009 (shop InvoiceStatus.unpaid)).1.invoices 1
    ≡ after_marking 740_009 (some (bill InvoiceStatus.unpaid))
mark_overdue_complete_example =
    mark_overdue_complete 740_009 1 (shop InvoiceStatus.unpaid) (shop-IsKeyed InvoiceStatus.unpaid)

apply_late_fees-IsChargedOnce_example : Keeps IsChargedOnce (apply_late_fees true (pos 5) 740_009)
apply_late_fees-IsChargedOnce_example = apply_late_fees-IsChargedOnce true (pos 5) 740_009

no_fee : fee_count 1 (shop InvoiceStatus.overdue).items ≡ 0
unfolding RelatedType-discrete
no_fee = refl

noon-IsDate : IsDate noon
unfolding days_in is_leap
noon-IsDate = record {
  month_from_1 = ground arith;
  month_to_12 = ground arith;
  day_from_1 = ground arith;
  day_in_month = ground arith;
}

not_once : BillingCycle.monthly ≢ BillingCycle.one_time
not_once = ground arith

renew_service_later_example :
    let next = add_cycle noon (some BillingCycle.monthly) in
    let after = (renew_service provisioning noon 3 rented).1 in
    (after.services 3 ≡ some (record hosting { next_due_date = some next }))
    × (date_key noon < date_key next)
    × ((j : ℕ) → j ≢ 3 → after.services j ≡ rented.services j)
renew_service_later_example =
    renew_service_later provisioning noon hosting rented refl noon-IsDate not_once

upgraded_once : (apply_upgrade provisioning false 3 rented).0 ≡ ok tt
unfolding gets or_raise pure raise rollback within_tx apply_decoded apply_upgrade put_on_queue
    get_service update_service ◌>>◌ ◌>>=◌
upgraded_once = refl
