-- ===== src/Billing/Nightly.antt =====
-- The scheduled jobs of billing (backend/internal/modules/billing/service.go) in any order.
use whcms.Base.{ℕ, Bool, Option, List, [], ◌∷◌}
use whcms.Base.Text.{Text}
use whcms.Base.Int.{ℤ}
use whcms.Base.Float.{Float}
use whcms.Base.Action.{Action, Code, ◌>>◌, pure}
use whcms.Base.Keeps.{Keeps, keeps_rules, pure-Keeps, then-Keeps, if-Keeps}
use whcms.Base.Each.{count_each-Keeps}
use whcms.Domain.Calendar.{Time}
use whcms.Domain.Enums.{InvoiceStatus}
use whcms.Store.Tables.{Db, Invoice, InvoiceItem}
use whcms.Store.Invoices.{get_items, list_due_for_status}
use whcms.Store.Keyed.{
  IsKeyed, update_status-IsKeyed, update_invoice-IsKeyed, add_item-IsKeyed, insert_invoice-IsKeyed,
  next_number-IsKeyed, get_invoice-IsKeyed,
}
use whcms.Billing.Create.{Settings, store_invoice}
use whcms.Billing.Cancel.{move_invoice}
use whcms.Billing.CreateKeeps.{generate_renewal_invoices-Keeps}
use whcms.Billing.Renewals.{generate_renewal_invoices}
use whcms.Billing.Overdue.{
  mark_one, mark_overdue, charge_fee, charge_if_overdue, late_fee_one, apply_late_fees,
}

-- A job with the settings, the time and the day on which it runs.
pub data BillingJob : Type 0 where
  renewals : Settings → Time → ℕ → BillingJob
  overdue_marks : ℕ → BillingJob
  late_fees : Bool → ℤ → ℕ → BillingJob

move_invoice-IsKeyed : (from to : InvoiceStatus) → Keeps IsKeyed (move_invoice from to)
unfolding move_invoice
move_invoice-IsKeyed from to = record { at = λ db v. v }

mark_one-IsKeyed : (inv : Invoice) → Keeps IsKeyed (mark_one inv)
unfolding mark_one
mark_one-IsKeyed inv = search (keeps_rules, move_invoice-IsKeyed, update_status-IsKeyed)

charge_fee-IsKeyed : (fee : ℤ) (inv : Invoice) → Keeps IsKeyed (charge_fee fee inv)
unfolding charge_fee
charge_fee-IsKeyed fee inv = search (keeps_rules, add_item-IsKeyed, update_invoice-IsKeyed)

late_fee_one-IsKeyed : (fee : ℤ) (inv : Invoice) → Keeps IsKeyed (late_fee_one fee inv)
unfolding late_fee_one charge_if_overdue get_items
late_fee_one-IsKeyed fee inv =
    search (keeps_rules, if-Keeps, get_invoice-IsKeyed, charge_fee-IsKeyed) depth 20

store_invoice-IsKeyed :
    (f : Float) (now : Time) (inv : Invoice) (items : List InvoiceItem)
    → Keeps IsKeyed (store_invoice f now inv items)
unfolding store_invoice
store_invoice-IsKeyed f now inv items =
    search (keeps_rules, next_number-IsKeyed, insert_invoice-IsKeyed)

module _ (f : Float) (decode : Text → Option Bool) where
  unfoldable pub run_job : BillingJob → Action Db (ℕ × List Code)
  run_job (BillingJob.renewals settings now lead) =
      generate_renewal_invoices f settings now decode lead
  run_job (BillingJob.overdue_marks today) = mark_overdue today
  run_job (BillingJob.late_fees enabled fee today) = apply_late_fees enabled fee today

  unfoldable pub run_jobs : List BillingJob → Action Db (Unit {0})
  run_jobs [] = pure tt
  run_jobs (j ∷ rest) = run_job j >> run_jobs rest

  run_job-IsKeyed : (j : BillingJob) → Keeps IsKeyed (run_job j)
  unfolding run_job mark_overdue apply_late_fees list_due_for_status
  run_job-IsKeyed (BillingJob.renewals settings now lead) =
      generate_renewal_invoices-Keeps f settings now decode (store_invoice-IsKeyed f now) lead
  run_job-IsKeyed (BillingJob.overdue_marks today) =
      search (keeps_rules, count_each-Keeps, mark_one-IsKeyed)
  run_job-IsKeyed (BillingJob.late_fees enabled fee today) =
      search (keeps_rules, if-Keeps, count_each-Keeps, late_fee_one-IsKeyed)

  -- Whatever jobs run in whatever order, every invoice stands under its own id, which was drawn from
  -- the sequence: no new invoice takes the place of an old one.
  pub run_jobs-IsKeyed : (jobs : List BillingJob) → Keeps IsKeyed (run_jobs jobs)
  unfolding run_jobs
  run_jobs-IsKeyed [] = pure-Keeps tt
  run_jobs-IsKeyed (j ∷ rest) = then-Keeps _ _ (run_job-IsKeyed j) (run_jobs-IsKeyed rest)
