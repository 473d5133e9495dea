-- ===== src/Tests/Money.antt =====
-- Runs of the payment, credit and refund theorems on the sample store.
use whcms.Base.{◌≢◌, ◌≡◌, refl, true, false, none, ◌&&◌, not}
use whcms.Base.Text.{Text, bytes}
use whcms.Base.Int.{pos, negsuc, ltb_ℤ, ◌+ℤ◌}
use whcms.Base.Action.{ok, err, Code, ◌>>◌, within_tx}
use whcms.Base.Word.{sub64, neg64}
use whcms.Domain.Enums.{
  InvoiceStatus, InvoiceStatus-discrete, TransactionStatus-discrete, RelatedType-discrete,
}
use whcms.Domain.StateMachine.{transition_invoice, invoice_can_transition}
use whcms.Store.Tables.{Db, Invoice}
use whcms.Store.Invoices.{get_invoice, get_items, update_status}
use whcms.Store.Transactions.{taken, list_by_invoice, get_by_merchant_order_id, create_transaction}
use whcms.Store.Credit.{adjust_credit, add_credit, apply_delta, apply_credit, deduct_credit, fits}
use whcms.Store.Ledger.{Adjusts, adjust_credit-Adjusts}
use whcms.Billing.Paid.{process_paid, dispatch_items, dispatch_item, call_on}
use whcms.Billing.Cancel.{
  refund_invoice, refund_in_tx, move_invoice, refund_transactions, return_to_credit,
}
use whcms.Billing.RefundedOnce.{refund_invoice_again}
use whcms.Payments.Apply.{
  ApplyTx, is_settled, apply_payment, apply_in_tx, settle, check_transition, upsert_transaction,
  find_existing, record_success,
}
use whcms.Payments.Accepted.{
  apply_payment_accepted, order_id_of, with_transaction, with_paid_invoice,
}
use whcms.Payments.Idempotence.{IsSettled}
use whcms.Payments.Ledger.{apply_payment_refused}
use whcms.Payments.PayWithCredit.{
  pay_with_credit, pay_in_tx, deduct_remaining, pay_with_credit-IsSettled,
}
use whcms.Payments.Gateway.{handle_callback, status_of, StatusCode}
use whcms.Payments.Confirmed.{SameMoney, Unconfirmed, callback-Unconfirmed}
use whcms.Tests.Sample.{
  awaiting, noon, handlers, handlers-HandlersKeep, shop, bill, transfer, cancelling_gateway,
  callback,
}

unsettled : is_settled InvoiceStatus.unpaid ≡ false
unfolding InvoiceStatus-discrete
unsettled = refl

too_little :
    invoice_can_transition InvoiceStatus.unpaid InvoiceStatus.paid
      && not (ltb_ℤ (transfer (pos 99)).amount (sub64 (pos 100) (pos 0)))
    ≡ false
unfolding invoice_can_transition InvoiceStatus-discrete sub64
too_little = refl

apply_payment_refused_example :
    apply_payment handlers noon false 1 (transfer (pos 99)) (shop InvoiceStatus.unpaid)
    ≡ (err Code.conflict, shop InvoiceStatus.unpaid)
apply_payment_refused_example =
    apply_payment_refused handlers noon false 1 (transfer (pos 99)) (shop InvoiceStatus.unpaid)
      (bill InvoiceStatus.unpaid) refl unsettled too_little

credit_paid : (pay_with_credit handlers noon 1 (shop InvoiceStatus.unpaid)).0 ≡ ok (pos 100)
unfolding pay_with_credit pay_in_tx deduct_remaining deduct_credit apply_credit adjust_credit
    apply_delta fits apply_payment within_tx apply_in_tx ◌>>◌ get_invoice check_transition
    transition_invoice invoice_can_transition settle upsert_transaction find_existing
    get_by_merchant_order_id record_success create_transaction update_status process_paid get_items
    dispatch_items dispatch_item call_on InvoiceStatus-discrete TransactionStatus-discrete
    RelatedType-discrete sub64 neg64 ◌+ℤ◌
credit_paid = refl

pay_with_credit-IsSettled_example :
    IsSettled 1 (pay_with_credit handlers noon 1 (shop InvoiceStatus.unpaid)).1
pay_with_credit-IsSettled_example =
    pay_with_credit-IsSettled handlers noon 1 (shop InvoiceStatus.unpaid) (pos 100)
      (handlers-HandlersKeep (IsSettled 1)) credit_paid

adjust_credit-Adjusts_example :
    Adjusts 7
      (negsuc 99)
      none
      (shop InvoiceStatus.unpaid)
      (adjust_credit 7 (negsuc 99) none (shop InvoiceStatus.unpaid))
adjust_credit-Adjusts_example = adjust_credit-Adjusts 7 (negsuc 99) none (shop InvoiceStatus.unpaid)

abbrev refunded_bill : Invoice
refunded_bill = record (bill InvoiceStatus.paid) { status = InvoiceStatus.refunded }

refund_done : (refund_invoice true 1 (shop InvoiceStatus.paid)).0 ≡ ok refunded_bill
unfolding refund_invoice refund_in_tx within_tx ◌>>◌ get_invoice move_invoice transition_invoice
    invoice_can_transition InvoiceStatus-discrete get_items update_status list_by_invoice
    refund_transactions return_to_credit add_credit apply_credit adjust_credit apply_delta fits ◌+ℤ◌
    RelatedType-discrete
refund_done = refl

refund_invoice_again_example :
    let after = (refund_invoice true 1 (shop InvoiceStatus.paid)).1 in
    refund_invoice false 1 after ≡ (err Code.conflict, after)
refund_invoice_again_example =
    refund_invoice_again true false 1 (shop InvoiceStatus.paid) (bill InvoiceStatus.paid)
      refunded_bill refl refl refund_done

not_success : status_of (bytes "02") ≢ StatusCode.success
unfolding status_of
not_success e = cc

unconfirmed : (mo : Text) → Unconfirmed cancelling_gateway mo
unfolding Unconfirmed
unconfirmed mo st e s = not_success (cc (e, s))

callback-Unconfirmed_example :
    SameMoney awaiting (handle_callback handlers noon cancelling_gateway callback awaiting).1
callback-Unconfirmed_example =
    callback-Unconfirmed handlers noon cancelling_gateway callback awaiting
      (unconfirmed callback.merchant_order_id)

fresh_order :
    taken (order_id_of (transfer (pos 100))) (shop InvoiceStatus.unpaid).transactions ≡ false
fresh_order = refl

can_be_paid : invoice_can_transition InvoiceStatus.unpaid InvoiceStatus.paid ≡ true
unfolding invoice_can_transition InvoiceStatus-discrete
can_be_paid = refl

covered : ltb_ℤ (transfer (pos 100)).amount (sub64 (pos 100) (pos 0)) ≡ false
unfolding sub64
covered = refl

apply_payment_accepted_example :
    let db : Db = shop InvoiceStatus.unpaid in
    let tx : ApplyTx = transfer (pos 100) in
    apply_payment handlers noon true 1 tx db
    ≡ process_paid handlers 1
        (with_paid_invoice 1 tx noon (bill InvoiceStatus.unpaid) (with_transaction 1 tx noon db))
apply_payment_accepted_example =
    apply_payment_accepted handlers noon 1 (transfer (pos 100)) (bill InvoiceStatus.unpaid)
      (shop InvoiceStatus.unpaid) refl unsettled can_be_paid covered fresh_order refl
