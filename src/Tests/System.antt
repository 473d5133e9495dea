-- ===== src/Tests/System.antt =====
-- Runs of the payment with the handlers of the other modules.
use whcms.Base.{false, refl, true, ◌≡◌}
use whcms.Base.Action.{
  gets, modify, ok, or_raise, pure, raise, raise_if, rollback, within_tx, ◌>>=◌, ◌>>◌,
}
use whcms.Base.Int.{pos, quot, ◌*ℤ◌, ◌+ℤ◌, ◌-ℤ◌}
use whcms.Base.Keeps.{Keeps}
use whcms.Base.Word.{add64, div64, mul64, sub64, wrap64}
use whcms.Billing.Discount.{half_up_percent, recurring_with_coupon}
use whcms.Billing.Paid.{activate_once, call_on, dispatch_item, dispatch_items, process_paid}
use whcms.Domain.Calendar.{days_in, is_leap}
use whcms.Domain.Cycle.{add_cycle, add_months_clamped, cycle_months}
use whcms.Domain.Enums.{
  InvoiceStatus, InvoiceStatus-discrete, OrderItemType-discrete, OrderStatus-discrete,
  ServiceStatus-discrete, SnipeStatus-discrete, TransactionStatus-discrete,
}
use whcms.Domain.StateMachine.{
  allowed_in, can_transition, invoice_can_transition, invoice_transitions, order_can_transition,
  order_transitions, transition_invoice, transition_order,
}
use whcms.Orders.Activate.{
  activate_domain_item, activate_in_tx, activate_item, activate_items, activate_order,
  activate_pending, activate_product_item, item_options, make_password, move_order, per_year,
  put_setup, service_row, the_nameservers, the_registrar,
}
use whcms.Payments.Apply.{
  apply_in_tx, apply_payment, check_transition, find_existing, record_success, settle,
  upsert_transaction,
}
use whcms.Provisioning.Renewal.{
  apply_decoded, apply_upgrade, cycle_years, put_on_queue, renew_domain_after_payment,
  renew_service,
}
use whcms.Snipe.Lifecycle.{activate_snipe_after_payment, give_back, refund_late_payment}
use whcms.Store.Credit.{add_credit, adjust_credit, apply_credit, apply_delta, fits}
use whcms.Store.Invoices.{get_invoice, get_items, update_status}
use whcms.Store.Ledger.{IsBalanced}
use whcms.Store.Orders.{
  get_order, get_order_items, insert_domain, insert_service, order_id_for_order_item,
  update_item_back_refs, update_order_status,
}
use whcms.Store.Services.{get_domain, get_service, update_service}
use whcms.Store.Snipes.{activate_snipe, add_event, get_snipe, record_refund, update_snipe_if}
use whcms.Store.Tables.{Db}
use whcms.Store.Transactions.{create_transaction, get_by_merchant_order_id, update_transaction}
use whcms.System.Balanced.{whole_payment-IsBalanced}
use whcms.System.Handlers.{bound_handlers}
use whcms.System.Settled.{whole_payment_again}
use whcms.Tests.Sample.{hunt, noon, transfer}
use whcms.Tests.Shop.{busy_shop, surroundings}

abbrev renewing : Db
renewing = busy_shop InvoiceStatus.unpaid hunt

renewal_paid :
    (apply_payment (bound_handlers surroundings) noon false 1 (transfer (pos 100)) renewing).0
    ≡ ok tt
unfolding gets modify or_raise pure raise raise_if rollback within_tx quot ◌*ℤ◌ ◌+ℤ◌ ◌-ℤ◌ add64
    div64 mul64 sub64 wrap64 half_up_percent recurring_with_coupon activate_once call_on
    dispatch_item dispatch_items process_paid days_in is_leap add_cycle add_months_clamped
    cycle_months InvoiceStatus-discrete OrderItemType-discrete OrderStatus-discrete
    ServiceStatus-discrete SnipeStatus-discrete TransactionStatus-discrete allowed_in can_transition
    invoice_can_transition invoice_transitions order_can_transition order_transitions
    transition_invoice transition_order activate_domain_item activate_in_tx activate_item
    activate_items activate_order activate_pending activate_product_item item_options make_password
    move_order per_year put_setup service_row the_nameservers the_registrar apply_in_tx
    apply_payment check_transition find_existing record_success settle upsert_transaction
    apply_decoded apply_upgrade cycle_years put_on_queue renew_domain_after_payment renew_service
    activate_snipe_after_payment give_back refund_late_payment add_credit adjust_credit apply_credit
    apply_delta fits get_invoice get_items update_status get_order get_order_items insert_domain
    insert_service order_id_for_order_item update_item_back_refs update_order_status get_domain
    get_service update_service activate_snipe add_event get_snipe record_refund update_snipe_if
    create_transaction get_by_merchant_order_id update_transaction bound_handlers ◌>>◌ ◌>>=◌
renewal_paid = refl

whole_payment_again_example :
    let after =
      (apply_payment (bound_handlers surroundings) noon false 1 (transfer (pos 100)) renewing).1 in
    apply_payment (bound_handlers surroundings) noon true 1 (transfer (pos 5)) after
    ≡ (ok tt, after)
whole_payment_again_example =
    whole_payment_again surroundings noon noon false true 1 (transfer (pos 100)) (transfer (pos 5))
      renewing renewal_paid

whole_payment-IsBalanced_example :
    Keeps IsBalanced (apply_payment (bound_handlers surroundings) noon false 1 (transfer (pos 100)))
whole_payment-IsBalanced_example =
    whole_payment-IsBalanced surroundings noon false 1 (transfer (pos 100))
