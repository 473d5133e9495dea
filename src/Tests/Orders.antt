-- ===== src/Tests/Orders.antt =====
-- Runs of the theorems about orders.
use whcms.Base.{[], arith, false, none, refl, some, true, ◌<◌, ◌∷◌, ◌≡◌, ◌≤◌}
use whcms.Base.Action.{gets, ok, or_raise, pure, raise, rollback, within_tx, ◌>>=◌, ◌>>◌}
use whcms.Base.Int.{pos, quot, ◌*ℤ◌, ◌+ℤ◌, ◌-ℤ◌}
use whcms.Base.Text.{bytes}
use whcms.Base.Word.{add64, div64, mul64, sub64, two63, wrap64}
use whcms.Billing.Discount.{half_up_percent, recurring_with_coupon}
use whcms.Domain.Calendar.{days_in, is_leap}
use whcms.Domain.Cycle.{add_cycle, add_months_clamped, cycle_months}
use whcms.Domain.Enums.{
  BillingCycle, InvoiceStatus, OrderItemType, OrderItemType-discrete, OrderStatus-discrete,
}
use whcms.Domain.StateMachine.{
  allowed_in, can_transition, order_can_transition, order_transitions, transition_order,
}
use whcms.Orders.Activate.{
  activate_domain_item, activate_in_tx, activate_item, activate_items, activate_order,
  activate_pending, activate_product_item, item_options, make_password, move_order, per_year,
  put_setup, service_row, the_nameservers, the_registrar,
}
use whcms.Orders.ActivatedOnce.{activate_order_again}
use whcms.Orders.Close.{restore_all, take_all}
use whcms.Orders.Create.{Checkout, create_order}
use whcms.Orders.Fraud.{IsUntouched, create_order-IsUntouched}
use whcms.Orders.Names.{label_byte, labels, valid_domain_name, valid_label, valid_labels}
use whcms.Orders.Stock.{quantity, restore_all-take_all}
use whcms.Store.Orders.{
  decrement_stock, get_order, get_order_items, insert_domain, insert_service, update_item_back_refs,
  update_order_status,
}
use whcms.Store.Tables.{Db}
use whcms.Tests.Sample.{halves, handlers, hunt, noon}
use whcms.Tests.Shop.{busy_shop, ordering, plan, settings}

abbrev ordered_shop : Db
ordered_shop = busy_shop InvoiceStatus.unpaid hunt

activated : (activate_order ordering false noon 1 ordered_shop).0 ≡ ok tt
unfolding gets or_raise pure raise rollback within_tx quot ◌*ℤ◌ ◌+ℤ◌ ◌-ℤ◌ add64 div64 mul64 sub64
    wrap64 half_up_percent recurring_with_coupon days_in is_leap add_cycle add_months_clamped
    cycle_months OrderItemType-discrete OrderStatus-discrete allowed_in can_transition
    order_can_transition order_transitions transition_order activate_domain_item activate_in_tx
    activate_item activate_items activate_order activate_pending activate_product_item item_options
    make_password move_order per_year put_setup service_row the_nameservers the_registrar get_order
    get_order_items insert_domain insert_service update_item_back_refs update_order_status ◌>>◌
    ◌>>=◌
activated = refl

activate_order_again_example :
    let after = (activate_order ordering false noon 1 ordered_shop).1 in
    activate_order ordering true noon 1 after ≡ (ok tt, after)
activate_order_again_example =
    activate_order_again ordering false true noon noon 1 ordered_shop activated

two_taken : (take_all (4 ∷ 4 ∷ []) ordered_shop).0 ≡ ok tt
unfolding pure take_all decrement_stock ◌>>◌ ◌>>=◌
two_taken = refl

restore_all-take_all_example :
    quantity ((restore_all (4 ∷ 4 ∷ []) (take_all (4 ∷ 4 ∷ []) ordered_shop).1).1.products 4)
    ≡ quantity (some plan)
restore_all-take_all_example = restore_all-take_all (4 ∷ 4 ∷ []) 4 ordered_shop two_taken

in_range : 1000 < two63
in_range = omega arith

part : 100 ≤ 1000
part = omega arith

abbrev suspect : Checkout
suspect = record {
  client_id = 7;
  plans =
      record {
        item_type = OrderItemType.product;
        product = some (4, plan);
        cycle = BillingCycle.monthly;
        unit = pos 100;
        setup = pos 10;
        domain_name = bytes "a.id";
        options = [];
      }
      ∷ [];
  coupon = none;
  discount = pos 0;
  is_fraud = true;
  due_date = noon;
}

create_order-IsUntouched_example :
    IsUntouched ordered_shop
      (create_order halves (halves.of_int (pos 11)) settings noon handlers suspect ordered_shop).1
create_order-IsUntouched_example =
    create_order-IsUntouched halves (halves.of_int (pos 11)) settings noon handlers suspect
      ordered_shop refl

accepted : valid_domain_name (bytes "a-b.id") ≡ true
unfolding label_byte labels valid_domain_name valid_label valid_labels
accepted = refl
