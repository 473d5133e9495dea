-- ===== src/Tests/Dispatch.antt =====
-- Runs of the theorems about the dispatch of a paid invoice.
use whcms.Base.{ℕ, ◌==◌, if◌then◌else◌, ◌≤◌, ◌≡◌, refl, some, List, [], ◌∷◌, false}
use whcms.Base.Int.{pos}
use whcms.Domain.Enums.{InvoiceStatus, RelatedType}
use whcms.Store.Tables.{Db, InvoiceItem}
use whcms.Billing.Paid.{dispatch_items}
use whcms.Billing.Plan.{Call, plan, run_all, with_orders, dispatch_items-plan}
use whcms.Billing.Activations.{activations, dispatch_items-activates_once}
use whcms.Tests.Sample.{handlers, shop, bill}

abbrev order_item : ℕ → InvoiceItem
order_item id = record {
  invoice_id = 1;
  amount = pos 50;
  taxed = false;
  related_type = RelatedType.order_item;
  related_id = some id;
}

-- Two items of order 8 and one of order 9.
abbrev cart : List InvoiceItem
cart = order_item 3 ∷ order_item 4 ∷ order_item 5 ∷ []

abbrev order_of_item : ℕ → ℕ
order_of_item id = if id == 5 then 9 else 8

cart-plan : plan order_of_item cart [] ≡ Call.activate_order 8 ∷ Call.activate_order 9 ∷ []
cart-plan = refl

dispatch_items-plan_example :
    dispatch_items
      (with_orders order_of_item handlers)
      (bill InvoiceStatus.paid)
      cart
      []
      (shop InvoiceStatus.paid)
    ≡ run_all handlers
        (bill InvoiceStatus.paid)
        (plan order_of_item cart [])
        (shop InvoiceStatus.paid)
dispatch_items-plan_example =
    dispatch_items-plan order_of_item handlers (bill InvoiceStatus.paid) cart []
      (shop InvoiceStatus.paid)

dispatch_items-activates_once_example :
    (calls : List Call) × ((db : Db)
      → dispatch_items (with_orders order_of_item handlers) (bill InvoiceStatus.paid) cart [] db
        ≡ run_all handlers (bill InvoiceStatus.paid) calls db)
    × ((order : ℕ) → activations order calls ≤ 1)
dispatch_items-activates_once_example =
    dispatch_items-activates_once order_of_item handlers (bill InvoiceStatus.paid) cart
