-- ===== src/Orders/Close.antt =====
-- `setTerminalStatus`, which `Cancel` and `MarkFraud` call, of backend/internal/modules/orders/service.go,
-- and the loop over the stock in `CreateOrder`. The audit entries are left out.
use whcms.Base.{ℕ, false, Option, none, some, List, [], ◌∷◌, ◌==◌, if◌then◌else◌, same}
use whcms.Base.Action.{Action, ◌>>=◌, ◌>>◌, pure, gets, within_tx}
use whcms.Domain.Enums.{OrderStatus, OrderItemType, InvoiceStatus, OrderItemType-discrete}
use whcms.Domain.StateMachine.{transition_order, invoice_can_transition}
use whcms.Store.Tables.{Db, Order, OrderItem, Invoice}
use whcms.Store.Invoices.{update_status}
use whcms.Store.Orders.{
  get_order, get_order_items, update_order_status, invoice_id_for_order, restore_stock,
  decrement_stock,
}

unfoldable pub move_order : OrderStatus → OrderStatus → Action Db OrderStatus
move_order from to db = (transition_order from to, db)

unfoldable pub cancel_if_open : ℕ → Option Invoice → Action Db (Unit {0})
cancel_if_open invoice_id none = pure tt
cancel_if_open invoice_id (some inv) =
    if invoice_can_transition inv.status InvoiceStatus.cancelled
    then update_status invoice_id InvoiceStatus.cancelled none
    else pure tt

unfoldable pub cancel_invoice_of : ℕ → Action Db (Unit {0})
cancel_invoice_of invoice_id =
    if invoice_id == 0
    then pure tt
    else gets (λ db. db.invoices invoice_id) >>= λ found. cancel_if_open invoice_id found

-- The products that an item of an order took one piece of.
abbrev pub stocked_product : OrderItem → Option ℕ
stocked_product it =
    if same OrderItemType-discrete it.item_type OrderItemType.product then it.product_id else none

abbrev pub stocked_products : List OrderItem → List ℕ
stocked_products [] = []
stocked_products (it ∷ rest) =
    let more = stocked_products rest in
    elim (stocked_product it) [ none ↦ more | some id ↦ id ∷ more ]

unfoldable pub restore_all : List ℕ → Action Db (Unit {0})
restore_all [] = pure tt
restore_all (id ∷ rest) = restore_stock id >> restore_all rest

-- The loop of `CreateOrder`, over the products of its plans; a product without stock is passed over.
unfoldable pub take_all : List ℕ → Action Db (Unit {0})
take_all [] = pure tt
take_all (id ∷ rest) = decrement_stock id >> take_all rest

unfoldable pub close_in_tx : ℕ → OrderStatus → List OrderItem → Action Db (Unit {0})
close_in_tx id status items = do
  update_order_status id status
  invoice_id ← invoice_id_for_order id
  cancel_invoice_of invoice_id
  restore_all (stocked_products items)

unfoldable pub set_terminal_status : ℕ → OrderStatus → Action Db Order
set_terminal_status id to = do
  order ← get_order id
  next ← move_order order.status to
  items ← get_order_items id
  within_tx false (λ _. close_in_tx id next items)
  pure (record order { status = next })

unfoldable pub cancel : ℕ → Action Db Order
cancel id = set_terminal_status id OrderStatus.cancelled

unfoldable pub mark_fraud : ℕ → Action Db Order
mark_fraud id = set_terminal_status id OrderStatus.fraud
