-- ===== src/Orders/Create.antt =====
-- The second half of `CreateOrder` of backend/internal/modules/orders/service.go: the totals, the
-- transaction that writes the order with its invoice, and what follows the commit. The checks on the
-- request, the pricing of the items and the fraud settings come before it; their outcome is the input.
use whcms.Base.{ℕ, Bool, true, false, ◌&&◌, Option, none, some, List, [], ◌∷◌, map, if◌then◌else◌}
use whcms.Base.Text.{Text, bytes}
use whcms.Base.Int.{ℤ, pos, leb_ℤ}
use whcms.Base.Word.{add64, sub64}
use whcms.Base.Float.{Float}
use whcms.Base.Action.{Action, ◌>>=◌, ◌>>◌, pure, within_tx, attempt}
use whcms.Domain.Enums.{
  BillingCycle, OrderStatus, OrderItemType, InvoiceStatus, RelatedType, Gateway, AutoSetup,
}
use whcms.Domain.Calendar.{Time}
use whcms.Domain.Tax.{calc_tax}
use whcms.Domain.Numbers.{format_order_number, order_counter_scope}
use whcms.Store.Tables.{Db, Order, OrderItem, Invoice, Product}
use whcms.Store.Invoices.{next_number, update_status}
use whcms.Store.Orders.{insert_order, update_order_status, increment_usage}
use whcms.Billing.Create.{Settings, CreateInvoiceItem, create_invoice}
use whcms.Billing.Cancel.{move_invoice}
use whcms.Billing.Paid.{Handlers}
use whcms.Payments.Apply.{ApplyTx, apply_payment}
use whcms.Orders.Close.{move_order, take_all}

-- A priced item (`itemPlan`), as far as it is stored.
pub record Plan : Type 0 where
  pub item_type : OrderItemType
  pub product : Option (ℕ × Product)
  pub cycle : BillingCycle
  pub unit : ℤ
  pub setup : ℤ
  pub domain_name : Text
  pub options : Text

-- A checkout that has passed the checks.
pub record Checkout : Type 0 where
  pub client_id : ℕ
  pub plans : List Plan
  pub coupon : Option ℕ
  pub discount : ℤ
  pub is_fraud : Bool
  pub due_date : Time

unfoldable pub plans_subtotal : List Plan → ℤ → ℤ
plans_subtotal [] sum = sum
plans_subtotal (p ∷ rest) sum = plans_subtotal rest (add64 sum (add64 p.unit p.setup))

-- The tax and the total that the order records. `rate` is the tax rate as the order reads it, a float;
-- billing reads the same setting as an integer, `settings.tax_rate`.
unfoldable pub order_totals : (f : Float) → f.Real → Settings → ℤ → ℤ → ℤ × ℤ
order_totals f rate settings subtotal discount =
    let net = sub64 subtotal discount in
    let r = calc_tax f net rate settings.tax_inclusive in
    if settings.tax_enabled then (r.tax, r.gross) else (pos 0, net)

abbrev item_of : Plan → OrderItem
item_of p = record {
  id = 0;
  order_id = 0;
  item_type = p.item_type;
  product_id = elim p.product [ none ↦ none | some x ↦ some x.0 ];
  domain = p.domain_name;
  options = p.options;
  cycle = p.cycle;
  unit_price = p.unit;
  setup_fee = p.setup;
  service_id = none;
  domain_id = none;
}

abbrev stocked : Option (ℕ × Product) → List ℕ → List ℕ
stocked none ids = ids
stocked (some (id, p)) ids = if p.stock_enabled then id ∷ ids else ids

-- The products whose stock is taken.
abbrev pub taken_products : List Plan → List ℕ
taken_products [] = []
taken_products (p ∷ rest) = stocked p.product (taken_products rest)

abbrev invoice_line : OrderItem → CreateInvoiceItem
invoice_line it = record {
  amount = add64 it.unit_price it.setup_fee;
  taxed = true;
  related_type = RelatedType.order_item;
  related_id = it.id;
}

unfoldable pub use_coupon : Option ℕ → Action Db (Unit {0})
use_coupon none = pure tt
use_coupon (some id) = increment_usage id

-- Nothing is taken for an order that is a fraud.
unfoldable pub take_stock : Checkout → Action Db (Unit {0})
take_stock c =
    if c.is_fraud then pure tt else take_all (taken_products c.plans) >> use_coupon c.coupon

unfoldable pub close_fraud : Order → Invoice → Action Db (Order × Invoice)
close_fraud order invoice = do
  status ← move_order order.status OrderStatus.fraud
  update_order_status order.id status
  cancelled ← move_invoice invoice.status InvoiceStatus.cancelled
  update_status invoice.id cancelled none
  pure (record order { status = status }, record invoice { status = cancelled })

-- `allAutoSetupOnOrder`
abbrev sets_up_on_order : Plan → Bool
sets_up_on_order p = elim p.item_type [
  | OrderItemType.product ↦ elim p.product [
    | none ↦ false
    | some x ↦ elim x.1.auto_setup [ AutoSetup.on_order ↦ true | _ ↦ false ]
  ]
  | _ ↦ false
]

abbrev all_on_order : List Plan → Bool
all_on_order [] = true
all_on_order (p ∷ rest) = sets_up_on_order p && all_on_order rest

unfoldable pub all_auto_setup_on_order : List Plan → Bool
all_auto_setup_on_order [] = false
all_auto_setup_on_order (p ∷ rest) = all_on_order (p ∷ rest)

abbrev nothing_to_pay : Time → ApplyTx
nothing_to_pay now = record {
  gateway = Gateway.credit;
  method_code = bytes "credit";
  merchant_order_id = [];
  gateway_reference = [];
  amount = pos 0;
  fee = pos 0;
  raw = [];
  paid_at = some now;
}

module _ (f : Float) (rate : f.Real) (settings : Settings) (now : Time) where
  unfoldable pub order_row : Checkout → Order
  order_row c =
      let subtotal = plans_subtotal c.plans (pos 0) in
      let t = order_totals f rate settings subtotal c.discount in
      record {
        id = 0;
        number = [];
        client_id = c.client_id;
        status = OrderStatus.pending;
        subtotal = subtotal;
        discount = c.discount;
        tax_total = t.0;
        total = t.1;
        coupon_id = c.coupon;
      }

  unfoldable pub create_in_tx : Checkout → Action Db (Order × Invoice)
  create_in_tx c = do
    seq ← next_number (order_counter_scope now)
    stored ←
        insert_order (record (order_row c) { number = format_order_number now seq })
          (map item_of c.plans)
    take_stock c
    invoice ← create_invoice f settings now true (record {
      client_id = c.client_id;
      items = map invoice_line stored.1;
      discount = c.discount;
      due_date = some c.due_date;
    })
    if c.is_fraud then close_fraud stored.0 invoice else pure (stored.0, invoice)

  module _ (h : Handlers) where
    -- After the commit, errors are only recorded: an invoice over nothing is paid at once, and an order
    -- of products that are set up on order is activated.
    unfoldable pub after_commit : Checkout → Order → Invoice → Action Db (Unit {0})
    after_commit c order invoice =
        if c.is_fraud
        then pure tt
        else (if leb_ℤ invoice.total (pos 0)
            then attempt (apply_payment h now false invoice.id (nothing_to_pay now)) >> pure tt
            else (if all_auto_setup_on_order c.plans
                then attempt (h.activate_order order.id) >> pure tt
                else pure tt))

    unfoldable pub create_order : Checkout → Action Db (Order × Invoice)
    create_order c = do
      made ← within_tx false (λ _. create_in_tx c)
      after_commit c made.0 made.1
      pure made
