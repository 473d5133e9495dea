-- ===== src/Orders/Fraud.antt =====
-- Orders that the fraud checks stop (`CreateOrder` of backend/internal/modules/orders/service.go).
use whcms.Base.{ℕ, ◌≡◌, refl, true, false, Option, List, arith}
use whcms.Base.Text.{Text}
use whcms.Base.Float.{Float}
use whcms.Base.Action.{Action}
use whcms.Base.Keeps.{Keeps, keeps_rules, pure-Keeps, bind-Keeps, then-Keeps, within_tx-Keeps}
use whcms.Domain.Calendar.{Time}
use whcms.Domain.Enums.{OrderStatus, InvoiceStatus}
use whcms.Store.Tables.{Db, Order, OrderItem, Invoice, InvoiceItem}
use whcms.Store.Invoices.{next_number, insert_invoice, update_status}
use whcms.Store.Orders.{insert_order, update_order_status}
use whcms.Billing.Create.{Settings, CreateInvoiceInput, store_invoice}
use whcms.Billing.CreateKeeps.{create_invoice-Keeps}
use whcms.Billing.Cancel.{move_invoice}
use whcms.Billing.Paid.{Handlers}
use whcms.Orders.Close.{move_order}
use whcms.Orders.Create.{
  Checkout, take_stock, close_fraud, create_in_tx, after_commit, create_order,
}

-- The products, the coupons, the services and the domains are these, and so are the transactions.
pub record IsUntouched (before db : Db) : Type 0 where
  pub products : db.products ≡ before.products
  pub coupons : db.coupons ≡ before.coupons
  pub services : db.services ≡ before.services
  pub domains : db.domains ≡ before.domains
  pub transactions : db.transactions ≡ before.transactions

module _ (before : Db) where
  -- A step that leaves these tables alone.
  frame-IsUntouched :
      {A : Type 0} (m : Action Db A)
      → ((db : Db)
          → ((m db).1.products ≡ db.products)
            × ((m db).1.coupons ≡ db.coupons)
            × ((m db).1.services ≡ db.services)
            × ((m db).1.domains ≡ db.domains)
            × ((m db).1.transactions ≡ db.transactions))
      → Keeps (IsUntouched before) m
  frame-IsUntouched m e = record {
    at = λ db v.
        let (p, c, s, d, t) = e db in
        record {
          products = rw p v.products;
          coupons = rw c v.coupons;
          services = rw s v.services;
          domains = rw d v.domains;
          transactions = rw t v.transactions;
        };
  }

  next_number-IsUntouched : (scope : Text) → Keeps (IsUntouched before) (next_number scope)
  unfolding next_number
  next_number-IsUntouched scope =
      frame-IsUntouched (next_number scope) (λ db. (refl, refl, refl, refl, refl))

  insert_order-IsUntouched :
      (o : Order) (items : List OrderItem) → Keeps (IsUntouched before) (insert_order o items)
  unfolding insert_order
  insert_order-IsUntouched o items =
      frame-IsUntouched (insert_order o items) (λ db. (refl, refl, refl, refl, refl))

  insert_invoice-IsUntouched :
      (inv : Invoice) (items : List InvoiceItem)
      → Keeps (IsUntouched before) (insert_invoice inv items)
  unfolding insert_invoice
  insert_invoice-IsUntouched inv items =
      frame-IsUntouched (insert_invoice inv items) (λ db. (refl, refl, refl, refl, refl))

  store_invoice-IsUntouched :
      (f : Float) (now : Time) (inv : Invoice) (items : List InvoiceItem)
      → Keeps (IsUntouched before) (store_invoice f now inv items)
  unfolding store_invoice
  store_invoice-IsUntouched f now inv items =
      search (keeps_rules, next_number-IsUntouched, insert_invoice-IsUntouched)

  update_order_status-IsUntouched :
      (id : ℕ) (s : OrderStatus) → Keeps (IsUntouched before) (update_order_status id s)
  unfolding update_order_status
  update_order_status-IsUntouched id s =
      frame-IsUntouched (update_order_status id s)
        λ db. (ground arith, ground arith, ground arith, ground arith, ground arith)

  update_status-IsUntouched :
      (id : ℕ) (s : InvoiceStatus) (t : Option Time)
      → Keeps (IsUntouched before) (update_status id s t)
  unfolding update_status
  update_status-IsUntouched id s t =
      frame-IsUntouched (update_status id s t)
        λ db. (ground arith, ground arith, ground arith, ground arith, ground arith)

  move_order-IsUntouched : (from to : OrderStatus) → Keeps (IsUntouched before) (move_order from to)
  unfolding move_order
  move_order-IsUntouched from to = record { at = λ db v. v }

  move_invoice-IsUntouched :
      (from to : InvoiceStatus) → Keeps (IsUntouched before) (move_invoice from to)
  unfolding move_invoice
  move_invoice-IsUntouched from to = record { at = λ db v. v }

  close_fraud-IsUntouched :
      (o : Order) (inv : Invoice) → Keeps (IsUntouched before) (close_fraud o inv)
  unfolding close_fraud
  close_fraud-IsUntouched o inv =
      search
        (
          keeps_rules, move_order-IsUntouched, move_invoice-IsUntouched,
          update_order_status-IsUntouched, update_status-IsUntouched,
        )
        depth 20

  module _ (f : Float) (rate : f.Real) (settings : Settings) (now : Time) (h : Handlers) where
    create_in_tx-IsUntouched :
        (c : Checkout)
        → c.is_fraud ≡ true
        → Keeps (IsUntouched before) (create_in_tx f rate settings now c)
    unfolding create_in_tx take_stock
    create_in_tx-IsUntouched c fraud =
        let billed = λ (input : CreateInvoiceInput).
          create_invoice-Keeps f settings now true input (store_invoice-IsUntouched f now) in
        rw fraud (
          search
            (
              keeps_rules, next_number-IsUntouched, insert_order-IsUntouched, billed,
              close_fraud-IsUntouched,
            )
            depth 20)

    after_commit-IsUntouched :
        (c : Checkout) (o : Order) (inv : Invoice)
        → c.is_fraud ≡ true
        → Keeps (IsUntouched before) (after_commit f rate settings now h c o inv)
    unfolding after_commit
    after_commit-IsUntouched c o inv fraud = rw fraud (pure-Keeps tt)

-- An order that the fraud checks stop takes no stock and uses no coupon, activates no service and no
-- domain and records no payment, whatever the handlers would do.
pub create_order-IsUntouched :
    (f : Float) (rate : f.Real) (settings : Settings) (now : Time) (h : Handlers) (c : Checkout)
    (db : Db)
    → c.is_fraud ≡ true
    → IsUntouched db (create_order f rate settings now h c db).1
unfolding create_order
create_order-IsUntouched f rate settings now h c db fraud =
    let made = create_in_tx-IsUntouched db f rate settings now h c fraud in
    let later = λ (o : Order) (inv : Invoice).
      after_commit-IsUntouched db f rate settings now h c o inv fraud in
    let kept : Keeps (IsUntouched db) (create_order f rate settings now h c) =
      bind-Keeps _ _ (within_tx-Keeps false _ (λ b. made))
        λ m. then-Keeps _ _ (later m.0 m.1) (pure-Keeps m) in
    kept.at db (record {
      products = refl;
      coupons = refl;
      services = refl;
      domains = refl;
      transactions = refl;
    })
