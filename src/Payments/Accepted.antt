-- ===== src/Payments/Accepted.antt =====
-- `ApplyPayment` of backend/internal/modules/payments/service.go: what an accepted payment writes.
use whcms.Base.{
  ℕ, suc, ◌≡◌, refl, ◌∙◌, Bool, true, false, Option, none, some, List, [], ◌∷◌, ◌++◌, if◌then◌else◌,
  any, find, is_empty, Bool-cases, inl, inr, arith,
}
use whcms.Base.Text.{Text, bytes}
use whcms.Base.Int.{ltb_ℤ}
use whcms.Base.Word.{sub64}
use whcms.Base.Action.{ok, ◌>>=◌, ◌>>◌, pure, raise_if, bind_ok, within_tx}
use whcms.Domain.Enums.{InvoiceStatus, TransactionStatus, TransactionStatus-discrete}
use whcms.Domain.Calendar.{Time}
use whcms.Domain.StateMachine.{invoice_can_transition}
use whcms.Store.Tables.{Db, Invoice, Transaction, put}
use whcms.Store.Invoices.{get_invoice, get_invoice_found, update_status}
use whcms.Store.Transactions.{
  is_success_of, get_by_merchant_order_id, create_transaction, has_order_id, taken,
}
use whcms.Billing.Paid.{Handlers, process_paid}
use whcms.Payments.Apply.{
  ApplyTx, is_settled, paid_time, new_row, find_existing, record_success, upsert_transaction,
  settle, check_transition, apply_in_tx, apply_payment,
}
use whcms.Payments.Ledger.{check_transition_ok}

find-none :
    (p : Transaction → Bool) (rows : List Transaction) → any p rows ≡ false → find p rows ≡ none
find-none p [] h = refl
find-none p (t ∷ rows) h = ground (arith, find-none p rows)

find_existing-none :
    (mo : Text) (db : Db)
    → any (has_order_id mo) db.transactions ≡ false
    → find_existing mo db ≡ (ok none, db)
unfolding find_existing get_by_merchant_order_id ◌>>=◌
find_existing-none mo db h = rw (find-none (has_order_id mo) db.transactions h, find_existing) refl

-- The merchant order id that a new row carries.
abbrev pub order_id_of : ApplyTx → Option Text
order_id_of tx = if is_empty tx.merchant_order_id then none else some tx.merchant_order_id

abbrev stored_raw : ApplyTx → Text
stored_raw tx = if is_empty tx.raw then bytes "{}" else tx.raw

-- The store with the successful transaction added.
abbrev pub with_transaction : ℕ → ApplyTx → Time → Db → Db
with_transaction id tx now db = record db {
  transactions =
      db.transactions
      ++ (record {
        id = db.next_transaction;
        invoice_id = id;
        gateway = tx.gateway;
        method_code = tx.method_code;
        merchant_order_id = order_id_of tx;
        gateway_reference = tx.gateway_reference;
        amount = tx.amount;
        fee = tx.fee;
        status = TransactionStatus.success;
        raw = stored_raw tx;
        paid_at = some (paid_time tx.paid_at now);
      }
          ∷ []);
  next_transaction = suc db.next_transaction;
}

-- And with the invoice marked as paid.
abbrev pub with_paid_invoice : ℕ → ApplyTx → Time → Invoice → Db → Db
with_paid_invoice id tx now inv db = record db {
  invoices =
      put db.invoices id
        (record inv { status = InvoiceStatus.paid; paid_at = some (paid_time tx.paid_at now) });
}

existing_none :
    (tx : ApplyTx) (db : Db)
    → taken (order_id_of tx) db.transactions ≡ false
    → (if is_empty tx.merchant_order_id then pure none else find_existing tx.merchant_order_id) db
      ≡ (ok none, db)
unfolding pure
existing_none tx db h = elim (Bool-cases (is_empty tx.merchant_order_id)) [
  | inl e ↦ rw e refl
  | inr e ↦ rw e (find_existing-none tx.merchant_order_id db (rw e at h))
]

create_transaction-new :
    (id : ℕ) (tx : ApplyTx) (now : Time) (db : Db)
    → taken (order_id_of tx) db.transactions ≡ false
    → any (is_success_of id) db.transactions ≡ false
    → create_transaction (new_row id tx (stored_raw tx) (paid_time tx.paid_at now)) db
      ≡ (ok tt, with_transaction id tx now db)
unfolding create_transaction TransactionStatus-discrete
create_transaction-new id tx now db h unpaid = rw (h, unpaid, create_transaction) refl

upsert_transaction-new :
    (id : ℕ) (tx : ApplyTx) (now : Time) (db : Db)
    → taken (order_id_of tx) db.transactions ≡ false
    → any (is_success_of id) db.transactions ≡ false
    → upsert_transaction id tx (stored_raw tx) (paid_time tx.paid_at now) db
      ≡ (ok tt, with_transaction id tx now db)
unfolding upsert_transaction record_success
upsert_transaction-new id tx now db h unpaid =
    bind_ok
      (if is_empty tx.merchant_order_id then pure none else find_existing tx.merchant_order_id)
      (record_success id tx (stored_raw tx) (paid_time tx.paid_at now)) db none db
      (existing_none tx db h)
    ∙ create_transaction-new id tx now db h unpaid

update_status-found :
    (id : ℕ) (tx : ApplyTx) (now : Time) (inv : Invoice) (db : Db)
    → db.invoices id ≡ some inv
    → update_status id InvoiceStatus.paid (some (paid_time tx.paid_at now)) db
      ≡ (ok tt, with_paid_invoice id tx now inv db)
unfolding update_status
update_status-found id tx now inv db e = rw (e, update_status) refl

module _ (h : Handlers) (now : Time) where
  settle_accepted :
      (id : ℕ) (tx : ApplyTx) (inv : Invoice) (db : Db)
      → db.invoices id ≡ some inv
      → ltb_ℤ tx.amount (sub64 inv.total inv.credit_applied) ≡ false
      → taken (order_id_of tx) db.transactions ≡ false
      → any (is_success_of id) db.transactions ≡ false
      → settle h now id tx inv db
        ≡ process_paid h id (with_paid_invoice id tx now inv (with_transaction id tx now db))
  unfolding settle ◌>>◌ raise_if
  settle_accepted id tx inv db found covers fresh unpaid = rw covers (
      bind_ok (upsert_transaction id tx (stored_raw tx) (paid_time tx.paid_at now))
        (λ _.
          update_status id InvoiceStatus.paid (some (paid_time tx.paid_at now))
          >> process_paid h id)
        db tt (with_transaction id tx now db) (upsert_transaction-new id tx now db fresh unpaid)
      ∙ bind_ok (update_status id InvoiceStatus.paid (some (paid_time tx.paid_at now)))
          (λ _. process_paid h id) (with_transaction id tx now db) tt
          (with_paid_invoice id tx now inv (with_transaction id tx now db))
          (update_status-found id tx now inv (with_transaction id tx now db) found))

  -- A payment inside a transaction that covers what remains of an invoice that can be paid, whose
  -- merchant order id is new and whose invoice has no successful transaction yet, adds one successful
  -- transaction of the invoice with the payment's amount and references, marks the invoice paid at the
  -- payment's time, and hands this store to the dispatch of the invoice, whose outcome is its own.
  pub apply_payment_accepted :
      (id : ℕ) (tx : ApplyTx) (inv : Invoice) (db : Db)
      → db.invoices id ≡ some inv
      → is_settled inv.status ≡ false
      → invoice_can_transition inv.status InvoiceStatus.paid ≡ true
      → ltb_ℤ tx.amount (sub64 inv.total inv.credit_applied) ≡ false
      → taken (order_id_of tx) db.transactions ≡ false
      → any (is_success_of id) db.transactions ≡ false
      → apply_payment h now true id tx db
        ≡ process_paid h id (with_paid_invoice id tx now inv (with_transaction id tx now db))
  unfolding apply_payment within_tx apply_in_tx ◌>>◌
  apply_payment_accepted id tx inv db found unsettled open_for covers fresh unpaid =
      rw (bind_ok (get_invoice id) _ db inv db (get_invoice_found id db inv found), unsettled)
        (bind_ok (check_transition h now inv.status) (λ _. settle h now id tx inv) db tt db
            (check_transition_ok h now inv.status db open_for)
          ∙ settle_accepted id tx inv db found covers fresh unpaid)
