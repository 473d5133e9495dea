-- ===== src/Payments/Ledger.antt =====
-- `ApplyPayment` of backend/internal/modules/payments/service.go: what it refuses, and what it keeps.
use whcms.Base.{
  ℕ, ◌≡◌, refl, ◌∙◌, Bool, true, false, not, ◌&&◌, Option, none, some, arith, inl, inr, Bool-cases,
  same, is_empty,
}
use whcms.Base.Int.{ltb_ℤ}
use whcms.Base.Text.{Text}
use whcms.Base.Word.{sub64}
use whcms.Base.Action.{
  ok, err, Code, ◌>>=◌, ◌>>◌, pure, raise, bind_ok, bind_err, within_tx, within_tx_atomic,
  rollback_err,
}
use whcms.Base.Keeps.{
  Keeps, Result-cases, pure-Keeps, bind-Keeps, then-Keeps, raise-Keeps, raise_if-Keeps, keeps_rules,
}
use whcms.Domain.Enums.{InvoiceStatus, TransactionStatus, TransactionStatus-discrete}
use whcms.Domain.Calendar.{Time}
use whcms.Domain.StateMachine.{transition_invoice, invoice_can_transition}
use whcms.Store.Tables.{Db, Invoice, Transaction}
use whcms.Store.Invoices.{get_invoice, get_invoice_found, get_items, update_status}
use whcms.Store.Transactions.{get_by_merchant_order_id, create_transaction, update_transaction}
use whcms.Store.Ledger.{IsBalanced, frame-Keeps, add_credit-IsBalanced}
use whcms.Billing.Paid.{Handlers}
use whcms.Billing.Dispatch.{HandlersKeep, process_paid-Keeps}
use whcms.Payments.Apply.{
  ApplyTx, is_settled, settle, check_transition, apply_in_tx, apply_payment, upsert_transaction,
  record_success, find_existing,
}

-- What happens to an amount that does not cover the invoice.
settle_short :
    (h : Handlers) (now : Time) (id : ℕ) (tx : ApplyTx) (inv : Invoice) (db : Db)
    → ltb_ℤ tx.amount (sub64 inv.total inv.credit_applied) ≡ true
    → settle h now id tx inv db ≡ (err Code.conflict, db)
unfolding settle ◌>>◌
settle_short h now id tx inv db e = rw e refl

-- A payment that fails leaves every table as it was.
pub apply_payment_atomic :
    (h : Handlers) (now : Time) (id : ℕ) (tx : ApplyTx) (db : Db) (e : Code)
    → (apply_payment h now false id tx db).0 ≡ err e
    → (apply_payment h now false id tx db).1 ≡ db
unfolding apply_payment
apply_payment_atomic h now id tx db e = within_tx_atomic (λ _. apply_in_tx h now id tx) db e

pub check_transition_ok :
    (h : Handlers) (now : Time) (s : InvoiceStatus) (db : Db)
    → invoice_can_transition s InvoiceStatus.paid ≡ true
    → check_transition h now s db ≡ (ok tt, db)
unfolding check_transition transition_invoice pure
check_transition_ok h now s db e = rw (e, check_transition) refl

check_transition_no :
    (h : Handlers) (now : Time) (s : InvoiceStatus) (db : Db)
    → invoice_can_transition s InvoiceStatus.paid ≡ false
    → check_transition h now s db ≡ (err Code.conflict, db)
unfolding check_transition transition_invoice raise
check_transition_no h now s db e = rw (e, check_transition) refl

apply_in_tx_refused :
    (h : Handlers) (now : Time) (id : ℕ) (tx : ApplyTx) (db : Db) (inv : Invoice)
    → db.invoices id ≡ some inv
    → is_settled inv.status ≡ false
    → invoice_can_transition inv.status InvoiceStatus.paid
        && not (ltb_ℤ tx.amount (sub64 inv.total inv.credit_applied))
      ≡ false
    → apply_in_tx h now id tx db ≡ (err Code.conflict, db)
unfolding apply_in_tx ◌>>◌
apply_in_tx_refused h now id tx db inv found unsettled refusal =
    rw (bind_ok (get_invoice id) _ db inv db (get_invoice_found id db inv found), unsettled)
      (elim (Bool-cases (invoice_can_transition inv.status InvoiceStatus.paid)) [
        | inr e ↦
            bind_err (check_transition h now inv.status) (λ _. settle h now id tx inv) db
              Code.conflict db (check_transition_no h now inv.status db e)
        | inl e ↦
            bind_ok (check_transition h now inv.status) (λ _. settle h now id tx inv) db tt db
              (check_transition_ok h now inv.status db e)
            ∙ settle_short h now id tx inv db (ground arith)
      ])

-- A payment is refused as a conflict, and nothing changes, when the invoice is neither paid nor
-- refunded and its status cannot become paid or the amount does not cover what remains.
pub apply_payment_refused :
    (h : Handlers) (now : Time) (in_tx : Bool) (id : ℕ) (tx : ApplyTx) (db : Db) (inv : Invoice)
    → db.invoices id ≡ some inv
    → is_settled inv.status ≡ false
    → invoice_can_transition inv.status InvoiceStatus.paid
        && not (ltb_ℤ tx.amount (sub64 inv.total inv.credit_applied))
      ≡ false
    → apply_payment h now in_tx id tx db ≡ (err Code.conflict, db)
unfolding apply_payment within_tx
apply_payment_refused h now in_tx id tx db inv found unsettled refusal =
    let refused = apply_in_tx_refused h now id tx db inv found unsettled refusal in
    elim (Bool-cases in_tx) [
      | inl e ↦ rw e refused
      | inr e ↦ rw e (rollback_err (apply_in_tx h now id tx) db Code.conflict db refused)
    ]

pub update_status-IsBalanced :
    (id : ℕ) (s : InvoiceStatus) (t : Option Time) → Keeps IsBalanced (update_status id s t)
unfolding update_status
update_status-IsBalanced id s t = frame-Keeps (update_status id s t) (λ db. ground arith)

create_transaction-IsBalanced : (t : Transaction) → Keeps IsBalanced (create_transaction t)
unfolding create_transaction
create_transaction-IsBalanced t = frame-Keeps (create_transaction t) (λ db. ground arith)

pub update_transaction-IsBalanced : (t : Transaction) → Keeps IsBalanced (update_transaction t)
unfolding update_transaction
update_transaction-IsBalanced t = frame-Keeps (update_transaction t) (λ db. ground arith)

pub get_invoice-IsBalanced : (id : ℕ) → Keeps IsBalanced (get_invoice id)
unfolding get_invoice
get_invoice-IsBalanced id = search keeps_rules

pub get_items-IsBalanced : (id : ℕ) → Keeps IsBalanced (get_items id)
unfolding get_items
get_items-IsBalanced id = search keeps_rules

find_existing-IsBalanced : (mo : Text) → Keeps IsBalanced (find_existing mo)
unfolding find_existing get_by_merchant_order_id ◌>>=◌
find_existing-IsBalanced mo = frame-Keeps (find_existing mo) (λ db. ground arith)

module _ (h : Handlers) (now : Time) (k : HandlersKeep IsBalanced h) where
  record_success-IsBalanced :
      (id : ℕ) (tx : ApplyTx) (raw : Text) (t : Time) (o : Option Transaction)
      → Keeps IsBalanced (record_success id tx raw t o)
  unfolding record_success
  record_success-IsBalanced id tx raw t none = create_transaction-IsBalanced _
  record_success-IsBalanced id tx raw t (some row) =
      then-Keeps _ _ (raise_if-Keeps _ Code.conflict)
        (elim (Bool-cases (same TransactionStatus-discrete row.status TransactionStatus.success)) [
          | inl e ↦ rw e (pure-Keeps tt)
          | inr e ↦ rw e (update_transaction-IsBalanced _)
        ])

  upsert_transaction-IsBalanced :
      (id : ℕ) (tx : ApplyTx) (raw : Text) (t : Time)
      → Keeps IsBalanced (upsert_transaction id tx raw t)
  unfolding upsert_transaction
  upsert_transaction-IsBalanced id tx raw t = elim (Bool-cases (is_empty tx.merchant_order_id)) [
    | inl e ↦ rw e (search (keeps_rules, record_success-IsBalanced))
    | inr e ↦ rw e (search (keeps_rules, record_success-IsBalanced, find_existing-IsBalanced))
  ]

  check_transition-IsBalanced : (s : InvoiceStatus) → Keeps IsBalanced (check_transition h now s)
  unfolding check_transition
  check_transition-IsBalanced s = elim (Result-cases (transition_invoice s InvoiceStatus.paid)) [
    | inl (a, e) ↦ rw (e, check_transition) (pure-Keeps tt)
    | inr (c, e) ↦ rw (e, check_transition) (raise-Keeps c)
  ]

  settle-IsBalanced :
      (id : ℕ) (tx : ApplyTx) (inv : Invoice) → Keeps IsBalanced (settle h now id tx inv)
  unfolding settle
  settle-IsBalanced id tx inv =
      let dispatched = process_paid-Keeps h k (add_credit-IsBalanced true) in
      search (keeps_rules, upsert_transaction-IsBalanced, update_status-IsBalanced, dispatched)

  apply_in_tx-IsBalanced : (id : ℕ) (tx : ApplyTx) → Keeps IsBalanced (apply_in_tx h now id tx)
  unfolding apply_in_tx
  apply_in_tx-IsBalanced id tx = bind-Keeps (get_invoice id) _ (get_invoice-IsBalanced id) λ inv.
      elim (Bool-cases (is_settled inv.status)) [
        | inl e ↦ rw e (pure-Keeps tt)
        | inr e ↦ rw e (search (keeps_rules, check_transition-IsBalanced, settle-IsBalanced))
      ]

  -- A payment keeps every credit balance explained by its ledger and not negative, if the handlers
  -- do, whether the payment is applied, refused or fails halfway.
  pub apply_payment-IsBalanced :
      (in_tx : Bool) (id : ℕ) (tx : ApplyTx) → Keeps IsBalanced (apply_payment h now in_tx id tx)
  unfolding apply_payment
  apply_payment-IsBalanced in_tx id tx = search (keeps_rules, apply_in_tx-IsBalanced)
