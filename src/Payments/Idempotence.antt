-- ===== src/Payments/Idempotence.antt =====
-- `ApplyPayment` of backend/internal/modules/payments/service.go: a payment that arrives twice.
use whcms.Base.{
  ℕ, ◌≡◌, refl, Bool, true, false, Option, some, arith, inl, inr, Bool-cases, Option-cases, ==_refl,
}
use whcms.Base.Int.{ℤ}
use whcms.Base.Action.{ok, Code, pure, bind_ok, bind_err, within_tx, rollback_ok}
use whcms.Base.Keeps.{Keeps, within_tx-Keeps, keeps_rules}
use whcms.Base.Ensures.{Ensures, then_last-Ensures, then_first-Ensures, within_tx-Ensures}
use whcms.Domain.Enums.{InvoiceStatus, InvoiceStatus-discrete}
use whcms.Domain.Calendar.{Time}
use whcms.Store.Tables.{Db, Invoice}
use whcms.Store.Invoices.{get_invoice, get_invoice_found, get_invoice-cases, update_status}
use whcms.Store.Credit.{adjust_credit, apply_delta, apply_credit, add_credit}
use whcms.Billing.Paid.{Handlers}
use whcms.Billing.Dispatch.{HandlersKeep, process_paid-Keeps}
use whcms.Payments.Apply.{
  ApplyTx, paid_time, is_settled, settle, check_transition, apply_in_tx, apply_payment,
}

-- The invoice is there, paid or refunded.
pub record IsSettled (id : ℕ) (db : Db) : Type 0 where
  pub invoice : Invoice
  pub found : db.invoices id ≡ some invoice
  pub settled : is_settled invoice.status ≡ true

pub adjust_credit-invoices :
    (client : ℕ) (delta : ℤ) (invoice : Option ℕ) (db : Db)
    → (adjust_credit client delta invoice db).1.invoices ≡ db.invoices
unfolding adjust_credit apply_delta
adjust_credit-invoices client delta invoice db = ground arith

apply_credit-IsSettled :
    (id : ℕ) (in_tx : Bool) (client : ℕ) (delta : ℤ) (invoice : ℕ)
    → Keeps (IsSettled id) (apply_credit in_tx client delta invoice)
unfolding apply_credit
apply_credit-IsSettled id in_tx client delta invoice = within_tx-Keeps in_tx _ λ _. record {
  at = λ db v. record {
    invoice = v.invoice;
    found = rw (adjust_credit-invoices client delta _ db) v.found;
    settled = v.settled;
  };
}

-- A deposit leaves a settled invoice settled.
add_credit-IsSettled :
    (id : ℕ) (in_tx : Bool) (client : ℕ) (amount : ℤ) (invoice : ℕ)
    → Keeps (IsSettled id) (add_credit in_tx client amount invoice)
unfolding add_credit
add_credit-IsSettled id in_tx client amount invoice = search (keeps_rules, apply_credit-IsSettled)

update_status-IsSettled :
    (id : ℕ) (t : Time) → Ensures (IsSettled id) (update_status id InvoiceStatus.paid (some t))
unfolding update_status InvoiceStatus-discrete
update_status-IsSettled id t = record {
  at = λ db a. elim (Option-cases (db.invoices id)) [
    | inl e ↦ rw (e, update_status) (λ h. cc)
    | inr (inv, e) ↦
        rw (e, update_status)
          (λ h. record {
            invoice = record inv { status = InvoiceStatus.paid; paid_at = some t };
            found = rw (==_refl id) refl;
            settled = refl;
          })
  ];
}

module _ (h : Handlers) (now : Time) where
  apply_in_tx_settled :
      (id : ℕ) (tx : ApplyTx) (db : Db) → IsSettled id db → apply_in_tx h now id tx db ≡ (ok tt, db)
  unfolding apply_in_tx pure
  apply_in_tx_settled id tx db v =
      rw (bind_ok (get_invoice id) _ db v.invoice db (get_invoice_found id db v.invoice v.found))
        (rw v.settled refl)

  -- A payment for an invoice that is already paid or refunded succeeds and changes nothing.
  pub apply_payment_settled :
      (in_tx : Bool) (id : ℕ) (tx : ApplyTx) (db : Db)
      → IsSettled id db
      → apply_payment h now in_tx id tx db ≡ (ok tt, db)
  unfolding apply_payment within_tx
  apply_payment_settled true id tx db v = apply_in_tx_settled id tx db v
  apply_payment_settled false id tx db v =
      rollback_ok (apply_in_tx h now id tx) db tt db (apply_in_tx_settled id tx db v)

  settle-IsSettled :
      (id : ℕ) (tx : ApplyTx) (inv : Invoice)
      → HandlersKeep (IsSettled id) h
      → Ensures (IsSettled id) (settle h now id tx inv)
  unfolding settle
  settle-IsSettled id tx inv k = then_last-Ensures _ _ (
      then_last-Ensures _ _ (
        then_first-Ensures _ _ (update_status-IsSettled id (paid_time tx.paid_at now))
          (process_paid-Keeps h k (add_credit-IsSettled id true) id)))

  apply_in_tx-IsSettled :
      (id : ℕ) (tx : ApplyTx)
      → HandlersKeep (IsSettled id) h
      → Ensures (IsSettled id) (apply_in_tx h now id tx)
  unfolding apply_in_tx pure
  apply_in_tx-IsSettled id tx k = record {
    at = λ db a. elim (get_invoice-cases id db) [
      | inr e ↦ rw (bind_err (get_invoice id) _ db Code.not_found db e) (λ h. cc)
      | inl (inv, found, e) ↦
          rw (bind_ok (get_invoice id) _ db inv db e) (elim (Bool-cases (is_settled inv.status)) [
            | inl s ↦ rw s (λ h. record { invoice = inv; found = found; settled = s })
            | inr s ↦ rw s (
                (then_last-Ensures (check_transition h now inv.status) _
                    (settle-IsSettled id tx inv k)).at
                  db a)
          ])
    ];
  }

pub apply_payment-IsSettled :
    (h : Handlers) (now : Time) (in_tx : Bool) (id : ℕ) (tx : ApplyTx)
    → HandlersKeep (IsSettled id) h
    → Ensures (IsSettled id) (apply_payment h now in_tx id tx)
unfolding apply_payment
apply_payment-IsSettled h now in_tx id tx k =
    within_tx-Ensures in_tx _ (apply_in_tx-IsSettled h now id tx k)

-- After a payment that succeeded, another payment for the invoice succeeds and changes nothing,
-- provided the handlers never take an invoice out of paid or refunded.
pub apply_payment_again :
    (h : Handlers) (now later : Time) (in_tx in_tx' : Bool) (id : ℕ) (tx tx' : ApplyTx) (db : Db)
    → HandlersKeep (IsSettled id) h
    → (apply_payment h now in_tx id tx db).0 ≡ ok tt
    → let db' : Db = (apply_payment h now in_tx id tx db).1 in
      apply_payment h later in_tx' id tx' db' ≡ (ok tt, db')
apply_payment_again h now later in_tx in_tx' id tx tx' db k e =
    apply_payment_settled h later in_tx' id tx' _
      ((apply_payment-IsSettled h now in_tx id tx k).at db tt e)
