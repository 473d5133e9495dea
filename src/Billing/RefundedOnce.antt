-- ===== src/Billing/RefundedOnce.antt =====
-- `RefundInvoice` of backend/internal/modules/billing/service.go, called twice.
use whcms.Base.{
  ℕ, ◌≡◌, refl, any, Bool, true, false, none, some, List, [], ◌∷◌, arith, Option-cases, Bool-cases,
  inl, inr, ==_refl, subst, ap,
}
use whcms.Base.Int.{ℤ}
use whcms.Base.Action.{
  Action, ok, err, Code, pure, raise_if, ◌>>=◌, ◌>>◌, bind_ok, bind_err, within_tx,
}
use whcms.Base.Keeps.{Keeps, pure-Keeps, then-Keeps, if-Keeps, within_tx-Keeps, keeps_rules}
use whcms.Base.Ensures.{Ensures, last-Ensures, then_last-Ensures, then_first-Ensures, rollback_inv}
use whcms.Domain.Enums.{InvoiceStatus, InvoiceStatus-discrete}
use whcms.Domain.StateMachine.{transition_invoice, invoice_can_transition}
use whcms.Store.Tables.{Db, Invoice, Transaction}
use whcms.Store.Invoices.{get_invoice, get_items, get_invoice_found, update_status}
use whcms.Store.Transactions.{list_by_invoice, update_transaction}
use whcms.Store.Credit.{apply_credit, add_credit}
use whcms.Payments.Idempotence.{adjust_credit-invoices}
use whcms.Billing.Cancel.{
  is_domain_hunt, move_invoice, refund_transactions, return_to_credit, refund_in_tx, refund_invoice,
}
use whcms.Billing.Refund.{HasStatus, refund_refused, move_refused}

abbrev IsRefunded : ℕ → Db → Type 0
IsRefunded id db = HasStatus id InvoiceStatus.refunded db

update_transaction-IsRefunded :
    (id : ℕ) (t : Transaction) → Keeps (IsRefunded id) (update_transaction t)
unfolding update_transaction
update_transaction-IsRefunded id t = record {
  at = λ db v. record { invoice = v.invoice; found = ground (arith, v.found); status = v.status };
}

refund_transactions-IsRefunded :
    (id : ℕ) (rows : List Transaction) → Keeps (IsRefunded id) (refund_transactions rows)
unfolding refund_transactions
refund_transactions-IsRefunded id [] = pure-Keeps tt
refund_transactions-IsRefunded id (t ∷ rest) =
    then-Keeps _ _ (if-Keeps _ _ _ (update_transaction-IsRefunded id _) (pure-Keeps tt))
      (refund_transactions-IsRefunded id rest)

apply_credit-IsRefunded :
    (id : ℕ) (in_tx : Bool) (client : ℕ) (delta : ℤ) (invoice : ℕ)
    → Keeps (IsRefunded id) (apply_credit in_tx client delta invoice)
unfolding apply_credit
apply_credit-IsRefunded id in_tx client delta invoice = within_tx-Keeps in_tx _ λ _. record {
  at = λ db v. record {
    invoice = v.invoice;
    found = rw (adjust_credit-invoices client delta _ db) v.found;
    status = v.status;
  };
}

add_credit-IsRefunded :
    (id : ℕ) (in_tx : Bool) (client : ℕ) (amount : ℤ) (invoice : ℕ)
    → Keeps (IsRefunded id) (add_credit in_tx client amount invoice)
unfolding add_credit
add_credit-IsRefunded id in_tx client amount invoice = search (keeps_rules, apply_credit-IsRefunded)

return_to_credit-IsRefunded :
    (id : ℕ) (b : Bool) (inv : Invoice) → Keeps (IsRefunded id) (return_to_credit b inv)
unfolding return_to_credit
return_to_credit-IsRefunded id b inv =
    if-Keeps _ _ _ (add_credit-IsRefunded id true inv.client_id inv.total inv.id) (pure-Keeps tt)

list_by_invoice-IsRefunded : (id k : ℕ) → Keeps (IsRefunded id) (list_by_invoice k)
unfolding list_by_invoice
list_by_invoice-IsRefunded id k = search keeps_rules

update_status-IsRefunded :
    (id : ℕ) → Ensures (IsRefunded id) (update_status id InvoiceStatus.refunded none)
unfolding update_status
update_status-IsRefunded id = record {
  at = λ db a. elim (Option-cases (db.invoices id)) [
    | inl e ↦ rw (e, update_status) (λ h. cc)
    | inr (inv, e) ↦
        rw (e, update_status)
          (λ h. record {
            invoice = record inv { status = InvoiceStatus.refunded };
            found = rw (==_refl id) refl;
            status = refl;
          })
  ];
}

move_done :
    (from to : InvoiceStatus) (db : Db)
    → invoice_can_transition from to ≡ true
    → move_invoice from to db ≡ (ok to, db)
unfolding move_invoice transition_invoice
move_done from to db e = rw e refl

-- What follows the change of status.
abbrev refund_rest : Bool → Invoice → Action Db Invoice
refund_rest b row = do
  items ← get_items row.id
  raise_if (any is_domain_hunt items) Code.conflict
  update_status row.id InvoiceStatus.refunded none
  rows ← list_by_invoice row.id
  refund_transactions rows
  return_to_credit b row
  pure (record row { status = InvoiceStatus.refunded })

refund_rest-IsRefunded :
    (b : Bool) (row : Invoice) → Ensures (IsRefunded row.id) (refund_rest b row)
refund_rest-IsRefunded b row = last-Ensures _ _ λ items. then_last-Ensures _ _ (
    then_first-Ensures _ _ (update_status-IsRefunded row.id) (
      search (
        keeps_rules, list_by_invoice-IsRefunded, refund_transactions-IsRefunded,
        return_to_credit-IsRefunded,
      )))

refund_in_tx-IsRefunded :
    (b : Bool) (id : ℕ) (db : Db) (row inv : Invoice)
    → db.invoices id ≡ some row
    → row.id ≡ id
    → (refund_in_tx b id db).0 ≡ ok inv
    → IsRefunded id (refund_in_tx b id db).1
unfolding refund_in_tx
refund_in_tx-IsRefunded b id db row inv found own =
    rw (bind_ok (get_invoice id) _ db row db (get_invoice_found id db row found))
      (elim (Bool-cases (invoice_can_transition row.status InvoiceStatus.refunded)) [
        | inr closed ↦
            rw
              (bind_err (move_invoice row.status InvoiceStatus.refunded) _ db Code.conflict db
                (move_refused row.status InvoiceStatus.refunded db closed))
              (λ h. cc)
        | inl open_for ↦
            rw
              (bind_ok (move_invoice row.status InvoiceStatus.refunded) _ db InvoiceStatus.refunded
                db (move_done row.status InvoiceStatus.refunded db open_for))
              (λ h.
                subst (λ k. IsRefunded k (refund_rest b row db).1) own
                  ((refund_rest-IsRefunded b row).at db inv h))
      ])

refunded_for_good : invoice_can_transition InvoiceStatus.refunded InvoiceStatus.refunded ≡ false
unfolding invoice_can_transition InvoiceStatus-discrete
refunded_for_good = refl

refund_ran :
    (b : Bool) (id : ℕ) (db : Db) (inv : Invoice)
    → (refund_invoice b id db).0 ≡ ok inv
    → refund_in_tx b id db ≡ (ok inv, (refund_invoice b id db).1)
unfolding refund_invoice within_tx
refund_ran b id db inv = rollback_inv (refund_in_tx b id) db inv

-- An invoice is refunded at most once: after a refund that succeeded, a second one of the same invoice,
-- to the credit balance or not, is a conflict and changes nothing, so that nothing is credited twice.
pub refund_invoice_again :
    (b again : Bool) (id : ℕ) (db : Db) (row inv : Invoice)
    → db.invoices id ≡ some row
    → row.id ≡ id
    → (refund_invoice b id db).0 ≡ ok inv
    → let after = (refund_invoice b id db).1 in
      refund_invoice again id after ≡ (err Code.conflict, after)
refund_invoice_again b again id db row inv found own done =
    let body : refund_in_tx b id db ≡ (ok inv, (refund_invoice b id db).1) =
      refund_ran b id db inv done in
    refund_refused again id InvoiceStatus.refunded (refund_invoice b id db).1
      (subst (IsRefunded id) (ap (λ p. p.1) body)
        (refund_in_tx-IsRefunded b id db row inv found own (ap (λ p. p.0) body)))
      refunded_for_good
