-- ===== src/Billing/Refund.antt =====
-- `CancelInvoice` and `RefundInvoice` of backend/internal/modules/billing/service.go: what they keep.
use whcms.Base.{ℕ, ◌≡◌, refl, Bool, true, false, some, List, [], ◌∷◌}
use whcms.Base.Action.{err, Code, bind_ok, bind_err, within_tx, rollback_err}
use whcms.Base.Keeps.{Keeps, then-Keeps, pure-Keeps, if-Keeps, within_tx-Keeps, keeps_rules}
use whcms.Domain.Enums.{InvoiceStatus}
use whcms.Domain.StateMachine.{transition_invoice, invoice_can_transition}
use whcms.Store.Tables.{Db, Invoice, Transaction}
use whcms.Store.Invoices.{get_invoice, get_invoice_found}
use whcms.Store.Transactions.{list_by_invoice}
use whcms.Store.Ledger.{IsBalanced, add_credit-IsBalanced}
use whcms.Payments.Ledger.{
  get_invoice-IsBalanced, get_items-IsBalanced, update_status-IsBalanced,
  update_transaction-IsBalanced,
}
use whcms.Billing.Cancel.{
  move_invoice, refund_transactions, return_to_credit, refund_in_tx, refund_invoice,
}

move_invoice-IsBalanced : (s t : InvoiceStatus) → Keeps IsBalanced (move_invoice s t)
unfolding move_invoice
move_invoice-IsBalanced s t = record { at = λ db v. v }

list_by_invoice-IsBalanced : (id : ℕ) → Keeps IsBalanced (list_by_invoice id)
unfolding list_by_invoice
list_by_invoice-IsBalanced id = search keeps_rules

refund_transactions-IsBalanced :
    (rows : List Transaction) → Keeps IsBalanced (refund_transactions rows)
unfolding refund_transactions
refund_transactions-IsBalanced [] = pure-Keeps tt
refund_transactions-IsBalanced (t ∷ rest) =
    then-Keeps _ _ (if-Keeps _ _ _ (update_transaction-IsBalanced _) (pure-Keeps tt))
      (refund_transactions-IsBalanced rest)

return_to_credit-IsBalanced : (b : Bool) (inv : Invoice) → Keeps IsBalanced (return_to_credit b inv)
unfolding return_to_credit
return_to_credit-IsBalanced b inv =
    if-Keeps _ _ _ (add_credit-IsBalanced true inv.client_id inv.total inv.id) (pure-Keeps tt)

refund_in_tx-IsBalanced : (b : Bool) (id : ℕ) → Keeps IsBalanced (refund_in_tx b id)
unfolding refund_in_tx
refund_in_tx-IsBalanced b id =
    search
      (
        keeps_rules, get_invoice-IsBalanced, move_invoice-IsBalanced, get_items-IsBalanced,
        update_status-IsBalanced, list_by_invoice-IsBalanced, refund_transactions-IsBalanced,
        return_to_credit-IsBalanced,
      )
      depth 20

-- A refund keeps every credit balance explained by its ledger and not negative.
pub refund_invoice-IsBalanced : (b : Bool) (id : ℕ) → Keeps IsBalanced (refund_invoice b id)
unfolding refund_invoice
refund_invoice-IsBalanced b id = within_tx-Keeps false _ (λ _. refund_in_tx-IsBalanced b id)

-- The invoice is there with this status, in its own row.
pub record HasStatus (id : ℕ) (s : InvoiceStatus) (db : Db) : Type 0 where
  pub invoice : Invoice
  pub found : db.invoices id ≡ some invoice
  pub status : invoice.status ≡ s

pub move_refused :
    (from to : InvoiceStatus) (db : Db)
    → invoice_can_transition from to ≡ false
    → move_invoice from to db ≡ (err Code.conflict, db)
unfolding move_invoice transition_invoice
move_refused from to db e = rw e refl

pub refund_refused :
    (b : Bool) (id : ℕ) (s : InvoiceStatus) (db : Db)
    → HasStatus id s db
    → invoice_can_transition s InvoiceStatus.refunded ≡ false
    → refund_invoice b id db ≡ (err Code.conflict, db)
unfolding refund_invoice refund_in_tx within_tx
refund_refused b id s db v e = rollback_err (refund_in_tx b id) db Code.conflict db (
    rw (bind_ok (get_invoice id) _ db v.invoice db (get_invoice_found id db v.invoice v.found)) (
      bind_err (move_invoice v.invoice.status InvoiceStatus.refunded) _ db Code.conflict db
        (move_refused _ _ db (rw v.status e))))
