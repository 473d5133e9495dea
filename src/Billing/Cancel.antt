-- ===== src/Billing/Cancel.antt =====
-- `CancelInvoice` and `RefundInvoice` of backend/internal/modules/billing/service.go. The audit entries
-- are left out.
use whcms.Base.{ℕ, Bool, true, false, ◌&&◌, none, List, [], ◌∷◌, if◌then◌else◌, any, same}
use whcms.Base.Int.{pos, ltb_ℤ}
use whcms.Base.Action.{Action, Code, ◌>>=◌, ◌>>◌, pure, raise_if, within_tx}
use whcms.Domain.Enums.{
  InvoiceStatus, RelatedType, TransactionStatus, RelatedType-discrete, TransactionStatus-discrete,
}
use whcms.Domain.StateMachine.{transition_invoice}
use whcms.Store.Tables.{Db, Invoice, InvoiceItem, Transaction}
use whcms.Store.Invoices.{get_invoice, get_items, update_status}
use whcms.Store.Transactions.{list_by_invoice, update_transaction}
use whcms.Store.Credit.{add_credit}

-- `next, err := domain.TransitionInvoice(inv.Status, to)`
unfoldable pub move_invoice : InvoiceStatus → InvoiceStatus → Action Db InvoiceStatus
move_invoice from to db = (transition_invoice from to, db)

abbrev with_new_status : InvoiceStatus → Invoice → Invoice
with_new_status s inv = record inv { status = s }

unfoldable pub cancel_in_tx : ℕ → Action Db Invoice
cancel_in_tx id = do
  inv ← get_invoice id
  next ← move_invoice inv.status InvoiceStatus.cancelled
  update_status inv.id next none
  pure (with_new_status next inv)

unfoldable pub cancel_invoice : ℕ → Action Db Invoice
cancel_invoice id = within_tx false (λ _. cancel_in_tx id)

abbrev pub is_domain_hunt : InvoiceItem → Bool
is_domain_hunt it = same RelatedType-discrete it.related_type RelatedType.domain_snipe

abbrev is_success : Transaction → Bool
is_success t = same TransactionStatus-discrete t.status TransactionStatus.success

-- The loop over the invoice's transactions.
unfoldable pub refund_transactions : List Transaction → Action Db (Unit {0})
refund_transactions [] = pure tt
refund_transactions (t ∷ rest) =
    (if is_success t
      then update_transaction (record t { status = TransactionStatus.refunded })
      else pure tt)
    >> refund_transactions rest

unfoldable pub return_to_credit : Bool → Invoice → Action Db (Unit {0})
return_to_credit to_credit inv =
    if to_credit && ltb_ℤ (pos 0) inv.total
    then add_credit true inv.client_id inv.total inv.id
    else pure tt

unfoldable pub refund_in_tx : Bool → ℕ → Action Db Invoice
refund_in_tx to_credit id = do
  inv ← get_invoice id
  next ← move_invoice inv.status InvoiceStatus.refunded
  items ← get_items inv.id
  raise_if (any is_domain_hunt items) Code.conflict
  update_status inv.id next none
  rows ← list_by_invoice inv.id
  refund_transactions rows
  return_to_credit to_credit inv
  pure (with_new_status next inv)

unfoldable pub refund_invoice : Bool → ℕ → Action Db Invoice
refund_invoice to_credit id = within_tx false (λ _. refund_in_tx to_credit id)
