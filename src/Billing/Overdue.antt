-- ===== src/Billing/Overdue.antt =====
-- `MarkOverdue` and `ApplyLateFees` of backend/internal/modules/billing/service.go. The mails are left
-- out. `today` is a day number.
use whcms.Base.{ℕ, ◌-◌, Bool, true, false, ◌&&◌, none, List, [], if◌then◌else◌, any, same}
use whcms.Base.Int.{ℤ, pos, ltb_ℤ}
use whcms.Base.Word.{add64}
use whcms.Base.Action.{Action, Code, ◌>>=◌, ◌>>◌, pure, within_tx}
use whcms.Base.Each.{count_each}
use whcms.Domain.Enums.{InvoiceStatus, InvoiceStatus-discrete, RelatedType, RelatedType-discrete}
use whcms.Store.Tables.{Db, Invoice, InvoiceItem}
use whcms.Store.Invoices.{
  get_invoice, get_items, add_item, update_status, update_invoice, list_due_for_status,
}
use whcms.Billing.Cancel.{move_invoice}

-- One round: the transition is checked on the row of the list, and the update has no guard.
unfoldable pub mark_one : Invoice → Action Db Bool
mark_one inv = do
  next ← move_invoice inv.status InvoiceStatus.overdue
  update_status inv.id next none
  pure true

unfoldable pub mark_overdue : ℕ → Action Db (ℕ × List Code)
mark_overdue today = do
  rows ← list_due_for_status InvoiceStatus.unpaid (today - 1)
  count_each mark_one rows

abbrev pub is_late_fee : InvoiceItem → Bool
is_late_fee it = same RelatedType-discrete it.related_type RelatedType.late_fee

abbrev pub fee_item : ℕ → ℤ → InvoiceItem
fee_item invoice_id fee = record {
  invoice_id = invoice_id;
  amount = fee;
  taxed = false;
  related_type = RelatedType.late_fee;
  related_id = none;
}

abbrev pub with_fee : ℤ → Invoice → Invoice
with_fee fee inv = record inv { subtotal = add64 inv.subtotal fee; total = add64 inv.total fee }

unfoldable pub charge_fee : ℤ → Invoice → Action Db Bool
charge_fee fee locked = do
  add_item (fee_item locked.id fee)
  update_invoice (with_fee fee locked)
  pure true

-- The transaction of one round.
unfoldable pub charge_if_overdue : ℤ → ℕ → Action Db Bool
charge_if_overdue fee id = get_invoice id >>= λ locked.
    if same InvoiceStatus-discrete locked.status InvoiceStatus.overdue
    then charge_fee fee locked
    else pure false

-- One round: a fee that is there already is looked for before the transaction.
unfoldable pub late_fee_one : ℤ → Invoice → Action Db Bool
late_fee_one fee inv = get_items inv.id >>= λ items.
    if any is_late_fee items
    then pure false
    else within_tx false (λ _. charge_if_overdue fee inv.id)

unfoldable pub apply_late_fees : Bool → ℤ → ℕ → Action Db (ℕ × List Code)
apply_late_fees enabled fee today =
    if enabled && ltb_ℤ (pos 0) fee
    then list_due_for_status InvoiceStatus.overdue today >>= count_each (late_fee_one fee)
    else pure (0, [])
