-- ===== src/Payments/Apply.antt =====
-- `ApplyPayment` of backend/internal/modules/payments/service.go. Its audit and log entries are left
-- out: they change no table that is modelled.
use whcms.Base.{ℕ, Bool, not, ◌||◌, Option, none, some, ◌==◌, if◌then◌else◌, same, is_empty}
use whcms.Base.Text.{Text, bytes}
use whcms.Base.Int.{ℤ, ltb_ℤ}
use whcms.Base.Word.{sub64}
use whcms.Base.Action.{Action, ok, err, Code, ◌>>=◌, ◌>>◌, pure, raise, raise_if, within_tx}
use whcms.Domain.Enums.{
  InvoiceStatus, TransactionStatus, Gateway, InvoiceStatus-discrete, TransactionStatus-discrete,
}
use whcms.Domain.Calendar.{Time}
use whcms.Domain.StateMachine.{transition_invoice}
use whcms.Store.Tables.{Db, Invoice, Transaction}
use whcms.Store.Invoices.{get_invoice, update_status}
use whcms.Store.Transactions.{get_by_merchant_order_id, create_transaction, update_transaction}
use whcms.Billing.Paid.{Handlers, process_paid}

pub record ApplyTx : Type 0 where
  pub gateway : Gateway
  pub method_code : Text
  pub merchant_order_id : Text
  pub gateway_reference : Text
  pub amount : ℤ
  pub fee : ℤ
  pub raw : Text
  pub paid_at : Option Time  -- `none` is the zero time

abbrev pub is_settled : InvoiceStatus → Bool
is_settled s =
    same InvoiceStatus-discrete s InvoiceStatus.paid
    || same InvoiceStatus-discrete s InvoiceStatus.refunded

-- The lookup of the pending row; a missing row is no error.
unfoldable pub find_existing : Text → Action Db (Option Transaction)
find_existing mo db = elim (get_by_merchant_order_id mo db).0 [
  | ok t ↦ (ok (some t), db)
  | err Code.not_found ↦ (ok none, db)
  | err e ↦ (err e, db)
]

abbrev or_old : Text → Text → Text
or_old new old = if is_empty new then old else new

abbrev settled_row : ApplyTx → Text → Time → Transaction → Transaction
settled_row tx raw paid_at t = record t {
  status = TransactionStatus.success;
  method_code = or_old tx.method_code t.method_code;
  gateway_reference = or_old tx.gateway_reference t.gateway_reference;
  amount = tx.amount;
  fee = tx.fee;
  raw = raw;
  paid_at = some paid_at;
}

abbrev pub new_row : ℕ → ApplyTx → Text → Time → Transaction
new_row invoice_id tx raw paid_at = record {
  id = 0;
  invoice_id = invoice_id;
  gateway = tx.gateway;
  method_code = tx.method_code;
  merchant_order_id = if is_empty tx.merchant_order_id then none else some tx.merchant_order_id;
  gateway_reference = tx.gateway_reference;
  amount = tx.amount;
  fee = tx.fee;
  status = TransactionStatus.success;
  raw = raw;
  paid_at = some paid_at;
}

-- The upsert of the successful transaction.
unfoldable pub record_success :
    ℕ → ApplyTx → Text → Time → Option Transaction → Action Db (Unit {0})
record_success invoice_id tx raw paid_at none =
    create_transaction (new_row invoice_id tx raw paid_at)
record_success invoice_id tx raw paid_at (some t) = do
  raise_if (not (t.invoice_id == invoice_id)) Code.conflict
  if same TransactionStatus-discrete t.status TransactionStatus.success
      then pure tt
      else update_transaction (settled_row tx raw paid_at t)

unfoldable pub upsert_transaction : ℕ → ApplyTx → Text → Time → Action Db (Unit {0})
upsert_transaction invoice_id tx raw paid_at = do
  existing ← if is_empty tx.merchant_order_id then pure none else find_existing tx.merchant_order_id
  record_success invoice_id tx raw paid_at existing

abbrev pub paid_time : Option Time → Time → Time
paid_time none now = now
paid_time (some t) now = t

module _ (h : Handlers) (now : Time) where
  -- What follows the checks on the invoice's status.
  unfoldable pub settle : ℕ → ApplyTx → Invoice → Action Db (Unit {0})
  settle invoice_id tx inv = do
    let remaining = sub64 inv.total inv.credit_applied
    let paid_at = paid_time tx.paid_at now
    let raw = if is_empty tx.raw then bytes "{}" else tx.raw
    raise_if (ltb_ℤ tx.amount remaining) Code.conflict
    upsert_transaction invoice_id tx raw paid_at
    update_status invoice_id InvoiceStatus.paid (some paid_at)
    process_paid h invoice_id

  -- `if _, err := domain.TransitionInvoice(inv.Status, domain.InvoicePaid); err != nil`
  unfoldable pub check_transition : InvoiceStatus → Action Db (Unit {0})
  check_transition status = elim (transition_invoice status InvoiceStatus.paid) [
    | ok _ ↦ pure tt
    | err e ↦ raise e
  ]

  unfoldable pub apply_in_tx : ℕ → ApplyTx → Action Db (Unit {0})
  apply_in_tx invoice_id tx = do
    inv ← get_invoice invoice_id
    if is_settled inv.status
        then pure tt
        else check_transition inv.status >> settle invoice_id tx inv

  unfoldable pub apply_payment : Bool → ℕ → ApplyTx → Action Db (Unit {0})
  apply_payment in_tx invoice_id tx = within_tx in_tx (λ _. apply_in_tx invoice_id tx)
