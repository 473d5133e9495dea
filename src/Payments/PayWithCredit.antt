-- ===== src/Payments/PayWithCredit.antt =====
-- `payWithCredit` of backend/internal/modules/payments/service.go.
use whcms.Base.{
  ℕ, ◌≡◌, Bool, true, false, not, ◌||◌, some, [], if◌then◌else◌, any, same, inl, inr, Bool-cases,
}
use whcms.Base.Text.{bytes}
use whcms.Base.Int.{ℤ, pos, ltb_ℤ}
use whcms.Base.Word.{sub64}
use whcms.Base.Action.{
  Action, ok, err, Code, ◌>>=◌, ◌>>◌, pure, raise_if, within_tx, within_tx_atomic,
}
use whcms.Base.Keeps.{Keeps, pure-Keeps, within_tx-Keeps, keeps_rules}
use whcms.Base.Ensures.{
  Ensures, last-Ensures, then_last-Ensures, then_first-Ensures, within_tx-Ensures,
}
use whcms.Domain.Enums.{
  InvoiceStatus, RelatedType, Gateway, InvoiceStatus-discrete, RelatedType-discrete,
}
use whcms.Domain.Calendar.{Time}
use whcms.Store.Tables.{Db, Invoice, InvoiceItem}
use whcms.Store.Invoices.{get_invoice, get_items}
use whcms.Store.Credit.{deduct_credit}
use whcms.Store.Ledger.{IsBalanced, deduct_credit-IsBalanced}
use whcms.Billing.Paid.{Handlers}
use whcms.Billing.Dispatch.{HandlersKeep}
use whcms.Payments.Apply.{ApplyTx, apply_payment}
use whcms.Payments.Idempotence.{IsSettled, apply_payment-IsSettled}
use whcms.Payments.Ledger.{apply_payment-IsBalanced, get_invoice-IsBalanced, get_items-IsBalanced}

abbrev pub invoice_payable : InvoiceStatus → Bool
invoice_payable s =
    same InvoiceStatus-discrete s InvoiceStatus.unpaid
    || same InvoiceStatus-discrete s InvoiceStatus.overdue

abbrev pub is_deposit : InvoiceItem → Bool
is_deposit it = same RelatedType-discrete it.related_type RelatedType.deposit

abbrev credit_tx : ℤ → Time → ApplyTx
credit_tx amount now = record {
  gateway = Gateway.credit;
  method_code = bytes "credit";
  merchant_order_id = [];
  gateway_reference = [];
  amount = amount;
  fee = pos 0;
  raw = [];
  paid_at = some now;
}

-- The part of the remaining amount that the balance has to pay.
unfoldable pub deduct_remaining : Invoice → ℤ → Action Db (Unit {0})
deduct_remaining inv remaining =
    if ltb_ℤ (pos 0) remaining then deduct_credit true inv.client_id remaining inv.id else pure tt

module _ (h : Handlers) (now : Time) where
  unfoldable pub pay_in_tx : ℕ → Action Db ℤ
  pay_in_tx invoice_id = do
    inv ← get_invoice invoice_id
    raise_if (not (invoice_payable inv.status)) Code.conflict
    items ← get_items invoice_id
    raise_if (any is_deposit items) Code.conflict
    let remaining = sub64 inv.total inv.credit_applied
    deduct_remaining inv remaining
    apply_payment h now true invoice_id (credit_tx remaining now)
    pure remaining

  unfoldable pub pay_with_credit : ℕ → Action Db ℤ
  pay_with_credit invoice_id = within_tx false (λ _. pay_in_tx invoice_id)

  -- Paying from credit that fails, at whatever step, leaves the balance, the invoice and every other
  -- table as they were.
  pub pay_with_credit_atomic :
      (id : ℕ) (db : Db) (e : Code)
      → (pay_with_credit id db).0 ≡ err e
      → (pay_with_credit id db).1 ≡ db
  unfolding pay_with_credit
  pay_with_credit_atomic id db e = within_tx_atomic (λ _. pay_in_tx id) db e

  deduct_remaining-IsBalanced : (inv : Invoice) (r : ℤ) → Keeps IsBalanced (deduct_remaining inv r)
  unfolding deduct_remaining
  deduct_remaining-IsBalanced inv r = elim (Bool-cases (ltb_ℤ (pos 0) r)) [
    | inl e ↦ rw e (deduct_credit-IsBalanced true inv.client_id r inv.id)
    | inr e ↦ rw e (pure-Keeps tt)
  ]

  pay_in_tx-IsBalanced : (id : ℕ) → HandlersKeep IsBalanced h → Keeps IsBalanced (pay_in_tx id)
  unfolding pay_in_tx
  pay_in_tx-IsBalanced id k =
      let applied = apply_payment-IsBalanced h now k in
      search
        (
          keeps_rules, get_invoice-IsBalanced, get_items-IsBalanced, deduct_remaining-IsBalanced,
          applied,
        )
        depth 12

  -- Paying from credit keeps every balance explained by its ledger and not negative, if the handlers
  -- do.
  pub pay_with_credit-IsBalanced :
      (id : ℕ) → HandlersKeep IsBalanced h → Keeps IsBalanced (pay_with_credit id)
  unfolding pay_with_credit
  pay_with_credit-IsBalanced id k = within_tx-Keeps false _ (λ _. pay_in_tx-IsBalanced id k)

  pay_in_tx-IsSettled :
      (id : ℕ) → HandlersKeep (IsSettled id) h → Ensures (IsSettled id) (pay_in_tx id)
  unfolding pay_in_tx
  pay_in_tx-IsSettled id k = last-Ensures (get_invoice id) _ λ inv. then_last-Ensures _ _ (
      last-Ensures (get_items id) _ λ items. then_last-Ensures _ _ (
        then_last-Ensures _ _
          (then_first-Ensures _ _ (apply_payment-IsSettled h now true id _ k) (pure-Keeps _))))

  -- When it succeeds the invoice is paid, provided the handlers never take it out of paid or refunded.
  pub pay_with_credit-IsSettled :
      (id : ℕ) (db : Db) (amount : ℤ)
      → HandlersKeep (IsSettled id) h
      → (pay_with_credit id db).0 ≡ ok amount
      → IsSettled id (pay_with_credit id db).1
  unfolding pay_with_credit
  pay_with_credit-IsSettled id db amount k e =
      (within_tx-Ensures false _ (pay_in_tx-IsSettled id k)).at db amount e
