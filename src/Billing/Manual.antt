-- ===== src/Billing/Manual.antt =====
-- What an administrator does by hand: `CreateManualInvoice`, `AddManualPayment` and `UpdateInvoice` of
-- backend/internal/modules/billing/service.go. A due date arrives parsed: `none` is an unreadable one.
use whcms.Base.{
  ℕ, ◌≡◌, refl, ap, ◌∙◌, inl, inr, Bool, true, false, Option, none, some, List, [], map,
  if◌then◌else◌, Bool-cases,
}
use whcms.Base.Text.{Text}
use whcms.Base.Int.{ℤ, pos}
use whcms.Base.Float.{Float}
use whcms.Base.Action.{
  Action, ok, err, Code, ◌>>=◌, ◌>>◌, pure, raise, within_tx, bind_ok, rollback_ok, rollback_err,
}
use whcms.Domain.Enums.{InvoiceStatus, RelatedType, Gateway}
use whcms.Domain.Calendar.{Time, day_number}
use whcms.Store.Tables.{Db, Invoice, put}
use whcms.Store.Invoices.{get_invoice, get_invoice_found, update_invoice}
use whcms.Billing.Create.{Settings, CreateInvoiceItem, create_invoice}
use whcms.Billing.Paid.{Handlers}
use whcms.Payments.Apply.{apply_payment}

pub record ManualItem : Type 0 where
  pub amount : ℤ
  pub taxed : Bool

pub record ManualInvoiceInput : Type 0 where
  pub client_id : ℕ
  pub items : List ManualItem
  pub discount : ℤ
  pub due_date : Option (Option Time)  -- `none` is the empty text

abbrev manual_line : ManualItem → CreateInvoiceItem
manual_line it = record {
  amount = it.amount;
  taxed = it.taxed;
  related_type = RelatedType.manual;
  related_id = 0;
}

unfoldable pub parsed_due : Option (Option Time) → Action Db (Option Time)
parsed_due none = pure none
parsed_due (some none) = raise Code.validation
parsed_due (some (some due)) = pure (some due)

unfoldable pub create_manual_invoice :
    Float → Settings → Time → ManualInvoiceInput → Action Db Invoice
create_manual_invoice f settings now in_ = do
  due ← parsed_due in_.due_date
  create_invoice f settings now false (record {
    client_id = in_.client_id;
    items = map manual_line in_.items;
    discount = in_.discount;
    due_date = due;
  })

unfoldable pub add_manual_payment : Handlers → Time → ℕ → Text → ℤ → Action Db Invoice
add_manual_payment h now id payment_method amount = do
  get_invoice id
  apply_payment h now false id (record {
    gateway = Gateway.manual;
    method_code = payment_method;
    merchant_order_id = [];
    gateway_reference = [];
    amount = amount;
    fee = pos 0;
    raw = [];
    paid_at = some now;
  })
  get_invoice id

abbrev pub is_editable : InvoiceStatus → Bool
is_editable InvoiceStatus.draft = true
is_editable InvoiceStatus.unpaid = true
is_editable InvoiceStatus.overdue = true
is_editable _ = false

abbrev pub with_due : Option Time → Invoice → Invoice
with_due none inv = inv
with_due (some due) inv = record inv { due_date = day_number due }

-- The change of the due date; the notes are left out.
unfoldable pub edit_invoice : Option (Option Time) → Invoice → Action Db Invoice
edit_invoice change inv = do
  due ← parsed_due change
  update_invoice (with_due due inv)
  pure (with_due due inv)

unfoldable pub update_in_tx : Option (Option Time) → ℕ → Action Db Invoice
update_in_tx change id = get_invoice id >>= λ inv.
    if is_editable inv.status then edit_invoice change inv else raise Code.conflict

-- `has_notes` says whether the request has notes.
unfoldable pub edit_open_invoice : Bool → Option (Option Time) → ℕ → Action Db Invoice
edit_open_invoice has_notes change id = elim change [
  | none ↦ if has_notes then within_tx false (λ _. update_in_tx none id) else raise Code.validation
  | some due ↦ within_tx false (λ _. update_in_tx (some due) id)
]

update_invoice_found :
    (inv old : Invoice) (db : Db)
    → db.invoices inv.id ≡ some old
    → update_invoice inv db ≡ (
      ok tt,
      record db {
        invoices =
            put db.invoices inv.id (record inv { number = old.number; client_id = old.client_id });
      },
    )
unfolding update_invoice
update_invoice_found inv old db found = rw (found, update_invoice) refl

edit_invoice_ok :
    (due : Time) (inv : Invoice) (db : Db)
    → db.invoices inv.id ≡ some inv
    → edit_invoice (some (some due)) inv db ≡ (
      ok (with_due (some due) inv),
      record db { invoices = put db.invoices inv.id (with_due (some due) inv) },
    )
unfolding edit_invoice parsed_due ◌>>◌
edit_invoice_ok due inv db found =
    bind_ok (update_invoice (with_due (some due) inv)) (λ _. pure (with_due (some due) inv)) db tt _
      (update_invoice_found (with_due (some due) inv) inv db found)

-- A new due date is written for a draft, unpaid or overdue invoice, and nothing else about it changes;
-- for any other one the request is refused as a conflict and nothing changes.
pub edit_open_invoice_lem :
    (has_notes : Bool) (due : Time) (inv : Invoice) (db : Db)
    → db.invoices inv.id ≡ some inv
    → edit_open_invoice has_notes (some (some due)) inv.id db ≡ (
        if is_editable inv.status
        then (
          ok (record inv { due_date = day_number due }),
          record db {
            invoices = put db.invoices inv.id (record inv { due_date = day_number due });
          },
        )
        else (err Code.conflict, db))
unfolding edit_open_invoice update_in_tx within_tx raise
edit_open_invoice_lem has_notes due inv db found =
    let m = update_in_tx (some (some due)) inv.id in
    let read =
      bind_ok (get_invoice inv.id)
        (λ i.
          if is_editable i.status then edit_invoice (some (some due)) i else raise Code.conflict)
        db inv db (get_invoice_found inv.id db inv found) in
    elim (Bool-cases (is_editable inv.status)) [
      | inl e ↦ rw e (
          rollback_ok m db _ _ (
            read
            ∙ ap (λ b. (if b then edit_invoice (some (some due)) inv else raise Code.conflict) db) e
            ∙ edit_invoice_ok due inv db found))
      | inr e ↦ rw e (
          rollback_err m db Code.conflict db (
            read
            ∙ ap (λ b. (if b then edit_invoice (some (some due)) inv else raise Code.conflict) db)
                e))
    ]
