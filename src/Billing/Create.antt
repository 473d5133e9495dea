-- ===== src/Billing/Create.antt =====
-- `CreateInvoice` of backend/internal/modules/billing/service.go. The audit entry is left out, and
-- so are the descriptions and notes, which are only stored.
use whcms.Base.{
  ℕ, ◌+◌, Bool, ◌&&◌, Option, none, some, List, [], ◌∷◌, map, ◌==◌, if◌then◌else◌, is_empty,
}
use whcms.Base.Int.{ℤ, pos, ltb_ℤ}
use whcms.Base.Word.{add64, sub64}
use whcms.Base.Float.{Float}
use whcms.Base.Action.{Action, Code, ◌>>=◌, ◌>>◌, pure, raise_if, or_raise, gets, within_tx}
use whcms.Domain.Enums.{InvoiceStatus, RelatedType}
use whcms.Domain.Calendar.{Time, day_number}
use whcms.Domain.Tax.{calc_tax}
use whcms.Domain.Numbers.{format_invoice_number, invoice_counter_scope}
use whcms.Store.Tables.{Db, Invoice, InvoiceItem}
use whcms.Store.Invoices.{next_number, insert_invoice}

pub record CreateInvoiceItem : Type 0 where
  pub amount : ℤ
  pub taxed : Bool
  pub related_type : RelatedType
  pub related_id : ℕ  -- 0 is no reference

pub record CreateInvoiceInput : Type 0 where
  pub client_id : ℕ
  pub items : List CreateInvoiceItem
  pub discount : ℤ
  pub due_date : Option Time  -- `none` is the zero time

-- The settings that billing reads, with the defaults already applied.
pub record Settings : Type 0 where
  pub tax_enabled : Bool
  pub tax_rate : ℤ
  pub tax_inclusive : Bool
  pub invoice_due_days : ℕ

-- The loop over the items: a negative amount is refused, the rest is summed up.
unfoldable pub sum_items : List CreateInvoiceItem → ℤ → ℤ → Action Db (ℤ × ℤ)
sum_items [] subtotal taxed_sum = pure (subtotal, taxed_sum)
sum_items (it ∷ rest) subtotal taxed_sum =
    raise_if (ltb_ℤ it.amount (pos 0)) Code.validation
    >> sum_items rest (add64 subtotal it.amount)
        (if it.taxed then add64 taxed_sum it.amount else taxed_sum)

pub record Totals : Type 0 where
  pub discount : ℤ
  pub tax_rate : ℤ
  pub tax_total : ℤ
  pub total : ℤ

abbrev pub clamp_to : ℤ → ℤ → ℤ
clamp_to limit x = if ltb_ℤ limit x then limit else x

abbrev pub at_least_zero : ℤ → ℤ
at_least_zero x = if ltb_ℤ x (pos 0) then pos 0 else x

module _ (f : Float) where
  -- The block under `taxEnabled && taxedSum > 0`.
  unfoldable pub invoice_totals : Settings → ℤ → ℤ → ℤ → Totals
  invoice_totals settings subtotal taxed_sum requested =
      let discount = clamp_to subtotal requested in
      let net = sub64 subtotal discount in
      let taxed_base = at_least_zero (sub64 taxed_sum discount) in
      let tax = (calc_tax f taxed_base (f.of_int settings.tax_rate) settings.tax_inclusive).tax in
      if settings.tax_enabled && ltb_ℤ (pos 0) taxed_sum && ltb_ℤ (pos 0) settings.tax_rate
      then record {
        discount = discount;
        tax_rate = settings.tax_rate;
        tax_total = tax;
        total = if settings.tax_inclusive then net else add64 net tax;
      }
      else record { discount = discount; tax_rate = pos 0; tax_total = pos 0; total = net }

  abbrev pub item_row : CreateInvoiceItem → InvoiceItem
  item_row it = record {
    invoice_id = 0;
    amount = it.amount;
    taxed = it.taxed;
    related_type = it.related_type;
    related_id = if it.related_id == 0 then none else some it.related_id;
  }

  abbrev invoice_row : ℕ → ℤ → Totals → ℕ → Invoice
  invoice_row client_id subtotal t due = record {
    id = 0;
    number = [];
    client_id = client_id;
    status = InvoiceStatus.unpaid;
    subtotal = subtotal;
    discount = t.discount;
    tax_rate = t.tax_rate;
    tax_total = t.tax_total;
    credit_applied = pos 0;
    total = t.total;
    due_date = due;
    paid_at = none;
  }

  -- `due.IsZero()` takes the configured number of days from today.
  abbrev due_day : Settings → Time → Option Time → ℕ
  due_day settings now none = day_number now + settings.invoice_due_days
  due_day settings now (some due) = day_number due

  -- The transaction: the counter gives the number, and the rows are written under it.
  unfoldable pub store_invoice : Time → Invoice → List InvoiceItem → Action Db Invoice
  store_invoice now inv items = next_number (invoice_counter_scope now) >>= λ n.
      insert_invoice (record inv { number = format_invoice_number now n }) items

  unfoldable pub create_invoice : Settings → Time → Bool → CreateInvoiceInput → Action Db Invoice
  create_invoice settings now in_tx input = do
    raise_if (input.client_id == 0) Code.validation
    raise_if (is_empty input.items) Code.validation
    raise_if (ltb_ℤ input.discount (pos 0)) Code.validation
    sums ← sum_items input.items (pos 0) (pos 0)
    client ← gets (λ db. db.clients input.client_id)
    or_raise client Code.not_found
    let totals = invoice_totals settings sums.0 sums.1 input.discount
    let row = invoice_row input.client_id sums.0 totals (due_day settings now input.due_date)
    within_tx in_tx (λ _. store_invoice now row (map item_row input.items))
