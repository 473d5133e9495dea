-- ===== src/Store/Keyed.antt =====
-- The invoices table under its primary key and its sequence (backend/internal/modules/billing/repo.go).
use whcms.Base.{ℕ, ◌≡◌, Bool, true, ◌&&◌, Option, none, some, List, ltb, arith, ◌==◌}
use whcms.Base.Text.{Text}
use whcms.Base.Action.{modify}
use whcms.Base.Keeps.{Keeps, keeps_rules}
use whcms.Domain.Enums.{InvoiceStatus}
use whcms.Domain.Calendar.{Time}
use whcms.Store.Tables.{Db, Invoice, InvoiceItem}
use whcms.Store.Invoices.{
  get_invoice, add_item, update_status, update_invoice, insert_invoice, next_number,
}

-- A row stands under its own id, which was drawn from the sequence.
abbrev pub stands : ℕ → ℕ → Option Invoice → Bool
stands next k none = true
stands next k (some inv) = inv.id == k && ltb k next

pub record IsKeyed (db : Db) : Type 0 where
  pub row : (k : ℕ) → stands db.next_invoice k (db.invoices k) ≡ true

pub update_status-IsKeyed :
    (id : ℕ) (s : InvoiceStatus) (t : Option Time) → Keeps IsKeyed (update_status id s t)
unfolding update_status
update_status-IsKeyed id s t = record {
  at = λ db v. record { row = λ k. ground (arith, v.row k, v.row id) };
}

pub update_invoice-IsKeyed : (inv : Invoice) → Keeps IsKeyed (update_invoice inv)
unfolding update_invoice
update_invoice-IsKeyed inv = record {
  at = λ db v. record { row = λ k. ground (arith, v.row k, v.row inv.id) };
}

pub add_item-IsKeyed : (it : InvoiceItem) → Keeps IsKeyed (add_item it)
unfolding add_item modify
add_item-IsKeyed it = record { at = λ db v. record { row = v.row } }

pub insert_invoice-IsKeyed :
    (inv : Invoice) (items : List InvoiceItem) → Keeps IsKeyed (insert_invoice inv items)
unfolding insert_invoice
insert_invoice-IsKeyed inv items = record {
  at = λ db v. record { row = λ k. ground (arith, v.row k) };
}

pub next_number-IsKeyed : (scope : Text) → Keeps IsKeyed (next_number scope)
unfolding next_number
next_number-IsKeyed scope = record { at = λ db v. record { row = v.row } }

pub get_invoice-IsKeyed : (id : ℕ) → Keeps IsKeyed (get_invoice id)
unfolding get_invoice
get_invoice-IsKeyed id = search keeps_rules

pub stored_row-IsKeyed :
    (id : ℕ) (db : Db) (inv : Invoice) → IsKeyed db → db.invoices id ≡ some inv → inv.id ≡ id
stored_row-IsKeyed id db inv v e = ground (arith, v.row id, e)
