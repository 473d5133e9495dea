-- ===== src/Store/Invoices.antt =====
-- backend/internal/modules/billing/repo.go: invoices, their items, and the number counters.
use whcms.Base.{
  ℕ, suc, ◌≡◌, ap, ◌⊎◌, inl, inr, Option-cases, Bool, false, ◌&&◌, ◌||◌, Option, none, some, List,
  leb, [], ◌∷◌, ◌++◌, map, ◌==◌, if◌then◌else◌, any, select, same, take, reverse,
}
use whcms.Base.Text.{Text, eqb_text}
use whcms.Base.Action.{Action, ok, err, Code, ◌>>=◌, or_raise, gets, modify}
use whcms.Domain.Enums.{InvoiceStatus, RelatedType, InvoiceStatus-discrete, RelatedType-discrete}
use whcms.Domain.Calendar.{Time}
use whcms.Store.Listing.{rows_below, sort_by}
use whcms.Store.Tables.{Db, Invoice, InvoiceItem, put}

-- `GetByID`, and `GetByIDForUpdate`: one call runs at a time, so the row lock has no effect here.
unfoldable pub get_invoice : ℕ → Action Db Invoice
get_invoice id = do or_raise (← gets (λ db. db.invoices id)) Code.not_found

unfoldable pub get_items : ℕ → Action Db (List InvoiceItem)
get_items id = gets λ db. select (λ it. it.invoice_id == id) db.items

unfoldable pub add_item : InvoiceItem → Action Db (Unit {0})
add_item item = modify λ db. record db { items = db.items ++ (item ∷ []) }

-- `paid_at` changes only when a time is given.
abbrev pub with_status : InvoiceStatus → Option Time → Invoice → Invoice
with_status status paid_at inv = record inv {
  status = status;
  paid_at = elim paid_at [ none ↦ inv.paid_at | some t ↦ some t ];
}

unfoldable pub update_status : ℕ → InvoiceStatus → Option Time → Action Db (Unit {0})
update_status id status paid_at db = elim (db.invoices id) [
  | none ↦ (err Code.not_found, db)
  | some inv ↦ (ok tt, record db { invoices = put db.invoices id (with_status status paid_at inv) })
]

-- The number and the client of a row never change.
unfoldable pub update_invoice : Invoice → Action Db (Unit {0})
update_invoice inv db = elim (db.invoices inv.id) [
  | none ↦ (err Code.not_found, db)
  | some old ↦ (
    ok tt,
    record db {
      invoices =
          put db.invoices inv.id (record inv { number = old.number; client_id = old.client_id });
    },
  )
]

-- `Create`: the row gets the next id, and so do its items.
unfoldable pub insert_invoice : Invoice → List InvoiceItem → Action Db Invoice
insert_invoice inv new_items db =
    let row = record inv { id = db.next_invoice } in
    (
      ok row,
      record db {
        invoices = put db.invoices db.next_invoice row;
        next_invoice = suc db.next_invoice;
        items =
            db.items
            ++ map (λ (it : InvoiceItem). record it { invoice_id = db.next_invoice }) new_items;
      },
    )

-- The upsert of the counter's row; a scope that has none counts from 1.
unfoldable pub next_number : Text → Action Db ℕ
next_number scope db =
    let n = suc (db.counters scope) in
    (ok n, record db { counters = λ s. if eqb_text s scope then n else db.counters s })

abbrev pub is_open : Option Invoice → Bool
is_open none = false
is_open (some inv) =
    same InvoiceStatus-discrete inv.status InvoiceStatus.unpaid
    || same InvoiceStatus-discrete inv.status InvoiceStatus.overdue

abbrev pub points_at : RelatedType → ℕ → InvoiceItem → Bool
points_at type id it =
    same RelatedType-discrete it.related_type type
    && elim it.related_id [ none ↦ false | some k ↦ k == id ]

unfoldable pub has_open_renewal_invoice : RelatedType → ℕ → Action Db Bool
has_open_renewal_invoice type id =
    gets λ db. any (λ it. points_at type id it && is_open (db.invoices it.invoice_id)) db.items

-- `ListDueForStatus`
unfoldable pub list_due_for_status : InvoiceStatus → ℕ → Action Db (List Invoice)
list_due_for_status status before = gets λ db.
    sort_by (λ (inv : Invoice). inv.due_date)
      (rows_below db.invoices
        (λ inv. same InvoiceStatus-discrete inv.status status && leb inv.due_date before)
        db.next_invoice)

-- `ListByClient` with a status: the first page of 100 rows, `ORDER BY id DESC`.
unfoldable pub list_by_client : ℕ → InvoiceStatus → Action Db (List Invoice)
list_by_client client status = gets λ db. take 100 (
    reverse (
      rows_below db.invoices
        (λ inv.
          (client == 0 || inv.client_id == client) && same InvoiceStatus-discrete inv.status status)
        db.next_invoice))

-- `GetItemsByInvoiceIDs`
unfoldable pub get_items_by_invoice_ids : List ℕ → Action Db (List InvoiceItem)
get_items_by_invoice_ids ids =
    gets λ db. select (λ it. any (λ id. id == it.invoice_id) ids) db.items

pub get_invoice_found :
    (id : ℕ) (db : Db) (inv : Invoice)
    → db.invoices id ≡ some inv
    → get_invoice id db ≡ (ok inv, db)
unfolding get_invoice ◌>>=◌
get_invoice_found id db inv e = ap (λ o. or_raise o Code.not_found db) e

pub get_invoice-cases :
    (id : ℕ) (db : Db)
    → ((inv : Invoice) × (db.invoices id ≡ some inv) × (get_invoice id db ≡ (ok inv, db)))
      ⊎ (get_invoice id db ≡ (err Code.not_found, db))
unfolding get_invoice ◌>>=◌
get_invoice-cases id db = elim (Option-cases (db.invoices id)) [
  | inl e ↦ inr (ap (λ o. or_raise o Code.not_found db) e)
  | inr (inv, e) ↦ inl (inv, e, get_invoice_found id db inv e)
]
