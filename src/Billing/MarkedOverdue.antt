-- ===== src/Billing/MarkedOverdue.antt =====
-- What a run of `MarkOverdue` of backend/internal/modules/billing/service.go does to every invoice.
use whcms.Base.{
  ℕ, ◌-◌, ◌≡◌, refl, ap, ◌∙◌, Bool, true, ◌&&◌, Option, none, some, List, [], ◌∷◌, if◌then◌else◌,
  ltb, leb, ◌==◌, any, All, All-mono, arith, inl, inr, same, Option-cases,
}
use whcms.Base.Action.{Result, ok, ◌>>=◌, ◌>>◌, pure, bind_ok}
use whcms.Base.Each.{count_each, count_each_store}
use whcms.Domain.Enums.{InvoiceStatus, InvoiceStatus-discrete}
use whcms.Domain.StateMachine.{transition_invoice, invoice_can_transition}
use whcms.Store.Tables.{Db, Invoice}
use whcms.Store.Invoices.{update_status, with_status, list_due_for_status}
use whcms.Store.Listing.{
  passes, under, rows_below, sort_by, any-sort_by, any-rows_below, listed-All,
}
use whcms.Store.Keyed.{IsKeyed, stands}
use whcms.Billing.Cancel.{move_invoice}
use whcms.Billing.Overdue.{mark_one, mark_overdue}

abbrev pub marked : Invoice → Invoice
marked inv = with_status InvoiceStatus.overdue none inv

abbrev marked_row : Option Invoice → Option Invoice
marked_row none = none
marked_row (some inv) = some (marked inv)

abbrev marked_if : Bool → Option Invoice → Option Invoice
marked_if b o = if b then marked_row o else o

move_from_unpaid :
    (s : InvoiceStatus) (db : Db)
    → s ≡ InvoiceStatus.unpaid
    → move_invoice s InvoiceStatus.overdue db ≡ (ok InvoiceStatus.overdue, db)
unfolding move_invoice transition_invoice invoice_can_transition
move_from_unpaid s db e = rw e refl

update_status_row :
    (id k : ℕ) (db : Db)
    → ((update_status id InvoiceStatus.overdue none >> pure true) db).1.invoices k
      ≡ marked_if (id == k) (db.invoices k)
unfolding update_status ◌>>◌
update_status_row id k db = elim (Option-cases (db.invoices id)) [
  | inl e ↦ ground (arith, e)
  | inr (inv, e) ↦ ground (arith, e)
]

mark_one_store :
    (x : Invoice) (k : ℕ) (db : Db)
    → x.status ≡ InvoiceStatus.unpaid
    → (mark_one x db).1.invoices k ≡ marked_if (x.id == k) (db.invoices k)
unfolding mark_one
mark_one_store x k db e =
    ap (λ (p : Result Bool × Db). p.1.invoices k)
      (bind_ok (move_invoice x.status InvoiceStatus.overdue) _ db InvoiceStatus.overdue db
        (move_from_unpaid x.status db e))
    ∙ update_status_row x.id k db

marked_twice :
    (a b : Bool) (o : Option Invoice)
    → marked_if b (marked_if a o) ≡ marked_if (if a then true else b) o
marked_twice a b none = ground arith
marked_twice a b (some inv) = ground arith

mark_all_store :
    (xs : List Invoice) (k : ℕ) (db : Db)
    → All (λ (x : Invoice). x.status ≡ InvoiceStatus.unpaid) xs
    → (count_each mark_one xs db).1.invoices k
      ≡ marked_if (any (λ (x : Invoice). x.id == k) xs) (db.invoices k)
unfolding count_each
mark_all_store [] k db h = refl
mark_all_store (x ∷ xs) k db h =
    ap (λ (s : Db). s.invoices k) (count_each_store mark_one x xs db)
    ∙ mark_all_store xs k (mark_one x db).1 h.1
    ∙ ap (marked_if (any (λ (x : Invoice). x.id == k) xs)) (mark_one_store x k db h.0)
    ∙ marked_twice (x.id == k) (any (λ (x : Invoice). x.id == k) xs) (db.invoices k)

abbrev pub is_due : ℕ → Invoice → Bool
is_due today inv =
    same InvoiceStatus-discrete inv.status InvoiceStatus.unpaid && leb inv.due_date (today - 1)

abbrev pub after_marking : ℕ → Option Invoice → Option Invoice
after_marking today none = none
after_marking today (some inv) = some (if is_due today inv then marked inv else inv)

same-InvoiceStatus : (a b : InvoiceStatus) → same InvoiceStatus-discrete a b ≡ true → a ≡ b
same-InvoiceStatus a b h = ground arith

is_due-unpaid : (today : ℕ) (x : Invoice) → is_due today x ≡ true → x.status ≡ InvoiceStatus.unpaid
is_due-unpaid today x h = same-InvoiceStatus x.status InvoiceStatus.unpaid (ground arith)

row-stands :
    (next k : ℕ) (o : Option Invoice)
    → stands next k o ≡ true
    → under (λ (x : Invoice). x.id) k o ≡ true
row-stands next k none h = refl
row-stands next k (some inv) h = ground arith

marked_if_listed :
    (today next k : ℕ) (o : Option Invoice)
    → stands next k o ≡ true
    → marked_if (ltb k next && passes (is_due today) o) o ≡ after_marking today o
marked_if_listed today next k none h = ground arith
marked_if_listed today next k (some inv) h = ground arith

-- A run marks exactly the unpaid invoices that were due before today, and leaves every other
-- invoice as it was, where every invoice stands under its own id.
pub mark_overdue_complete :
    (today k : ℕ) (db : Db)
    → IsKeyed db
    → (mark_overdue today db).1.invoices k ≡ after_marking today (db.invoices k)
unfolding mark_overdue list_due_for_status ◌>>=◌
mark_overdue_complete today k db v =
    let due = rows_below db.invoices (is_due today) db.next_invoice in
    mark_all_store (sort_by (λ (x : Invoice). x.due_date) due) k db (
      All-mono _ _ _ (is_due-unpaid today)
        (listed-All (λ (x : Invoice). x.due_date) db.invoices (is_due today) db.next_invoice))
    ∙ ap (λ b. marked_if b (db.invoices k))
        (any-sort_by (λ (x : Invoice). x.id == k) (λ (x : Invoice). x.due_date) due
          ∙ any-rows_below (λ (x : Invoice). x.id) db.invoices (is_due today) k db.next_invoice
              (λ j. row-stands db.next_invoice j (db.invoices j) (v.row j)))
    ∙ marked_if_listed today db.next_invoice k (db.invoices k) (v.row k)
