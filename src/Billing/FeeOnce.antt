-- ===== src/Billing/FeeOnce.antt =====
-- Late fees (`ApplyLateFees` of backend/internal/modules/billing/service.go): how many an invoice has.
use whcms.Base.{
  subst, ℕ, suc, ◌≤◌, ◌≡◌, refl, sym, Bool, true, false, ◌&&◌, some, List, [], ◌∷◌, ◌++◌,
  if◌then◌else◌, ◌==◌, any, select, arith, inl, inr, Bool-cases, same,
}
use whcms.Base.Int.{ℤ}
use whcms.Base.Action.{Code, ◌>>=◌, ◌>>◌, pure, bind_ok, bind_err, within_tx}
use whcms.Base.Keeps.{Keeps, keeps_rules, rollback_either, if-Keeps}
use whcms.Base.Each.{count_each-Keeps}
use whcms.Domain.Enums.{InvoiceStatus, InvoiceStatus-discrete, RelatedType-discrete}
use whcms.Store.Tables.{Db, Invoice, InvoiceItem}
use whcms.Store.Invoices.{
  get_invoice, get_invoice_found, get_invoice-cases, get_items, add_item, update_invoice,
  list_due_for_status,
}
use whcms.Store.Keyed.{IsKeyed, add_item-IsKeyed, update_invoice-IsKeyed, stored_row-IsKeyed}
use whcms.Billing.Overdue.{
  is_late_fee, fee_item, with_fee, charge_fee, charge_if_overdue, late_fee_one, apply_late_fees,
}

abbrev pub fee_count : ℕ → List InvoiceItem → ℕ
fee_count id [] = 0
fee_count id (it ∷ rest) =
    let n = fee_count id rest in if it.invoice_id == id && is_late_fee it then suc n else n

-- No invoice has two late fees.
pub record IsChargedOnce (db : Db) : Type 0 where
  pub keyed : IsKeyed db
  pub once : (id : ℕ) → fee_count id db.items ≤ 1

fee_count-snoc :
    (id k : ℕ) (fee : ℤ) (items : List InvoiceItem)
    → fee_count k (items ++ (fee_item id fee ∷ []))
      ≡ (if id == k then suc (fee_count k items) else fee_count k items)
unfolding RelatedType-discrete
fee_count-snoc id k fee [] = ground arith
fee_count-snoc id k fee (it ∷ items) = ground (arith, fee_count-snoc id k fee items)

fee_count_none :
    (id : ℕ) (items : List InvoiceItem)
    → any is_late_fee (select (λ (it : InvoiceItem). it.invoice_id == id) items) ≡ false
    → fee_count id items ≡ 0
fee_count_none id [] h = refl
fee_count_none id (it ∷ items) h = ground (arith, fee_count_none id items)

update_invoice_items : (inv : Invoice) (db : Db) → (update_invoice inv db).1.items ≡ db.items
unfolding update_invoice
update_invoice_items inv db = ground arith

charge_fee-IsKeyed : (fee : ℤ) (inv : Invoice) → Keeps IsKeyed (charge_fee fee inv)
unfolding charge_fee
charge_fee-IsKeyed fee inv = search (keeps_rules, add_item-IsKeyed, update_invoice-IsKeyed)

charge_fee_items :
    (fee : ℤ) (inv : Invoice) (db : Db)
    → (charge_fee fee inv db).1.items ≡ db.items ++ (fee_item inv.id fee ∷ [])
unfolding charge_fee add_item update_invoice ◌>>◌
charge_fee_items fee inv db = ground arith

charge_fee-IsChargedOnce :
    (fee : ℤ) (inv : Invoice) (db : Db)
    → IsChargedOnce db
    → fee_count inv.id db.items ≡ 0
    → IsChargedOnce (charge_fee fee inv db).1
charge_fee-IsChargedOnce fee inv db v free = record {
  keyed = (charge_fee-IsKeyed fee inv).at db v.keyed;
  once = λ k.
      rw (charge_fee_items fee inv db, fee_count-snoc inv.id k fee db.items)
        (ground (arith, v.once k, free));
}

charge_if_overdue-IsChargedOnce :
    (fee : ℤ) (id : ℕ) (db : Db)
    → IsChargedOnce db
    → fee_count id db.items ≡ 0
    → IsChargedOnce (charge_if_overdue fee id db).1
unfolding charge_if_overdue pure
charge_if_overdue-IsChargedOnce fee id db v free = elim (get_invoice-cases id db) [
  | inl (inv, found, e) ↦
      rw (bind_ok (get_invoice id) _ db inv db e)
        (elim (Bool-cases (same InvoiceStatus-discrete inv.status InvoiceStatus.overdue)) [
          | inl late ↦ rw late (
              charge_fee-IsChargedOnce fee inv db v
                (rw (stored_row-IsKeyed id db inv v.keyed found) free))
          | inr other ↦ rw other v
        ])
  | inr e ↦ rw (bind_err (get_invoice id) _ db Code.not_found db e) v
]

late_fee_one-IsChargedOnce : (fee : ℤ) (inv : Invoice) → Keeps IsChargedOnce (late_fee_one fee inv)
unfolding late_fee_one get_items ◌>>=◌ within_tx
late_fee_one-IsChargedOnce fee inv = record {
  at = λ db v.
      elim (Bool-cases
        (any is_late_fee (select (λ (it : InvoiceItem). it.invoice_id == inv.id) db.items))) [
          | inl e ↦ rw e v
          | inr e ↦ rw e (
              rollback_either IsChargedOnce (charge_if_overdue fee inv.id) db v (
                charge_if_overdue-IsChargedOnce fee inv.id db v (fee_count_none inv.id db.items e)))
        ];
}

-- The job never gives an invoice a second late fee, however often it runs.
pub apply_late_fees-IsChargedOnce :
    (enabled : Bool) (fee : ℤ) (today : ℕ) → Keeps IsChargedOnce (apply_late_fees enabled fee today)
unfolding apply_late_fees list_due_for_status
apply_late_fees-IsChargedOnce enabled fee today =
    search (keeps_rules, if-Keeps, count_each-Keeps, late_fee_one-IsChargedOnce)

-- An invoice that is still overdue, with a number of late fees on it.
record IsCharged (id fees : ℕ) (db : Db) : Type 0 where
  row : Invoice
  found : db.invoices id ≡ some row
  own_id : row.id ≡ id
  late : row.status ≡ InvoiceStatus.overdue
  charged : fee_count id db.items ≡ fees

abbrev charged_row : ℤ → Invoice → Invoice → Invoice
charged_row fee inv old = record (with_fee fee inv) {
  number = old.number;
  client_id = old.client_id;
}

charge_fee_row :
    (fee : ℤ) (inv old : Invoice) (db : Db)
    → db.invoices inv.id ≡ some old
    → (charge_fee fee inv db).1.invoices inv.id ≡ some (charged_row fee inv old)
unfolding charge_fee add_item update_invoice ◌>>◌
charge_fee_row fee inv old db e = rw e (ground arith)

charge_fee-IsCharged :
    (fee : ℤ) (id fees : ℕ) (db : Db) (v : IsCharged id fees db)
    → IsCharged id (suc fees) (charge_fee fee v.row db).1
charge_fee-IsCharged fee id fees db v = record {
  row = charged_row fee v.row v.row;
  found =
      subst (λ k. (charge_fee fee v.row db).1.invoices k ≡ some (charged_row fee v.row v.row))
        v.own_id
        (charge_fee_row fee v.row v.row db
          (subst (λ k. db.invoices k ≡ some v.row) (sym v.own_id) v.found));
  own_id = v.own_id;
  late = v.late;
  charged =
      rw (charge_fee_items fee v.row db, fee_count-snoc v.row.id id fee db.items)
        (ground (arith, v.own_id, v.charged));
}

same_overdue :
    (s : InvoiceStatus)
    → s ≡ InvoiceStatus.overdue
    → same InvoiceStatus-discrete s InvoiceStatus.overdue ≡ true
unfolding InvoiceStatus-discrete
same_overdue s e = rw e refl

charge_if_overdue-IsCharged :
    (fee : ℤ) (id fees : ℕ) (db : Db)
    → IsCharged id fees db
    → IsCharged id (suc fees) (charge_if_overdue fee id db).1
unfolding charge_if_overdue
charge_if_overdue-IsCharged fee id fees db v =
    rw
      (
        bind_ok (get_invoice id) _ db v.row db (get_invoice_found id db v.row v.found),
        same_overdue v.row.status v.late,
      )
      (charge_fee-IsCharged fee id fees db v)

-- Two rounds that both looked for a fee before either had charged one: the transaction does not look
-- again, and the invoice has two.
pub charge_if_overdue_twice :
    (fee : ℤ) (inv : Invoice) (db : Db)
    → db.invoices inv.id ≡ some inv
    → inv.status ≡ InvoiceStatus.overdue
    → fee_count inv.id db.items ≡ 0
    → let first = (charge_if_overdue fee inv.id db).1 in
      fee_count inv.id (charge_if_overdue fee inv.id first).1.items ≡ 2
charge_if_overdue_twice fee inv db found late free =
    let v : IsCharged inv.id 0 db = record {
      row = inv;
      found = found;
      own_id = refl;
      late = late;
      charged = free;
    } in
    let one = charge_if_overdue-IsCharged fee inv.id 0 db v in
    (charge_if_overdue-IsCharged fee inv.id 1 (charge_if_overdue fee inv.id db).1 one).charged
