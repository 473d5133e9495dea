-- ===== src/Provisioning/Late.antt =====
-- Which services `AutoSuspend` of backend/internal/modules/provisioning/service.go puts on the queue,
-- described by the rows of the store.
use mathlib.Core.Logic.{◌↔◌}
use mathlib.Core.List.{Memᴰ}
use mathlib.Core.List.Memᴰ
use whcms.Base.{
  ℕ, ◌+◌, ◌≤◌, ◌<◌, ◌≡◌, refl, Bool, true, false, Option, none, some, List, [], ◌∷◌, any, ◌&&◌, inl,
  inr, arith, Bool-cases, Option-cases,
}
use whcms.Base.Action.{ok}
use whcms.Domain.Enums.{
  ServiceStatus, InvoiceStatus, RelatedType, ServiceStatus-discrete, InvoiceStatus-discrete,
  RelatedType-discrete,
}
use whcms.Domain.Calendar.{Time, day_number}
use whcms.Store.Tables.{Db, Service, Invoice, InvoiceItem}
use whcms.Store.Invoices.{points_at}
use whcms.Store.Listing.{under, passes}
use whcms.Provisioning.World.{World, Outside}
use whcms.Provisioning.Schedule.{auto_suspend, is_suspendable, is_long_overdue}
use whcms.Provisioning.Enqueued.{suspends, auto_suspend_lem}

-- The service is active, and an overdue invoice that fell due so many days ago, or more, has an item
-- that renews it.
pub record IsLate (today days id : ℕ) (db : Db) : Type 0 where
  pub service : Service
  pub found : db.services id ≡ some service
  pub active : service.status ≡ ServiceStatus.active
  pub item : InvoiceItem
  pub listed : Memᴰ item db.items
  pub kind : item.related_type ≡ RelatedType.service_renewal
  pub of_service : item.related_id ≡ some id
  pub invoice : Invoice
  pub billed : db.invoices item.invoice_id ≡ some invoice
  pub overdue : invoice.status ≡ InvoiceStatus.overdue
  pub due : invoice.due_date + days ≤ today

module _ {ℓ} {A : Type ℓ} (p : A → Bool) where
  any-found : (xs : List A) → any p xs ≡ true → (x : A) × Memᴰ x xs × (p x ≡ true)
  any-found [] h = cc
  any-found (x ∷ xs) h = elim (Bool-cases (p x)) [
    | inl e ↦ (x, Memᴰ.head refl, e)
    | inr e ↦ let (y, m, q) = any-found xs (rw e at h) in (y, Memᴰ.tail m, q)
  ]

  any-listed : (xs : List A) (x : A) → Memᴰ x xs → p x ≡ true → any p xs ≡ true
  any-listed [] x m h = absurd (Memᴰ.not-nil m)
  any-listed (y ∷ xs) x m h = elim (Memᴰ.cases_cons m) [
    | inl e ↦ rw (← e, h) refl
    | inr k ↦ let rest = any-listed xs x k h in ground (arith, rest)
  ]

points_at-fields :
    (id : ℕ) (it : InvoiceItem)
    → points_at RelatedType.service_renewal id it ≡ true
    → (it.related_type ≡ RelatedType.service_renewal) × (it.related_id ≡ some id)
points_at-fields id it h = elim (Option-cases it.related_id) [
  | inl e ↦ (ground arith, ground arith)
  | inr (k, e) ↦ (ground arith, ground arith)
]

long_overdue-fields :
    (today days : ℕ) (o : Option Invoice)
    → is_long_overdue today days o ≡ true
    → (inv : Invoice) × (o ≡ some inv)
      × (inv.status ≡ InvoiceStatus.overdue)
      × (inv.due_date + days ≤ today)
long_overdue-fields today days none h = cc
long_overdue-fields today days (some inv) h = (inv, refl, ground arith, ground arith)

module _ (today days id : ℕ) (db : Db) where
  row-IsLate :
      (s : Service)
      → db.services id ≡ some s
      → s.id ≡ id
      → is_suspendable today days db s ≡ true
      → IsLate today days id db
  row-IsLate s e own h =
      let test = λ (it : InvoiceItem).
        points_at RelatedType.service_renewal s.id it
        && is_long_overdue today days (db.invoices it.invoice_id) in
      let (it, m, q) = any-found test db.items (ground arith) in
      let (kind, renews) = points_at-fields s.id it (ground arith) in
      let (inv, billed, overdue, due) =
        long_overdue-fields today days (db.invoices it.invoice_id) (ground arith) in
      record {
        service = s;
        found = e;
        active = ground arith;
        item = it;
        listed = m;
        kind = kind;
        of_service = ground arith;
        invoice = inv;
        billed = billed;
        overdue = overdue;
        due = due;
      }

  suspendable-IsLate :
      under (λ (s : Service). s.id) id (db.services id) ≡ true
      → passes (is_suspendable today days db) (db.services id) ≡ true
      → IsLate today days id db
  suspendable-IsLate keyed h = elim (Option-cases (db.services id)) [
    | inl e ↦ cc (e, h)
    | inr (s, e) ↦ row-IsLate s e (ground (arith, e, keyed)) (ground (arith, e, h))
  ]

  IsLate-suspendable :
      under (λ (s : Service). s.id) id (db.services id) ≡ true
      → IsLate today days id db
      → passes (is_suspendable today days db) (db.services id) ≡ true
  unfolding ServiceStatus-discrete InvoiceStatus-discrete RelatedType-discrete
  IsLate-suspendable keyed v =
      let test = λ (it : InvoiceItem).
        points_at RelatedType.service_renewal v.service.id it
        && is_long_overdue today days (db.invoices it.invoice_id) in
      let own : v.service.id ≡ id = ground (arith, v.found, keyed) in
      let met : test v.item ≡ true =
        rw (v.kind, v.of_service, v.billed, v.overdue) (ground (arith, own, v.due)) in
      let some_late = any-listed test db.items v.item v.listed met in
      rw (v.found, v.active, some_late) refl

-- Where every service stands under its own id and the run reports no error, a service whose id is in
-- use and that had no suspension on the queue has one afterwards exactly if it is active and an overdue invoice that renews it fell due at least `days` days before today.
pub auto_suspend-IsLate :
    (out : Outside) (now : Time) (days id n : ℕ) (w : World)
    → ((k : ℕ) → under (λ (s : Service). s.id) k (w.db.services k) ≡ true)
    → suspends id w.jobs ≡ false
    → id < w.db.next_service
    → (auto_suspend out now days w).0 ≡ ok (n, ok tt)
    → (suspends id (auto_suspend out now days w).1.jobs ≡ true)
      ↔ IsLate (day_number now) days id w.db
auto_suspend-IsLate out now days id n w keyed quiet in_use done =
    let sent = auto_suspend_lem out now days id n w keyed done in
    (
      λ h. suspendable-IsLate (day_number now) days id w.db (keyed id) (ground (arith, sent, h)),
      λ v.
          let late = IsLate-suspendable (day_number now) days id w.db (keyed id) v in
          ground (arith, sent, late),
    )
