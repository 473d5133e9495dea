-- ===== src/Store/Orders.antt =====
-- backend/internal/modules/orders/repo.go, `DecrementStock` and `IncrementUsage` of
-- backend/internal/modules/catalog/repo.go, and `Create` of the repositories of services and domains.
use whcms.Base.{
  ◌⊎◌, inl, inr, Option-cases, ℕ, suc, ◌+◌, ◌-◌, ◌≡◌, ap, Bool, true, false, not, ◌&&◌, ◌||◌,
  Option, none, some, List, [], ◌∷◌, ◌++◌, length, ◌==◌, ltb, if◌then◌else◌, find, select,
  update_where, same, is_empty,
}
use whcms.Base.Text.{eqb_text}
use whcms.Store.Listing.{rows_below}
use whcms.Base.Action.{Action, ok, err, Code, ◌>>=◌, or_raise, gets}
use whcms.Domain.Enums.{OrderStatus, DomainStatus, RelatedType, RelatedType-discrete}
use whcms.Store.Tables.{Db, Order, OrderItem, InvoiceItem, Product, Coupon, Service, Domain, put}

unfoldable pub get_order : ℕ → Action Db Order
get_order id = do or_raise (← gets (λ db. db.orders id)) Code.not_found

-- The list of rows is in the order of their ids.
unfoldable pub get_order_items : ℕ → Action Db (List OrderItem)
get_order_items id = gets λ db. select (λ it. it.order_id == id) db.order_items

abbrev order_of : Option OrderItem → Option ℕ
order_of none = none
order_of (some it) = some it.order_id

unfoldable pub order_id_for_order_item : ℕ → Action Db ℕ
order_id_for_order_item id = do
  or_raise (← gets (λ db. order_of (find (λ it. it.id == id) db.order_items))) Code.not_found

unfoldable pub update_order_status : ℕ → OrderStatus → Action Db (Unit {0})
update_order_status id status db = elim (db.orders id) [
  | none ↦ (err Code.not_found, db)
  | some o ↦ (ok tt, record db { orders = put db.orders id (record o { status = status }) })
]

-- `COALESCE`
abbrev pub given : Option ℕ → Option ℕ → Option ℕ
given none old = old
given (some id) old = some id

abbrev pub with_refs : Option ℕ → Option ℕ → OrderItem → OrderItem
with_refs service domain it = record it {
  service_id = given service it.service_id;
  domain_id = given domain it.domain_id;
}

abbrev pub update_if_found : Option OrderItem → ℕ → Option ℕ → Option ℕ → Action Db (Unit {0})
update_if_found none id service domain db = (err Code.not_found, db)
update_if_found (some it) id service domain db = (
  ok tt,
  record db {
    order_items =
        update_where (λ (r : OrderItem). r.id == id) (with_refs service domain) db.order_items;
  },
)

unfoldable pub update_item_back_refs : ℕ → Option ℕ → Option ℕ → Action Db (Unit {0})
update_item_back_refs id service domain db =
    update_if_found (find (λ (r : OrderItem). r.id == id) db.order_items) id service domain db

abbrev bills_order : List OrderItem → ℕ → InvoiceItem → Bool
bills_order rows order_id it =
    same RelatedType-discrete it.related_type RelatedType.order_item && elim it.related_id [
      | none ↦ false
      | some k ↦ elim (find (λ (r : OrderItem). r.id == k && r.order_id == order_id) rows) [
        | none ↦ false
        | some r ↦ true
      ]
    ]

abbrev smaller : ℕ → ℕ → ℕ
smaller a b = if a == 0 || ltb b a then b else a

-- The least invoice id, or 0.
abbrev least_invoice : List InvoiceItem → ℕ
least_invoice [] = 0
least_invoice (it ∷ rest) = smaller (least_invoice rest) it.invoice_id

unfoldable pub invoice_id_for_order : ℕ → Action Db ℕ
invoice_id_for_order id = gets λ db. least_invoice (select (bills_order db.order_items id) db.items)

abbrev pub restocked : Product → Product
restocked p = record p { stock_qty = suc p.stock_qty }

-- No row is no error.
unfoldable pub restore_stock : ℕ → Action Db (Unit {0})
restore_stock id db = elim (db.products id) [
  | none ↦ (ok tt, db)
  | some p ↦
      if p.stock_enabled
      then (ok tt, record db { products = put db.products id (restocked p) })
      else (ok tt, db)
]

abbrev pub taken : Product → Product
taken p = record p { stock_qty = p.stock_qty - 1 }

unfoldable pub decrement_stock : ℕ → Action Db (Unit {0})
decrement_stock id db = elim (db.products id) [
  | none ↦ (err Code.not_found, db)
  | some p ↦
      if not p.stock_enabled
      then (ok tt, db)
      else (if ltb 0 p.stock_qty
          then (ok tt, record db { products = put db.products id (taken p) })
          else (err Code.conflict, db))
]

abbrev pub used_once_more : Coupon → Coupon
used_once_more c = record c { used_count = suc c.used_count }

unfoldable pub increment_usage : ℕ → Action Db (Unit {0})
increment_usage id db = elim (db.coupons id) [
  | none ↦ (err Code.not_found, db)
  | some c ↦
      if c.max_uses == 0 || ltb c.used_count c.max_uses
      then (ok tt, record db { coupons = put db.coupons id (used_once_more c) })
      else (err Code.conflict, db)
]

unfoldable pub insert_service : Service → Action Db ℕ
insert_service svc db = (
  ok db.next_service,
  record db {
    services = put db.services db.next_service (record svc { id = db.next_service });
    next_service = suc db.next_service;
  },
)

-- A name is free again when its domain is cancelled or rejected.
abbrev pub holds_name : DomainStatus → Bool
holds_name DomainStatus.cancelled = false
holds_name DomainStatus.rejected = false
holds_name _ = true

-- The index `domains_name_active_uniq`.
abbrev pub name_taken : Domain → Db → Bool
name_taken d db =
    holds_name d.status
    && not (
        is_empty (
          rows_below db.domains (λ e. eqb_text e.name d.name && holds_name e.status)
            db.next_domain))

unfoldable pub insert_domain : Domain → Action Db ℕ
insert_domain d db = if name_taken d db then (err Code.conflict, db) else (
  ok db.next_domain,
  record db {
    domains = put db.domains db.next_domain (record d { id = db.next_domain });
    next_domain = suc db.next_domain;
  },
)

-- The items with the order's id and the ids that they draw.
abbrev numbered : ℕ → ℕ → List OrderItem → List OrderItem
numbered order_id next [] = []
numbered order_id next (it ∷ rest) =
    record it { id = next; order_id = order_id } ∷ numbered order_id (suc next) rest

unfoldable pub insert_order : Order → List OrderItem → Action Db (Order × List OrderItem)
insert_order o items db =
    let row = record o { id = db.next_order } in
    let rows = numbered db.next_order db.next_order_item items in
    (
      ok (row, rows),
      record db {
        orders = put db.orders db.next_order row;
        next_order = suc db.next_order;
        order_items = db.order_items ++ rows;
        next_order_item = db.next_order_item + length items;
      },
    )

pub get_order_found :
    (id : ℕ) (db : Db) (o : Order) → db.orders id ≡ some o → get_order id db ≡ (ok o, db)
unfolding get_order ◌>>=◌
get_order_found id db o e = ap (λ r. or_raise r Code.not_found db) e

pub get_order-cases :
    (id : ℕ) (db : Db)
    → ((o : Order) × (db.orders id ≡ some o) × (get_order id db ≡ (ok o, db)))
      ⊎ (get_order id db ≡ (err Code.not_found, db))
unfolding get_order ◌>>=◌
get_order-cases id db = elim (Option-cases (db.orders id)) [
  | inl e ↦ inr (ap (λ o. or_raise o Code.not_found db) e)
  | inr (o, e) ↦ inl (o, e, get_order_found id db o e)
]
