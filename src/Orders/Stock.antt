-- ===== src/Orders/Stock.antt =====
-- Taking stock (`DecrementStock` of backend/internal/modules/catalog/repo.go) and giving it back
-- (`RestoreStock` of backend/internal/modules/orders/repo.go), for one list of products.
use whcms.Base.{
  ℕ, suc, ◌+◌, ◌≡◌, ◌≢◌, refl, ap, ◌∙◌, Bool, false, Option, none, some, List, [], ◌∷◌, ◌==◌,
  if◌then◌else◌, arith, inl, inr, Option-cases,
}
use whcms.Base.Action.{Result, ok, err, Code, ◌>>◌, pure, bind_ok, bind_err}
use whcms.Base.Keeps.{Result-cases}
use whcms.Store.Tables.{Db, Product}
use whcms.Store.Orders.{restore_stock, decrement_stock}
use whcms.Orders.Close.{restore_all, take_all}

-- How often a product stands in a list.
abbrev times : ℕ → List ℕ → ℕ
times k [] = 0
times k (id ∷ rest) = let n = times k rest in if id == k then suc n else n

abbrev pub quantity : Option Product → ℕ
quantity none = 0
quantity (some p) = p.stock_qty

abbrev is_tracked : Option Product → Bool
is_tracked none = false
is_tracked (some p) = p.stock_enabled

-- The pieces of a product that so many orders of it take.
abbrev pieces : Option Product → ℕ → ℕ
pieces o n = if is_tracked o then n else 0

abbrev one_if : Bool → ℕ
one_if b = if b then 1 else 0

restore_stock_row :
    (id k : ℕ) (db : Db)
    → let after = (restore_stock id db).1.products k in
      (is_tracked after ≡ is_tracked (db.products k))
      × (quantity after ≡ quantity (db.products k) + pieces (db.products k) (one_if (id == k)))
unfolding restore_stock
restore_stock_row id k db = elim (Option-cases (db.products id)) [
  | inl e ↦ (ground (arith, e), ground (arith, e))
  | inr (p, e) ↦ (ground (arith, e), ground (arith, e))
]

restore_stock_ok : (id : ℕ) (db : Db) → (restore_stock id db).0 ≡ ok tt
unfolding restore_stock
restore_stock_ok id db = ground arith

decrement_stock_row :
    (id k : ℕ) (db : Db)
    → (decrement_stock id db).0 ≡ ok tt
    → let after = (decrement_stock id db).1.products k in
      (is_tracked after ≡ is_tracked (db.products k))
      × (quantity after + pieces (db.products k) (one_if (id == k)) ≡ quantity (db.products k))
unfolding decrement_stock
decrement_stock_row id k db h = elim (Option-cases (db.products id)) [
  | inl e ↦ (ground (arith, e), ground (arith, e))
  | inr (p, e) ↦ (ground (arith, e), ground (arith, e))
]

restore_all_row :
    (ids : List ℕ) (k : ℕ) (db : Db)
    → quantity ((restore_all ids db).1.products k)
      ≡ quantity (db.products k) + pieces (db.products k) (times k ids)
unfolding restore_all pure ◌>>◌
restore_all_row [] k db = ground arith
restore_all_row (id ∷ rest) k db =
    let s = (restore_stock id db).1 in
    let (same_one, one) = restore_stock_row id k db in
    let more = restore_all_row rest k s in
    rw
      (bind_ok (restore_stock id) (λ _. restore_all rest) db tt s
        (ap (λ r. (r, s)) (restore_stock_ok id db)))
      (ground (arith, more, one, same_one))

not_taken : (c : Code) → ◌≢◌ {A = Result (Unit {0})} (err c) (ok tt)
not_taken c h = cc

take_all_row :
    (ids : List ℕ) (k : ℕ) (db : Db)
    → (take_all ids db).0 ≡ ok tt
    → let after = (take_all ids db).1.products k in
      (is_tracked after ≡ is_tracked (db.products k))
      × (quantity after + pieces (db.products k) (times k ids) ≡ quantity (db.products k))
unfolding take_all pure ◌>>◌
take_all_row [] k db = λ h. (refl, ground arith)
take_all_row (id ∷ rest) k db =
    let s = (decrement_stock id db).1 in
    elim (Result-cases (decrement_stock id db).0) [
      | inr (c, e) ↦
          rw (bind_err (decrement_stock id) (λ _. take_all rest) db c s (ap (λ r. (r, s)) e))
            (λ h. absurd (not_taken c h))
      | inl (u, e) ↦
          let (same_one, one) = decrement_stock_row id k db e in
          rw (bind_ok (decrement_stock id) (λ _. take_all rest) db tt s (ap (λ r. (r, s)) e)) λ h.
            let (same_rest, more) = take_all_row rest k s h in
            (same_rest ∙ same_one, ground (arith, more, one, same_one))
    ]

-- After the stock of a list of products has been taken, to restore that list brings every product back
-- to its quantity.
pub restore_all-take_all :
    (ids : List ℕ) (k : ℕ) (db : Db)
    → (take_all ids db).0 ≡ ok tt
    → quantity ((restore_all ids (take_all ids db).1).1.products k) ≡ quantity (db.products k)
restore_all-take_all ids k db h =
    let after = (take_all ids db).1 in
    let (tracked, left) = take_all_row ids k db h in
    restore_all_row ids k after ∙ ground (arith, tracked, left)
