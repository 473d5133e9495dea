-- ===== src/Orders/ActivatedOnce.antt =====
-- `ActivateOrder` of backend/internal/modules/orders/activate.go, called again.
use whcms.Base.{
  ℕ, ◌≡◌, ◌≢◌, refl, Bool, true, some, same, arith, inl, inr, Bool-cases, Option-cases,
}
use whcms.Base.Action.{Result, ok, err, Code, ◌>>=◌, pure, raise, bind_ok, bind_err}
use whcms.Base.Keeps.{Result-cases}
use whcms.Base.Ensures.{Ensures, last-Ensures, then_last-Ensures, within_tx-Ensures}
use whcms.Domain.Enums.{OrderStatus, OrderStatus-discrete}
use whcms.Domain.Calendar.{Time}
use whcms.Domain.StateMachine.{transition_order}
use whcms.Store.Tables.{Db, Order}
use whcms.Store.Orders.{get_order, get_order_found, get_order-cases, update_order_status}
use whcms.Orders.Activate.{Outside, move_order, activate_in_tx, activate_pending, activate_order}

not_ok {ℓ} : {A : Type ℓ} {a : A} (c : Code) → ◌≢◌ {A = Result A} (err c) (ok a)
not_ok c h = cc

active_status :
    (s : OrderStatus)
    → s ≡ OrderStatus.active
    → same OrderStatus-discrete s OrderStatus.active ≡ true
unfolding OrderStatus-discrete
active_status s e = rw e refl

transition_order_to : (from to r : OrderStatus) → transition_order from to ≡ ok r → r ≡ to
unfolding transition_order
transition_order_to from to r e = ground (arith, e)

-- The row of an order is there and active.
pub record IsActive (id : ℕ) (db : Db) : Type 0 where
  pub row : Order
  pub found : db.orders id ≡ some row
  pub active : row.status ≡ OrderStatus.active

update_order_status-IsActive :
    (id : ℕ) → Ensures (IsActive id) (update_order_status id OrderStatus.active)
unfolding update_order_status
update_order_status-IsActive id = record {
  at = λ db a. elim (Option-cases (db.orders id)) [
    | inl e ↦ rw (e, update_order_status) (λ h. absurd (not_ok Code.not_found h))
    | inr (o, e) ↦
        rw (e, update_order_status)
          (λ h. record {
            row = record o { status = OrderStatus.active };
            found = ground arith;
            active = refl;
          })
  ];
}

status_active :
    (s : OrderStatus)
    → same OrderStatus-discrete s OrderStatus.active ≡ true
    → s ≡ OrderStatus.active
status_active s e = ground arith

module _ (out : Outside) where
  move_then-IsActive :
      (id : ℕ) (from : OrderStatus)
      → Ensures
          (IsActive id)
          (move_order out from OrderStatus.active >>= λ next. update_order_status id next)
  unfolding move_order ◌>>=◌
  move_then-IsActive id from = record {
    at = λ db a. elim (Result-cases (transition_order from OrderStatus.active)) [
      | inl (r, e) ↦
          rw (e, ◌>>=◌, transition_order_to from OrderStatus.active r e)
            (λ h. (update_order_status-IsActive id).at db a h)
      | inr (c, e) ↦ rw (e, ◌>>=◌) (λ h. absurd (not_ok c h))
    ];
  }

  activate_pending-IsActive :
      (in_tx : Bool) (today : Time) (id : ℕ) (order : Order)
      → Ensures (IsActive id) (activate_pending out in_tx today id order)
  unfolding activate_pending activate_in_tx
  activate_pending-IsActive in_tx today id order = last-Ensures _ _ λ client.
      then_last-Ensures _ _ (
        last-Ensures _ _ λ items. last-Ensures _ _ λ coupon.
          within_tx-Ensures in_tx _ (then_last-Ensures _ _ (move_then-IsActive id order.status)))

  activate_order_active :
      (in_tx : Bool) (today : Time) (id : ℕ) (db : Db)
      → IsActive id db
      → activate_order out in_tx today id db ≡ (ok tt, db)
  unfolding activate_order pure
  activate_order_active in_tx today id db v =
      rw
        (
          bind_ok (get_order id) _ db v.row db (get_order_found id db v.row v.found),
          active_status v.row.status v.active,
        )
        refl

  activate_order-IsActive :
      (in_tx : Bool) (today : Time) (id : ℕ)
      → Ensures (IsActive id) (activate_order out in_tx today id)
  unfolding activate_order pure raise
  activate_order-IsActive in_tx today id = record {
    at = λ db a. elim (get_order-cases id db) [
      | inr e ↦
          rw (bind_err (get_order id) _ db Code.not_found db e)
            (λ h. absurd (not_ok Code.not_found h))
      | inl (o, found, e) ↦
          rw (bind_ok (get_order id) _ db o db e)
            (elim (Bool-cases (same OrderStatus-discrete o.status OrderStatus.active)) [
              | inl done ↦
                  rw done
                    (λ h. record { row = o; found = found; active = status_active o.status done })
              | inr other ↦
                  elim (Bool-cases (same OrderStatus-discrete o.status OrderStatus.pending)) [
                    | inl waits ↦
                        rw (other, waits)
                          (λ h. (activate_pending-IsActive in_tx today id o).at db a h)
                    | inr closed ↦ rw (other, closed) (λ h. absurd (not_ok Code.conflict h))
                  ]
            ])
    ];
  }

  -- An order that has been activated is not activated again: no second service or domain is made.
  pub activate_order_again :
      (in_tx again : Bool) (today later : Time) (id : ℕ) (db : Db)
      → (activate_order out in_tx today id db).0 ≡ ok tt
      → let after = (activate_order out in_tx today id db).1 in
        activate_order out again later id after ≡ (ok tt, after)
  activate_order_again in_tx again today later id db h =
      activate_order_active again later id (activate_order out in_tx today id db).1
        ((activate_order-IsActive in_tx today id).at db tt h)
