-- ===== src/Snipe/CancelAndPay.antt =====
-- `CancelForClient` of backend/internal/modules/snipe/client.go closes an unpaid hunt before it voids
-- the invoice: what happens when the payment lands before or after that.
use whcms.Base.{
  ℕ, ◌≡◌, ◌≢◌, refl, Bool, true, false, not, ◌&&◌, none, some, [], ◌∷◌, ◌++◌, if◌then◌else◌, same,
  arith, is_empty,
}
use whcms.Base.Text.{bytes}
use whcms.Base.Int.{pos, leb_ℤ}
use whcms.Base.Action.{ok, ◌>>◌, pure, modify, bind_ok, rollback_ok}
use whcms.Domain.Enums.{SnipeStatus, SnipeStatus-discrete}
use whcms.Domain.StateMachine.{transition_snipe, snipe_can_transition}
use whcms.Store.Tables.{Db, DomainSnipe, SnipeEvent}
use whcms.Store.Snipes.{finish_snipe, add_event, finish_guard, finished, started, is_pending}
use whcms.Snipe.Refunds.{refund_for}
use whcms.Snipe.Lifecycle.{
  FinishOpts, paid_in, close, finish_in_tx, finish, activate_snipe_after_payment,
}
use whcms.Snipe.Races.{HasStatus, step_of, finish_ran, finish_late}
use whcms.Snipe.Activation.{
  IsGivenBack, activation_started, activation-IsGivenBack, with_snipe, put_same,
  update_snipe_if_hit, refund_due, is_settled,
}

-- The options of a cancellation that asks for no lease.
abbrev pub without_lease : FinishOpts → Bool
without_lease o = is_empty o.owner && not o.require_idle

waiting_status : (s : DomainSnipe) → is_pending s ≡ true → s.status ≡ SnipeStatus.pending_payment
waiting_status s h = ground arith

cancel_allowed :
    (status : SnipeStatus)
    → status ≡ SnipeStatus.pending_payment
    → transition_snipe status SnipeStatus.cancelled ≡ ok SnipeStatus.cancelled
unfolding transition_snipe snipe_can_transition
cancel_allowed status e = rw e refl

not_active :
    (status : SnipeStatus)
    → status ≡ SnipeStatus.pending_payment
    → same SnipeStatus-discrete status SnipeStatus.active ≡ false
unfolding SnipeStatus-discrete
not_active status e = rw e refl

pending_refund :
    (s : DomainSnipe) (fee : Bool)
    → is_pending s ≡ true
    → refund_for s SnipeStatus.cancelled fee ≡ pos 0
unfolding refund_for
pending_refund s fee h = rw (not_active s.status (waiting_status s h)) refl

-- The row of an unpaid hunt that was cancelled.
abbrev pub cancelled_row : DomainSnipe → FinishOpts → ℕ → DomainSnipe
cancelled_row s o now = finished (step_of s SnipeStatus.cancelled o (pos 0) now) s

cancel_pending :
    (s : DomainSnipe) (o : FinishOpts) (now : ℕ) (db : Db)
    → db.snipes s.id ≡ some s
    → is_pending s ≡ true
    → without_lease o ≡ true
    → let r = finish s SnipeStatus.cancelled o now db in
      (r.0 ≡ ok true) × (r.1.snipes s.id ≡ some (cancelled_row s o now))
unfolding finish_in_tx close finish_snipe add_event modify pure ◌>>◌
cancel_pending s o now db found waits free =
    let f = step_of s SnipeStatus.cancelled o (pos 0) now in
    let row = cancelled_row s o now in
    let hit = with_snipe s.id row db in
    let event : SnipeEvent = record { snipe_id = s.id; kind = bytes "cancelled" } in
    let after = record hit { snipe_events = db.snipe_events ++ (event ∷ []) } in
    let open_row : finish_guard f s ≡ true = ground arith in
    rw
      (
        finish_ran s SnipeStatus.cancelled SnipeStatus.cancelled o now db
            (cancel_allowed s.status (waiting_status s waits)),
        pending_refund s o.refund_fee waits,
        rollback_ok (finish_in_tx s SnipeStatus.cancelled o (pos 0) now) db true after (
            bind_ok (finish_snipe f)
              (λ b. if b then close s SnipeStatus.cancelled (pos 0) now else pure false) db true hit
              (update_snipe_if_hit s.id (finish_guard f) (finished f) s db found open_row)),
      )
      (refl, put_same db.snipes s.id row)

cancelled_refund :
    (s : DomainSnipe) (o : FinishOpts) (now invoice : ℕ)
    → s.invoice_id ≡ some invoice
    → s.refunded_at ≡ none
    → leb_ℤ (paid_in s) (pos 0) ≡ false
    → refund_due (cancelled_row s o now) s.invoice_id ≡ true
cancelled_refund s o now invoice billed fresh owed = rw (billed, fresh) (ground (arith, owed))

cancelled_ended :
    (s : DomainSnipe) (o : FinishOpts) (now : ℕ) → is_pending (cancelled_row s o now) ≡ false
unfolding SnipeStatus-discrete
cancelled_ended s o now = refl

cancelled_open :
    (s : DomainSnipe) (o : FinishOpts) (now : ℕ)
    → refund_due (cancelled_row s o now) s.invoice_id ≡ true
    → is_settled (cancelled_row s o now) ≡ false
cancelled_open s o now due = ground (arith, due, cancelled_ended s o now)

waits_not_active :
    (status : SnipeStatus) → status ≡ SnipeStatus.pending_payment → status ≢ SnipeStatus.active
waits_not_active status e a = cc

-- Whichever comes first, no money is stranded. When the cancellation of an unpaid hunt comes first, a
-- payment that is accepted afterwards is given back in full. When the payment comes first, the hunt is
-- active, and a cancellation by the row as it was before neither succeeds nor changes anything.
pub cancel_and_pay :
    (month now later invoice : ℕ) (s : DomainSnipe) (o : FinishOpts) (db : Db)
    → db.snipes s.id ≡ some s
    → is_pending s ≡ true
    → without_lease o ≡ true
    → s.invoice_id ≡ some invoice
    → s.refunded_at ≡ none
    → leb_ℤ (paid_in s) (pos 0) ≡ false
    → let cancelled = (finish s SnipeStatus.cancelled o now db).1 in
      let paid = (activate_snipe_after_payment month now s.id db).1 in
      ((activate_snipe_after_payment month later s.id cancelled).0 ≡ ok tt
        → IsGivenBack
            (cancelled_row s o now)
            later
            cancelled
            (activate_snipe_after_payment month later s.id cancelled).1)
      × (paid.snipes s.id ≡ some (started month now s))
      × ((finish s SnipeStatus.cancelled o later paid).1 ≡ paid)
      × ((finish s SnipeStatus.cancelled o later paid).0 ≢ ok true)
cancel_and_pay month now later invoice s o db found waits free billed fresh owed =
    let cancelled = (finish s SnipeStatus.cancelled o now db).1 in
    let (_, gone) = cancel_pending s o now db found waits free in
    let (_, there, _) = activation_started month now s db found waits in
    let paid = (activate_snipe_after_payment month now s.id db).1 in
    let active : HasStatus s.id SnipeStatus.active paid = record {
      row = started month now s;
      found = there;
      now_is = refl;
    } in
    let (kept, refused) =
      finish_late s SnipeStatus.cancelled SnipeStatus.active o later paid active
        (waits_not_active s.status (waiting_status s waits)) in
    (
      activation-IsGivenBack month later (cancelled_row s o now) cancelled gone
          (cancelled_ended s o now)
          (cancelled_open s o now (cancelled_refund s o now invoice billed fresh owed)),
      there,
      kept,
      refused,
    )
