-- ===== src/Snipe/Races.antt =====
-- Two writers that end one hunt (backend/internal/modules/snipe/service.go): `finish` is a
-- compare-and-swap on the status that its caller read.
use whcms.Base.{
  ℕ, ◌≡◌, ◌≢◌, refl, ap, subst, Bool, true, false, Option, none, some, if◌then◌else◌, ◌==◌, inl,
  inr, Bool-cases, Option-cases, same, arith,
}
use whcms.Base.Int.{ℤ}
use whcms.Base.Action.{
  Result, ok, err, Code, ◌>>◌, pure, raise, modify, within_tx, rollback, bind_ok, bind_err,
  rollback_ok,
}
use whcms.Base.Keeps.{Keeps, Result-cases, keeps_rules, if-Keeps}
use whcms.Base.Each.{attempt-Keeps}
use whcms.Base.Ensures.{rollback_inv}
use whcms.Domain.Enums.{SnipeStatus, SnipeStatus-discrete}
use whcms.Domain.StateMachine.{transition_snipe, snipe_can_transition}
use whcms.Store.Tables.{Db, DomainSnipe, SnipeEvent}
use whcms.Store.Credit.{adjust_credit, apply_delta}
use whcms.Store.Snipes.{
  update_snipe_if, finish_snipe, mark_refunded, add_event, SnipeFinish, finish_guard, finished,
}
use whcms.Snipe.Refunds.{refund_for}
use whcms.Snipe.Lifecycle.{
  FinishOpts, skip_missing, credit_back, close, finish_in_tx, move_snipe, finish,
}

-- The row of a hunt is there with this status.
pub record HasStatus (id : ℕ) (status : SnipeStatus) (db : Db) : Type 0 where
  pub row : DomainSnipe
  pub found : db.snipes id ≡ some row
  pub now_is : row.status ≡ status

module _ (id : ℕ) (to : SnipeStatus) where
  mark_refunded-HasStatus : (k at : ℕ) → Keeps (HasStatus id to) (mark_refunded k at)
  unfolding mark_refunded update_snipe_if
  mark_refunded-HasStatus k at = record {
    at = λ db v. elim (Option-cases (db.snipes k)) [
      | inl e ↦ rw (e, update_snipe_if) v
      | inr (s, e) ↦ elim (Bool-cases (id == k)) [
        | inl here ↦
            rw (e, update_snipe_if)
              (record {
                row = record s { refunded_at = some at };
                found = ground (arith, here);
                now_is = ground (arith, here, v.found, v.now_is, e);
              })
        | inr other ↦
            rw (e, update_snipe_if)
              (record { row = v.row; found = ground (arith, other, v.found); now_is = v.now_is })
      ]
    ];
  }

  adjust_credit-HasStatus :
      (client : ℕ) (delta : ℤ) (invoice : Option ℕ)
      → Keeps (HasStatus id to) (adjust_credit client delta invoice)
  unfolding adjust_credit apply_delta
  adjust_credit-HasStatus client delta invoice = record {
    at = λ db v. record { row = v.row; found = ground (arith, v.found); now_is = v.now_is };
  }

  add_event-HasStatus : (e : SnipeEvent) → Keeps (HasStatus id to) (add_event e)
  unfolding add_event modify
  add_event-HasStatus e = record {
    at = λ db v. record { row = v.row; found = v.found; now_is = v.now_is };
  }

  skip_missing-HasStatus : (r : Result ℤ) → Keeps (HasStatus id to) (skip_missing r)
  unfolding skip_missing pure raise
  skip_missing-HasStatus (ok b) = record { at = λ db v. v }
  skip_missing-HasStatus (err Code.not_found) = record { at = λ db v. v }
  skip_missing-HasStatus (err _) = record { at = λ db v. v }

  close-HasStatus :
      (s : DomainSnipe) (t : SnipeStatus) (refund : ℤ) (now : ℕ)
      → Keeps (HasStatus id to) (close s t refund now)
  unfolding close credit_back
  close-HasStatus s t refund now =
      search
        (
          keeps_rules, if-Keeps, attempt-Keeps, mark_refunded-HasStatus, adjust_credit-HasStatus,
          add_event-HasStatus, skip_missing-HasStatus,
        )
        depth 20

no_self_transition : (a : SnipeStatus) → snipe_can_transition a a ≡ false
unfolding snipe_can_transition
no_self_transition SnipeStatus.won = refl
no_self_transition _ = refl

moves_on : (a b r : SnipeStatus) → transition_snipe a b ≡ ok r → a ≢ b
unfolding transition_snipe
moves_on a b r h same_one =
    let stuck = subst (λ c. snipe_can_transition a c ≡ false) same_one (no_self_transition a) in
    ground (arith, stuck, h)

different_status : (a b : SnipeStatus) → a ≢ b → same SnipeStatus-discrete b a ≡ false
different_status a b h = ground (arith, h)

-- A row that has left the status that the caller read is not hit.
finish_snipe_lost :
    (f : SnipeFinish) (to : SnipeStatus) (db : Db)
    → HasStatus f.id to db
    → f.from ≢ to
    → finish_snipe f db ≡ (ok false, db)
unfolding finish_snipe update_snipe_if
finish_snipe_lost f to db v h =
    rw (v.found, update_snipe_if, v.now_is) (rw (different_status f.from to h) refl)

not_applied : ◌≢◌ {A = Result Bool} (ok false) (ok true)
not_applied h = cc

not_failed : (c : Code) → ◌≢◌ {A = Result Bool} (err c) (ok true)
not_failed c h = cc

finish_snipe_hit :
    (f : SnipeFinish) (db : Db)
    → (finish_snipe f db).0 ≡ ok true
    → HasStatus f.id f.to (finish_snipe f db).1
unfolding finish_snipe update_snipe_if
finish_snipe_hit f db = elim (Option-cases (db.snipes f.id)) [
  | inl e ↦ rw (e, update_snipe_if) (λ h. absurd (not_applied h))
  | inr (s, e) ↦ elim (Bool-cases (finish_guard f s)) [
    | inl hit ↦
        rw (e, update_snipe_if, hit)
          (λ h. record { row = finished f s; found = ground arith; now_is = refl })
    | inr miss ↦ rw (e, update_snipe_if, miss) (λ h. absurd (not_applied h))
  ]
]

abbrev pub step_of : DomainSnipe → SnipeStatus → FinishOpts → ℤ → ℕ → SnipeFinish
step_of s to o refund now = record {
  id = s.id;
  from = s.status;
  to = to;
  owner = o.owner;
  require_idle = o.require_idle;
  now = now;
  refund_amount = refund;
  last_error = o.reason;
  attempts = o.attempts;
  won_domain_id = none;
}

module _ (s : DomainSnipe) (to : SnipeStatus) (o : FinishOpts) (refund : ℤ) (now : ℕ) where
  finish_in_tx-HasStatus :
      (db : Db)
      → (finish_in_tx s to o refund now db).0 ≡ ok true
      → HasStatus s.id to (finish_in_tx s to o refund now db).1
  unfolding finish_in_tx pure
  finish_in_tx-HasStatus db =
      let f = step_of s to o refund now in
      let db' = (finish_snipe f db).1 in
      elim (Result-cases (finish_snipe f db).0) [
        | inl (true, e) ↦
            rw (bind_ok (finish_snipe f) _ db true db' (ap (λ r. (r, db')) e))
              (λ h. (close-HasStatus s.id to s to refund now).at db' (finish_snipe_hit f db e))
        | inl (false, e) ↦
            rw (bind_ok (finish_snipe f) _ db false db' (ap (λ r. (r, db')) e))
              (λ h. absurd (not_applied h))
        | inr (c, e) ↦
            rw (bind_err (finish_snipe f) _ db c db' (ap (λ r. (r, db')) e))
              (λ h. absurd (not_failed c h))
      ]

  finish_in_tx_lost :
      (at : SnipeStatus) (db : Db)
      → HasStatus s.id at db
      → s.status ≢ at
      → finish_in_tx s to o refund now db ≡ (ok false, db)
  unfolding finish_in_tx pure
  finish_in_tx_lost at db v h =
      bind_ok (finish_snipe (step_of s to o refund now))
        (λ hit. if hit then close s to refund now else pure false) db false db
        (finish_snipe_lost (step_of s to o refund now) at db v h)

pub finish_ran :
    (s : DomainSnipe) (to r : SnipeStatus) (o : FinishOpts) (now : ℕ) (db : Db)
    → transition_snipe s.status to ≡ ok r
    → finish s to o now db ≡ rollback (finish_in_tx s to o (refund_for s to o.refund_fee) now) db
unfolding finish ◌>>◌ move_snipe within_tx
finish_ran s to r o now db e = rw (e, move_snipe) refl

finish_refused :
    (s : DomainSnipe) (to : SnipeStatus) (c : Code) (o : FinishOpts) (now : ℕ) (db : Db)
    → transition_snipe s.status to ≡ err c
    → finish s to o now db ≡ (err c, db)
unfolding finish ◌>>◌ move_snipe
finish_refused s to c o now db e = rw (e, move_snipe) refl

-- What an applied end leaves behind: the row has the new status, which is another one.
pub finish-HasStatus :
    (s : DomainSnipe) (to : SnipeStatus) (o : FinishOpts) (now : ℕ) (db : Db)
    → (finish s to o now db).0 ≡ ok true
    → (s.status ≢ to) × HasStatus s.id to (finish s to o now db).1
finish-HasStatus s to o now db = elim (Result-cases (transition_snipe s.status to)) [
  | inr (c, e) ↦ rw (finish_refused s to c o now db e) (λ h. absurd (not_failed c h))
  | inl (r, e) ↦
      let m = finish_in_tx s to o (refund_for s to o.refund_fee) now in
      rw (finish_ran s to r o now db e) λ h. (
        moves_on s.status to r e,
        subst (λ (p : Result Bool × Db). p.0 ≡ ok true → HasStatus s.id to p.1)
            (rollback_inv m db true h)
            (finish_in_tx-HasStatus s to o (refund_for s to o.refund_fee) now db) refl,
      )
]

-- An attempt that comes late changes nothing and does not report success.
pub finish_late :
    (s : DomainSnipe) (to at : SnipeStatus) (o : FinishOpts) (now : ℕ) (db : Db)
    → HasStatus s.id at db
    → s.status ≢ at
    → ((finish s to o now db).1 ≡ db) × ((finish s to o now db).0 ≢ ok true)
finish_late s to at o now db v h = elim (Result-cases (transition_snipe s.status to)) [
  | inr (c, e) ↦ rw (finish_refused s to c o now db e) (refl, not_failed c)
  | inl (r, e) ↦
      let m = finish_in_tx s to o (refund_for s to o.refund_fee) now in
      rw
        (
          finish_ran s to r o now db e,
          rollback_ok m db false db
              (finish_in_tx_lost s to o (refund_for s to o.refund_fee) now at db v h),
        )
        (refl, not_applied)
]

-- Of two attempts to end a hunt that read it in the same state only one is applied: after it the other
-- one, whatever it wanted, changes nothing and does not report success.
pub finish_once :
    (s : DomainSnipe) (to other : SnipeStatus) (o p : FinishOpts) (now later : ℕ) (db : Db)
    → (finish s to o now db).0 ≡ ok true
    → let db' = (finish s to o now db).1 in
      ((finish s other p later db').1 ≡ db') × ((finish s other p later db').0 ≢ ok true)
finish_once s to other o p now later db h =
    let (moved, v) = finish-HasStatus s to o now db h in
    finish_late s other to p later (finish s to o now db).1 v moved
