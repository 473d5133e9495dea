-- ===== src/Snipe/Activation.antt =====
-- `ActivateSnipeAfterPayment` of backend/internal/modules/snipe/client.go: the payment that starts a
-- hunt, the one that comes too late, and their replays.
use whcms.Base.{
  ℕ, ◌≡◌, ◌≢◌, refl, sym, ap, ◌∙◌, subst, Bool, true, false, not, ◌&&◌, Option, none, some,
  if◌then◌else◌, inl, inr, Bool-cases, arith,
}
use whcms.Store.Ledger.{ledger_sum, Adjusts, adjust_credit-Adjusts}
use whcms.Base.Int.{◌+ℤ◌, ℤ, pos, leb_ℤ}
use whcms.Base.Action.{Result, ok, err, Code, ◌>>◌, pure, modify, bind_ok, bind_err}
use whcms.Base.Keeps.{Result-cases}
use whcms.Domain.Enums.{SnipeStatus-discrete}
use whcms.Store.Tables.{Db, DomainSnipe, put}
use whcms.Store.Credit.{adjust_credit, apply_delta}
use whcms.Store.Snipes.{
  update_snipe_if, get_snipe, get_snipe_found, activate_snipe, record_refund, add_event, started,
  is_pending, refund_guard, ended_unwon,
}
use whcms.Snipe.Lifecycle.{paid_in, give_back, refund_late_payment, activate_snipe_after_payment}

-- A payment for a hunt in this state is to be given back.
abbrev pub refund_due : DomainSnipe → Option ℕ → Bool
refund_due s none = false
refund_due s (some invoice_id) = not (leb_ℤ (paid_in s) (pos 0)) && refund_guard s

-- A hit and a miss of a guarded update.
pub update_snipe_if_hit :
    (id : ℕ) (guard : DomainSnipe → Bool) (change : DomainSnipe → DomainSnipe) (s : DomainSnipe)
    (db : Db)
    → db.snipes id ≡ some s
    → guard s ≡ true
    → update_snipe_if id guard change db
      ≡ (ok true, record db { snipes = put db.snipes id (change s) })
unfolding update_snipe_if
update_snipe_if_hit id guard change s db found hit = rw (found, update_snipe_if, hit) refl

update_snipe_if_miss :
    (id : ℕ) (guard : DomainSnipe → Bool) (change : DomainSnipe → DomainSnipe) (s : DomainSnipe)
    (db : Db)
    → db.snipes id ≡ some s
    → guard s ≡ false
    → update_snipe_if id guard change db ≡ (ok false, db)
unfolding update_snipe_if
update_snipe_if_miss id guard change s db found miss = rw (found, update_snipe_if, miss) refl

refund_late_payment_none :
    (s : DomainSnipe) (invoice : Option ℕ) (now : ℕ) (db : Db)
    → db.snipes s.id ≡ some s
    → refund_due s invoice ≡ false
    → refund_late_payment s invoice now db ≡ (ok tt, db)
unfolding refund_late_payment give_back record_refund pure
refund_late_payment_none s none now db found h = refl
refund_late_payment_none s (some i) now db found h = elim (Bool-cases (leb_ℤ (paid_in s) (pos 0))) [
  | inl small ↦ rw small refl
  | inr large ↦
      let miss : refund_guard s ≡ false = ground arith in
      rw
        (
          large,
          bind_ok (record_refund s.id (paid_in s) now) _ db false db
              (update_snipe_if_miss s.id refund_guard _ s db found miss),
        )
        refl
]

-- The row as it is left by the record of the refund.
abbrev pub refunded : DomainSnipe → ℕ → DomainSnipe
refunded s now = record s { refund_amount = paid_in s; refunded_at = some now }

abbrev pub with_snipe : ℕ → DomainSnipe → Db → Db
with_snipe id s db = record db { snipes = put db.snipes id s }

adjust_credit_snipes :
    (client : ℕ) (delta : ℤ) (invoice : Option ℕ) (db : Db)
    → (adjust_credit client delta invoice db).1.snipes ≡ db.snipes
unfolding adjust_credit apply_delta
adjust_credit_snipes client delta invoice db = ground arith

-- What a payment that comes too late does: the row is stamped, and the client is credited.
pub record IsGivenBack (s : DomainSnipe) (now : ℕ) (db after : Db) : Type 0 where
  pub row : after.snipes s.id ≡ some (refunded s now)
  pub credited :
      ledger_sum s.client_id after.credit_ledger
      ≡ paid_in s +ℤ ledger_sum s.client_id db.credit_ledger

pub put_same {ℓ} : {A : Type ℓ} (t : ℕ → Option A) (k : ℕ) (x : A) → put t k x k ≡ some x
put_same t k x = ground arith

credited_sum :
    (client : ℕ) (delta : ℤ) (invoice : Option ℕ) (db after : Db) (b : ℤ)
    → adjust_credit client delta invoice db ≡ (ok b, after)
    → (after.snipes ≡ db.snipes)
      × (ledger_sum client after.credit_ledger ≡ delta +ℤ ledger_sum client db.credit_ledger)
credited_sum client delta invoice db after b e =
    let (c, _, _, _, _, _, sum, _, _, _) =
      subst (Adjusts client delta invoice db) e (adjust_credit-Adjusts client delta invoice db) in
    (
      ap (λ (p : Result ℤ × Db). p.1.snipes) (sym e) ∙ adjust_credit_snipes client delta invoice db,
      sum,
    )

unit_failed : (c : Code) → ◌≢◌ {A = Result (Unit {0})} (err c) (ok tt)
unit_failed c h = cc

give_back-IsGivenBack :
    (s : DomainSnipe) (invoice now : ℕ) (db : Db)
    → db.snipes s.id ≡ some s
    → refund_guard s ≡ true
    → (give_back s invoice now db).0 ≡ ok tt
    → IsGivenBack s now db (give_back s invoice now db).1
unfolding give_back record_refund ◌>>◌ add_event modify
give_back-IsGivenBack s invoice now db found hit =
    let marked = with_snipe s.id (refunded s now) db in
    let credit = adjust_credit s.client_id (paid_in s) (some invoice) in
    let after = (credit marked).1 in
    rw
      (bind_ok (record_refund s.id (paid_in s) now) _ db true marked
        (update_snipe_if_hit s.id refund_guard _ s db found hit))
      (elim (Result-cases (credit marked).0) [
        | inr (c, e) ↦
            rw (bind_err credit _ marked c after (ap (λ r. (r, after)) e))
              (λ h. absurd (unit_failed c h))
        | inl (b, e) ↦
            let (kept, sum) =
              credited_sum s.client_id (paid_in s) (some invoice) marked after b
                (ap (λ r. (r, after)) e) in
            rw (bind_ok credit _ marked b after (ap (λ r. (r, after)) e)) (λ h. record {
              row = ap (λ t. t s.id) kept ∙ put_same db.snipes s.id (refunded s now);
              credited = sum;
            })
      ])

no_refund : ◌≢◌ {A = Bool} false true
no_refund h = cc

refund_late_payment-IsGivenBack :
    (s : DomainSnipe) (invoice : Option ℕ) (now : ℕ) (db : Db)
    → db.snipes s.id ≡ some s
    → refund_due s invoice ≡ true
    → (refund_late_payment s invoice now db).0 ≡ ok tt
    → IsGivenBack s now db (refund_late_payment s invoice now db).1
unfolding refund_late_payment
refund_late_payment-IsGivenBack s none now db found h = absurd (no_refund h)
refund_late_payment-IsGivenBack s (some i) now db found h =
    let large : leb_ℤ (paid_in s) (pos 0) ≡ false = ground arith in
    rw large (give_back-IsGivenBack s i now db found (ground arith))

-- What the handler finds: a hunt that waits for its payment, one whose payment is to be given back, or
-- one for which there is nothing to do.
abbrev pub is_settled : DomainSnipe → Bool
is_settled s = not (is_pending s) && not (ended_unwon s.status && refund_due s s.invoice_id)

module _ (month now : ℕ) where
  activation_found :
      (s : DomainSnipe) (db : Db)
      → db.snipes s.id ≡ some s
      → is_pending s ≡ false
      → activate_snipe_after_payment month now s.id db
        ≡ (if ended_unwon s.status then refund_late_payment s s.invoice_id now else pure tt) db
  unfolding activate_snipe_after_payment activate_snipe
  activation_found s db found waits =
      bind_ok (activate_snipe month s.id now) _ db false db
        (update_snipe_if_miss s.id is_pending (started month now) s db found waits)
      ∙ bind_ok (get_snipe s.id) _ db s db (get_snipe_found s.id db s found)

  -- A hunt that is settled is left alone.
  activation_settled :
      (s : DomainSnipe) (db : Db)
      → db.snipes s.id ≡ some s
      → is_settled s ≡ true
      → activate_snipe_after_payment month now s.id db ≡ (ok tt, db)
  unfolding pure
  activation_settled s db found h =
      activation_found s db found (ground arith) ∙ elim (Bool-cases (ended_unwon s.status)) [
        | inl ended ↦ rw ended (refund_late_payment_none s s.invoice_id now db found (ground arith))
        | inr other ↦ rw other refl
      ]

  -- The first payment of a waiting hunt starts it.
  pub activation_started :
      (s : DomainSnipe) (db : Db)
      → db.snipes s.id ≡ some s
      → is_pending s ≡ true
      → let r = activate_snipe_after_payment month now s.id db in
        (r.0 ≡ ok tt)
        × (r.1.snipes s.id ≡ some (started month now s))
        × (r.1.credit_ledger ≡ db.credit_ledger)
  unfolding activate_snipe_after_payment activate_snipe add_event modify
  activation_started s db found waits =
      let row = started month now s in
      let after = with_snipe s.id row db in
      let there = put_same db.snipes s.id row in
      rw
        (
          bind_ok (activate_snipe month s.id now) _ db true after
              (update_snipe_if_hit s.id is_pending (started month now) s db found waits),
          bind_ok (get_snipe s.id) _ after row after (get_snipe_found s.id after row there),
        )
        (refl, there, refl)

  -- A payment for a hunt that has ended without a win is given back in full, once: the row is stamped
  -- and the client's ledger grows by what was paid.
  pub activation-IsGivenBack :
      (s : DomainSnipe) (db : Db)
      → db.snipes s.id ≡ some s
      → is_pending s ≡ false
      → is_settled s ≡ false
      → (activate_snipe_after_payment month now s.id db).0 ≡ ok tt
      → IsGivenBack s now db (activate_snipe_after_payment month now s.id db).1
  activation-IsGivenBack s db found waits open_refund =
      let ended : ended_unwon s.status ≡ true = ground arith in
      rw (activation_found s db found waits, ended)
        (refund_late_payment-IsGivenBack s s.invoice_id now db found (ground arith))

started_settled : (month now : ℕ) (s : DomainSnipe) → is_settled (started month now s) ≡ true
unfolding SnipeStatus-discrete
started_settled month now s = refl

refunded_once :
    (now : ℕ) (s : DomainSnipe) (invoice : Option ℕ) → refund_due (refunded s now) invoice ≡ false
refunded_once now s none = refl
refunded_once now s (some i) = ground arith

refunded_settled :
    (now : ℕ) (s : DomainSnipe) → is_pending s ≡ false → is_settled (refunded s now) ≡ true
refunded_settled now s waits = ground (arith, waits, refunded_once now s s.invoice_id)

-- A payment that is reported again changes nothing, whatever the first report did: a started hunt is
-- not started anew, and nothing is given back twice.
pub activation_replayed :
    (month now later : ℕ) (s : DomainSnipe) (db : Db)
    → db.snipes s.id ≡ some s
    → (activate_snipe_after_payment month now s.id db).0 ≡ ok tt
    → let after = (activate_snipe_after_payment month now s.id db).1 in
      activate_snipe_after_payment month later s.id after ≡ (ok tt, after)
activation_replayed month now later s db found h =
    let after = (activate_snipe_after_payment month now s.id db).1 in
    elim (Bool-cases (is_pending s)) [
      | inl waits ↦
          let (_, there, _) = activation_started month now s db found waits in
          activation_settled month later (started month now s) after there
            (started_settled month now s)
      | inr other ↦ elim (Bool-cases (is_settled s)) [
        | inl settled ↦
            rw (activation_settled month now s db found settled)
              (activation_settled month later s db found settled)
        | inr due ↦
            let given = activation-IsGivenBack month now s db found other due h in
            activation_settled month later (refunded s now) after given.row
              (refunded_settled now s other)
      ]
    ]
