-- ===== src/Tests/Lifecycle.antt =====
-- Runs of the theorems about the end and the payment of a domain hunt.
use whcms.Base.{[], arith, false, none, refl, some, true, ℕ, ◌∷◌, ◌≡◌, ◌≢◌, ◌≤◌}
use whcms.Base.Action.{
  Code-discrete, attempt, gets, modify, ok, or_raise, pure, raise, rollback, within_tx, ◌>>=◌, ◌>>◌,
}
use whcms.Base.Int.{leb_ℤ, pos, ◌+ℤ◌}
use whcms.Base.Text.{Text, bytes, eqb_text, lower_byte, strip_prefix, to_lower}
use whcms.Base.Word.{add64, wrap64}
use whcms.Domain.Enums.{InvoiceStatus, SnipeStatus, SnipeStatus-discrete}
use whcms.Domain.StateMachine.{
  allowed_in, can_transition, snipe_can_transition, snipe_transitions, transition_snipe,
}
use whcms.Snipe.Activation.{IsGivenBack, activation_replayed}
use whcms.Snipe.CancelAndPay.{cancel_and_pay, cancelled_row}
use whcms.Snipe.Classify.{
  CallFailure, OutcomeKind, app_text, by_status, classify, contains, err_text, fatal_account,
  rejected, remove_all, taken_wording,
}
use whcms.Snipe.Leases.{HuntsKeyed, claim, claim_exclusive, has, lease_all, leased, put_all}
use whcms.Snipe.Lifecycle.{
  FinishOpts, activate_snipe_after_payment, close, credit_back, finish, finish_in_tx, give_back,
  move_snipe, paid_in, refund_late_payment, skip_missing,
}
use whcms.Snipe.Races.{finish_once}
use whcms.Snipe.Refunds.{refund_for, refund_on}
use whcms.Store.Credit.{adjust_credit, apply_delta, fits}
use whcms.Store.Listing.{rows_below}
use whcms.Store.Snipes.{
  SnipeFinish, activate_snipe, add_event, finish_snipe, get_snipe, is_pending, mark_refunded,
  record_refund, started, update_snipe_if,
}
use whcms.Store.Tables.{Db, DomainSnipe}
use whcms.Tests.Sample.{hunt}
use whcms.Tests.Shop.{busy_shop}

abbrev waiting : DomainSnipe
waiting = record hunt { status = SnipeStatus.pending_payment; paid_at = none; deadline_at = none }

abbrev hunting : DomainSnipe → Db
hunting s = busy_shop InvoiceStatus.unpaid s

abbrev plainly : FinishOpts
plainly = record { owner = []; require_idle = false; refund_fee = false; reason = []; attempts = 0 }

ended : (finish hunt SnipeStatus.failed plainly 20 (hunting hunt)).0 ≡ ok true
unfolding attempt modify pure raise rollback within_tx ◌+ℤ◌ add64 wrap64 SnipeStatus-discrete
    allowed_in can_transition snipe_can_transition snipe_transitions transition_snipe close
    credit_back finish finish_in_tx move_snipe skip_missing refund_for refund_on adjust_credit
    apply_delta fits add_event finish_snipe mark_refunded update_snipe_if ◌>>◌ ◌>>=◌
ended = refl

finish_once_example :
    let db' = (finish hunt SnipeStatus.failed plainly 20 (hunting hunt)).1 in
    ((finish hunt SnipeStatus.cancelled plainly 21 db').1 ≡ db')
    × ((finish hunt SnipeStatus.cancelled plainly 21 db').0 ≢ ok true)
finish_once_example =
    finish_once hunt SnipeStatus.failed SnipeStatus.cancelled plainly plainly 20 21 (hunting hunt)
      ended

started_once : (activate_snipe_after_payment 30 20 5 (hunting waiting)).0 ≡ ok tt
unfolding gets modify or_raise pure raise ◌+ℤ◌ add64 wrap64 SnipeStatus-discrete
    activate_snipe_after_payment give_back refund_late_payment adjust_credit apply_delta fits
    activate_snipe add_event get_snipe record_refund update_snipe_if ◌>>◌ ◌>>=◌
started_once = refl

activation_replayed_example :
    let after = (activate_snipe_after_payment 30 20 5 (hunting waiting)).1 in
    activate_snipe_after_payment 30 25 5 after ≡ (ok tt, after)
activation_replayed_example =
    activation_replayed 30 20 25 waiting (hunting waiting) refl started_once

is_waiting : is_pending waiting ≡ true
unfolding SnipeStatus-discrete
is_waiting = refl

paid_something : leb_ℤ (paid_in waiting) (pos 0) ≡ false
unfolding ◌+ℤ◌ add64 wrap64
paid_something = refl

cancel_and_pay_example :
    let cancelled = (finish waiting SnipeStatus.cancelled plainly 20 (hunting waiting)).1 in
    let paid = (activate_snipe_after_payment 30 20 5 (hunting waiting)).1 in
    ((activate_snipe_after_payment 30 25 5 cancelled).0 ≡ ok tt
      → IsGivenBack
          (cancelled_row waiting plainly 20)
          25
          cancelled
          (activate_snipe_after_payment 30 25 5 cancelled).1)
    × (paid.snipes 5 ≡ some (started 30 20 waiting))
    × ((finish waiting SnipeStatus.cancelled plainly 25 paid).1 ≡ paid)
    × ((finish waiting SnipeStatus.cancelled plainly 25 paid).0 ≢ ok true)
cancel_and_pay_example =
    cancel_and_pay 30 20 25 1 waiting plainly (hunting waiting) refl is_waiting refl refl refl
      paid_something

abbrev failed_with : ℕ → Text → CallFailure
failed_with status message = record {
  app_error = none;
  call_error = some (record {
    not_sent = false;
    ambiguous = false;
    http_status = status;
    retry_after = 0;
    message = message;
  });
  text = message;
}

registrar_paused :
    (classify 1 (failed_with 401 (bytes "no")) (bytes "a.id")).kind ≡ OutcomeKind.pause
unfolding Code-discrete lower_byte strip_prefix to_lower app_text by_status classify contains
    err_text fatal_account rejected remove_all taken_wording
registrar_paused = refl

registrar_limited :
    (classify 1 (failed_with 429 (bytes "slow")) (bytes "a.id")).kind ≡ OutcomeKind.backoff
unfolding Code-discrete lower_byte strip_prefix to_lower app_text by_status classify contains
    err_text fatal_account rejected remove_all taken_wording
registrar_limited = refl

hunting-HuntsKeyed : HuntsKeyed (hunting hunt)
hunting-HuntsKeyed = record { row = λ j. ground arith }

abbrev worker : Text
worker = bytes "w1"

abbrev rival : Text
rival = bytes "w2"

abbrev claimed : Db
claimed = (claim worker 10 20 50 (hunting hunt)).1

claimed_by_worker : (claim worker 10 20 50 (hunting hunt)).0 ≡ ok (leased worker 50 hunt ∷ [])
unfolding SnipeStatus-discrete claim lease_all put_all rows_below
claimed_by_worker = refl

none_for_rival : (claim rival 10 30 80 claimed).0 ≡ ok []
unfolding SnipeStatus-discrete claim lease_all put_all rows_below
none_for_rival = refl

lease_lasts : 30 ≤ 50
lease_lasts = omega arith

claim_exclusive_example : has 5 [] ≡ false
claim_exclusive_example =
    claim_exclusive worker rival 10 10 20 50 30 80 5 (hunting hunt) (leased worker 50 hunt ∷ []) []
      hunting-HuntsKeyed claimed_by_worker refl lease_lasts none_for_rival

abbrev win_of_rival : SnipeFinish
win_of_rival = record {
  id = 5;
  from = SnipeStatus.active;
  to = SnipeStatus.won;
  owner = rival;
  require_idle = false;
  now = 30;
  refund_amount = pos 0;
  last_error = [];
  attempts = 1;
  won_domain_id = none;
}

other_worker : eqb_text worker rival ≡ false
other_worker = refl
