-- ===== src/Snipe/Lifecycle.antt =====
-- How a hunt starts and ends: `finish`, `lookupOwnership`, `ensureNotOwned`, `voidInvoice` and
-- `AdminCancel` of backend/internal/modules/snipe/service.go, `ActivateSnipeAfterPayment`,
-- `refundLatePayment`, `ownedSnipe` and `CancelForClient` of client.go, `ownedStatus` of supervisor.go.
-- Mails, audit entries and log lines are left out.
use whcms.Base.{
  ℕ, Bool, true, false, not, ◌||◌, Option, none, some, [], ◌==◌, any, same, if◌then◌else◌,
}
use whcms.Base.Text.{Text, bytes, eqb_text, to_lower, trim_space}
use whcms.Base.Int.{ℤ, pos, ltb_ℤ, leb_ℤ}
use whcms.Base.Word.{add64}
use whcms.Base.Action.{
  Action, Result, ok, err, Code, ◌>>=◌, ◌>>◌, pure, raise, raise_if, within_tx, attempt,
}
use whcms.Domain.Enums.{
  SnipeStatus, SnipeStatus-discrete, TransactionStatus, TransactionStatus-discrete,
}
use whcms.Domain.StateMachine.{transition_snipe, snipe_terminal}
use whcms.Store.Tables.{Db, DomainSnipe, Transaction}
use whcms.Store.Credit.{adjust_credit}
use whcms.Store.Transactions.{list_by_invoice}
use whcms.Store.Snipes.{
  get_snipe, finish_snipe, mark_refunded, record_refund, activate_snipe, add_event, ended_unwon,
}
use whcms.Billing.Cancel.{cancel_invoice}
use whcms.Snipe.Refunds.{refund_for}

pub record FinishOpts : Type 0 where
  pub owner : Text
  pub require_idle : Bool
  pub refund_fee : Bool
  pub reason : Text
  pub attempts : ℕ

abbrev status_name : SnipeStatus → Text
status_name SnipeStatus.pending_payment = bytes "pending_payment"
status_name SnipeStatus.active = bytes "active"
status_name SnipeStatus.won = bytes "won"
status_name SnipeStatus.expired = bytes "expired"
status_name SnipeStatus.cancelled = bytes "cancelled"
status_name SnipeStatus.failed = bytes "failed"

-- A client that is gone has no account to credit: the hunt is closed all the same.
unfoldable pub skip_missing : Result ℤ → Action Db (Unit {0})
skip_missing (ok balance) = pure tt
skip_missing (err Code.not_found) = pure tt
skip_missing (err e) = raise e

unfoldable pub credit_back : DomainSnipe → ℤ → ℕ → Action Db (Unit {0})
credit_back s refund now = do
  r ← attempt (adjust_credit s.client_id refund s.invoice_id)
  skip_missing r
  mark_refunded s.id now
  pure tt

unfoldable pub close : DomainSnipe → SnipeStatus → ℤ → ℕ → Action Db Bool
close s to refund now = do
  if ltb_ℤ (pos 0) refund then credit_back s refund now else pure tt
  add_event (record { snipe_id = s.id; kind = status_name to })
  pure true

-- The transaction of `finish`: a row that was lost to another writer is left alone.
unfoldable pub finish_in_tx : DomainSnipe → SnipeStatus → FinishOpts → ℤ → ℕ → Action Db Bool
finish_in_tx s to o refund now =
    finish_snipe (record {
      id = s.id;
      from = s.status;
      to = to;
      owner = o.owner;
      require_idle = o.require_idle;
      now = now;
      refund_amount = refund;
      last_error = o.reason;
      attempts = o.attempts;
      won_domain_id = none;
    })
    >>= λ hit. if hit then close s to refund now else pure false

unfoldable pub move_snipe : SnipeStatus → SnipeStatus → Action Db SnipeStatus
move_snipe from to db = (transition_snipe from to, db)

-- `s` is the row as the caller read it.
unfoldable pub finish : DomainSnipe → SnipeStatus → FinishOpts → ℕ → Action Db Bool
finish s to o now =
    move_snipe s.status to
    >> within_tx false (λ _. finish_in_tx s to o (refund_for s to o.refund_fee) now)

abbrev pub paid_in : DomainSnipe → ℤ
paid_in s = add64 s.refundable_domain s.refundable_fee

-- The guarded record of the refund comes first, the credit only after a hit.
unfoldable pub give_back : DomainSnipe → ℕ → ℕ → Action Db (Unit {0})
give_back s invoice_id now = record_refund s.id (paid_in s) now >>= λ recorded.
    if recorded
    then adjust_credit s.client_id (paid_in s) (some invoice_id)
      >> add_event (record { snipe_id = s.id; kind = bytes "late_payment_refund" })
    else pure tt

unfoldable pub refund_late_payment : DomainSnipe → Option ℕ → ℕ → Action Db (Unit {0})
refund_late_payment s none now = pure tt
refund_late_payment s (some invoice_id) now =
    if leb_ℤ (paid_in s) (pos 0) then pure tt else give_back s invoice_id now

-- It runs inside the transaction of the payment.
unfoldable pub activate_snipe_after_payment : ℕ → ℕ → ℕ → Action Db (Unit {0})
activate_snipe_after_payment month now id = do
  activated ← activate_snipe month id now
  s ← get_snipe id
  if activated
      then add_event (record { snipe_id = id; kind = bytes "paid" })
      else (if ended_unwon s.status then refund_late_payment s s.invoice_id now else pure tt)

abbrev in_flight : Transaction → Bool
in_flight t = same TransactionStatus-discrete t.status TransactionStatus.pending

-- Errors are logged only.
unfoldable pub void_for : DomainSnipe → Option ℕ → Action Db (Unit {0})
void_for s none = pure tt
void_for s (some invoice_id) = list_by_invoice invoice_id >>= λ txs.
    if any in_flight txs then pure tt else attempt (cancel_invoice invoice_id) >> pure tt

unfoldable pub void_invoice : DomainSnipe → Action Db (Unit {0})
void_invoice s = void_for s s.invoice_id

-- ASCII letters and blanks; the empty status counts as a live one.
unfoldable pub owned_status : Text → Bool
owned_status status =
    let s = to_lower (trim_space status) in
    eqb_text s []
    || eqb_text s (bytes "active")
    || eqb_text s (bytes "pending")
    || eqb_text s (bytes "ok")
    || eqb_text s (bytes "registered")

-- `sync_domain` is the registrar's answer: the status of the domain, or `none` for an empty reply.
module _ (sync_domain : Text → Result (Option Text)) where
  unfoldable pub ownership : Result (Option Text) → Result Bool
  ownership (ok none) = ok true
  ownership (ok (some status)) = ok (owned_status status)
  ownership (err Code.not_found) = ok false
  ownership (err e) = err e

  unfoldable pub lookup_ownership : Text → Result Bool
  unfolding ownership
  lookup_ownership name = ownership (sync_domain name)

  abbrev pub refuse_owned : Result Bool → Action Db (Unit {0})
  refuse_owned (err e) = raise Code.external
  refuse_owned (ok owned) = raise_if owned Code.conflict

  unfoldable pub ensure_not_owned : DomainSnipe → Action Db (Unit {0})
  ensure_not_owned s =
      if same SnipeStatus-discrete s.status SnipeStatus.active
      then refuse_owned (lookup_ownership s.domain_name)
      else pure tt

  -- What the two cancellations share: a lost race is a conflict.
  unfoldable pub cancel_snipe : DomainSnipe → FinishOpts → ℕ → Action Db DomainSnipe
  cancel_snipe s o now = do
    ensure_not_owned s
    applied ← finish s SnipeStatus.cancelled o now
    raise_if (not applied) Code.conflict
    if same SnipeStatus-discrete s.status SnipeStatus.pending_payment
        then void_invoice s
        else pure tt
    get_snipe s.id

  unfoldable pub admin_cancel : ℕ → Bool → ℕ → Action Db DomainSnipe
  admin_cancel id refund_fee now = get_snipe id >>= λ s.
      cancel_snipe s
        (record {
          owner = [];
          require_idle = false;
          refund_fee = refund_fee;
          reason = bytes "cancelled by an administrator";
          attempts = 0;
        })
        now

  unfoldable pub owned_snipe : ℕ → ℕ → Action Db DomainSnipe
  owned_snipe client_id id = do
    s ← get_snipe id
    raise_if (not (s.client_id == client_id)) Code.not_found
    pure s

  unfoldable pub cancel_for_client : ℕ → ℕ → ℕ → Action Db DomainSnipe
  cancel_for_client client_id id now = do
    s ← owned_snipe client_id id
    raise_if (snipe_terminal s.status) Code.conflict
    cancel_snipe s
        (record {
          owner = [];
          require_idle = false;
          refund_fee = false;
          reason = bytes "cancelled by the client";
          attempts = 0;
        })
        now
