-- ===== src/Snipe/Ledger.antt =====
-- Hunts and the credit ledger (backend/internal/modules/snipe): starting, ending and cancelling a hunt
-- keep every client's balance explained.
use whcms.Base.{ℕ, Bool, Option, none, some, arith}
use whcms.Base.Text.{Text}
use whcms.Base.Int.{ℤ}
use whcms.Base.Action.{Result, ok, err, Code, modify}
use whcms.Base.Keeps.{Keeps, keeps_rules, pure-Keeps, raise-Keeps, raise_if-Keeps, if-Keeps}
use whcms.Base.Each.{attempt-Keeps}
use whcms.Domain.Enums.{SnipeStatus, InvoiceStatus}
use whcms.Store.Tables.{DomainSnipe, SnipeEvent}
use whcms.Store.Ledger.{IsBalanced, frame-Keeps, adjust_credit-IsBalanced}
use whcms.Store.Credit.{adjust_credit}
use whcms.Store.Transactions.{list_by_invoice}
use whcms.Store.Snipes.{
  update_snipe_if, get_snipe, finish_snipe, mark_refunded, record_refund, activate_snipe, add_event,
}
use whcms.Billing.Cancel.{cancel_invoice, cancel_in_tx, move_invoice}
use whcms.Payments.Ledger.{get_invoice-IsBalanced, update_status-IsBalanced}
use whcms.Snipe.Lifecycle.{
  FinishOpts, skip_missing, credit_back, close, finish_in_tx, move_snipe, finish, give_back,
  refund_late_payment, activate_snipe_after_payment, void_invoice, void_for, ensure_not_owned,
  refuse_owned, cancel_snipe, owned_snipe, cancel_for_client,
}

update_snipe_if-IsBalanced :
    (id : ℕ) (guard : DomainSnipe → Bool) (change : DomainSnipe → DomainSnipe)
    → Keeps IsBalanced (update_snipe_if id guard change)
unfolding update_snipe_if
update_snipe_if-IsBalanced id guard change =
    frame-Keeps (update_snipe_if id guard change) (λ db. ground arith)

get_snipe-IsBalanced : (id : ℕ) → Keeps IsBalanced (get_snipe id)
unfolding get_snipe
get_snipe-IsBalanced id = search keeps_rules

add_event-IsBalanced : (e : SnipeEvent) → Keeps IsBalanced (add_event e)
unfolding add_event modify
add_event-IsBalanced e = frame-Keeps (add_event e) (λ db. ground arith)

credit-IsBalanced :
    (client : ℕ) (delta : ℤ) (invoice : Option ℕ)
    → Keeps IsBalanced (adjust_credit client delta invoice)
credit-IsBalanced client delta invoice = record {
  at = λ db. adjust_credit-IsBalanced client delta invoice db;
}

skip_missing-IsBalanced : (r : Result ℤ) → Keeps IsBalanced (skip_missing r)
unfolding skip_missing
skip_missing-IsBalanced (ok b) = pure-Keeps tt
skip_missing-IsBalanced (err Code.not_found) = pure-Keeps tt
skip_missing-IsBalanced (err e) = raise-Keeps _

ruleset hunt_rules = (
  update_snipe_if-IsBalanced, get_snipe-IsBalanced, add_event-IsBalanced, credit-IsBalanced,
  skip_missing-IsBalanced, if-Keeps, attempt-Keeps,
)

close-IsBalanced :
    (s : DomainSnipe) (to : SnipeStatus) (refund : ℤ) (now : ℕ)
    → Keeps IsBalanced (close s to refund now)
unfolding close credit_back mark_refunded
close-IsBalanced s to refund now = search (keeps_rules, hunt_rules) depth 20

move_snipe-IsBalanced : (from to : SnipeStatus) → Keeps IsBalanced (move_snipe from to)
unfolding move_snipe
move_snipe-IsBalanced from to = record { at = λ db v. v }

finish_in_tx-IsBalanced :
    (s : DomainSnipe) (to : SnipeStatus) (o : FinishOpts) (refund : ℤ) (now : ℕ)
    → Keeps IsBalanced (finish_in_tx s to o refund now)
unfolding finish_in_tx finish_snipe
finish_in_tx-IsBalanced s to o refund now =
    search (keeps_rules, hunt_rules, close-IsBalanced) depth 20

-- Ending a hunt keeps every balance explained by its ledger.
pub finish-IsBalanced :
    (s : DomainSnipe) (to : SnipeStatus) (o : FinishOpts) (now : ℕ)
    → Keeps IsBalanced (finish s to o now)
unfolding finish
finish-IsBalanced s to o now =
    search (keeps_rules, hunt_rules, move_snipe-IsBalanced, finish_in_tx-IsBalanced) depth 20

refund_late_payment-IsBalanced :
    (s : DomainSnipe) (invoice : Option ℕ) (now : ℕ)
    → Keeps IsBalanced (refund_late_payment s invoice now)
unfolding refund_late_payment give_back record_refund
refund_late_payment-IsBalanced s none now = pure-Keeps tt
refund_late_payment-IsBalanced s (some i) now = search (keeps_rules, hunt_rules) depth 20

-- A payment reported to a hunt keeps every balance explained by its ledger.
pub activate_snipe_after_payment-IsBalanced :
    (month now id : ℕ) → Keeps IsBalanced (activate_snipe_after_payment month now id)
unfolding activate_snipe_after_payment activate_snipe
activate_snipe_after_payment-IsBalanced month now id =
    search (keeps_rules, hunt_rules, refund_late_payment-IsBalanced) depth 20

move_invoice-IsBalanced : (from to : InvoiceStatus) → Keeps IsBalanced (move_invoice from to)
unfolding move_invoice
move_invoice-IsBalanced from to = record { at = λ db v. v }

pub cancel_invoice-IsBalanced : (id : ℕ) → Keeps IsBalanced (cancel_invoice id)
unfolding cancel_invoice cancel_in_tx
cancel_invoice-IsBalanced id =
    search (keeps_rules, move_invoice-IsBalanced, get_invoice-IsBalanced, update_status-IsBalanced)
      depth 20

void_for-IsBalanced : (s : DomainSnipe) (invoice : Option ℕ) → Keeps IsBalanced (void_for s invoice)
unfolding void_for list_by_invoice
void_for-IsBalanced s none = pure-Keeps tt
void_for-IsBalanced s (some i) =
    search (keeps_rules, hunt_rules, cancel_invoice-IsBalanced) depth 20

module _ (sync_domain : Text → Result (Option Text)) where
  refuse_owned-IsBalanced : (r : Result Bool) → Keeps IsBalanced (refuse_owned sync_domain r)
  refuse_owned-IsBalanced (ok owned) = raise_if-Keeps owned _
  refuse_owned-IsBalanced (err e) = raise-Keeps _

  ensure_not_owned-IsBalanced :
      (s : DomainSnipe) → Keeps IsBalanced (ensure_not_owned sync_domain s)
  unfolding ensure_not_owned
  ensure_not_owned-IsBalanced s = if-Keeps _ _ _ (refuse_owned-IsBalanced _) (pure-Keeps tt)

  cancel_snipe-IsBalanced :
      (s : DomainSnipe) (o : FinishOpts) (now : ℕ)
      → Keeps IsBalanced (cancel_snipe sync_domain s o now)
  unfolding cancel_snipe void_invoice
  cancel_snipe-IsBalanced s o now =
      search
        (
          keeps_rules, hunt_rules, ensure_not_owned-IsBalanced, finish-IsBalanced,
          void_for-IsBalanced,
        )
        depth 30

  -- A client's cancellation of a hunt keeps every balance explained by its ledger.
  pub cancel_for_client-IsBalanced :
      (client_id id now : ℕ) → Keeps IsBalanced (cancel_for_client sync_domain client_id id now)
  unfolding cancel_for_client owned_snipe
  cancel_for_client-IsBalanced client_id id now =
      search (keeps_rules, hunt_rules, cancel_snipe-IsBalanced) depth 20
