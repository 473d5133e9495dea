-- ===== src/Payments/Confirmed.antt =====
-- The webhook and the reconciliation of backend/internal/modules/payments/service.go: only a payment
-- that the gateway itself confirms moves money.
use whcms.Base.{ℕ, ◌≡◌, ◌≢◌, refl, ◌&&◌, Option, none, some, arith, inl, inr, Bool-cases, same}
use whcms.Base.Text.{Text, bytes, eqb_text}
use whcms.Base.Action.{Action, ok, Code, ◌>>=◌, bind_ok, bind_err}
use whcms.Base.Keeps.{
  Keeps, Result-cases, pure-Keeps, raise-Keeps, bind-Keeps, then-Keeps, keeps_rules,
}
use whcms.Domain.Enums.{Gateway, Gateway-discrete}
use whcms.Domain.Calendar.{Time}
use whcms.Store.Tables.{Db, Transaction}
use whcms.Store.Transactions.{
  get_transaction, get_transaction-cases, get_by_merchant_order_id, update_transaction,
}
use whcms.Billing.Paid.{Handlers}
use whcms.Payments.Gateway.{
  PaymentGateway, CallbackPayload, CallbackAnswer, TxStatus, StatusCode, status_of, is_pending,
  checked, close_failed, confirm_paid, verified_callback, handle_callback, reconcile_status,
  reconcile_row, reconcile_one,
}

-- Everything but the transactions is as it was: invoices, items, balances, ledger and counters.
pub record SameMoney (old db : Db) : Type 0 where
  pub invoices : db.invoices ≡ old.invoices
  pub items : db.items ≡ old.items
  pub clients : db.clients ≡ old.clients
  pub credit_ledger : db.credit_ledger ≡ old.credit_ledger

-- The gateway does not say that the order was paid.
unfoldable pub Unconfirmed : PaymentGateway → Text → Type 0
Unconfirmed gw mo =
    (st : TxStatus)
    → gw.check_transaction mo ≡ ok st
    → status_of st.status_code ≢ StatusCode.success

module _ (old : Db) where
  update_transaction-SameMoney : (t : Transaction) → Keeps (SameMoney old) (update_transaction t)
  unfolding update_transaction
  update_transaction-SameMoney t = record {
    at = λ db v. record {
      invoices = ground (arith, v.invoices);
      items = ground (arith, v.items);
      clients = ground (arith, v.clients);
      credit_ledger = ground (arith, v.credit_ledger);
    };
  }

  get_by_merchant_order_id-SameMoney :
      (mo : Text) → Keeps (SameMoney old) (get_by_merchant_order_id mo)
  unfolding get_by_merchant_order_id
  get_by_merchant_order_id-SameMoney mo = search keeps_rules

  module _ (h : Handlers) (now : Time) (gw : PaymentGateway) where
    -- What follows an answer of the gateway keeps the money if it does on every status but success.
    checked-SameMoney :
        (mo : Text) (f : TxStatus → Action Db (Unit {0}))
        → Unconfirmed gw mo
        → ((st : TxStatus)
            → status_of st.status_code ≢ StatusCode.success
            → Keeps (SameMoney old) (f st))
        → Keeps (SameMoney old) (checked h now gw mo >>= f)
    unfolding checked Unconfirmed
    checked-SameMoney mo f u k = record {
      at = λ db v. elim (Result-cases (gw.check_transaction mo)) [
        | inl (st, e) ↦
            rw (bind_ok (checked h now gw mo) f db st db (rw (e, checked) refl))
              ((k st (u st e)).at db v)
        | inr (c, e) ↦ rw (bind_err (checked h now gw mo) f db c db (rw (e, checked) refl)) v
      ];
    }

    close_failed-SameMoney :
        (p : CallbackPayload) (t : Transaction) (s : StatusCode)
        → Keeps (SameMoney old) (close_failed h now gw p t s)
    unfolding close_failed
    close_failed-SameMoney p t StatusCode.cancelled = update_transaction-SameMoney _
    close_failed-SameMoney p t StatusCode.success = pure-Keeps tt
    close_failed-SameMoney p t StatusCode.pending = pure-Keeps tt
    close_failed-SameMoney p t StatusCode.unknown = pure-Keeps tt

    confirm_paid-SameMoney :
        (p : CallbackPayload) (t : Transaction) (st : TxStatus) (s : StatusCode)
        → s ≢ StatusCode.success
        → Keeps (SameMoney old) (confirm_paid h now gw p t st s)
    unfolding confirm_paid
    confirm_paid-SameMoney p t st StatusCode.success n = elim (n refl) [ ]
    confirm_paid-SameMoney p t st StatusCode.pending n = pure-Keeps tt
    confirm_paid-SameMoney p t st StatusCode.cancelled n = elim (Bool-cases (is_pending t)) [
      | inl e ↦ rw e (update_transaction-SameMoney _)
      | inr e ↦ rw e (pure-Keeps tt)
    ]
    confirm_paid-SameMoney p t st StatusCode.unknown n = raise-Keeps Code.external

    verified_callback-SameMoney :
        (p : CallbackPayload) (t : Transaction)
        → Unconfirmed gw p.merchant_order_id
        → Keeps (SameMoney old) (verified_callback h now gw p t)
    unfolding verified_callback
    verified_callback-SameMoney p t u = elim (Bool-cases (eqb_text p.result_code (bytes "00"))) [
      | inl e ↦
          rw e
            (checked-SameMoney p.merchant_order_id _ u (λ st n. confirm_paid-SameMoney p t st _ n))
      | inr e ↦ elim (Bool-cases (is_pending t)) [
        | inl w ↦
            rw (e, w)
              (checked-SameMoney p.merchant_order_id _ u (λ st n. close_failed-SameMoney p t _))
        | inr w ↦ rw (e, w) (pure-Keeps tt)
      ]
    ]

    handle_callback-SameMoney :
        (p : CallbackPayload)
        → Unconfirmed gw p.merchant_order_id
        → Keeps (SameMoney old) (handle_callback h now gw p)
    unfolding handle_callback
    handle_callback-SameMoney p u =
        bind-Keeps _ _ (get_by_merchant_order_id-SameMoney p.merchant_order_id) λ t.
          elim (Bool-cases (gw.verify_callback_signature p)) [
            | inl e ↦ rw e (
                then-Keeps _ _ (verified_callback-SameMoney p t u) (pure-Keeps CallbackAnswer.done))
            | inr e ↦ rw e (pure-Keeps CallbackAnswer.bad_signature)
          ]

    reconcile_status-SameMoney :
        (t : Transaction) (mo : Text) (st : TxStatus) (s : StatusCode)
        → s ≢ StatusCode.success
        → Keeps (SameMoney old) (reconcile_status h now gw t mo st s)
    unfolding reconcile_status
    reconcile_status-SameMoney t mo st StatusCode.success n = elim (n refl) [ ]
    reconcile_status-SameMoney t mo st StatusCode.cancelled n = update_transaction-SameMoney _
    reconcile_status-SameMoney t mo st StatusCode.pending n = pure-Keeps tt
    reconcile_status-SameMoney t mo st StatusCode.unknown n = pure-Keeps tt

    reconcile_row-SameMoney :
        (t : Transaction) (o : Option Text)
        → ((mo : Text) → o ≡ some mo → Unconfirmed gw mo)
        → Keeps (SameMoney old) (reconcile_row h now gw t o)
    unfolding reconcile_row
    reconcile_row-SameMoney t none u = pure-Keeps tt
    reconcile_row-SameMoney t (some mo) u =
        elim (Bool-cases (is_pending t && same Gateway-discrete t.gateway Gateway.duitku)) [
          | inl e ↦
              rw e (
                checked-SameMoney mo _ (u mo refl) (λ st n. reconcile_status-SameMoney t mo st _ n))
          | inr e ↦ rw e (pure-Keeps tt)
        ]

SameMoney-refl : (db : Db) → SameMoney db db
SameMoney-refl db = record { invoices = refl; items = refl; clients = refl; credit_ledger = refl }

-- Double verification: whatever a webhook claims, and whether or not its signature is good, it leaves
-- invoices and balances as they were unless the gateway confirms the order as paid.
pub callback-Unconfirmed :
    (h : Handlers) (now : Time) (gw : PaymentGateway) (p : CallbackPayload) (db : Db)
    → Unconfirmed gw p.merchant_order_id
    → SameMoney db (handle_callback h now gw p db).1
callback-Unconfirmed h now gw p db u =
    (handle_callback-SameMoney db h now gw p u).at db (SameMoney-refl db)

-- Nor does the reconciliation of a transaction touch invoices or balances while the gateway does not
-- confirm the transaction's own order as paid.
pub reconcile-Unconfirmed :
    (h : Handlers) (now : Time) (gw : PaymentGateway) (id : ℕ) (db : Db)
    → ((t : Transaction) (mo : Text)
        → get_transaction id db ≡ (ok t, db)
        → t.merchant_order_id ≡ some mo
        → Unconfirmed gw mo)
    → SameMoney db (reconcile_one h now gw id db).1
unfolding reconcile_one
reconcile-Unconfirmed h now gw id db u = elim (get_transaction-cases id db) [
  | inr e ↦ rw (bind_err (get_transaction id) _ db Code.not_found db e) (SameMoney-refl db)
  | inl (t, e) ↦ rw (bind_ok (get_transaction id) _ db t db e) (
      (reconcile_row-SameMoney db h now gw t t.merchant_order_id (λ mo. u t mo e)).at db
        (SameMoney-refl db))
]
