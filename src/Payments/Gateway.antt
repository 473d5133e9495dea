-- ===== src/Payments/Gateway.antt =====
-- The Duitku webhook and the reconciliation of backend/internal/modules/payments/service.go, and the
-- confirmation of a manual transfer. The gateway adapter and the JSON encoder are parameters.
use whcms.Base.{
  ℕ, Bool, true, false, not, ◌&&◌, ◌||◌, Option, none, some, [], ◌∷◌, ◌==◌, if◌then◌else◌, same,
  ltb, is_empty, any, ◌-◌,
}
use whcms.Base.Text.{Text, bytes, eqb_text, trim_space, before_byte}
use whcms.Base.Int.{ℤ, pos, leb_ℤ, ◌-ℤ◌}
use whcms.Base.Word.{two63}
use whcms.Base.Decimal.{is_digit, value}
use whcms.Base.Action.{Action, Result, Code, ◌>>=◌, ◌>>◌, pure, raise, raise_if}
use whcms.Domain.Enums.{TransactionStatus, Gateway, TransactionStatus-discrete, Gateway-discrete}
use whcms.Domain.Calendar.{Time}
use whcms.Store.Tables.{Db, Transaction}
use whcms.Store.Transactions.{get_transaction, get_by_merchant_order_id, update_transaction}
use whcms.Billing.Paid.{Handlers}
use whcms.Payments.Apply.{ApplyTx, apply_payment}

pub record CallbackPayload : Type 0 where
  pub amount : Text
  pub merchant_order_id : Text
  pub payment_code : Text
  pub result_code : Text
  pub reference : Text
  pub signature : Text

pub record TxStatus : Type 0 where
  pub reference : Text
  pub amount : ℤ
  pub fee : ℤ
  pub status_code : Text

-- The adapter and the JSON encodings that are stored.
pub record PaymentGateway : Type 0 where
  pub check_transaction : Text → Result TxStatus
  pub verify_callback_signature : CallbackPayload → Bool
  pub encode_payload : CallbackPayload → Text
  pub encode_status : TxStatus → Text

-- `TxStatusSuccess` and its siblings; any other code is `unknown`.
pub data StatusCode : Type 0 where
  success pending cancelled unknown : StatusCode

unfoldable pub status_of : Text → StatusCode
status_of code =
    if eqb_text code (bytes "00")
    then StatusCode.success
    else (if eqb_text code (bytes "01")
        then StatusCode.pending
        else (if eqb_text code (bytes "02") then StatusCode.cancelled else StatusCode.unknown))

-- The digits of `strconv.ParseInt(raw, 10, 64)` after the sign.
abbrev parse_digits : Bool → Text → Option ℤ
parse_digits negative digits =
    let n = value digits in
    if is_empty digits
      || any (λ c. not (is_digit c)) digits
      || ltb (if negative then two63 else two63 - 1) n
    then none
    else some (if negative then pos 0 -ℤ pos n else pos n)

unfoldable pub parse_int : Text → Option ℤ
unfolding is_digit ◌-ℤ◌
parse_int [] = none
parse_int (c ∷ rest) =
    if c == b'-'
    then parse_digits true rest
    else (if c == b'+' then parse_digits false rest else parse_digits false (c ∷ rest))

unfoldable pub parse_amount : Text → ℤ
unfolding parse_int trim_space before_byte
parse_amount raw = elim (parse_int (before_byte b'.' (trim_space raw))) [
  | none ↦ pos 0
  | some n ↦ n
]

abbrev or_else : Text → Text → Text
or_else s other = if is_empty s then other else s

-- `ErrBadSignature` is no apperr: the webhook answers it with 400, everything else as it comes.
pub data CallbackAnswer : Type 0 where
  done bad_signature : CallbackAnswer

abbrev pub is_pending : Transaction → Bool
is_pending t = same TransactionStatus-discrete t.status TransactionStatus.pending

module _ (h : Handlers) (now : Time) (gw : PaymentGateway) where
  -- The outcome of a call on the gateway.
  unfoldable pub checked : Text → Action Db TxStatus
  checked mo db = (gw.check_transaction mo, db)

  -- A refused or failed payment is closed only when the gateway confirms it.
  unfoldable pub close_failed : CallbackPayload → Transaction → StatusCode → Action Db (Unit {0})
  close_failed p t StatusCode.cancelled = update_transaction (record t {
    status = TransactionStatus.failed;
    raw = gw.encode_payload p;
    gateway_reference = or_else p.reference t.gateway_reference;
  })
  close_failed p t _ = pure tt

  abbrev callback_tx : CallbackPayload → Transaction → TxStatus → ApplyTx
  callback_tx p t st = record {
    gateway = Gateway.duitku;
    method_code = or_else p.payment_code t.method_code;
    merchant_order_id = p.merchant_order_id;
    gateway_reference = or_else st.reference p.reference;
    amount = if leb_ℤ st.amount (pos 0) then parse_amount p.amount else st.amount;
    fee = st.fee;
    raw = gw.encode_payload p;
    paid_at = some now;
  }

  -- The switch on the status of a payment that the callback reports as paid.
  unfoldable pub confirm_paid :
      CallbackPayload → Transaction → TxStatus → StatusCode → Action Db (Unit {0})
  confirm_paid p t st StatusCode.success =
      apply_payment h now false t.invoice_id (callback_tx p t st)
  confirm_paid p t st StatusCode.pending = pure tt
  confirm_paid p t st StatusCode.cancelled =
      if is_pending t
      then update_transaction
          (record t { status = TransactionStatus.failed; raw = gw.encode_payload p })
      else pure tt
  confirm_paid p t st StatusCode.unknown = raise Code.external

  unfoldable pub verified_callback : CallbackPayload → Transaction → Action Db (Unit {0})
  verified_callback p t =
      if eqb_text p.result_code (bytes "00")
      then checked p.merchant_order_id >>= (λ st. confirm_paid p t st (status_of st.status_code))
      else (if is_pending t
          then checked p.merchant_order_id >>= (λ st. close_failed p t (status_of st.status_code))
          else pure tt)

  unfoldable pub handle_callback : CallbackPayload → Action Db CallbackAnswer
  handle_callback p = do
    t ← get_by_merchant_order_id p.merchant_order_id
    if gw.verify_callback_signature p
        then verified_callback p t >> pure CallbackAnswer.done
        else pure CallbackAnswer.bad_signature

  abbrev reconcile_tx : Transaction → Text → TxStatus → ApplyTx
  reconcile_tx t mo st = record {
    gateway = Gateway.duitku;
    method_code = t.method_code;
    merchant_order_id = mo;
    gateway_reference = or_else st.reference t.gateway_reference;
    amount = if leb_ℤ st.amount (pos 0) then t.amount else st.amount;
    fee = st.fee;
    raw = gw.encode_status st;
    paid_at = some now;
  }

  unfoldable pub reconcile_status :
      Transaction → Text → TxStatus → StatusCode → Action Db (Unit {0})
  reconcile_status t mo st StatusCode.success =
      apply_payment h now false t.invoice_id (reconcile_tx t mo st)
  reconcile_status t mo st StatusCode.cancelled =
      update_transaction (record t { status = TransactionStatus.expired })
  reconcile_status t mo st _ = pure tt

  unfoldable pub reconcile_row : Transaction → Option Text → Action Db (Unit {0})
  reconcile_row t none = pure tt
  reconcile_row t (some mo) =
      if is_pending t && same Gateway-discrete t.gateway Gateway.duitku
      then checked mo >>= (λ st. reconcile_status t mo st (status_of st.status_code))
      else pure tt

  unfoldable pub reconcile_one : ℕ → Action Db (Unit {0})
  reconcile_one id = do t ← get_transaction id; reconcile_row t t.merchant_order_id

abbrev manual_tx : Transaction → Time → ApplyTx
manual_tx t now = record {
  gateway = Gateway.manual;
  method_code = t.method_code;
  merchant_order_id = elim t.merchant_order_id [ none ↦ [] | some mo ↦ mo ];
  gateway_reference = t.gateway_reference;
  amount = t.amount;
  fee = pos 0;
  raw = [];
  paid_at = some now;
}

unfoldable pub confirm_manual_transaction : Handlers → Time → ℕ → Action Db (Unit {0})
confirm_manual_transaction h now id = do
  t ← get_transaction id
  raise_if (not (same Gateway-discrete t.gateway Gateway.manual && is_pending t)) Code.conflict
  apply_payment h now false t.invoice_id (manual_tx t now)
