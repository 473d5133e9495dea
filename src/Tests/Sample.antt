-- ===== src/Tests/Sample.antt =====
-- A small store, handlers that succeed, and a fixed-point stand-in for float64, for the tests.
use native.Mathlib.Nat.{div-le_of_le-mul}
use whcms.Base.{
  ℕ, ◌+◌, ◌*◌, ◌/◌, ◌≤◌, ◌≡◌, true, false, none, some, [], ◌∷◌, ltb, leb, ◌==◌, if◌then◌else◌,
  arith,
}
use whcms.Base.Text.{bytes}
use whcms.Base.Int.{ℤ, pos, pos_part, ◌+ℤ◌}
use whcms.Base.Float.{Float, FloatLaws}
use whcms.Base.Action.{ok, pure}
use whcms.Base.Keeps.{pure-Keeps}
use whcms.Domain.Enums.{InvoiceStatus, RelatedType, Gateway, TransactionStatus, SnipeStatus}
use whcms.Domain.Calendar.{Time}
use whcms.Store.Tables.{Db, Invoice, DomainSnipe}
use whcms.Store.Ledger.{IsBalanced}
use whcms.Billing.Paid.{Handlers}
use whcms.Billing.Dispatch.{HandlersKeep}
use whcms.Payments.Apply.{ApplyTx}
use whcms.Payments.Gateway.{PaymentGateway, CallbackPayload, TxStatus}

-- Numbers of halves.
abbrev pub halves : Float
halves = record {
  Real = ℕ;
  of_int = λ z. 2 * pos_part z;
  half = 1;
  add = λ a b. a + b;
  mul = λ a b. a * b / 2;
  div = λ a b. 2 * a / b;
  neg = λ a. 0;
  less = λ a b. ltb a b;
  leq = λ a b. leb a b;
  floor = λ a. pos (a / 2);
}

halves_product : (a b : ℕ) → 2 * a * (2 * b) / 2 ≡ 2 * (a * b)
halves_product a b = let e : 2 * a * (2 * b) ≡ 2 * (2 * (a * b)) = omega arith in rw e (omega arith)

halves_quotient : (n d a : ℕ) → n ≤ a * d → 2 * (2 * n) / (2 * d) ≤ 2 * a
halves_quotient n d a h =
    div-le_of_le-mul (2 * d)
      (let e : 2 * d * (2 * a) ≡ 4 * (a * d) = omega arith in rw e (omega arith))

pub halves_laws : FloatLaws halves
halves_laws = record {
  mul_exact = λ a b h. halves_product a b;
  div_le = λ n d a p h small. ground (arith, halves_quotient n d a h);
  div_nonneg = λ n d. ground arith;
  round_le = λ x a small h. ground arith;
  round_nonneg = λ x h. omega arith;
}

abbrev pub noon : Time
noon = record { year = 2026; month = 1; day = 31; clock = 0 }

abbrev pub handlers : Handlers
handlers = record {
  order_id_for_order_item = λ n. pure n;
  activate_order = λ n. pure tt;
  renew_service = λ n. pure tt;
  apply_upgrade = λ n. pure tt;
  renew_domain_after_payment = λ n. pure tt;
  activate_snipe_after_payment = λ n. pure tt;
}

pub handlers-HandlersKeep {μ} : (P : Db → Type μ) → HandlersKeep P handlers
handlers-HandlersKeep P = record {
  order_id_for_order_item = λ n. pure-Keeps n;
  activate_order = λ n. pure-Keeps tt;
  renew_service = λ n. pure-Keeps tt;
  apply_upgrade = λ n. pure-Keeps tt;
  renew_domain_after_payment = λ n. pure-Keeps tt;
  activate_snipe_after_payment = λ n. pure-Keeps tt;
}

abbrev pub bill : InvoiceStatus → Invoice
bill status = record {
  id = 1;
  number = bytes "INV-202601-000001";
  client_id = 7;
  status = status;
  subtotal = pos 100;
  discount = pos 0;
  tax_rate = pos 0;
  tax_total = pos 0;
  credit_applied = pos 0;
  total = pos 100;
  due_date = 740_000;
  paid_at = none;
}

-- One invoice with one renewal on it, and a client with 500 in credit.
abbrev pub shop : InvoiceStatus → Db
shop status = record {
  invoices = λ n. if n == 1 then some (bill status) else none;
  next_invoice = 2;
  items =
      record {
        invoice_id = 1;
        amount = pos 100;
        taxed = false;
        related_type = RelatedType.service_renewal;
        related_id = some 3;
      }
      ∷ [];
  transactions = [];
  next_transaction = 1;
  clients = λ n. if n == 7 then some (record { credit_balance = pos 500 }) else none;
  credit_ledger =
      record { client_id = 7; delta = pos 500; balance_after = pos 500; related_invoice_id = none }
      ∷ [];
  counters = λ s. 0;
  coupons = λ n. none;
  services = λ n. none;
  next_service = 1;
  domains = λ n. none;
  next_domain = 1;
  snipes = λ n. none;
  next_snipe = 1;
  snipe_events = [];
  products = λ n. none;
  orders = λ n. none;
  next_order = 1;
  order_items = [];
  next_order_item = 1;
  pricing = λ n c. none;
  specs = λ n. [];
  spec_pricing = λ n c. none;
  servers = λ n. none;
  next_server = 1;
  server_groups = λ n. none;
  cancellation_requests = [];
  next_cancellation_request = 1;
}

pub shop-IsBalanced : (status : InvoiceStatus) → IsBalanced (shop status)
unfolding ◌+ℤ◌
shop-IsBalanced status = record { explained = λ id c h. ground arith }

abbrev pub transfer : ℤ → ApplyTx
transfer amount = record {
  gateway = Gateway.duitku;
  method_code = bytes "VA";
  merchant_order_id = bytes "INV-01";
  gateway_reference = bytes "D1";
  amount = amount;
  fee = pos 0;
  raw = [];
  paid_at = none;
}

abbrev pub cancelled_status : TxStatus
cancelled_status = record {
  reference = bytes "D1";
  amount = pos 100;
  fee = pos 0;
  status_code = bytes "02";
}

-- The store while a payment through the gateway is pending.
abbrev pub awaiting : Db
awaiting = record (shop InvoiceStatus.unpaid) {
  transactions =
      record {
        id = 1;
        invoice_id = 1;
        gateway = Gateway.duitku;
        method_code = bytes "VA";
        merchant_order_id = some (bytes "INV-01");
        gateway_reference = [];
        amount = pos 100;
        fee = pos 0;
        status = TransactionStatus.pending;
        raw = [];
        paid_at = none;
      }
      ∷ [];
}

abbrev pub cancelling_gateway : PaymentGateway
cancelling_gateway = record {
  check_transaction = λ mo. ok cancelled_status;
  verify_callback_signature = λ p. true;
  encode_payload = λ p. [];
  encode_status = λ st. [];
}

abbrev pub callback : CallbackPayload
callback = record {
  amount = bytes "100";
  merchant_order_id = bytes "INV-01";
  payment_code = bytes "VA";
  result_code = bytes "00";
  reference = bytes "D1";
  signature = [];
}

-- A paid hunt of client 7.
abbrev pub hunt : DomainSnipe
hunt = record {
  id = 5;
  client_id = 7;
  domain_name = bytes "a.id";
  status = SnipeStatus.active;
  invoice_id = some 1;
  refundable_domain = pos 223;
  refundable_fee = pos 55;
  refund_amount = pos 0;
  refunded_at = none;
  attempts = 0;
  last_error = [];
  lease_owner = none;
  lease_until = none;
  paid_at = some 10;
  deadline_at = some 100;
  won_at = none;
  won_domain_id = none;
  created_at = 5;
}
