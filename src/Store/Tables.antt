-- ===== src/Store/Tables.antt =====
-- The rows (backend/internal/domain/entities.go) and the tables. Dates of type DATE are day numbers;
-- a missing time is `none`; amounts are int64. Descriptions, reasons and other free text, which no
-- code reads, are left out, as are the created_at and updated_at stamps.
use whcms.Base.{ℕ, Bool, Option, some, List, ◌==◌, if◌then◌else◌}
use whcms.Base.Text.{Text}
use whcms.Base.Int.{ℤ}
use whcms.Domain.Enums.{
  InvoiceStatus, RelatedType, TransactionStatus, Gateway, CouponType, ServiceStatus, DomainStatus,
  SnipeStatus, BillingCycle, AutoSetup, ServerModuleName, OrderStatus, OrderItemType, ProvisionKey,
  SpecUnit, ServerGroupStrategy, CancelMode, CancellationRequestStatus,
}
use whcms.Domain.Calendar.{Time}

pub record Invoice : Type 0 where
  pub id : ℕ
  pub number : Text
  pub client_id : ℕ
  pub status : InvoiceStatus
  pub subtotal : ℤ
  pub discount : ℤ
  pub tax_rate : ℤ  -- a float64 that always holds an integer
  pub tax_total : ℤ
  pub credit_applied : ℤ
  pub total : ℤ
  pub due_date : ℕ
  pub paid_at : Option Time

pub record InvoiceItem : Type 0 where
  pub invoice_id : ℕ
  pub amount : ℤ
  pub taxed : Bool
  pub related_type : RelatedType
  pub related_id : Option ℕ

pub record Transaction : Type 0 where
  pub id : ℕ
  pub invoice_id : ℕ
  pub gateway : Gateway
  pub method_code : Text
  pub merchant_order_id : Option Text
  pub gateway_reference : Text
  pub amount : ℤ
  pub fee : ℤ
  pub status : TransactionStatus
  pub raw : Text
  pub paid_at : Option Time

-- A coupon; `product_ids` is its applies_to, and `max_uses` 0 is no limit.
pub record Coupon : Type 0 where
  pub type : CouponType
  pub value : ℤ
  pub recurring : Bool
  pub active : Bool
  pub expires_at : Option Time
  pub product_ids : List ℕ
  pub max_uses : ℕ
  pub used_count : ℕ

pub record Service : Type 0 where
  pub id : ℕ
  pub client_id : ℕ
  pub order_item_id : Option ℕ
  pub product_id : ℕ
  pub server_id : Option ℕ
  pub domain_name : Text
  pub username : Text
  pub password_enc : Text
  pub status : ServiceStatus
  pub billing_cycle : BillingCycle
  pub recurring_amount : ℤ
  pub setup_fee : ℤ
  pub next_due_date : Option Time
  pub registration_date : Option Time
  pub terminated_at : Option Time
  pub suspend_reason : Text
  pub panel_meta : Text  -- JSON
  pub coupon_id : Option ℕ
  pub pending_upgrade : Text  -- JSON, empty when there is none

-- A registered domain, as far as billing goes.
pub record Domain : Type 0 where
  pub id : ℕ
  pub client_id : ℕ
  pub registrar_id : ℕ
  pub name : Text
  pub status : DomainStatus
  pub next_due_date : Option Time
  pub recurring_amount : ℤ
  pub billing_cycle : BillingCycle
  pub auto_renew : Bool

-- A hunt. Its times are instants, counted in one unit from a fixed start.
pub record DomainSnipe : Type 0 where
  pub id : ℕ
  pub client_id : ℕ
  pub domain_name : Text
  pub status : SnipeStatus
  pub invoice_id : Option ℕ
  pub refundable_domain : ℤ
  pub refundable_fee : ℤ
  pub refund_amount : ℤ
  pub refunded_at : Option ℕ
  pub attempts : ℕ
  pub last_error : Text
  pub lease_owner : Option Text
  pub lease_until : Option ℕ
  pub paid_at : Option ℕ
  pub deadline_at : Option ℕ
  pub won_at : Option ℕ
  pub won_domain_id : Option ℕ
  pub created_at : ℕ

pub record SnipeEvent : Type 0 where
  pub snipe_id : ℕ
  pub kind : Text

-- What a dynamic package switches on besides its limits.
pub record PackageToggles : Type 0 where
  pub feature_list : Text
  pub shell_access : Bool
  pub cgi_access : Bool
  pub template_package : Text

-- A product that is not deleted.
pub record Product : Type 0 where
  pub server_module : ServerModuleName
  pub server_group_id : Option ℕ
  pub package_name : Text
  pub toggles : PackageToggles
  pub configurable : Bool
  pub stock_enabled : Bool
  pub stock_qty : ℕ
  pub auto_setup : AutoSetup

pub record ProductPricing : Type 0 where
  pub price : ℤ
  pub setup_fee : ℤ

-- One configurable resource of a product.
pub record ProductSpec : Type 0 where
  pub id : ℕ
  pub key : Text
  pub provision_key : ProvisionKey
  pub spec_unit : SpecUnit
  pub default_qty : ℤ
  pub allow_unlimited : Bool
  pub min_qty : ℤ
  pub max_qty : ℤ
  pub step_qty : ℤ
  pub included_qty : ℤ

pub record SpecPricing : Type 0 where
  pub unit_price : ℤ
  pub unlimited_price : ℤ

-- A panel server. `max_accounts` 0 is no limit.
pub record Server : Type 0 where
  pub id : ℕ
  pub group_id : Option ℕ
  pub server_module : ServerModuleName
  pub password_enc : Text
  pub api_token_enc : Text
  pub package_prefix : Text
  pub ip_address : Text
  pub max_accounts : ℕ
  pub is_active : Bool

pub record CancellationRequest : Type 0 where
  pub id : ℕ
  pub service_id : ℕ
  pub client_id : ℕ
  pub mode : CancelMode
  pub status : CancellationRequestStatus
  pub decided_at : Option Time
  pub decided_by : Option ℕ

pub record Order : Type 0 where
  pub id : ℕ
  pub number : Text
  pub client_id : ℕ
  pub status : OrderStatus
  pub subtotal : ℤ
  pub discount : ℤ
  pub tax_total : ℤ
  pub total : ℤ
  pub coupon_id : Option ℕ

pub record OrderItem : Type 0 where
  pub id : ℕ
  pub order_id : ℕ
  pub item_type : OrderItemType
  pub product_id : Option ℕ
  pub domain : Text
  pub options : Text  -- JSON
  pub cycle : BillingCycle
  pub unit_price : ℤ
  pub setup_fee : ℤ
  pub service_id : Option ℕ  -- set on activation
  pub domain_id : Option ℕ  -- set on activation

-- A client row that is not deleted, as far as credit goes.
pub record Client : Type 0 where
  pub credit_balance : ℤ

pub record CreditLedgerEntry : Type 0 where
  pub client_id : ℕ
  pub delta : ℤ
  pub balance_after : ℤ
  pub related_invoice_id : Option ℕ

pub record Db : Type 0 where
  pub invoices : ℕ → Option Invoice
  pub next_invoice : ℕ
  pub items : List InvoiceItem
  pub transactions : List Transaction
  pub next_transaction : ℕ
  pub clients : ℕ → Option Client
  pub credit_ledger : List CreditLedgerEntry
  pub counters : Text → ℕ
  pub coupons : ℕ → Option Coupon
  pub services : ℕ → Option Service
  pub next_service : ℕ
  pub domains : ℕ → Option Domain
  pub next_domain : ℕ
  pub snipes : ℕ → Option DomainSnipe
  pub next_snipe : ℕ
  pub snipe_events : List SnipeEvent
  pub products : ℕ → Option Product
  pub orders : ℕ → Option Order
  pub next_order : ℕ
  pub order_items : List OrderItem
  pub next_order_item : ℕ
  pub pricing : ℕ → BillingCycle → Option ProductPricing
  pub specs : ℕ → List ProductSpec
  pub spec_pricing : ℕ → BillingCycle → Option SpecPricing
  pub servers : ℕ → Option Server
  pub next_server : ℕ
  pub server_groups : ℕ → Option ServerGroupStrategy
  pub cancellation_requests : List CancellationRequest
  pub next_cancellation_request : ℕ

-- A table with one row replaced.
abbrev pub put {ℓ} : {A : Type ℓ} → (ℕ → Option A) → ℕ → A → ℕ → Option A
put table k row j = if j == k then some row else table j
