-- ===== src/Domain/Enums.antt =====
-- backend/internal/domain/enums.go and specs.go. A Go string type with its constants is a data type;
-- a string that is none of the constants has no counterpart, so code that takes an unchecked string
-- takes an `Option` of the type.

pub data BillingCycle : Type 0 where
  one_time monthly quarterly semiannually annually biennially : BillingCycle

pub data OrderStatus : Type 0 where
  pending active fraud cancelled : OrderStatus

pub data OrderItemType : Type 0 where
  product domain_register domain_transfer : OrderItemType

pub data InvoiceStatus : Type 0 where
  draft unpaid paid overdue cancelled refunded : InvoiceStatus

pub data RelatedType : Type 0 where
  order_item service_renewal domain_renewal service_upgrade : RelatedType
  late_fee deposit manual domain_snipe : RelatedType

pub data TransactionStatus : Type 0 where
  pending success failed expired refunded : TransactionStatus

pub data Gateway : Type 0 where
  duitku credit manual : Gateway

pub data ServiceStatus : Type 0 where
  pending active suspended terminated cancelled : ServiceStatus

pub data CancellationRequestStatus : Type 0 where
  pending accepted rejected auto_processed : CancellationRequestStatus

pub data DomainStatus : Type 0 where
  pending active pending_transfer expired cancelled suspended rejected : DomainStatus

pub data DomainVerification : Type 0 where
  unreported waiting verifying document_validating active : DomainVerification

pub data SnipeStatus : Type 0 where
  pending_payment active won expired cancelled failed : SnipeStatus

pub data CouponType : Type 0 where
  percentage fixed : CouponType

pub data AutoSetup : Type 0 where
  on_payment on_order manual : AutoSetup

pub data ProductType : Type 0 where
  shared_hosting reseller_hosting domain other : ProductType

pub data ServerModuleName : Type 0 where
  cpanel directadmin unmanaged : ServerModuleName

pub data ServerGroupStrategy : Type 0 where
  round_robin least_used : ServerGroupStrategy

-- The two modes of a cancellation that pass validation.
pub data CancelMode : Type 0 where
  immediate end_of_term : CancelMode

pub data ProvisionKey : Type 0 where
  disk bandwidth addon_domains subdomains : ProvisionKey
  parked_domains email_accounts databases ftp_accounts : ProvisionKey

pub data SpecUnit : Type 0 where
  gb mb count : SpecUnit

unfoldable pub OrderStatus-discrete : Discrete OrderStatus
OrderStatus-discrete = hlevel

unfoldable pub OrderItemType-discrete : Discrete OrderItemType
OrderItemType-discrete = hlevel

unfoldable pub InvoiceStatus-discrete : Discrete InvoiceStatus
InvoiceStatus-discrete = hlevel

unfoldable pub RelatedType-discrete : Discrete RelatedType
RelatedType-discrete = hlevel

unfoldable pub TransactionStatus-discrete : Discrete TransactionStatus
TransactionStatus-discrete = hlevel

unfoldable pub Gateway-discrete : Discrete Gateway
Gateway-discrete = hlevel

unfoldable pub ServiceStatus-discrete : Discrete ServiceStatus
ServiceStatus-discrete = hlevel

unfoldable pub CancellationRequestStatus-discrete : Discrete CancellationRequestStatus
CancellationRequestStatus-discrete = hlevel

unfoldable pub DomainStatus-discrete : Discrete DomainStatus
DomainStatus-discrete = hlevel

unfoldable pub SnipeStatus-discrete : Discrete SnipeStatus
SnipeStatus-discrete = hlevel

unfoldable pub AutoSetup-discrete : Discrete AutoSetup
AutoSetup-discrete = hlevel

unfoldable pub ProductType-discrete : Discrete ProductType
ProductType-discrete = hlevel

unfoldable pub DomainVerification-discrete : Discrete DomainVerification
DomainVerification-discrete = hlevel

unfoldable pub BillingCycle-discrete : Discrete BillingCycle
BillingCycle-discrete = hlevel

unfoldable pub CancelMode-discrete : Discrete CancelMode
CancelMode-discrete = hlevel

unfoldable pub ProvisionKey-discrete : Discrete ProvisionKey
ProvisionKey-discrete = hlevel

unfoldable pub ServerModuleName-discrete : Discrete ServerModuleName
ServerModuleName-discrete = hlevel
