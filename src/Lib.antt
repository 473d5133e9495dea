-- ===== src/Lib.antt =====
-- The money core of a web hosting billing system (backend/internal): invoices, payments, client
-- credit, orders, renewals, hosting accounts and domain hunts, and the rules of
-- backend/internal/domain that they rest on.
--
-- Base: shared helpers. Base/Int and Base/Word are Go's int64 with its wrap-around, Base/Float
-- takes float64 as a parameter with the few IEEE facts that a bound needs, Base/Text and
-- Base/Decimal are strings as lists of bytes and decimal numerals. Base/Action is a call on a
-- store that ends in a value or in an error code of backend/pkg/apperr; `within_tx` is WithinTx
-- of backend/internal/platform/db: a nested transaction joins the open one, and the outermost
-- one rolls back on an error. Base/Keeps, Base/Ensures and Base/Leads carry properties of the
-- store through a call, Base/Each through the loop of a job that counts its successes and
-- collects its errors.
--
-- Domain: backend/internal/domain. Enums (enums.go), StateMachine and Lifecycle
-- (statemachine.go), Calendar and Cycle (cycle.go), Prorate (prorate.go), Tax (tax.go), Money
-- (money.go), Numbers (numbers.go), Username (generate.go), Documents (documents.go), Specs and
-- PackageName (specs.go).
--
-- Store: the tables, and the repositories over them. Invoices is
-- backend/internal/modules/billing/repo.go, Transactions is
-- backend/internal/modules/payments/repo.go, Credit is AdjustCredit of
-- backend/internal/modules/clients/repo.go with AddCredit, DeductCredit and applyCredit of its
-- service.go. Services is the repo.go of the modules provisioning and domains, with Servers for
-- the panel servers and Cancellations for cancellation_repo.go; Snipes is that of snipe, Orders
-- that of orders with the stock and the coupon counter of the one of catalog. A query that sorts
-- is in Listing. Ledger says what balances and ledger rows have to do with each other, Keyed
-- that rows stand under their ids, Placement describes the choice of a server. A guarded UPDATE
-- of a hunt is a function that tests the row. The unique indexes on transactions, open domain
-- names and pending cancellation requests are tests before the rows are written.
--
-- Billing: backend/internal/modules/billing/service.go. Create is CreateInvoice and Totals is
-- about its totals, Created about the rows it adds. Paid is ProcessPaid with the ports of the
-- other modules as a record of handlers; Dispatch carries what the handlers keep through it
-- and Plan is the list of calls that it comes to, Activations counts in that list. Cancel is
-- CancelInvoice and RefundInvoice, Refund and RefundedOnce are about them. Discount is
-- recurringDiscount and the coupons of backend/internal/modules/orders/pricing.go. Renewals is
-- GenerateRenewalInvoices and Overdue is MarkOverdue and ApplyLateFees; RenewedOnce,
-- MarkedOverdue, FeeOnce and Nightly are about these jobs. Manual is CreateManualInvoice,
-- AddManualPayment and UpdateInvoice.
--
-- Payments: backend/internal/modules/payments/service.go. Apply is ApplyPayment, PayWithCredit
-- is payWithCredit, Gateway is HandleCallback, ReconcileOne and ConfirmManualTransaction.
-- Accepted, Idempotence, Ledger and Confirmed are about them.
--
-- Orders: backend/internal/modules/orders. Activate is ActivateOrder of activate.go and Accept,
-- Close is Cancel and MarkFraud, Create is CreateOrder from its transaction on, with the checked
-- request and the tax rate that it reads as arguments, and Names is ValidDomainName, priceSpec
-- and domainAddonsTotal of pricing.go. ActivatedOnce, Stock, Totals and Fraud are about them.
--
-- Provisioning: backend/internal/modules/provisioning/service.go, with RenewDomainAfterPayment
-- of backend/internal/modules/domains/service.go. Renewal is RenewService and ApplyUpgrade,
-- Renewed is about them. World is the store with the requests that the panels got and the queue;
-- Context looks up what a job needs, Lifecycle is ProvisionCreate, ProvisionSuspend,
-- ProvisionUnsuspend and ProvisionTerminate, Package is ProvisionChangePackage, Upgrade with
-- UpgradeSpecs is UpgradeService, Cancellation is CancelService, AcceptCancellationRequest and
-- RejectCancellationRequest, Schedule is AutoSuspend and AutoTerminate. Frames and Panels say
-- which steps leave the store alone, History, JobHistory and CreateHistory follow the status of
-- a service through each job and Jobs through a queue of them; CreatedOnce, Clean, Refused,
-- OnePending, Requests, Rows, Accepted, Enqueued, Late, RowKept, PlanChange and UpgradePaid are
-- about these operations.
--
-- Snipe: backend/internal/modules/snipe. Price is the arithmetic of price, invoiceItems and
-- refundSplit of client.go, Quote compares it with CreateInvoice, Refunds is refundFor of
-- service.go. Lifecycle is finish, AdminCancel, CancelForClient, ActivateSnipeAfterPayment and
-- what they call; Races, Activation, CancelAndPay and Ledger are about it. Leases is Claim of
-- repo.go. Classify is classify.go.
--
-- System: Handlers binds the handlers of a paid invoice to these modules as
-- backend/internal/composition does; HandlersKept, Balanced and Settled carry properties through
-- a payment with them.
--
-- Tests: the theorems at concrete inputs.
--
-- Parameters stand for what is outside: the hosting panels, whose answers are a function of all
-- requests that they got so far, the JSON of panel_meta, pending_upgrade and order options, the
-- queue, the generated and encrypted passwords, the hash in a package's name, the registrar's
-- row and its answers, the default nameservers, the payment gateway and the float64. Dates are
-- days with a clock; the times of hunts are instants counted in one unit, with the length of 30
-- days as an argument.
--
-- Calls run one at a time, so row locks have no effect; orderings of calls that read before they
-- write are spelled out as sequences of calls. A lookup that fails for other reasons than a
-- missing row, and a cancelled context, are not modelled, nor is what only notifies or logs.
-- Recursion is structural; only the decimal numerals run on fuel, which is the number itself and
-- more than its digits. Left out: HTTP, mail, storage, the adapters of the panels, the registrar
-- and the gateway, and the modules for accounts, tickets and content. Not modelled are the loop
-- and the sweeps of the supervisor, the checks of an order's plans and of fraud, the password
-- and single sign-on of an account, the domain jobs and the catalog.
pub mod Base
pub mod Domain
pub mod Store
pub mod Billing
pub mod Payments
pub mod Snipe
pub mod Provisioning
pub mod Orders
pub mod System
pub mod Tests
