-- ===== src/Billing.antt =====
-- backend/internal/modules/billing/service.go.
pub mod Create
pub mod Totals
pub mod Discount
pub mod Paid
pub mod Dispatch
pub mod Plan
pub mod Activations
pub mod Cancel
pub mod Refund
pub mod RefundedOnce
pub mod Renewals
pub mod CreateKeeps
pub mod Created
pub mod RenewedOnce
pub mod Overdue
pub mod Nightly
pub mod Manual
pub mod FeeOnce
pub mod MarkedOverdue
