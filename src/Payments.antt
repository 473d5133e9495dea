-- ===== src/Payments.antt =====
-- backend/internal/modules/payments/service.go.
pub mod Apply
pub mod Accepted
pub mod Idempotence
pub mod PayWithCredit
pub mod Ledger
pub mod Gateway
pub mod Confirmed
