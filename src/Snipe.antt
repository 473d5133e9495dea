-- ===== src/Snipe.antt =====
-- backend/internal/modules/snipe: the price, the refunds, the course and the leases of domain hunts.
pub mod Price
pub mod Quote
pub mod Refunds
pub mod Lifecycle
pub mod Races
pub mod Activation
pub mod CancelAndPay
pub mod Ledger
pub mod Classify
pub mod Leases
