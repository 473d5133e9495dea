-- ===== src/Store.antt =====
-- The tables that the billing flow reads and writes, and the SQL of the repositories over them
-- (backend/internal/modules/billing/repo.go, payments/repo.go, clients/repo.go). A table with a
-- primary key is a function from the key; ids come from a sequence. A query that finds no row answers
-- NOT_FOUND; a database that cannot be reached is not modelled.
pub mod Tables
pub mod Listing
pub mod Services
pub mod Servers
pub mod Placement
pub mod Cancellations
pub mod Invoices
pub mod Transactions
pub mod Keyed
pub mod Snipes
pub mod Orders
pub mod Credit
pub mod Ledger
