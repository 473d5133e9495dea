-- ===== src/Orders.antt =====
-- backend/internal/modules/orders: how an order is activated and closed, and its stock.
pub mod Activate
pub mod ActivatedOnce
pub mod Close
pub mod Stock
pub mod Create
pub mod Names
pub mod Totals
pub mod Fraud
