-- ===== src/Tests.antt =====
-- Runs on concrete values, of the theorems about the modules of backend/internal.
mod Sample
mod Shop
mod Domain
mod Money
mod Dispatch
mod Hunts
mod Jobs
mod Orders
mod Lifecycle
mod System
mod Rack
mod Panel
mod Plans
