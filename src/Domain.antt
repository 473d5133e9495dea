-- ===== src/Domain.antt =====
-- backend/internal/domain: the enumerations, the state machines and the pure business rules.
pub mod Enums
pub mod StateMachine
pub mod Lifecycle
pub mod Calendar
pub mod Cycle
pub mod Tax
pub mod Prorate
pub mod Money
pub mod Numbers
pub mod Username
pub mod Documents
pub mod Specs
pub mod PackageName
