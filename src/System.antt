-- ===== src/System.antt =====
-- The modules of the backend put together, as backend/internal/composition wires them: a paid invoice
-- with the handlers of the other modules.
pub mod Handlers
pub mod HandlersKept
pub mod Balanced
pub mod Settled
