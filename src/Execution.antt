-- ===== src/Execution.antt =====
-- mu_strategy/execution.
pub mod Reservation
pub mod Intent
pub mod Audit
pub mod Json
pub mod Store
pub mod Sample
