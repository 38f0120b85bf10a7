-- ===== src/Service.antt =====
-- The signal service: mu_strategy/service_health.py and mu_strategy/signal_service.py.
pub mod Health
pub mod Valid
pub mod Facts
pub mod View
pub mod Document
pub mod World
pub mod Written
pub mod Children
pub mod Memory
pub mod Supervisor
pub mod Covered
pub mod Journal
pub mod Events
pub mod Healthy
pub mod Completes
pub mod Recovery
mod Tests
