-- ===== src/Entry.antt =====
-- The entry decisions of mu_strategy.
pub mod Decision
