-- ===== src/Market.antt =====
-- mu_strategy/market_data/trusted_data: what makes a published snapshot trusted.
pub mod Policy
pub mod Laws
mod Tests
