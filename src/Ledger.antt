-- ===== src/Ledger.antt =====
-- mu_strategy/manual_positions.py: the ledger of manual fills.
pub mod Externals
pub mod Decimal
pub mod Each
pub mod Fill
pub mod Replay
pub mod Store
pub mod Form
pub mod Save
pub mod Confirm
pub mod Requests
pub mod Rules
pub mod Moves
pub mod Readable
pub mod Once
pub mod Balance
pub mod Stale
mod Tests
