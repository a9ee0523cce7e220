-- ===== src/Session.antt =====
-- The admin's session: requests that recover from an expired session, and the state behind them.
pub mod Auth
pub mod Http
pub mod Invariant
pub mod Sharing
pub mod Retry
mod Tests
