-- ===== src/Price.antt =====
-- Prices that the user types and prices that the pages compare.
pub mod Input
pub mod Format
pub mod Digits
pub mod Shape
pub mod Patterns
pub mod RoundTrip
pub mod Bounds
mod Tests
