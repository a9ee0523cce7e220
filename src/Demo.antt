-- ===== src/Demo.antt =====
-- The API of the static demo.
pub mod Matches
pub mod Preview
pub mod MockApi
pub mod MockApiLaws
pub mod Source
pub mod SourceLaws
mod Tests
