-- ===== src/History.antt =====
-- The Histórico page: its filters and its export.
pub mod Csv
pub mod CsvLaws
pub mod Filters
pub mod Persistent
mod Tests
