-- ===== src/Purchases.antt =====
-- The purchases of the economy page: the form of a purchase and the page that keeps the list.
pub mod Form
pub mod FormLaws
pub mod SearchLaws
pub mod Page
pub mod Steps
pub mod PageLaws
mod Tests
