-- ===== src/Health.antt =====
-- The Saúde page and the delivery of alerts.
pub mod Services
pub mod RecipientPreview
pub mod PreviewLaws
pub mod Deliveries
pub mod Poll
mod Tests
