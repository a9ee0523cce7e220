-- ===== src/Offers.antt =====
-- The prices of offers: targets, the lowest price and the report of savings.
pub mod Target
pub mod Lowest
pub mod Report
pub mod ResultsCard
pub mod ResultsCardLaws
pub mod Summary
pub mod PriceRange
mod Tests
