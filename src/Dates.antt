-- ===== src/Dates.antt =====
-- apps/web/src/utils/dates.ts: the instants of the API and the days of the viewer.
pub mod Stamp
pub mod StampLaws
pub mod DayOrder
pub mod Labels
mod Tests
