-- ===== src/Sources.antt =====
-- The page of the sources: apps/web/src/pages/sourceStats.ts, and the recipients that a rule reaches,
-- apps/web/src/pages/recipientDelivery.ts.
pub mod Stats
pub mod StatsLaws
pub mod Recipients
mod Tests
