-- ===== src/Feed.antt =====
-- The state behind the feed: the live list, the product panel and the toast.
pub mod Board
pub mod BoardLaws
pub mod RailLaws
pub mod Live
pub mod Panel
pub mod PanelLaws
pub mod Spark
pub mod SparkLaws
pub mod Title
pub mod TitleLaws
pub mod Toast
mod Tests
