-- ===== src/Chrome.antt =====
-- The page's chrome: its compact mode while the feed is scrolled, and the theme.
pub mod Scroll
pub mod ScrollLaws
pub mod Theme
pub mod ThemeLaws
mod Tests
