-- ===== src/Rules.antt =====
-- The page of the rules: the form of a rule with its tester, and the actions of the rows.
pub mod Rail
pub mod Steps
pub mod TesterLaws
pub mod HandlerLaws
pub mod RunLaws
pub mod SaveLaws
mod Tests
