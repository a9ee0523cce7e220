-- ===== src/Terms.antt =====
-- The include and exclude terms of a rule: the chip list of the form and the preview of the matching.
pub mod TermList
pub mod Preview
pub mod RoundTrip
pub mod Edits
pub mod Meaning
pub mod RuleForm
pub mod Chips
pub mod ChipsLaws
mod Tests
