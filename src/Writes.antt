-- ===== src/Writes.antt =====
-- The writes of the pages: the deletion of a listing (apps/web/src/hooks/useDeleteListing.tsx), the
-- handlers of apps/web/src/pages/FeedPage.tsx, and the correction of a match and of a target
-- (apps/web/src/components/ProductPanel.tsx).
pub mod Failures
pub mod Deletion
pub mod DeletionLaws
pub mod Actions
pub mod ActionsLaws
pub mod SnoozeLaws
pub mod Editor
pub mod Target
pub mod EditorLaws
mod Tests
