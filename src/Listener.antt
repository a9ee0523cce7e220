-- ===== src/Listener.antt =====
-- The listener as the pages see it: its polled status and the readings of it.
pub mod Poll
pub mod PollLaws
pub mod View
mod Tests
