-- ===== src/Writes/Failures.antt =====
-- How a page reports the failure of a write: `reportFailure` of apps/web/src/api/demo.ts.
use teleyes.Common.{ℕ, List, [], ◌∷◌, if◌then◌else◌}
use teleyes.Text.{Text}
use teleyes.Session.Http.{Outcome, thrown, is_demo_read_only}
use teleyes.Feed.Toast.{ToastTone}

-- The texts of the toasts: one of the page's own, the message of the server, or a number in a text.
pub data Notice : Type 0 where
  csrf_missing : Notice
  server_message : Text → Notice
  fallback listing_deleted already_deleted : Notice
  records_deleted : ℕ → Notice
  snooze_removed product_snoozed reactivated target_saved : Notice

abbrev pub Shown : Type 0
Shown = List (Notice × ToastTone)

-- `reportFailure(err, err instanceof ApiError ? err.message : fallback, report)`: the toasts it shows.
-- The refusal of the read-only demo has its toast already.
unfoldable pub report_failure : Outcome → Shown
report_failure (thrown detail status) =
    if is_demo_read_only status detail.message
    then []
    else (server_message detail.message, ToastTone.error) ∷ []
report_failure outcome = (fallback, ToastTone.error) ∷ []
