-- ===== src/Writes/Deletion.antt =====
-- apps/web/src/hooks/useDeleteListing.tsx with the buttons of apps/web/src/components/ConfirmDialog.tsx:
-- nothing is deleted without a confirmation. The answers are those of `apiRequest`.
use teleyes.Common.{
  ℕ, Bool, true, false, Option, none, some, List, [], ◌∷◌, ◌++◌, ◌==◌, if◌then◌else◌, call_at,
  without_at,
}
use teleyes.Text.{Text, codes}
use teleyes.Json.{Json, object, get, as_number}
use teleyes.Session.Http.{Outcome, returned, thrown}
use teleyes.Feed.Toast.{ToastTone}
use teleyes.Writes.Failures.{
  Notice, csrf_missing, listing_deleted, already_deleted, records_deleted, Shown, report_failure,
}

-- `DeleteTarget`
pub data Target : Type 0 where
  match_target : ℕ → Target
  product_target : Text → ℕ → Target

-- The state of the hook; `out` lists the targets of the calls that are not answered yet, `sent` and
-- `deleted` those of all calls and of `onDeleted`, `toasts` what was shown, the latest first.
pub record Deletion : Type 0 where
  pub csrf : Option ℕ
  pub target : Option Target
  pub busy : Bool
  pub out : List Target
  pub sent : List Target
  pub deleted : List Target
  pub toasts : Shown

unfoldable pub opened : Option ℕ → Deletion
opened csrf = record {
  csrf = csrf;
  target = none;
  busy = false;
  out = [];
  sent = [];
  deleted = [];
  toasts = [];
}

-- `confirm` up to the call, for the target that the dialog is about and the token of the session.
unfoldable pub confirm_target : Option Target → Option ℕ → Deletion → Deletion
confirm_target none csrf s = s
confirm_target (some target) none s = record s {
  target = none;
  toasts = (csrf_missing, ToastTone.error) ∷ s.toasts;
}
confirm_target (some target) (some token) s = record s {
  busy = true;
  out = target ∷ s.out;
  sent = target ∷ s.sent;
}

abbrev pub deleted_count : Option Json → ℕ
deleted_count (some (object fields)) = elim (as_number (get (codes "deleted") fields)) [
  | none ↦ 0
  | some n ↦ n
]
deleted_count _ = 0

unfoldable pub notice_of : Target → Option Json → Notice
notice_of (match_target id) body = listing_deleted
notice_of (product_target key count) body = records_deleted (deleted_count body)

unfoldable pub finish : Target → Notice → Deletion → Deletion
finish target notice s = record s {
  target = none;
  busy = false;
  deleted = target ∷ s.deleted;
  toasts = (notice, ToastTone.success) ∷ s.toasts;
}

unfoldable pub keep_open : Outcome → Deletion → Deletion
keep_open outcome s = record s { busy = false; toasts = report_failure outcome ++ s.toasts }

-- The rest of `confirm`, with its `catch` and `finally`.
unfoldable pub settle : Target → Outcome → Deletion → Deletion
unfolding notice_of finish keep_open
settle target (returned body) s = finish target (notice_of target body) s
settle target (thrown detail status) s =
    if status == 404 then finish target already_deleted s else keep_open (thrown detail status) s
settle target outcome s = keep_open outcome s

-- The answer to a call that is out, by its place in `out`.
unfoldable pub answer_for : Option Target → ℕ → Outcome → Deletion → Deletion
unfolding settle
answer_for none n outcome s = s
answer_for (some target) n outcome s = settle target outcome (record s { out = without_at n s.out })

pub data Event : Type 0 where
  -- `requestDeleteMatch` or `requestDeleteProduct`.
  asked : Target → Event
  -- The button and the Esc of the dialog.
  cancelled : Event
  confirmed : Event
  answered : ℕ → Outcome → Event
  csrf_changed : Option ℕ → Event

unfoldable pub step : Event → Deletion → Deletion
unfolding confirm_target answer_for
step (asked target) s = record s { target = some target }
step cancelled s = if s.busy then s else record s { target = none }
step confirmed s = if s.busy then s else confirm_target s.target s.csrf s
step (answered n outcome) s = answer_for (call_at n s.out) n outcome s
step (csrf_changed csrf) s = record s { csrf = csrf }

unfoldable pub run : List Event → Deletion → Deletion
run [] s = s
run (e ∷ es) s = run es (step e s)
