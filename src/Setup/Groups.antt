-- ===== src/Setup/Groups.antt =====
-- apps/web/src/setup/GroupsStep.tsx: the groups of the account, the ones that are chosen to be watched,
-- and the polling while the list is made. A chat id is a number here: it is only compared.
use teleyes.Common.{
  ℕ, suc, ◌-◌, Bool, true, false, not, ◌&&◌, Option, none, some, List, [], ◌∷◌, ◌++◌, ◌==◌,
  if◌then◌else◌, keep, any, call_at, without_at,
}
use teleyes.Text.{Text, trim, includes}
use teleyes.Terms.TermList.{is_empty}
use teleyes.Setup.Timers.{Failure, error_message}

pub data GroupsState : Type 0 where
  state_idle waiting_listener pending running listed failed : GroupsState

pub record Dialog : Type 0 where
  pub chat_id : ℕ
  pub title : Text
  pub monitored : Bool

pub record Groups : Type 0 where
  pub state : GroupsState
  pub dialogs : List Dialog

pub data GroupsError : Type 0 where
  csrf_missing : GroupsError
  failed_with : Option ℕ → GroupsError

-- `selected` is the set in the order of its insertions; `timer` is the interval of the second effect,
-- `loads` and `searches` are the requests for the list that are out, `out` lists the choices that are
-- sent and not answered, `sent` all choices, the latest first; `refreshed` counts the runs of `onRefresh`.
pub record GroupsStep : Type 0 where
  pub csrf : Option ℕ
  pub ready : Bool
  pub groups : Option Groups
  pub selected : List ℕ
  pub filter : Text
  pub error : Option GroupsError
  pub busy : Bool
  pub notice : Option ℕ
  pub timer : Bool
  pub loads : ℕ
  pub searches : ℕ
  pub out : List (List ℕ)
  pub sent : List (List ℕ)
  pub refreshed : ℕ

-- `IN_PROGRESS.has(groups.state)`
abbrev pub is_progress : GroupsState → Bool
is_progress pending = true
is_progress running = true
is_progress waiting_listener = true
is_progress _ = false

unfoldable pub load : GroupsStep → GroupsStep
load s = record s { loads = suc s.loads }

-- `setGroups`, with the effect of `[inProgress, load]` behind it.
unfoldable pub set_groups : Groups → GroupsStep → GroupsStep
set_groups next s = record s { groups = some next; timer = is_progress next.state }

-- The effect of `[ready, load]`.
unfoldable pub set_ready : Bool → GroupsStep → GroupsStep
unfolding load
set_ready ready s =
    if ready && not s.ready then load (record s { ready = true }) else record s { ready = ready }

unfoldable pub opened : Option ℕ → Bool → GroupsStep
unfolding set_ready
opened csrf ready = set_ready ready (record {
  csrf = csrf;
  ready = false;
  groups = none;
  selected = [];
  filter = [];
  error = none;
  busy = false;
  notice = none;
  timer = false;
  loads = 0;
  searches = 0;
  out = [];
  sent = [];
  refreshed = 0;
})

-- `search` up to the call.
unfoldable pub search : Option ℕ → GroupsStep → GroupsStep
search none s = record s { error = some csrf_missing }
search (some token) s = record s { error = none; notice = none; searches = suc s.searches }

abbrev pub has : ℕ → List ℕ → Bool
has id ids = any (λ i. i == id) ids

-- `toggle`
unfoldable pub toggle : ℕ → List ℕ → List ℕ
toggle id ids = if has id ids then keep (λ i. not (i == id)) ids else ids ++ id ∷ []

-- `save` up to the call.
unfoldable pub save : Option ℕ → GroupsStep → GroupsStep
save none s = record s { error = some csrf_missing }
save (some token) s = record s {
  busy = true;
  error = none;
  out = s.selected ∷ s.out;
  sent = s.selected ∷ s.sent;
}

-- The answer to the choice at a place of `out`, with the number of the groups that it added.
unfoldable pub saved : Option (List ℕ) → ℕ → ℕ → GroupsStep → GroupsStep
unfolding load
saved none n created s = s
saved (some ids) n created s = load (record s {
  selected = [];
  notice = some created;
  busy = false;
  out = without_at n s.out;
  refreshed = suc s.refreshed;
})

unfoldable pub save_failed : Option (List ℕ) → ℕ → Failure → GroupsStep → GroupsStep
save_failed none n failure s = s
save_failed (some ids) n failure s = record s {
  error = some (failed_with (error_message failure));
  busy = false;
  out = without_at n s.out;
}

abbrev pub dialogs_of : Option Groups → List Dialog
dialogs_of none = []
dialogs_of (some groups) = groups.dialogs

abbrev pub is_listed : Option Groups → Bool
is_listed none = false
is_listed (some groups) = elim groups.state [ listed ↦ true | _ ↦ false ]

abbrev pub in_progress : Option Groups → Bool
in_progress none = false
in_progress (some groups) = is_progress groups.state

abbrev pub is_nothing : List ℕ → Bool
is_nothing [] = true
is_nothing _ = false

pub data Event : Type 0 where
  ready_set : Bool → Event
  loaded : Groups → Event
  load_refused : Failure → Event
  timer_fired search_clicked : Event
  searched : Groups → Event
  search_refused : Failure → Event
  filter_typed : Text → Event
  toggled : ℕ → Event
  save_clicked : Event
  -- The answer to a choice that is out, by its place in `out`.
  choice_saved : ℕ → ℕ → Event
  choice_refused : ℕ → Failure → Event

module _ (lower : Text → Text) where
  -- `visible`
  unfoldable pub visible : Text → List Dialog → List Dialog
  visible filter dialogs =
      if is_empty (trim filter)
      then dialogs
      else keep (λ dialog. includes (lower (trim filter)) (lower dialog.title)) dialogs

  -- A box that is shown and not disabled.
  unfoldable pub can_toggle : ℕ → GroupsStep → Bool
  unfolding visible
  can_toggle id s =
      s.ready
      && is_listed s.groups
      && any (λ dialog. dialog.chat_id == id && not dialog.monitored)
          (visible s.filter (dialogs_of s.groups))

  unfoldable pub step : Event → GroupsStep → GroupsStep
  unfolding set_ready set_groups load search toggle save saved save_failed can_toggle
  step (ready_set ready) s = set_ready ready s
  step (loaded next) s =
      if s.loads == 0 then s else set_groups next (record s { loads = s.loads - 1; error = none })
  step (load_refused failure) s =
      if s.loads == 0
      then s
      else record s { loads = s.loads - 1; error = some (failed_with (error_message failure)) }
  step timer_fired s = if s.timer then load s else s
  step search_clicked s = if s.ready && not (in_progress s.groups) then search s.csrf s else s
  step (searched next) s =
      if s.searches == 0 then s else set_groups next (record s { searches = s.searches - 1 })
  step (search_refused failure) s = if s.searches == 0 then s else record s {
    searches = s.searches - 1;
    error = some (failed_with (error_message failure));
  }
  step (filter_typed text) s = record s { filter = text }
  step (toggled id) s = if can_toggle id s then record s { selected = toggle id s.selected } else s
  step save_clicked s =
      if s.ready && is_listed s.groups && not (is_nothing s.selected) && not s.busy
      then save s.csrf s
      else s
  step (choice_saved n created) s = saved (call_at n s.out) n created s
  step (choice_refused n failure) s = save_failed (call_at n s.out) n failure s

  unfoldable pub run : List Event → GroupsStep → GroupsStep
  run [] s = s
  run (e ∷ es) s = run es (step e s)
