-- ===== src/Chrome/Theme.antt =====
-- apps/web/src/theme/theme.ts: the theme store. The state holds the module's variables and what they
-- act on: the attributes of `html`, the storage and the system's preference. A listener is a number.
use teleyes.Common.{
  ℕ, suc, Bool, true, false, not, ◌&&◌, Option, none, some, List, [], ◌∷◌, ◌==◌, if◌then◌else◌,
  keep, any,
}

pub data ThemePreference : Type 0 where
  system light dark : ThemePreference

pub data ResolvedTheme : Type 0 where
  light_theme dark_theme : ResolvedTheme

pub record ThemeState : Type 0 where
  pub preference : ThemePreference
  pub resolved : ResolvedTheme

-- A stored text: one of the three names or something else.
pub data Stored : Type 0 where
  name : ThemePreference → Stored
  other : Stored

-- `document` is the pair of attributes; `blocked` says that every access to the storage throws;
-- `prefers_dark` is what `matchMedia` answers, `none` where it throws.
pub record Store : Type 0 where
  pub state : Option ThemeState
  pub listeners : List ℕ
  pub attached : Bool
  pub document : Option ThemeState
  pub notified : ℕ
  pub stored : Option Stored
  pub blocked : Bool
  pub prefers_dark : Option Bool

unfoldable pub next_theme_preference : ThemePreference → ThemePreference
next_theme_preference system = light
next_theme_preference light = dark
next_theme_preference dark = system

unfoldable pub resolve_theme : ThemePreference → Bool → ResolvedTheme
resolve_theme system prefers_dark = if prefers_dark then dark_theme else light_theme
resolve_theme light prefers_dark = light_theme
resolve_theme dark prefers_dark = dark_theme

abbrev pub valid_or_system : Option Stored → ThemePreference
valid_or_system (some (name preference)) = preference
valid_or_system _ = system

unfoldable pub read_stored_preference : Store → ThemePreference
read_stored_preference s = if s.blocked then system else valid_or_system s.stored

unfoldable pub store_preference : ThemePreference → Store → Store
store_preference preference s = record s {
  stored = if s.blocked then s.stored else some (name preference);
}

abbrev pub or_false : Option Bool → Bool
or_false none = false
or_false (some b) = b

-- `systemPrefersDark`
abbrev pub system_prefers_dark : Store → Bool
system_prefers_dark s = or_false s.prefers_dark

unfoldable pub compute_state : ThemePreference → Store → ThemeState
unfolding resolve_theme
compute_state preference s = record {
  preference = preference;
  resolved = resolve_theme preference (system_prefers_dark s);
}

abbrev pub apply_to_document : ThemeState → Store → Store
apply_to_document state s = record s { document = some state }

abbrev pub same_preference : ThemePreference → ThemePreference → Bool
same_preference system system = true
same_preference light light = true
same_preference dark dark = true
same_preference _ _ = false

abbrev pub same_theme : ResolvedTheme → ResolvedTheme → Bool
same_theme light_theme light_theme = true
same_theme dark_theme dark_theme = true
same_theme _ _ = false

abbrev pub is_same : Option ThemeState → ThemeState → Bool
is_same none next = false
is_same (some state) next =
    same_preference state.preference next.preference && same_theme state.resolved next.resolved

unfoldable pub commit : ThemeState → Store → Store
commit next s =
    if is_same s.state next
    then apply_to_document next s
    else apply_to_document next (record s { state = some next; notified = suc s.notified })

unfoldable pub get_theme_state : Store → Store
unfolding compute_state read_stored_preference
get_theme_state s = elim s.state [
  | none ↦
      let next = compute_state (read_stored_preference s) s in
      apply_to_document next (record s { state = some next })
  | some state ↦ s
]

unfoldable pub set_theme_preference : ThemePreference → Store → Store
unfolding commit compute_state store_preference
set_theme_preference preference s =
    commit (compute_state preference s) (store_preference preference s)

abbrev pub follows_system : Option ThemeState → Bool
follows_system none = false
follows_system (some state) = same_preference state.preference system

-- The system's preference changes; `onSystemChange` runs where `attach` has added it. Where
-- `matchMedia` throws nothing tells of a change.
unfoldable pub system_changes : Bool → Store → Store
unfolding commit compute_state
system_changes prefers_dark s = elim s.prefers_dark [
  | none ↦ s
  | some before ↦
      let changed = record s { prefers_dark = some prefers_dark } in
      if s.attached && follows_system s.state
      then commit (compute_state system changed) changed
      else changed
]

-- Another tab writes the storage (`none` clears it); `ours` says that the key is the theme's or null.
unfoldable pub other_tab_writes : Bool → Option Stored → Store → Store
unfolding commit compute_state read_stored_preference
other_tab_writes ours value s =
    let changed = record s { stored = if ours then value else s.stored } in
    if s.attached && ours
    then commit (compute_state (read_stored_preference changed) changed) changed
    else changed

abbrev pub insert_listener : ℕ → List ℕ → List ℕ
insert_listener listener listeners =
    if any (λ l. l == listener) listeners then listeners else listener ∷ listeners

abbrev pub is_nonempty : List ℕ → Bool
is_nonempty [] = false
is_nonempty (l ∷ ls) = true

-- `subscribeTheme`; the first listener attaches.
unfoldable pub subscribe_theme : ℕ → Store → Store
subscribe_theme listener s = record s {
  listeners = insert_listener listener s.listeners;
  attached = if is_nonempty s.listeners then s.attached else true;
}

-- The function that `subscribeTheme` returns; the last listener detaches.
unfoldable pub unsubscribe_theme : ℕ → Store → Store
unsubscribe_theme listener s =
    let left = keep (λ l. not (l == listener)) s.listeners in
    record s { listeners = left; attached = if is_nonempty left then s.attached else false }

pub data Event : Type 0 where
  read : Event
  chosen : ThemePreference → Event
  system_changed : Bool → Event
  storage_changed : Bool → Option Stored → Event
  subscribed unsubscribed : ℕ → Event

unfoldable pub step : Event → Store → Store
unfolding get_theme_state set_theme_preference system_changes other_tab_writes subscribe_theme
    unsubscribe_theme
step read s = get_theme_state s
step (chosen preference) s = set_theme_preference preference s
step (system_changed prefers_dark) s = system_changes prefers_dark s
step (storage_changed ours value) s = other_tab_writes ours value s
step (subscribed listener) s = subscribe_theme listener s
step (unsubscribed listener) s = unsubscribe_theme listener s

unfoldable pub run : List Event → Store → Store
run [] s = s
run (e ∷ es) s = run es (step e s)
