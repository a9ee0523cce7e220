-- ===== src/Chrome/ThemeLaws.antt =====
-- The page shows the state of the store, and the state follows its sources.
use teleyes.Common.{
  ◌≡◌, ◌≢◌, ◌↔◌, refl, Bool, true, false, Option, none, some, List, [], ◌∷◌, arith, if◌then◌else◌,
  Bool-cases, inl, inr,
}
use teleyes.Chrome.Theme.{
  ThemePreference, ResolvedTheme, light_theme, dark_theme, same_preference, same_theme, is_same,
  commit, compute_state, store_preference, ThemeState, Store, resolve_theme, read_stored_preference,
  system_prefers_dark, get_theme_state, set_theme_preference, Event, step, run,
}

-- A store before its first use.
abbrev pub IsFresh : Store → Type 0
IsFresh s = (s.state ≡ none) × (s.document ≡ none) × (s.listeners ≡ []) × (s.attached ≡ false)

-- The attributes of the page show the state, and the event handlers are attached exactly while
-- there is a listener.
pub record IsMirrored (s : Store) : Type 0 where
  pub mirrored : s.document ≡ s.state
  pub attached_iff : (s.attached ≡ true) ↔ (s.listeners ≢ [])

step-IsMirrored : (e : Event) (s : Store) → IsMirrored s → IsMirrored (step e s)
unfolding step
step-IsMirrored Event.read s v = ground arith
step-IsMirrored (Event.chosen p) s v = ground arith
step-IsMirrored (Event.system_changed d) s v = ground arith
step-IsMirrored (Event.storage_changed o value) s v = ground arith
step-IsMirrored (Event.subscribed l) s v = ground arith
step-IsMirrored (Event.unsubscribed l) s v = ground arith

run_from : (es : List Event) (s : Store) → IsMirrored s → IsMirrored (run es s)
unfolding run
run_from [] s v = v
run_from (e ∷ es) s v = run_from es (step e s) (step-IsMirrored e s v)

-- From a fresh store, after every sequence of events the page shows the state of the store, and the
-- handlers are attached exactly while somebody listens.
pub run-IsMirrored : (es : List Event) (s : Store) → IsFresh s → IsMirrored (run es s)
run-IsMirrored es s f = run_from es s (ground arith)

-- A commit shows the new state whether it differs from the old one or not, and leaves the storage.
same_preference_lem : (p q : ThemePreference) → same_preference p q ≡ true → p ≡ q
same_preference_lem ThemePreference.system q h = ground arith
same_preference_lem ThemePreference.light q h = ground arith
same_preference_lem ThemePreference.dark q h = ground arith

same_theme_lem : (p q : ResolvedTheme) → same_theme p q ≡ true → p ≡ q
same_theme_lem light_theme q h = ground arith
same_theme_lem dark_theme q h = ground arith

is_same_lem :
    (state : Option ThemeState) (next : ThemeState) → is_same state next ≡ true → state ≡ some next
is_same_lem none next h = ground arith
is_same_lem (some state) next h = ground (
  arith,
  same_preference_lem state.preference next.preference,
  same_theme_lem state.resolved next.resolved,
)

commit-state : (next : ThemeState) (s : Store) → (commit next s).state ≡ some next
unfolding commit
commit-state next s = ground (arith, is_same_lem s.state next)

commit-sources :
    (next : ThemeState) (s : Store)
    → ((commit next s).stored ≡ s.stored)
      × ((commit next s).blocked ≡ s.blocked)
      × ((commit next s).prefers_dark ≡ s.prefers_dark)
unfolding commit
commit-sources next s = ground arith

-- The theme that is shown is the one that the preference and the system ask for.
abbrev pub IsResolved : Option ThemeState → Bool → Type 0
IsResolved none dark = Unit
IsResolved (some state) dark = state.resolved ≡ resolve_theme state.preference dark

abbrev pub IsCurrent : Store → Type 0
IsCurrent s = IsResolved s.state (system_prefers_dark s)

-- Whether an event reaches the store.
abbrev pub IsHeard : Event → Store → Type 0
IsHeard (Event.system_changed d) s = s.attached ≡ true
IsHeard _ s = Unit

commit-IsCurrent :
    (preference : ThemePreference) (s : Store) → IsCurrent (commit (compute_state preference s) s)
unfolding compute_state
commit-IsCurrent preference s =
    rw
      (
        commit-state (compute_state preference s) s,
        (commit-sources (compute_state preference s) s).2,
      )
      refl

-- Every event keeps the shown theme the one that the preference and the system ask for, but for a
-- change of the system while nobody listens.
pub step-IsCurrent : (e : Event) (s : Store) → IsHeard e s → IsCurrent s → IsCurrent (step e s)
unfolding step
step-IsCurrent Event.read s h c = ground arith
step-IsCurrent (Event.chosen p) s h c = commit-IsCurrent p (store_preference p s)
step-IsCurrent (Event.system_changed d) s h c = ground (
  arith,
  is_same_lem s.state (record {
    preference = ThemePreference.system;
    resolved = if d then dark_theme else light_theme;
  }),
)
step-IsCurrent (Event.storage_changed o value) s h c = ground (arith, is_same_lem s.state)
step-IsCurrent (Event.subscribed l) s h c = c
step-IsCurrent (Event.unsubscribed l) s h c = c

-- The state of a fresh page: the preference that the storage holds.
get_theme_state-fresh :
    (s : Store)
    → s.state ≡ none
    → (get_theme_state s).state ≡ some (compute_state (read_stored_preference s) s)
unfolding get_theme_state
get_theme_state-fresh s h = ground arith

-- Where the storage is not blocked, a chosen theme holds at once and survives a reload of the
-- page.
pub set_theme_preference-reload :
    (preference : ThemePreference) (s : Store)
    → s.blocked ≡ false
    → let chosen = set_theme_preference preference s in
      (chosen.state ≡ some (compute_state preference s))
      × ((get_theme_state (record chosen { state = none; document = none })).state
          ≡ some (compute_state preference s))
unfolding set_theme_preference get_theme_state
set_theme_preference-reload preference s b =
    elim (Bool-cases (is_same s.state (compute_state preference s))) [
      | inl e ↦ ground (arith, is_same_lem s.state (compute_state preference s) e)
      | inr e ↦ ground arith
    ]
