-- ===== src/Chrome/Tests.antt =====
-- Runs of the compact chrome and of the theme store of apps/web/src/chrome and apps/web/src/theme.
use teleyes.Common.{◌≡◌, refl, true, false, none, some, List, [], ◌∷◌}
use teleyes.Chrome.Scroll
use teleyes.Chrome.Scroll.{Chrome, compact}
use teleyes.Chrome.Theme
use teleyes.Chrome.Theme.{
  ThemePreference, dark_theme, light_theme, Stored, Store, compute_state, set_theme_preference,
  get_theme_state,
}

-- The page is scrolled down, then narrowed.
abbrev scroll_events : List Scroll.Event
scroll_events =
    Scroll.Event.mounts true 0
    ∷ Scroll.Event.scrolled
    ∷ Scroll.Event.frame_ran 1 true 300
    ∷ Scroll.Event.media_changed false 300
    ∷ []

scroll_runs : (Scroll.run scroll_events Scroll.init).notified ≡ 3
unfolding Scroll.run Scroll.step Scroll.init
scroll_runs = refl

-- The media query changes while a frame is asked for: the cleanup does not cancel that frame.
late_frame_runs :
    (Scroll.run
      (Scroll.Event.mounts true 0
        ∷ Scroll.Event.scrolled
        ∷ Scroll.Event.media_changed true 0
        ∷ Scroll.Event.unmounts
        ∷ Scroll.Event.frame_ran 1 true 0
        ∷ [])
      Scroll.init).mode
    ≡ Scroll.rest
unfolding Scroll.run Scroll.step Scroll.init
late_frame_runs = refl

-- A browser that prefers the dark theme and remembers nothing.
abbrev first_visit : Store
first_visit = record {
  state = none;
  listeners = [];
  attached = false;
  document = none;
  notified = 0;
  stored = none;
  blocked = false;
  prefers_dark = some true;
}

abbrev theme_events : List Theme.Event
theme_events =
    Theme.Event.read
    ∷ Theme.Event.subscribed 1
    ∷ Theme.Event.chosen ThemePreference.light
    ∷ Theme.Event.system_changed false
    ∷ Theme.Event.storage_changed true (some (Stored.name ThemePreference.system))
    ∷ []

theme_runs :
    (Theme.run theme_events first_visit).state
    ≡ some (record { preference = ThemePreference.system; resolved = light_theme })
unfolding Theme.run Theme.step
theme_runs = refl

abbrev watched : Store
watched = record first_visit {
  state = some (record { preference = ThemePreference.system; resolved = dark_theme });
  listeners = 1 ∷ [];
  attached = true;
}
