-- ===== src/Sources/Tests.antt =====
-- Runs of the page of the sources.
use teleyes.Common.{◌≡◌, refl, none, some, List, [], ◌∷◌}
use teleyes.Text.{codes}
use teleyes.Sources.Stats.{SourceActivity, bar_scale, evaluated_today}

-- The second day of the first source was not measured.
abbrev rows : List SourceActivity
rows =
    record {
      name = codes "Promos";
      matches = 3;
      last_match_at = none;
      daily =
          record { day = codes "2026-03-01"; evaluated = some 40 }
          ∷ record { day = codes "2026-03-02"; evaluated = none }
          ∷ [];
    }
    ∷ record {
      name = codes "Ofertas";
      matches = 0;
      last_match_at = none;
      daily = record { day = codes "2026-03-02"; evaluated = some 60 } ∷ [];
    }
    ∷ []

rows_run : (bar_scale (some rows) ≡ 60) × (evaluated_today (some rows) ≡ some 60)
unfolding bar_scale evaluated_today
rows_run = (refl, refl)
