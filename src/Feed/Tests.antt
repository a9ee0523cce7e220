-- ===== src/Feed/Tests.antt =====
-- Runs of the live list, the product panel and the toast of apps/web/src/hooks.
use teleyes.Common.{ℕ, ◌≡◌, refl, none, some, List, [], ◌∷◌}
use teleyes.Feed.Live
use teleyes.Feed.Live.{
  Live, answered, opened, stream_failed, unmounted, run-last_answer, answer_overtaken,
}
use teleyes.Feed.Panel
use teleyes.Feed.Panel.{Panel, closed}
use teleyes.Feed.PanelLaws.{IsConsistent, run-IsConsistent, own_change_misses_navigation}
use teleyes.Feed.Toast
use teleyes.Text.{Text, codes, trim, trim_start, trim_end, is_space, split, starts_with}
use teleyes.Common.{◌++◌}
use teleyes.Feed.Title.{
  card_title, product_text, strip_telegram_markup, remove_pairs, one_blank, has_link, before_link,
  cut_at_rule_term, rule_term_end_index, last_term_end, last_index_of, has_blank_line, cut_at_space,
}
use teleyes.Feed.Toast.{IsTimed, run-IsTimed}
use teleyes.Common.{◌≤◌, ◌⊎◌, true, false, length}
use teleyes.Feed.Board.{
  Match, Rule, count_of, rule_counts, sorted_rules, visible_matches, visible_rules, summary, take,
  drop,
}
use teleyes.Feed.BoardLaws.{count_of-rule_counts}
use teleyes.Feed.RailLaws.{AllBefore, is_chosen_in, visible_rules-sorted_rules}
use teleyes.Feed.Spark.{PricePoint}

abbrev live_events : List (Live.Event ℕ)
live_events =
    opened
    ∷ answered (some (1 ∷ []))
    ∷ answered none
    ∷ answered (some (2 ∷ 1 ∷ []))
    ∷ unmounted
    ∷ answered (some [])
    ∷ []

abbrev first_list : List ℕ
first_list = 1 ∷ []

abbrev second_list : List ℕ
second_list = 2 ∷ 1 ∷ []

-- A product is opened from a card, and another one by a link while the first one closes.
abbrev panel_events : List Panel.Event
panel_events =
    Panel.Event.opens 4 (some 9)
    ∷ Panel.Event.closes
    ∷ Panel.Event.navigated (some 5)
    ∷ Panel.Event.exit_ended
    ∷ []

abbrev panel : Panel
panel = Panel.run panel_events (Panel.init none)

panel_runs : (panel.product_key ≡ some 5) × (panel.focused ≡ [])
unfolding Panel.run Panel.step Panel.init
panel_runs = (refl, refl)

run-IsConsistent_example : IsConsistent panel
run-IsConsistent_example = run-IsConsistent none panel_events

own_change_misses_navigation_example :
    (Panel.step (Panel.Event.navigated none) (Panel.step (Panel.Event.opens 5 none) panel)).url_key
    ≡ none
unfolding Panel.run Panel.step Panel.init
own_change_misses_navigation_example = (own_change_misses_navigation 5 none panel refl).0

-- Two toasts; the timer of the first one, which was cleared, does not fire.
abbrev toast_events : List Toast.Event
toast_events =
    Toast.Event.shown 1 Toast.success
    ∷ Toast.Event.shown 2 Toast.error
    ∷ Toast.Event.timer_fired 0
    ∷ []

toast_runs : (Toast.run toast_events Toast.init).live ≡ 1 ∷ []
unfolding Toast.run Toast.step Toast.init
toast_runs = refl

same : Text → Text
same text = text

-- A message with markup, a blank line behind the term of its rule, and a link.
abbrev message : Text
message = codes "**TV** nova" ++ 10 ∷ 10 ∷ codes "R$ 900 https://loja"

title_runs : card_title (λ text. text) message (some (codes "TV")) ≡ codes "TV"
unfolding card_title product_text strip_telegram_markup remove_pairs one_blank has_link before_link
    cut_at_rule_term rule_term_end_index last_term_end last_index_of has_blank_line cut_at_space
    trim trim_start trim_end is_space split starts_with
title_runs = refl

abbrev offer : ℕ → Match
offer rule_id = record { id = 1; rule_id = rule_id; price_cents = some 990; deliveries = [] }

-- Rule 8 is the busiest one, rule 2 comes next.
abbrev offers : List Match
offers = offer 8 ∷ offer 2 ∷ offer 8 ∷ []

abbrev rule : ℕ → Rule
rule id = record {
  id = id;
  prices = record { target_price_cents = none; lowest_price_24h_cents = none };
}

abbrev rules : List Rule
rules = rule 1 ∷ rule 2 ∷ rule 3 ∷ rule 4 ∷ rule 5 ∷ rule 6 ∷ rule 7 ∷ rule 8 ∷ []

board_runs :
    sorted_rules (rule_counts offers) rules
    ≡ rule 8 ∷ rule 2 ∷ rule 1 ∷ rule 3 ∷ rule 4 ∷ rule 5 ∷ rule 6 ∷ rule 7 ∷ []
unfolding sorted_rules rule_counts count_of
board_runs = refl

count_of-rule_counts_example :
    (count_of 8 (rule_counts offers) ≡ length (visible_matches (some 8) offers))
    × ((summary (visible_matches (some 8) offers)).matches ≡ count_of 8 (rule_counts offers))
count_of-rule_counts_example = count_of-rule_counts 8 offers

visible_rules-sorted_rules_example :
    let counts = rule_counts offers in
    let sorted = sorted_rules counts rules in
    let shown = visible_rules false (some 7) sorted in
    (length shown ≤ 7)
    × ((rest : List Rule) × (shown ≡ take 6 sorted ++ rest))
    × AllBefore counts (take 6 sorted) (drop 6 sorted)
    × ((is_chosen_in (some 7) rules ≡ false) ⊎ (is_chosen_in (some 7) shown ≡ true))
visible_rules-sorted_rules_example = visible_rules-sorted_rules offers (some 7) rules

abbrev first_day : PricePoint
first_day = record { date = codes "2026-03-01"; price_cents = 900 }

abbrev next_days : List PricePoint
next_days = record { date = codes "2026-03-02"; price_cents = 1500 } ∷ []
