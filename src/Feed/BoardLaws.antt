-- ===== src/Feed/BoardLaws.antt =====
-- The counts of the rail and the summary of the feed say what the feed shows.
use teleyes.Common.{
  ℕ, ◌+◌, ◌≡◌, ◌∙◌, sym, Bool, some, List, [], ◌∷◌, ◌==◌, if◌then◌else◌, keep, length, arith,
}
use teleyes.Feed.Board.{
  Match, Counts, count_of, bump, count_matches, rule_counts, visible_matches, summary,
}

abbrev one_if : Bool → ℕ
one_if b = if b then 1 else 0

count_of-bump :
    (id key : ℕ) (counts : Counts)
    → count_of id (bump key counts) ≡ count_of id counts + one_if (key == id)
unfolding count_of bump
count_of-bump id key [] = ground arith
count_of-bump id key ((k, n) ∷ counts) = ground (arith, count_of-bump id key counts)

count_of-count_matches :
    (id : ℕ) (counts : Counts) (ms : List Match)
    → count_of id (count_matches counts ms)
      ≡ count_of id counts + length (keep (λ m. m.rule_id == id) ms)
unfolding count_matches
count_of-count_matches id counts [] = omega arith
count_of-count_matches id counts (m ∷ ms) =
    ground (
      arith,
      count_of-count_matches id (bump m.rule_id counts) ms,
      count_of-bump id m.rule_id counts,
    )

-- The number beside a rule is that of the cards which choosing the rule leaves, and the tile of the
-- summary shows the same number then.
pub count_of-rule_counts :
    (id : ℕ) (matches : List Match)
    → (count_of id (rule_counts matches) ≡ length (visible_matches (some id) matches))
      × ((summary (visible_matches (some id) matches)).matches ≡ count_of id (rule_counts matches))
unfolding rule_counts count_of visible_matches summary
count_of-rule_counts id matches =
    let counted : count_of id (count_matches [] matches)
        ≡ length (keep (λ m. m.rule_id == id) matches) =
      count_of-count_matches id [] matches ∙ omega arith in
    (counted, sym counted)
