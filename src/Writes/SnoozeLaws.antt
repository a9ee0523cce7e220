-- ===== src/Writes/SnoozeLaws.antt =====
-- The button of a snoozed card: `handleCardSnooze` of apps/web/src/pages/FeedPage.tsx.
use teleyes.Common.{
  ℕ, ◌≡◌, ◌↔◌, ◌⊎◌, refl, inl, inr, true, ◌&&◌, Option, none, some, List, [], ◌∷◌, Bool-cases, All,
  arith, if◌then◌else◌,
}
use teleyes.Text.{Text}
use teleyes.Text.Laws.{text_eq_iff}
use teleyes.Session.Http.{Outcome}
use teleyes.Feed.Toast.{ToastTone}
use teleyes.Writes.Failures.{snooze_removed}
use teleyes.Writes.Actions.{
  Snooze, product_scope, reactivate_snooze, called, shown, snoozes_loaded, refreshed, is_ok,
  report_error, require_csrf, key_is, is_product, find_snooze, Loaded, perform, card_snooze,
}

-- A snooze of the product with the key; one of the rule is none, whatever its key.
abbrev pub IsFor : Text → Snooze → Type 0
IsFor key s = (s.scope ≡ product_scope) × (s.product_key ≡ some key)

abbrev pub IsListed : Snooze → List Snooze → Type 0
IsListed s [] = ⊥
IsListed s (t ∷ snoozes) = (s ≡ t) ⊎ IsListed s snoozes

key_is_iff : (key : Text) (other : Option Text) → (key_is key other ≡ true) ↔ (other ≡ some key)
key_is_iff key none = ground arith
key_is_iff key (some other) = let e = text_eq_iff other key in ground (arith, e)

found_iff :
    (key : Text) (s : Snooze)
    → ((is_product s.scope && key_is key s.product_key) ≡ true) ↔ IsFor key s
found_iff key s = let e = key_is_iff key s.product_key in ground (arith, e)

find_snooze-cases :
    (key : Text) (snoozes : List Snooze)
    → ((s : Snooze) × (find_snooze key snoozes ≡ some s) × IsListed s snoozes × IsFor key s)
      ⊎ ((find_snooze key snoozes ≡ none) × All (λ s. ¬ IsFor key s) snoozes)
unfolding find_snooze
find_snooze-cases key [] = inr (refl, tt)
find_snooze-cases key (s ∷ snoozes) =
    elim (Bool-cases (is_product s.scope && key_is key s.product_key)) [
      | inl e ↦ inl (s, rw e refl, inl refl, (found_iff key s).0 e)
      | inr e ↦ elim (find_snooze-cases key snoozes) [
        | inl (t, found, listed, fits) ↦ inl (t, rw e found, inr listed, fits)
        | inr (found, others) ↦
            let other : ¬ IsFor key s =
              λ fits. let k = (found_iff key s).1 fits in absurd (cc (e, k)) in
            inr (rw e found, (other, others))
      ]
    ]

-- The button of a snoozed card, in a session with a token, whatever snoozes the page has: either a snooze
-- of the product with the card's key is listed, and the one call that is made lifts such a snooze, with
-- its success or its failure told; or none is listed, as where the list was not loaded or the snooze is
-- one of the rule, and then, whatever the server would answer, no call is made and the page tells that
-- the snooze was removed.
pub card_snooze_lifts :
    (page : Loaded) (token : ℕ) (key : Text) (outcome : Outcome)
    → page.csrf ≡ some token
    → let done = perform (card_snooze true (some key)) page outcome in
      let told = shown snooze_removed ToastTone.success ∷ snoozes_loaded ∷ refreshed ∷ [] in
      ((s : Snooze) × IsListed s page.snoozes
        × IsFor key s
        × (done
            ≡ called (reactivate_snooze s.id)
              ∷ (if is_ok outcome then told else report_error outcome)))
      ⊎ (All (λ s. ¬ IsFor key s) page.snoozes × (done ≡ told))
unfolding perform require_csrf
card_snooze_lifts page token key outcome h = elim (find_snooze-cases key page.snoozes) [
  | inl (s, found, listed, fits) ↦ inl (s, listed, fits, rw (h, found) refl)
  | inr (found, others) ↦ inr (others, rw (h, found) refl)
]
