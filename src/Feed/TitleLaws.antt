-- ===== src/Feed/TitleLaws.antt =====
-- The title of apps/web/src/components/matchTitle.ts is a part of the message.
use teleyes.Common.{
  ℕ, zero, suc, ◌≡◌, ◌⊎◌, inl, inr, refl, sym, ap, subst, ◌∙◌, true, false, Option, none, some, [],
  ◌∷◌, ◌++◌, arith, Bool-cases, Option-cases,
}
use teleyes.Text.{Text, is_space, trim_end}
use teleyes.Text.Prefix.{
  IsPrefix, IsPrefix-refl, IsPrefix-cons, IsPrefix-nil, IsPrefix-trans, trim_end-IsPrefix,
}
use teleyes.Terms.TermList.{is_empty}
use teleyes.Feed.Title.{
  slashes, ends_scheme, starts_link, has_link, cons_some, before_link, strip_telegram_markup,
  shown_before, product_text, has_blank_line, drop, cut_at_space, rule_term_end_index, cut_behind,
  cut_at_rule_term, card_title,
}

cut_at_space-IsPrefix : (end : ℕ) (text : Text) → IsPrefix (cut_at_space end text) text
unfolding cut_at_space
cut_at_space-IsPrefix end [] = IsPrefix-nil []
cut_at_space-IsPrefix (suc end) (c ∷ cs) =
    IsPrefix-cons c (cut_at_space end cs) cs (cut_at_space-IsPrefix end cs)
cut_at_space-IsPrefix zero (c ∷ cs) = elim (Bool-cases (is_space c)) [
  | inl e ↦ rw e (IsPrefix-nil (c ∷ cs))
  | inr e ↦ rw e (IsPrefix-cons c (cut_at_space zero cs) cs (cut_at_space-IsPrefix zero cs))
]

-- What starts with a link goes on to do so.
slashes-append : (part rest : Text) → slashes part ≡ true → slashes (part ++ rest) ≡ true
slashes-append [] rest h = cc
slashes-append (a ∷ []) rest h = cc
slashes-append (a ∷ b ∷ []) rest h = cc
slashes-append (a ∷ b ∷ c ∷ part) rest h = h

ends_scheme-append :
    (part rest : Text) → ends_scheme part ≡ true → ends_scheme (part ++ rest) ≡ true
ends_scheme-append [] rest h = cc
ends_scheme-append (c ∷ part) rest h =
    ground (arith, slashes-append (c ∷ part) rest, slashes-append part rest)

starts_link-append :
    (part rest : Text) → starts_link part ≡ true → starts_link (part ++ rest) ≡ true
starts_link-append [] rest h = cc
starts_link-append (a ∷ []) rest h = cc
starts_link-append (a ∷ b ∷ []) rest h = cc
starts_link-append (a ∷ b ∷ c ∷ []) rest h = cc
starts_link-append (a ∷ b ∷ c ∷ d ∷ part) rest h = ground (arith, ends_scheme-append part rest)

has_link-append : (part rest : Text) → has_link (part ++ rest) ≡ false → has_link part ≡ false
unfolding has_link
has_link-append [] rest h = refl
has_link-append (c ∷ part) rest h =
    ground (arith, starts_link-append (c ∷ part) rest, has_link-append part rest)

has_link-IsPrefix :
    (part text : Text) → IsPrefix part text → has_link text ≡ false → has_link part ≡ false
has_link-IsPrefix part text p h = has_link-append part p.rest (ap has_link (sym p.joined) ∙ h)

before_link-here :
    (c : ℕ) (cs : Text) → starts_link (c ∷ cs) ≡ true → before_link (c ∷ cs) ≡ some []
unfolding before_link
before_link-here c cs e = ground arith

before_link-later :
    (c : ℕ) (cs : Text)
    → starts_link (c ∷ cs) ≡ false
    → before_link (c ∷ cs) ≡ cons_some c (before_link cs)
unfolding before_link
before_link-later c cs e = ground arith

no_link_before : (before : Text) → before_link [] ≡ some before → ⊥
unfolding before_link
no_link_before before h = cc

has_link-cons :
    (c : ℕ) (part text : Text)
    → IsPrefix part text
    → starts_link (c ∷ text) ≡ false
    → has_link part ≡ false
    → has_link (c ∷ part) ≡ false
unfolding has_link
has_link-cons c part text p e h =
    let same = ap (λ t. starts_link (c ∷ t)) p.joined in
    ground (arith, starts_link-append (c ∷ part) p.rest, same)

has_link-nil : has_link [] ≡ false
unfolding has_link
has_link-nil = refl

some_injective : {a b : Text} → some a ≡ some b → a ≡ b
some_injective h = cc

some-none : {a : Text} → none ≡ some a → ⊥
some-none h = cc

abbrev IsClean : Text → Text → Type 0
IsClean text before = IsPrefix before text × (has_link before ≡ false)

-- The text before the first link.
before_link_sound : (text before : Text) → before_link text ≡ some before → IsClean text before
before_link_sound [] before h = absurd (no_link_before before h)
before_link_sound (c ∷ cs) before h = elim (Bool-cases (starts_link (c ∷ cs))) [
  | inl e ↦
      subst (IsClean (c ∷ cs)) (some_injective (sym (before_link-here c cs e) ∙ h))
        (IsPrefix-nil (c ∷ cs), has_link-nil)
  | inr e ↦
      let found : cons_some c (before_link cs) ≡ some before = sym (before_link-later c cs e) ∙ h in
      elim (Option-cases (before_link cs)) [
        | inl n ↦ absurd (some-none (ap (cons_some c) (sym n) ∙ found))
        | inr (b, later) ↦
            let (p, l) = before_link_sound cs b later in
            subst (IsClean (c ∷ cs)) (some_injective (ap (cons_some c) (sym later) ∙ found))
              (IsPrefix-cons c b cs p, has_link-cons c b cs p e l)
      ]
]

-- A part of a text from its start on, which holds no link unless it is the whole text.
pub record IsTitle (text title : Text) : Type 0 where
  pub part : IsPrefix title text
  pub linkless : (has_link title ≡ false) ⊎ (title ≡ text)

shown_before-IsTitle : (text : Text) → IsTitle text (shown_before text (before_link text))
shown_before-IsTitle text = elim (Option-cases (before_link text)) [
  | inl n ↦ rw n (record { part = IsPrefix-refl text; linkless = inr refl })
  | inr (before, found) ↦ rw found (elim (Bool-cases (is_empty (trim_end before))) [
    | inl e ↦ rw e (record { part = IsPrefix-refl text; linkless = inr refl })
    | inr e ↦
        let (p, l) = before_link_sound text before found in
        let q = trim_end-IsPrefix before in
        rw e (record {
          part = IsPrefix-trans (trim_end before) before text q p;
          linkless = inl (has_link-IsPrefix (trim_end before) before q l);
        })
  ])
]

module _ (fold : Text → Text) where
  cut_at_rule_term-IsPrefix :
      (text : Text) (terms : Option Text) → IsPrefix (cut_at_rule_term fold text terms) text
  unfolding cut_at_rule_term
  cut_at_rule_term-IsPrefix text none = IsPrefix-refl text
  cut_at_rule_term-IsPrefix text (some terms) = behind (rule_term_end_index fold text terms)
    where
      behind : (end : Option ℕ) → IsPrefix (cut_behind fold text end) text
      behind none = IsPrefix-refl text
      behind (some end) = elim (Bool-cases (has_blank_line (drop end text))) [
        | inl e ↦ rw e (
            IsPrefix-trans (trim_end (cut_at_space end text)) (cut_at_space end text) text
              (trim_end-IsPrefix (cut_at_space end text)) (cut_at_space-IsPrefix end text))
        | inr e ↦ rw e (IsPrefix-refl text)
      ]

  -- The title of a card is the cleaned message from its start on, and holds no link unless it is the
  -- whole cleaned message.
  pub card_title-IsTitle :
      (message_text : Text) (include_terms : Option Text)
      → IsTitle (strip_telegram_markup message_text) (card_title fold message_text include_terms)
  unfolding card_title product_text
  card_title-IsTitle message_text include_terms =
      let cleaned = strip_telegram_markup message_text in
      let link_cut = shown_before cleaned (before_link cleaned) in
      let shown = shown_before-IsTitle cleaned in
      elim (Bool-cases (has_link link_cut)) [
        | inl e ↦ rw e shown
        | inr e ↦
            let p = cut_at_rule_term-IsPrefix link_cut include_terms in
            rw e (record {
              part =
                  IsPrefix-trans (cut_at_rule_term fold link_cut include_terms) link_cut cleaned p
                    shown.part;
              linkless =
                  inl
                    (has_link-IsPrefix (cut_at_rule_term fold link_cut include_terms) link_cut p e);
            })
      ]
