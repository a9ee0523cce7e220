-- ===== src/Purchases/SearchLaws.antt =====
-- A search of the form of a purchase that does not end.
use teleyes.Common.{
  ℕ, suc, ◌<◌, ◌≡◌, refl, Bool, true, false, Option, some, List, [], length, arith, ltb, ◌==◌, sym,
  subst, if◌then◌else◌,
}
use teleyes.Text.{Text, trim, text_eq}
use teleyes.Purchases.Form.{
  LinkOption, idle, looking, Form, set_query, rerun, picked_values, pick_at, take_found,
  query_typed, timer_fired, picked, found, step, option_at, pick, is_linked,
}

-- A short query leaves nothing to wait for.
set_query-short :
    (text : Text) (s : Form)
    → length (trim text) < 2
    → text_eq text s.query ≡ false
    → set_query text s
      ≡ record s { query = text; effect = suc s.effect; options = []; search = idle }
unfolding set_query rerun
set_query-short text s short changed =
    let few : ltb (length (trim text)) 2 ≡ true = ground (arith, short) in rw (changed, few) refl

pick-short :
    (option : LinkOption) (s : Form)
    → text_eq [] s.query ≡ false
    → pick option s ≡ record s {
      values = picked_values option s.values;
      query = [];
      effect = suc s.effect;
      options = [];
      search = idle;
    }
unfolding pick trim
pick-short option s filled =
    rw
      (set_query-short [] (record s { values = picked_values option s.values }) (omega arith)
        filled)
      refl

pick-idle :
    (option : LinkOption) (s : Form)
    → text_eq [] s.query ≡ false
    → s.searching ≡ true
    → ((pick option s).searching ≡ true) × ((pick option s).search ≡ idle)
pick-idle option s filled b = rw (pick-short option s filled) (b, refl)

either_same : (b : Bool) (s t : Form) → s ≡ t → (if b then s else t) ≡ t
either_same true s t e = e
either_same false s t e = refl

module _ (input_date_to_api : Text → Text) where
  -- The form says that it searches, and neither an answer nor the timer changes it.
  abbrev pub IsStuck : ℕ → Option (List LinkOption) → Form → Type 0
  IsStuck effect answer t =
      (t.searching ≡ true)
      × (t.search ≡ idle)
      × (step input_date_to_api (found effect answer) t ≡ t)
      × (step input_date_to_api timer_fired t ≡ t)

  idle-IsStuck :
      (effect : ℕ) (answer : Option (List LinkOption)) (t : Form)
      → t.searching ≡ true
      → t.search ≡ idle
      → IsStuck effect answer t
  unfolding step
  idle-IsStuck effect answer t b e =
      let ignored : take_found t.search effect answer t ≡ t = rw e refl in
      (
        b,
        e,
        either_same (effect == t.effect) (take_found t.search effect answer t) t ignored,
        rw e refl,
      )

  -- While a form without a link shows that it searches and the answer to its search is out, a change of
  -- the query to a text shorter than two units, without the white space around it, leaves the form
  -- searching although nothing is asked or waited for, and no answer that comes later and no timer
  -- changes that.
  pub unanswered_search :
      (s : Form) (asked short : Text) (effect : ℕ) (answer : Option (List LinkOption))
      → s.search ≡ looking asked
      → s.searching ≡ true
      → is_linked s.values ≡ false
      → length (trim short) < 2
      → text_eq short s.query ≡ false
      → IsStuck effect answer (step input_date_to_api (query_typed short) s)
  unfolding step
  unanswered_search s asked short effect answer o b l few changed =
      idle-IsStuck effect answer _ typed.0 typed.1
    where
      typed :
          let t = step input_date_to_api (query_typed short) s in
          (t.searching ≡ true) × (t.search ≡ idle)
      typed = rw (l, set_query-short short s few changed) (b, refl)

  -- A choice from the list of an older search, made while the query is not empty and the answer to a
  -- search is out, leaves the form searching in the same way.
  pub unanswered_choice :
      (s : Form) (asked : Text) (option : LinkOption) (n effect : ℕ)
      (answer : Option (List LinkOption))
      → s.search ≡ looking asked
      → s.searching ≡ true
      → option_at n s.options ≡ some option
      → text_eq [] s.query ≡ false
      → IsStuck effect answer (step input_date_to_api (picked n) s)
  unfolding step
  unanswered_choice s asked option n effect answer o b at filled =
      idle-IsStuck effect answer _ chosen.0 chosen.1
    where
      chosen :
          let t = step input_date_to_api (picked n) s in (t.searching ≡ true) × (t.search ≡ idle)
      chosen =
          subst (λ o. ((pick_at o s).searching ≡ true) × ((pick_at o s).search ≡ idle)) (sym at)
            (pick-idle option s filled b)
