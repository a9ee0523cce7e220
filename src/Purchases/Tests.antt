-- ===== src/Purchases/Tests.antt =====
-- Runs of the form of a purchase and of the page that opens it.
use teleyes.Common.{◌≡◌, ◌⊎◌, refl, suc, true, false, Option, none, some, List, [], ◌∷◌, arith}
use teleyes.Text.{Text, codes, trim, is_space, text_eq}
use teleyes.Session.Http.{returned, network_error}
use teleyes.Writes.Actions.{is_ok}
use teleyes.Purchases.Form
use teleyes.Purchases.Form.{Form, FormValues, LinkOption, PurchaseInput, Search, is_linked}
use teleyes.Purchases.FormLaws.{IsFilled, run-IsFilled}
use teleyes.Purchases.SearchLaws.{IsStuck, unanswered_search}
use teleyes.Purchases.Page.{Page, Purchase, FormTarget, Call, empty_draft, mount, report, save_call}
use teleyes.Purchases.Steps
use teleyes.Purchases.PageLaws.{IsLocked, run-IsLocked, save_told, late_save_closes}

-- Noon of the day, as an instant of the API.
abbrev noon : Text → Text
noon day = day

abbrev blank_form : FormValues
blank_form = record {
  name = [];
  price = [];
  day = codes "2026-03-01";
  store = [];
  product_key = none;
  rule_id = none;
  link_label = none;
}

abbrev mouse : LinkOption
mouse = record { product_key = some (codes "mouse"); rule_id = none; label = codes "Mouse" }

-- A search is answered, the query grows, and the next search is out.
abbrev search_events : List Form.Event
search_events =
    Form.Event.query_typed (codes "mo")
    ∷ Form.Event.timer_fired
    ∷ Form.Event.found 1 (some (mouse ∷ []))
    ∷ Form.Event.query_typed (codes "mou ")
    ∷ Form.Event.timer_fired
    ∷ []

abbrev searching : Form
searching = Form.run noon search_events (Form.opened blank_form)

searching_runs :
    (searching.search ≡ Search.looking (codes "mou")) × (searching.options ≡ mouse ∷ [])
unfolding Form.run Form.step Form.opened text_eq trim is_space
searching_runs = (refl, refl)

unanswered_search_example :
    IsStuck noon 2 (some []) (Form.step noon (Form.Event.query_typed (codes "m")) searching)
unfolding Form.run Form.step Form.opened text_eq trim is_space
unanswered_search_example =
    unanswered_search noon searching (codes "mou") (codes "m") 2 (some []) refl refl refl
      (omega arith) refl

-- The option is chosen, the price typed, and the purchase handed over twice.
abbrev fill_events : List Form.Event
fill_events =
    Form.Event.picked 0
    ∷ Form.Event.submitted false (codes "2026-03-02")
    ∷ Form.Event.price_typed (codes "99,90")
    ∷ Form.Event.submitted false (codes "2026-02-28")
    ∷ Form.Event.submitted false (codes "2026-03-02")
    ∷ []

run-IsFilled_example : IsFilled noon (Form.run noon fill_events (Form.opened blank_form))
run-IsFilled_example = run-IsFilled noon blank_form fill_events

abbrev input : PurchaseInput
input = record {
  name = codes "Mouse";
  price_cents = 9990;
  purchased_at = codes "2026-03-01";
  store = none;
  product_key = none;
  rule_id = none;
}

abbrev keyboard : Purchase
keyboard = record { id = 7; product_key = none; rule_id = none }

abbrev page_events : List Steps.Event
page_events = Steps.Event.loaded (some (keyboard ∷ [])) ∷ Steps.Event.create_clicked ∷ []

abbrev page : Page
page = Steps.run page_events (mount (some 1))

abbrev saving_page : Page
saving_page = Steps.step (Steps.Event.form_submitted input) page

run-IsLocked_example : IsLocked page
run-IsLocked_example = run-IsLocked (some 1) page_events

save_told_example :
    let t = Steps.step (Steps.Event.save_answered 0 network_error) saving_page in
    (t.submitting ≡ false)
    × (t.saving ≡ [])
    × (((is_ok network_error ≡ true)
          × (t.form_target ≡ none)
          × (t.form_error ≡ none)
          × (t.loads ≡ suc saving_page.loads))
        ⊎ ((is_ok network_error ≡ false)
            × (t.form_target ≡ saving_page.form_target)
            × (t.form_error ≡ report network_error saving_page.form_error)
            × (t.loads ≡ saving_page.loads)))
unfolding Steps.run Steps.step mount
save_told_example = save_told saving_page 0 (Call.create_purchase input) network_error refl

late_save_closes_example :
    let opened = Steps.step (Steps.Event.edit_clicked keyboard) saving_page in
    let t = Steps.step (Steps.Event.save_answered 0 (returned none)) opened in
    ((label : Option Text) × (opened.form_target ≡ some (FormTarget.edit keyboard label)))
    × (t.form_target ≡ none)
    × (t.sent ≡ save_call (FormTarget.create empty_draft) input ∷ page.sent)
unfolding Steps.run Steps.step mount
late_save_closes_example =
    late_save_closes page (FormTarget.create empty_draft) 1 input keyboard none refl refl refl
