-- ===== src/SearchPopup/Answers.antt =====
-- The answers of the server, and the sequences of events.
use jazzhands.Prelude.{
  ℕ, zero, suc, Bool, true, false, String, Option, none, some, List, [], ◌∷◌, if◌then◌else◌, ◌==◌,
  get_elem?, modify, map,
}
use jazzhands.SearchPopup.State.{Choice, Popup, Field, Search, Page, set_field, change_popup}
use jazzhands.SearchPopup.Events.{key_process, input_event, fire_timer, leave_field, key_in_list}

abbrev pub set_value : String → Field → Field
set_value s f = record f { value = s }

abbrev pub mark : Bool → Choice → Choice
mark b c = record c { selected = b }

abbrev pub select_only : ℕ → List Choice → List Choice
select_only n [] = []
select_only zero (c ∷ cs) = mark true c ∷ map (mark false) cs
select_only (suc n) (c ∷ cs) = mark false c ∷ select_only n cs

abbrev pub pick_choice : ℕ → Option (List Choice) → Option (List Choice)
pick_choice n none = none
pick_choice n (some cs) = some (select_only n cs)

-- The user picks the option at `n` of the list.
abbrev pub on_list : (Popup → Popup) → Field → Field
on_list g f = record f { popup = (elim f.popup [ none ↦ none | some q ↦ some (g q) ]) }

abbrev pub picks : ℕ → Popup → Popup
picks n q = record q { choices = pick_choice n q.choices }

-- `mouseover_Search` and `mouseout_Search`.
abbrev pub keeps_up : Bool → Popup → Popup
keeps_up b q = record q { leave_up = b }

abbrev pub reach : ℕ → Search → Search
reach s r = record r { ready_state = s }

pub data Event : Type 0 where
  typed : ℕ → String → Event
  key_up : ℕ → ℕ → ℕ → Event
  input : ℕ → Event
  timer_fired : Event
  left : ℕ → Event
  list_key : ℕ → ℕ → Event
  list_pick : ℕ → ℕ → Event
  mouse : Bool → ℕ → Event
  state_changed : ℕ → ℕ → Event

-- `server` gives the options of the list that answers a search.
module _ (server : String → List Choice) where
  abbrev pub put_list : List Choice → Popup → Popup
  put_list cs q = record q { choices = some cs; visible = true }

  -- `updatePopUpSearchPage`, which reads the variables `searchrequest` and `searchpopup`.
  unfoldable pub update_search_page : Option Search → Option (ℕ × ℕ) → Page → Page
  update_search_page none t p = p
  update_search_page (some r) none p = p
  update_search_page (some r) (some (i, n)) p =
      if r.ready_state == 4 then set_field i (change_popup n (put_list (server r.text))) p else p

  -- The search at the position `k` gets to the state `s`, and the handler is called.
  unfoldable pub change_search_state : ℕ → ℕ → Page → Page
  unfolding update_search_page
  change_search_state k s p =
      let searches = modify (reach s) k p.searches in
      update_search_page (get_elem? searches 0) p.target (record p { searches = searches })

  unfoldable pub handle_event : Event → Page → Page
  unfolding change_search_state
  handle_event (typed i s) p = set_field i (set_value s) p
  handle_event (key_up i key char) p = key_process i key char p
  handle_event (input i) p = input_event i p
  handle_event timer_fired p = fire_timer p.timer p
  handle_event (left i) p = leave_field i (get_elem? p.fields i) p
  handle_event (list_key i key) p = key_in_list i key (get_elem? p.fields i) p
  handle_event (list_pick i n) p = set_field i (on_list (picks n)) p
  handle_event (mouse b i) p = set_field i (on_list (keeps_up b)) p
  handle_event (state_changed k s) p = change_search_state k s p

  unfoldable pub run_events : List Event → Page → Page
  unfolding handle_event
  run_events [] p = p
  run_events (e ∷ es) p = run_events es (handle_event e p)
