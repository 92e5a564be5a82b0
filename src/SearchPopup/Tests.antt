-- ===== src/SearchPopup/Tests.antt =====
-- The theorems on the popup at concrete pages.
use jazzhands.Prelude.{◌≡◌, refl, String, true, false, none, some, List, [], ◌∷◌, get_elem?, modify}
use jazzhands.SearchPopup.State.{Choice, Popup, Field, Page}
use jazzhands.SearchPopup.Close.{
  match_choice, picked_choice, clear_empty, fill_in, complete, close_and_fill_in, FitsTogether,
  close-FitsTogether,
}
use jazzhands.SearchPopup.Events.{
  start_search, change_popup_search, create_popup, close_popup, input_popup, input_field,
  input_timer, input_event, leave_popup, leave_field,
}
use jazzhands.SearchPopup.Answers.{
  Event, typed, input, left, list_pick, state_changed, update_search_page, change_search_state,
  handle_event, run_events,
}
use jazzhands.SearchPopup.Steps.{ListsAnswer}
use jazzhands.SearchPopup.Newest.{run_events-ListsAnswer}

abbrev server : String → List Choice
server s = record { text = s; value = "12"; selected = false } ∷ []

abbrev field : Field
field = record {
  value = "db1";
  id = "7";
  oldval = some "web1";
  pending = true;
  orig_value = none;
  has_completion = true;
  stops_submit = false;
  completions = 0;
  popup = none;
}

abbrev empty_field : Field
empty_field = record field { value = "" }

abbrev popup : Popup
popup = record {
  serial = 0;
  visible = true;
  leave_up = false;
  user_abort = false;
  choices = some (server "db1");
}

abbrev page : Page
page = record {
  fields = record field { value = "web1" } ∷ [];
  searches = [];
  target = none;
  timer = none;
  serials = 0;
  focus = none;
  dont_submit = false;
}

abbrev events : List Event
events =
    typed 0 "db1"
    ∷ input 0
    ∷ typed 0 "db12"
    ∷ input 0
    ∷ state_changed 1 4
    ∷ state_changed 0 4
    ∷ list_pick 0 0
    ∷ left 0
    ∷ []

filled : (close_and_fill_in popup popup.choices field).id ≡ "12"
unfolding close_and_fill_in picked_choice match_choice fill_in complete clear_empty
filled = refl

answer_picked :
    get_elem? (run_events server events page).fields 0
    ≡ some (record field {
      value = "db12";
      id = "12";
      oldval = none;
      pending = false;
      completions = 1;
    })
unfolding run_events handle_event change_search_state update_search_page input_event input_timer
    input_field input_popup change_popup_search start_search create_popup leave_field leave_popup
    close_popup close_and_fill_in picked_choice match_choice fill_in complete clear_empty get_elem?
    modify
answer_picked = refl

close-FitsTogether_example :
    FitsTogether popup.choices field (close_and_fill_in popup popup.choices field)
close-FitsTogether_example = close-FitsTogether popup popup.choices field refl

run_events-ListsAnswer_example : ListsAnswer server (run_events server events page)
run_events-ListsAnswer_example =
    run_events-ListsAnswer server events page (record { lists = (tt, tt); newest = refl })
