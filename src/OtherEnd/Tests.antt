-- ===== src/OtherEnd/Tests.antt =====
-- The theorems on the popups at a concrete page.
use jazzhands.Prelude.{
  ◌≡◌, ◌≤◌, ◌≢◌, refl, true, false, String, none, some, List, [], ◌∷◌, ◌<>◌, arith, get_elem?,
  modify,
}
use jazzhands.OtherEnd.State.{Popup, OtherEnd, Page, pattern_of, search_url, after_last?}
use jazzhands.OtherEnd.Actions.{
  Event, show_event, type_event, fire_event, answer_event, pick_event, select_event, hide_event,
  run, type_text, fire, closed, connected, handle, show_popup, answer, pick, update_other_end,
  hide_popup, hide_others, hide_other, open_popup, fire_for, get_matching_devices, requested_field,
  emptied_field, filled, picked, disconnected, selected_option, select_option, fill_popup,
  answer_to,
}
use jazzhands.OtherEnd.Popups.{visible_count, run-visible}

abbrev shown : Popup
shown = record {
  visible = true;
  options = ("7", "db1") ∷ [];
  selected = none;
  select_disabled = true;
  disconnect_disabled = false;
  message = false;
}

abbrev field : OtherEnd
field = record {
  value = "db";
  original = "web1";
  last_selected = none;
  last_search = "db";
  last_requested = some "db";
  changed = true;
  device_id = "3";
  popup = some shown;
}

abbrev fresh : OtherEnd
fresh = record {
  value = "web2";
  original = "web2";
  last_selected = none;
  last_search = "";
  last_requested = none;
  changed = false;
  device_id = "4";
  popup = none;
}

abbrev page : Page
page = record { fields = field ∷ fresh ∷ []; timer = none; requests = []; focus = none; ports = [] }

abbrev full_address : String → String
full_address s = "https://stab/device/" <> s

abbrev found : String → List (String × String)
found s = ("7", "db1") ∷ ("8", "db2") ∷ []

abbrev user_events : List (Event full_address found)
user_events =
    show_event 1
    ∷ type_event 1 "db1"
    ∷ fire_event
    ∷ answer_event 0
    ∷ pick_event 1 0
    ∷ select_event 1
    ∷ show_event 0
    ∷ hide_event 0
    ∷ []

one_visible : visible_count page.fields ≤ 1
one_visible = omega arith

selected_device : get_elem? (run full_address found user_events page).ports 0 ≡ some 1
unfolding run handle show_popup type_text fire answer pick update_other_end hide_popup hide_others
    hide_other open_popup fire_for get_matching_devices requested_field emptied_field closed filled
    picked connected disconnected selected_option select_option fill_popup answer_to pattern_of
    after_last? search_url modify
selected_device = refl

run-visible_example : visible_count (run full_address found user_events page).fields ≤ 1
run-visible_example = run-visible full_address found user_events page one_visible

abbrev searched : String
searched = "db"

db-full : searched ≢ ""
db-full e = cc

no_mark : after_last? "pattern=" "db1" ≡ none
unfolding after_last?
no_mark = refl
