-- ===== src/Collections/Tests.antt =====
-- The theorems on collections at concrete pages.
use jazzhands.Prelude.{
  ◌≡◌, refl, true, false, String, str_eq, Option, none, some, List, [], ◌∷◌, ◌++◌, ◌-◌, show,
  if◌then◌else◌, split,
}
use jazzhands.Collections.Params.{
  without_mark, key_value, assign, assign_all, cgi_params, find_param, count_numbered, is_numbered,
  some_digits, all_digits, value_or_empty,
}
use jazzhands.Collections.Members.{
  Member, Members, insert_before, insert_netblock_input_row, insert_times, restore_first,
  repopulate, input_rows, first_row, repopulate-rows,
}
use jazzhands.Collections.Drop.{
  Picker, listed, build_collection_drop, change_collection_select, Event, chose, answered,
  remove_at, take_answer, handle_event, run_events, answered-listed,
}
use jazzhands.Collections.Restore.{
  new_page, types_answered, answer_asked, picked_value, restored_child,
}

abbrev params : List (String × Option String)
params = cgi_params "?add_NETBLOCK1=10.0.0.0;rank_add_NETBLOCK1=5;add_NETBLOCK2=10.1.0.0"

abbrev header : Member
header = record { id = "header"; fields = [] }

abbrev members : Members
members = record { rows = header ∷ first_row "" ∷ header ∷ []; netblock_inputs = 1 }

restored_values :
    (repopulate params members).rows
    ≡ header
      ∷ (record {
        id = "netblock-input-row2";
        fields = ("add_NETBLOCK2", "10.1.0.0") ∷ ("rank_add_NETBLOCK2", "") ∷ [];
      })
      ∷ first_row "10.0.0.0"
      ∷ header
      ∷ []
unfolding repopulate restore_first insert_times insert_netblock_input_row insert_before
    count_numbered is_numbered some_digits all_digits cgi_params without_mark assign_all assign
    key_value split find_param show
restored_values = refl

repopulate-rows_example :
    (repopulate params members).rows
    ≡ header
      ∷ (input_rows params 2 (count_numbered "add_NETBLOCK" params - 1)
          ++ first_row (value_or_empty "add_NETBLOCK1" params) ∷ header ∷ [])
repopulate-rows_example = repopulate-rows params members (header ∷ []) (header ∷ []) refl refl refl

abbrev server : String → Option (List (String × String))
server type = if str_eq type "site" then some (("12", "EWR") ∷ ("13", "LHR") ∷ []) else none

abbrev picker : Picker
picker = record {
  chosen = "__unknown__";
  detail_shown = false;
  container_shown = true;
  drop = none;
  sent = [];
}

abbrev choices : List Event
choices = chose "role" ∷ chose "site" ∷ answered 0 ∷ answered 0 ∷ []

answered-listed_example :
    (run_events server choices picker).drop
    ≡ listed (server (run_events server choices picker).chosen)
unfolding run_events handle_event change_collection_select take_answer build_collection_drop
    remove_at
answered-listed_example = answered-listed server choices picker refl refl refl refl

abbrev child_params : List (String × Option String)
child_params =
    ("add_CHILD_COLLECTION1", some "site") ∷ ("pick_NETBLOCK_COLLECTION_ID1", some "13") ∷ []

restored_child_example :
    (let p =
        types_answered child_params (("role", "Role") ∷ ("site", "Site") ∷ []) (new_page 1 0 []) in
      let q = answer_asked server child_params p.asked p in
      (q.child.chosen ≡ "site") × (picked_value q.child.picker ≡ some "13"))
unfolding find_param show
restored_child_example =
    restored_child 1 0 [] child_params (("role", "Role") ∷ ("site", "Site") ∷ [])
      (("12", "EWR") ∷ ("13", "LHR") ∷ []) server "site" "13" refl refl refl refl refl refl
