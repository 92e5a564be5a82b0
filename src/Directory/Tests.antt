-- ===== src/Directory/Tests.antt =====
-- The theorems on the search of the directory at concrete searches.
use jazzhands.Prelude.{
  true, false, ◌≡◌, refl, String, str_eq, none, some, List, [], ◌∷◌, show, arith, if◌then◌else◌,
}
use jazzhands.Directory.Search.{
  Response, people_found, no_people, SearchPage, process_search, fire_search, without, Event, typed,
  timer_fired, answered, answer_search, handle_event, run_events,
}
use jazzhands.Directory.Usages as U
use jazzhands.Directory.Once.{Proper, run_events-Proper}
use jazzhands.Directory.Calm.{tables_for, calm_results}

abbrev server : String → Response
server find =
    if str_eq find "kov"
    then people_found (
        record {
          img = none;
          link = "contact.php?person_id=1";
          name = "Todd";
          location = some "NYC";
        }
        ∷ [])
    else no_people

abbrev page : SearchPage
page = record { text = ""; timer = none; sent = []; results = []; alerts = 0; reloads = 0 }

abbrev events : List Event
events = typed "k" ∷ typed "kov" ∷ timer_fired ∷ answered 0 ∷ []

calm_results_example :
    (run_events server events page).results ≡ tables_for server (run_events server events page).text
unfolding run_events handle_event process_search fire_search answer_search without
calm_results_example = calm_results server events page refl refl refl refl refl refl refl

abbrev valid : List (String × String)
valid = ("headshot", "N") ∷ ("yearbook", "Y") ∷ []

abbrev no_pictures : U.Pictures
no_pictures = record { lists = []; pic_offset = 0 }

abbrev changes : List U.Event
changes =
    U.added
    ∷ U.added
    ∷ U.changed "new_person_image_usage_0" ("headshot" ∷ "yearbook" ∷ [])
    ∷ U.changed "new_person_image_usage_1" ("headshot" ∷ "yearbook" ∷ [])
    ∷ []

moved :
    (U.run_events valid changes no_pictures).lists
    ≡ (record {
      name = "new_person_image_usage_0";
      options = ("headshot", false) ∷ ("yearbook", true) ∷ [];
    })
      ∷ (record {
        name = "new_person_image_usage_1";
        options = ("headshot", true) ∷ ("yearbook", true) ∷ [];
      })
      ∷ []
unfolding U.run_events U.handle_event U.enforce_select_is_multivalue U.enforce_usages
    U.enforce_usage U.clear_others U.texts_of U.selected_texts U.new_list show
moved = refl

run_events-Proper_example : Proper valid (U.run_events valid changes no_pictures)
run_events-Proper_example =
    run_events-Proper valid changes no_pictures
      (record { names = λ n. omega arith; fresh = λ k g. refl; single = λ u s. omega arith })
