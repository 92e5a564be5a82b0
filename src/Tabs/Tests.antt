-- ===== src/Tabs/Tests.antt =====
-- The theorems on the tabs at a concrete page.
use jazzhands.Prelude.{
  ℕ, ◌+◌, ◌≡◌, refl, true, false, String, some, List, [], ◌∷◌, map, all, ◌<>◌, modify,
}
use jazzhands.Tabs.Page.{
  TabDiv, Page, forced, unforced, tab_url, show_dev_tab, force_dev_tab_load, on_ready_state,
  change_state,
}
use jazzhands.Tabs.Spec.{fresh, Event, selected, answered, opened, promised}
use jazzhands.Tabs.Refinement.{handle_event, run_events, Implements, run_events-Implements}
use jazzhands.Tabs.Loading.{is_filled, answered-all_filled}

-- The rest of the document counts the passes over it.
abbrev passes : List TabDiv → ℕ → ℕ
passes divs n = n + 1

abbrev server : String → String
server url = "<table>" <> url

abbrev page : Page ℕ
page = record {
  divs = [];
  links = record { id = "IP"; active = false } ∷ record { id = "Notes"; active = true } ∷ [];
  has_group = true;
  requests = [];
  rest = 0;
}

abbrev marked : Page ℕ
marked = record page {
  links = record { id = "IP"; active = false } ∷ record { id = "Notes"; active = false } ∷ [];
}

abbrev clicks : List Event
clicks =
    selected "IP" unforced
    ∷ selected "Notes" unforced
    ∷ answered 1 4
    ∷ selected "IP" unforced
    ∷ answered 0 4
    ∷ []

abbrev reloads : List Event
reloads = opened (some "Notes") ∷ selected "Notes" forced ∷ answered 1 4 ∷ answered 0 4 ∷ []

start : Implements ℕ server passes "here" "7" fresh marked
start = record { group = refl; divs = tt; links = (refl, (refl, tt)); requests = tt }

run_events-Implements_example :
    Implements ℕ server passes "here" "7"
      (promised reloads fresh)
      (run_events ℕ server passes "here" "7" reloads marked)
run_events-Implements_example =
    run_events-Implements ℕ server passes "here" "7" reloads fresh marked start

answered-all_filled_example :
    all is_filled (run_events ℕ server passes "here" "7" reloads page).divs ≡ true
unfolding run_events handle_event show_dev_tab force_dev_tab_load change_state on_ready_state
    tab_url modify
answered-all_filled_example = answered-all_filled ℕ server passes "here" "7" reloads page refl refl

shown_last :
    map (λ d. d.active) (run_events ℕ server passes "here" "7" clicks page).divs ≡ true ∷ false ∷ []
unfolding run_events handle_event show_dev_tab change_state on_ready_state tab_url modify
shown_last = refl
