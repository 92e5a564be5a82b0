-- ===== src/Dns/DomainTests.antt =====
-- The theorems on the lists of domains at a concrete page.
use jazzhands.Prelude.{◌≡◌, refl, true, false, String, some, List, [], ◌∷◌, modify}
use jazzhands.Dns.Domains.{
  DomainPage, get_dns_domains, missing_options, populate, Event, activated, timer_fired, answered,
  drop_at, populate_delayed, populate_dropdown, handle_event, run_events,
}
use jazzhands.Dns.Populated.{IsFair, AllFair, run_events-AllFair}

abbrev offered : List (String × String)
offered = ("1", "example.com") ∷ ("2", "example.net") ∷ []

abbrev page : DomainPage
page = record {
  lists = record { options = ("2", "example.net") ∷ []; populated = false } ∷ [];
  loaded = false;
  requests = 1;
  waiting = [];
}

-- Mouse and focus come one after the other.
abbrev events : List Event
events = activated 0 ∷ activated 0 ∷ answered ∷ timer_fired 0 ∷ timer_fired 0 ∷ []

filled :
    (run_events (some offered) events page).lists
    ≡ record { options = ("2", "example.net") ∷ ("1", "example.com") ∷ []; populated = true } ∷ []
unfolding run_events handle_event populate_dropdown populate_delayed get_dns_domains populate
    missing_options drop_at modify
filled = refl

fair : AllFair (some offered) page
unfolding AllFair IsFair
fair = ((refl, λ p v h. absurd cc), tt)

run_events-AllFair_example : AllFair (some offered) (run_events (some offered) events page)
run_events-AllFair_example = run_events-AllFair (some offered) events page fair

abbrev loaded : DomainPage
loaded = record page { loaded = true; waiting = 0 ∷ 0 ∷ [] }
