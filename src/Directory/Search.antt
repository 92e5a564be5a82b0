-- ===== src/Directory/Search.antt =====
-- The search box with its timer, the requests and the box of results.
use jazzhands.Prelude.{
  ℕ, zero, suc, String, str_eq, Option, none, some, List, [], ◌∷◌, ◌++◌, map, ◌==◌, get_elem?,
  if◌then◌else◌,
}

-- A person of an answer.
pub record Person : Type 0 where
  pub img : Option String
  pub link : String
  pub name : String
  pub location : Option String

-- An answer: its type is `person` or another, and it may lack the list of people.
pub data Response : Type 0 where
  people_found : List Person → Response
  no_people : Response
  other_type : Response

-- A row: the picture, if there is one, the link and the text of the name, and the location; or the
-- one that says that nothing was found.
pub data ResultRow : Type 0 where
  person_row : Option String → String → String → String → ResultRow
  no_match : ResultRow

-- `text` is the value of the box, `timer` the text that the timer was set for, `sent` are the
-- searches under way, the first that was sent first. `results` are the tables in `resultsbox`.
pub record SearchPage : Type 0 where
  pub text : String
  pub timer : Option String
  pub sent : List String
  pub results : List (List ResultRow)
  pub alerts : ℕ
  pub reloads : ℕ

abbrev pub location_text : Option String → String
location_text none = ""
location_text (some s) = s

abbrev pub row_of : Person → ResultRow
row_of dude = person_row dude.img dude.link dude.name (location_text dude.location)

-- The table that an answer adds, if it does.
unfoldable pub tables_of : Response → List (List ResultRow)
tables_of (people_found ps) = map row_of ps ∷ []
tables_of no_people = (no_match ∷ []) ∷ []
tables_of other_type = []

-- `process_search`
unfoldable pub process_search : SearchPage → SearchPage
process_search p =
    if str_eq p.text ""
    then record p { timer = none; results = [] }
    else record p { timer = some p.text }

-- The timer runs out.
unfoldable pub fire_search : Option String → SearchPage → SearchPage
fire_search none p = p
fire_search (some find) p = record p { timer = none; results = []; sent = p.sent ++ find ∷ [] }

unfoldable pub without : ℕ → List String → List String
without n [] = []
without zero (t ∷ ts) = ts
without (suc n) (t ∷ ts) = t ∷ without n ts

-- The search at the position `n` fails with this status.
unfoldable pub fail_search : ℕ → ℕ → SearchPage → SearchPage
unfolding without
fail_search n status p =
    if status == 500
    then record p { sent = without n p.sent; alerts = suc p.alerts }
    else record p { sent = without n p.sent; timer = none; text = ""; reloads = suc p.reloads }

pub data Event : Type 0 where
  typed : String → Event
  timer_fired : Event
  answered : ℕ → Event
  failed : ℕ → ℕ → Event

-- `server` answers a search.
module _ (server : String → Response) where
  unfoldable pub answer_search : ℕ → Option String → SearchPage → SearchPage
  unfolding tables_of without
  answer_search n none p = p
  answer_search n (some find) p = record p {
    sent = without n p.sent;
    results = p.results ++ tables_of (server find);
  }

  unfoldable pub handle_event : Event → SearchPage → SearchPage
  unfolding process_search fire_search answer_search fail_search
  handle_event (typed s) p = process_search (record p { text = s })
  handle_event timer_fired p = fire_search p.timer p
  handle_event (answered n) p = answer_search n (get_elem? p.sent n) p
  handle_event (failed n status) p = fail_search n status p

  unfoldable pub run_events : List Event → SearchPage → SearchPage
  unfolding handle_event
  run_events [] p = p
  run_events (e ∷ es) p = run_events es (handle_event e p)
