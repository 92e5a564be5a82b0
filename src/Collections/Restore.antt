-- ===== src/Collections/Restore.antt =====
-- The rows for child collections: `insert_child_collection_input_row`, the lists of types and of
-- collections, and what an update that failed leaves of them.
use jazzhands.Prelude.{
  ℕ, suc, ◌≡◌, refl, ap, sym, inl, inr, Bool, true, false, String, str_eq, eq_iff, Option, none,
  some, List, [], ◌∷◌, ◌<>◌, show, any, ◌==◌, if◌then◌else◌, arith, Bool-cases,
}
use jazzhands.Collections.Params.{value_or_empty}

-- An option of a list; `marked` is its attribute `selected`.
pub record Entry : Type 0 where
  pub value : String
  pub text : String
  pub marked : Bool

-- A list with its identifier; `serial` tells it from an earlier one.
pub record Select : Type 0 where
  pub id : String
  pub serial : ℕ
  pub entries : List Entry

-- A row with the list of types, `chosen` being its value, and the list of collections, where it
-- is there.
pub record Child : Type 0 where
  pub number : ℕ
  pub types : List Entry
  pub chosen : String
  pub picker : Option Select

-- A request for the collections of a type, with the list that gets the answer.
pub record Asked : Type 0 where
  pub type : String
  pub target : ℕ

-- A row, with the next serial number and the requests for its lists, the last first.
pub record Page : Type 0 where
  pub child : Child
  pub serials : ℕ
  pub asked : List Asked

abbrev pub type_name : ℕ → String
type_name n = "add_CHILD_COLLECTION" <> show n

abbrev pub picker_name : ℕ → String
picker_name n = "pick_NETBLOCK_COLLECTION_ID" <> show n

abbrev pub plain : String → String → Entry
plain value text = record { value = value; text = text; marked = false }

-- The row that `insert_child_collection_input_row` adds, whose list of types is requested then.
unfoldable pub new_child : ℕ → Child
new_child n = record {
  number = n;
  types = plain "__unknown__" "Please Select a Collection Type" ∷ [];
  chosen = "__unknown__";
  picker = none;
}

-- The list of collections while its answer is awaited.
abbrev pub loading : Select → Select
loading s = record s { entries = plain "Loading..." "Loading..." ∷ [] }

-- `update_collection_select`
unfoldable pub update_collection_select : Page → Page
update_collection_select p =
    let c = p.child in
    if str_eq c.chosen "__unknown__"
    then record p { child = record c { picker = none } }
    else elim c.picker [
      | none ↦ record {
        child = record c {
          picker =
              some
                (loading (record { id = picker_name c.number; serial = p.serials; entries = [] }));
        };
        serials = suc p.serials;
        asked = record { type = c.chosen; target = p.serials } ∷ p.asked;
      }
      | some s ↦ record p {
        child = record c { picker = some (loading s) };
        asked = record { type = c.chosen; target = s.serial } ∷ p.asked;
      }
    ]

-- The options of an answer; the one whose value is the parameter is marked.
abbrev pub entries_of : String → List (String × String) → List Entry
entries_of value [] = []
entries_of value ((v, t) ∷ os) =
    record { value = v; text = t; marked = str_eq value v } ∷ entries_of value os

-- The value of a list with these options: the last that is marked, else the first.
unfoldable pub last_marked : List Entry → Option String
last_marked [] = none
last_marked (e ∷ es) = elim (last_marked es) [
  | none ↦ (if e.marked then some e.value else none)
  | some v ↦ some v
]

abbrev value_or : String → Option String → String
value_or s none = s
value_or s (some v) = v

unfoldable pub selected_value : List Entry → String
unfolding last_marked
selected_value [] = ""
selected_value (e ∷ es) = value_or e.value (last_marked (e ∷ es))

-- The answer to `populate_collection_types_select`, with the names of the types and their texts.
unfoldable pub types_answered : List (String × Option String) → List (String × String) → Page → Page
unfolding update_collection_select selected_value
types_answered params types p =
    let value = value_or_empty (type_name p.child.number) params in
    let options = entries_of value types in
    let list = plain "__unknown__" "Please Select a Collection Type" ∷ options in
    let q = record p { child = record p.child { types = list; chosen = selected_value list } } in
    if any (λ e. e.marked) options then update_collection_select q else q

-- The list with the serial number `n` gets its options, if it is still there.
abbrev pub fill_picker : ℕ → List Entry → Option Select → Option Select
fill_picker n entries none = none
fill_picker n entries (some s) =
    if s.serial == n then some (record s { entries = entries }) else some s

abbrev pub collections_in : String → Option (List (String × String)) → List Entry
collections_in value none = []
collections_in value (some os) = entries_of value os

-- The answer to `populate_collections_select`, which may lack the key `NETBLOCK_COLLECTIONS`.
unfoldable pub collections_answered :
    List (String × Option String) → Asked → Option (List (String × String)) → Page → Page
collections_answered params a resp p =
    let value = value_or_empty (picker_name p.child.number) params in
    let entries = plain "" "Please Select" ∷ collections_in value resp in
    record p { child = record p.child { picker = fill_picker a.target entries p.child.picker } }

marked-last :
    (v : String) (os : List (String × String))
    → any (λ o. str_eq v o.0) os ≡ true
    → last_marked (entries_of v os) ≡ some v
unfolding last_marked
marked-last v [] h = cc
marked-last v ((w, t) ∷ os) h = elim (Bool-cases (any (λ o. str_eq v o.0) os)) [
  | inl e ↦ rw (marked-last v os e) refl
  | inr e ↦
      let here : str_eq v w ≡ true = ground arith in
      rw (unmarked-last v os e, here) (ap some (sym ((eq_iff v w).0 here)))
]
  where
    unmarked-last :
        (v : String) (os : List (String × String))
        → any (λ o. str_eq v o.0) os ≡ false
        → last_marked (entries_of v os) ≡ none
    unmarked-last v [] h = refl
    unmarked-last v ((w, t) ∷ os) h =
        let here : str_eq v w ≡ false = ground arith in
        rw (unmarked-last v os (ground arith), here) refl

marked-any :
    (v : String) (os : List (String × String))
    → any (λ o. str_eq v o.0) os ≡ true
    → any (λ e. e.marked) (entries_of v os) ≡ true
marked-any v [] h = h
marked-any v ((w, t) ∷ os) h = ground (arith, marked-any v os)

selected-marked :
    (first : Entry) (v : String) (os : List (String × String))
    → first.marked ≡ false
    → any (λ o. str_eq v o.0) os ≡ true
    → selected_value (first ∷ entries_of v os) ≡ v
unfolding selected_value last_marked
selected-marked first v os f h =
    let last : last_marked (first ∷ entries_of v os) ≡ some v =
      ground (arith, marked-last v os h) in
    ap (value_or first.value) last

-- The answer to the request that was sent last. `server` gives the collections of a type.
unfoldable pub answer_asked :
    (String → Option (List (String × String)))
    → List (String × Option String)
    → List Asked
    → Page
    → Page
unfolding collections_answered
answer_asked server params [] p = p
answer_asked server params (a ∷ more) p = collections_answered params a (server a.type) p

abbrev pub picked_value : Option Select → Option String
picked_value none = none
picked_value (some s) = some (selected_value s.entries)

-- A page with a row that is new.
abbrev pub new_page : ℕ → ℕ → List Asked → Page
new_page n serials asked = record { child = new_child n; serials = serials; asked = asked }

-- What the page holds after the answer with the types.
types-chosen :
    (n serials : ℕ) (asked : List Asked) (params : List (String × Option String))
    (types : List (String × String)) (type : String)
    → value_or_empty (type_name n) params ≡ type
    → str_eq type "__unknown__" ≡ false
    → any (λ o. str_eq type o.0) types ≡ true
    → types_answered params types (new_page n serials asked) ≡ record {
      child = record {
        number = n;
        types = plain "__unknown__" "Please Select a Collection Type" ∷ entries_of type types;
        chosen = type;
        picker = some (loading (record { id = picker_name n; serial = serials; entries = [] }));
      };
      serials = suc serials;
      asked = record { type = type; target = serials } ∷ asked;
    }
unfolding types_answered update_collection_select new_child
types-chosen n serials asked params types type e known h =
    let list = plain "__unknown__" "Please Select a Collection Type" in
    rw (e, selected-marked list type types refl h, marked-any type types h, known) refl

-- After an update that failed, a row that is added again for a child collection has its type, and,
-- when the collections of the type are there, its collection, where the parameters of its number
-- name a type and a collection that the server offers.
pub restored_child :
    (n serials : ℕ) (asked : List Asked) (params : List (String × Option String))
    (types collections : List (String × String)) (server : String → Option (List (String × String)))
    (type id : String)
    → value_or_empty (type_name n) params ≡ type
    → value_or_empty (picker_name n) params ≡ id
    → str_eq type "__unknown__" ≡ false
    → any (λ o. str_eq type o.0) types ≡ true
    → server type ≡ some collections
    → any (λ o. str_eq id o.0) collections ≡ true
    → (let p = types_answered params types (new_page n serials asked) in
        let q = answer_asked server params p.asked p in
        (q.child.chosen ≡ type) × (picked_value q.child.picker ≡ some id))
unfolding answer_asked collections_answered
restored_child n serials asked params types collections server type id e i known h s k =
    let same : (serials == serials) ≡ true = ground arith in
    rw (types-chosen n serials asked params types type e known h, s, i, same)
      (refl, ap some (selected-marked (plain "" "Please Select") id collections refl k))
