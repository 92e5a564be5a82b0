-- ===== src/FormTracking/Elements.antt =====
-- The elements of a page and `updateChangeTrackingStatus`.
use jazzhands.Prelude.{
  ℕ, zero, suc, Bool, true, false, not, ◌&&◌, ◌||◌, String, str_eq, Option, none, some, List, [],
  ◌∷◌, map, includes, split, if◌then◌else◌, ◌==◌, get_elem?, modify, length,
}

-- An option of a select element.
pub record Choice : Type 0 where
  pub value : String
  pub selected : Bool
  pub default_selected : Bool

pub data Control : Type 0 where
  select : List Choice → Control
  radio checkbox : Bool → Bool → Control
  input : String → String → Control

-- `radio` and `checkbox` hold `checked` and `defaultChecked`, `input` holds `value` and
-- `defaultValue`. `original` is the attribute, `tracked` and `changed` are classes; `form` and
-- `row` tell which form and which table row the element stands in.
pub record Element : Type 0 where
  pub name : String
  pub original : Option String
  pub tracked : Bool
  pub changed : Bool
  pub control : Control
  pub form : ℕ
  pub row : Option ℕ

abbrev pub set_changed : Bool → Element → Element
set_changed b e = record e { changed = b }

-- `getAttribute( 'original' ) === s`
abbrev pub original_is : String → Option String → Bool
original_is s none = false
original_is s (some o) = str_eq o s

-- The loop over the options, which stops at the first that differs from the original values.
unfoldable pub select_changed : List String → List Choice → Bool
select_changed values [] = false
select_changed values (c ∷ cs) =
    if (includes c.value values && not c.selected) || (not (includes c.value values) && c.selected)
    then true
    else select_changed values cs

-- The same loop against the defaults.
unfoldable pub select_moved : List Choice → Bool
select_moved [] = false
select_moved (c ∷ cs) =
    if (c.default_selected && not c.selected) || (not c.default_selected && c.selected)
    then true
    else select_moved cs

-- A radio button or a checkbox against the attribute, which is `checked` or empty.
unfoldable pub check_changed : Option String → Bool → Bool
check_changed original checked =
    if (checked && original_is "checked" original) || (not checked && original_is "" original)
    then false
    else true

-- `a !== b` on Booleans
abbrev pub differ : Bool → Bool → Bool
differ true b = not b
differ false b = b

-- The update of one member of a radio group: against the attribute or against the default.
unfoldable pub update_member : Bool → String → Element → Element
update_member with_original name e = elim e.control [
  | radio checked dflt ↦
      if str_eq e.name name
      then (if with_original
          then set_changed (check_changed e.original checked) e
          else set_changed (differ dflt checked) e)
      else e
  | select cs ↦ e
  | checkbox checked dflt ↦ e
  | input v dflt ↦ e
]

-- `updateChangeTrackingStatus( element )` where the element stands at the position `i` of the page.
-- A radio button updates all buttons of its name.
with_attribute : String → Element → ℕ → List Element → List Element
with_attribute original e i page = elim e.control [
  | select cs ↦ modify (set_changed (select_changed (split "," original) cs)) i page
  | radio checked dflt ↦ map (update_member true e.name) page
  | checkbox checked dflt ↦ modify (set_changed (check_changed (some original) checked)) i page
  | input v dflt ↦ modify (set_changed (not (str_eq original v))) i page
]

without_attribute : Element → ℕ → List Element → List Element
without_attribute e i page = elim e.control [
  | select cs ↦ modify (set_changed (select_moved cs)) i page
  | radio checked dflt ↦ map (update_member false e.name) page
  | checkbox checked dflt ↦ modify (set_changed (differ dflt checked)) i page
  | input v dflt ↦ modify (set_changed (not (str_eq dflt v))) i page
]

unfoldable pub update_status : Element → ℕ → List Element → List Element
unfolding with_attribute without_attribute
update_status e i page = elim e.original [
  | some original ↦ with_attribute original e i page
  | none ↦ without_attribute e i page
]

-- The form whose elements are visited; `none` is the whole document.
abbrev pub within : Option ℕ → Element → Bool
within none e = true
within (some f) e = e.form == f

-- The visit of the element at the position `i`, if the query has handed it out.
unfoldable pub visit : Option ℕ → ℕ → List Element → List Element
visit scope i page = elim (get_elem? page i) [
  | some e ↦ if e.tracked && within scope e then update_status e i page else page
  | none ↦ page
]

unfoldable pub update_from : Option ℕ → ℕ → ℕ → List Element → List Element
update_from scope zero i page = page
update_from scope (suc n) i page = update_from scope n (suc i) (visit scope i page)

-- `querySelectorAll( '.tracked' ).forEach( updateChangeTrackingStatus )`
unfoldable pub update_all : Option ℕ → List Element → List Element
unfolding update_from
update_all scope page = update_from scope (length page) 0 page
