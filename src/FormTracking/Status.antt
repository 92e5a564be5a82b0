-- ===== src/FormTracking/Status.antt =====
-- The class `changed` tells exactly which elements differ from their original state.
use jazzhands.Prelude.{
  ℕ, ◌≡◌, refl, sym, ap, ◌∙◌, Bool, true, false, not, String, str_eq, eq_iff, eq_refl, Option, none,
  some, List, [], ◌∷◌, map, includes, split, if◌then◌else◌, length, arith, inl, inr, all,
  length-modify, length-map, get_elem?, get_elem?-map, get_elem?-modify_self, get_elem?-modify_ne,
  ◌≢◌, ◌⊎◌,
}
use jazzhands.FormTracking.Elements.{
  Choice, Control, select, radio, checkbox, input, Element, select_changed, select_moved,
  check_changed, differ, update_member, update_status,
}

-- The option is selected exactly if its value is among the original ones, or by default.
abbrev pub same_as_original : List String → Choice → Bool
same_as_original values c = not (differ (includes c.value values) c.selected)

abbrev pub same_as_default : Choice → Bool
same_as_default c = not (differ c.default_selected c.selected)

-- What the class should say: the element differs from the attribute `original`, where it has one,
-- and else from its default.
abbrev pub differs : Element → Bool
differs e = elim e.original [
  | some o ↦ elim e.control [
    | select cs ↦ not (all (same_as_original (split "," o)) cs)
    | radio checked dflt ↦ not (str_eq o (if checked then "checked" else ""))
    | checkbox checked dflt ↦ not (str_eq o (if checked then "checked" else ""))
    | input v dflt ↦ not (str_eq o v)
  ]
  | none ↦ elim e.control [
    | select cs ↦ not (all same_as_default cs)
    | radio checked dflt ↦ differ dflt checked
    | checkbox checked dflt ↦ differ dflt checked
    | input v dflt ↦ not (str_eq dflt v)
  ]
]

select_changed_lem :
    (values : List String) (cs : List Choice)
    → select_changed values cs ≡ not (all (same_as_original values) cs)
unfolding select_changed
select_changed_lem values [] = refl
select_changed_lem values (c ∷ cs) = ground (arith, select_changed_lem values cs)

select_moved_lem : (cs : List Choice) → select_moved cs ≡ not (all same_as_default cs)
unfolding select_moved
select_moved_lem [] = refl
select_moved_lem (c ∷ cs) = ground (arith, select_moved_lem cs)

check_changed_lem :
    (o : String) (checked : Bool)
    → check_changed (some o) checked ≡ not (str_eq o (if checked then "checked" else ""))
unfolding check_changed
check_changed_lem o true = ground arith
check_changed_lem o false = ground arith

has_original : Element → Bool
has_original e = elim e.original [ some o ↦ true | none ↦ false ]

is_radio : Element → Bool
is_radio e = elim e.control [
  | radio c d ↦ true
  | select cs ↦ false
  | checkbox c d ↦ false
  | input v d ↦ false
]

-- All radio buttons of a name have the attribute, or none has; `g` tells which.
unfoldable pub IsGrouped : (String → Bool) → Element → Type 0
unfolding has_original is_radio
IsGrouped g e = is_radio e ≡ true → has_original e ≡ g e.name

abbrev pub settled : Element → Element
settled e = record e { changed = differs e }

pub IsGrouped-settled : (g : String → Bool) (a : Element) → IsGrouped g a → IsGrouped g (settled a)
unfolding IsGrouped
IsGrouped-settled g a h = h

-- A record given by what the update reads of it.
abbrev with_parts : Element → Option String → Control → Element
with_parts a o c = record a { original = o; control = c }

member_of :
    (g : String → Bool) (flag : Bool) (name : String) (a : Element) (o : Option String)
    (c : Control)
    → g name ≡ flag
    → IsGrouped g (with_parts a o c)
    → (update_member flag name (with_parts a o c) ≡ with_parts a o c)
      ⊎ (update_member flag name (with_parts a o c) ≡ settled (with_parts a o c))
unfolding update_member IsGrouped
member_of g flag name a o (select cs) h k = inl refl
member_of g flag name a o (checkbox b d) h k = inl refl
member_of g flag name a o (input v d) h k = inl refl
member_of g flag name a none (radio b d) h k = ground (arith, k refl, eq_iff a.name name)
member_of g flag name a (some o) (radio b d) h k =
    ground (arith, k refl, eq_iff a.name name, check_changed_lem o b)

-- The update of a radio group settles the members and leaves the rest.
update_member-cases :
    (g : String → Bool) (flag : Bool) (name : String) (a : Element)
    → g name ≡ flag
    → IsGrouped g a
    → (update_member flag name a ≡ a) ⊎ (update_member flag name a ≡ settled a)
update_member-cases g flag name a = member_of g flag name a a.original a.control

status_of :
    (e : Element) (o : Option String) (c : Control) (i : ℕ) (page : List Element)
    → get_elem? page i ≡ some (with_parts e o c)
    → get_elem? (update_status (with_parts e o c) i page) i ≡ some (settled (with_parts e o c))
unfolding update_status
status_of e none (select cs) i page h =
    get_elem?-modify_self _ i page h ∙ rw (select_moved_lem cs) refl
status_of e none (radio b d) i page h =
    get_elem?-map _ page i h ∙ unfold update_member in rw (eq_refl e.name) refl
status_of e none (checkbox b d) i page h = get_elem?-modify_self _ i page h
status_of e none (input v d) i page h = get_elem?-modify_self _ i page h
status_of e (some o) (select cs) i page h =
    get_elem?-modify_self _ i page h ∙ rw (select_changed_lem (split "," o) cs) refl
status_of e (some o) (radio b d) i page h =
    get_elem?-map _ page i h
    ∙ unfold update_member in rw (eq_refl e.name, check_changed_lem o b) refl
status_of e (some o) (checkbox b d) i page h =
    get_elem?-modify_self _ i page h ∙ rw (check_changed_lem o b) refl
status_of e (some o) (input v d) i page h = get_elem?-modify_self _ i page h

-- After the function has run for an element, its class `changed` says whether it differs from its
-- original state: from the attribute where it has one (for a select element as a comma-separated
-- list of values, for radio buttons and checkboxes as `checked` or empty), and else from its
-- default.
pub update_status_self :
    (e : Element) (i : ℕ) (page : List Element)
    → get_elem? page i ≡ some e
    → get_elem? (update_status e i page) i ≡ some (record e { changed = differs e })
update_status_self e = status_of e e.original e.control

mapped_member :
    (g : String → Bool) (flag : Bool) (name : String) (page : List Element) (j : ℕ) (a : Element)
    → g name ≡ flag
    → IsGrouped g a
    → get_elem? page j ≡ some a
    → (get_elem? (map (update_member flag name) page) j ≡ some a)
      ⊎ (get_elem? (map (update_member flag name) page) j ≡ some (settled a))
mapped_member g flag name page j a e k h = elim (update_member-cases g flag name a e k) [
  | inl p ↦ inl (get_elem?-map _ page j h ∙ ap some p)
  | inr p ↦ inr (get_elem?-map _ page j h ∙ ap some p)
]

other_of :
    (g : String → Bool) (e : Element) (o : Option String) (c : Control) (i j : ℕ)
    (page : List Element) (a : Element)
    → IsGrouped g (with_parts e o c)
    → IsGrouped g a
    → i ≢ j
    → get_elem? page j ≡ some a
    → (get_elem? (update_status (with_parts e o c) i page) j ≡ some a)
      ⊎ (get_elem? (update_status (with_parts e o c) i page) j ≡ some (settled a))
unfolding update_status IsGrouped
other_of g e none (select cs) i j page a k l ne h = inl (get_elem?-modify_ne _ i j page ne ∙ h)
other_of g e none (checkbox b d) i j page a k l ne h = inl (get_elem?-modify_ne _ i j page ne ∙ h)
other_of g e none (input v d) i j page a k l ne h = inl (get_elem?-modify_ne _ i j page ne ∙ h)
other_of g e (some o) (select cs) i j page a k l ne h = inl (get_elem?-modify_ne _ i j page ne ∙ h)
other_of g e (some o) (checkbox b d) i j page a k l ne h =
    inl (get_elem?-modify_ne _ i j page ne ∙ h)
other_of g e (some o) (input v d) i j page a k l ne h = inl (get_elem?-modify_ne _ i j page ne ∙ h)
other_of g e none (radio b d) i j page a k l ne h =
    mapped_member g false e.name page j a (sym (k refl)) l h
other_of g e (some o) (radio b d) i j page a k l ne h =
    mapped_member g true e.name page j a (sym (k refl)) l h

-- Where another element stands, it stays as it is, or it is settled as well.
pub update_status_other :
    (g : String → Bool) (e : Element) (i j : ℕ) (page : List Element) (a : Element)
    → IsGrouped g e
    → IsGrouped g a
    → i ≢ j
    → get_elem? page j ≡ some a
    → (get_elem? (update_status e i page) j ≡ some a)
      ⊎ (get_elem? (update_status e i page) j ≡ some (settled a))
update_status_other g e = other_of g e e.original e.control

length_of :
    (e : Element) (o : Option String) (c : Control) (i : ℕ) (page : List Element)
    → length (update_status (with_parts e o c) i page) ≡ length page
unfolding update_status
length_of e none (select cs) i page = length-modify _ i page
length_of e none (radio b d) i page = length-map _ page
length_of e none (checkbox b d) i page = length-modify _ i page
length_of e none (input v d) i page = length-modify _ i page
length_of e (some o) (select cs) i page = length-modify _ i page
length_of e (some o) (radio b d) i page = length-map _ page
length_of e (some o) (checkbox b d) i page = length-modify _ i page
length_of e (some o) (input v d) i page = length-modify _ i page

pub length-update_status :
    (e : Element) (i : ℕ) (page : List Element) → length (update_status e i page) ≡ length page
length-update_status e = length_of e e.original e.control
