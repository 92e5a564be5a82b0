-- ===== src/Attest/Page.antt =====
-- The tables of the page, with the handlers that are set up when it is ready.
use jazzhands.Prelude.{
  ℕ, Bool, true, false, not, ◌&&◌, ◌||◌, String, str_eq, Option, none, some, List, [], ◌∷◌, map,
  any, if◌then◌else◌, modify,
}

-- The cell with the hidden `approve_value` and the two buttons. `approve_on` and `disapprove_on`
-- are their class `buttonon`, `error` is the class of the cell.
pub record Approval : Type 0 where
  pub value : String
  pub approve_on : Bool
  pub disapprove_on : Bool
  pub error : Bool

-- The cell with the correction, a text field or a select list. `hidden` is the class
-- `hidecorrection` of the `div` around it, `error` the class of the cell.
pub record Correction : Type 0 where
  pub is_select : Bool
  pub value : String
  pub hint : Bool
  pub preserved_hint : Option String
  pub disabled : Bool
  pub hidden : Bool
  pub error : Bool

-- A row that is approved has no buttons; one that waits for another system has no correction.
pub record Row : Type 0 where
  pub approval : Option Approval
  pub correction : Option Correction

abbrev pub on_approval : (Approval → Approval) → Row → Row
on_approval g r = record r { approval = (elim r.approval [ none ↦ none | some a ↦ some (g a) ]) }

abbrev pub on_correction : (Correction → Correction) → Row → Row
on_correction g r = record r {
  correction = (elim r.correction [ none ↦ none | some c ↦ some (g c) ]);
}

abbrev pub has_approval : Row → Bool
has_approval r = elim r.approval [ none ↦ false | some a ↦ true ]

-- When the page is ready, the values are cleared.
unfoldable pub clear_values : List (List Row) → List (List Row)
clear_values tables = map (map (on_approval (λ a. record a { value = "" }))) tables

-- The click on one of the buttons, which tells whether it is `approve`.
abbrev pub toggle_approval : Bool → Approval → Approval
toggle_approval approve a = record a {
  value = (if approve then "approve" else "reject");
  approve_on = approve;
  disapprove_on = not approve;
  error = false;
}

abbrev pub open_correction : Correction → Correction
open_correction c = record c { disabled = false; hidden = false }

abbrev pub close_correction : Correction → Correction
close_correction c = record c { disabled = true; hidden = true; error = false }

unfoldable pub attest_toggle : Bool → Row → Row
attest_toggle approve r =
    if has_approval r
    then on_correction (if approve then close_correction else open_correction)
        (on_approval (toggle_approval approve) r)
    else r

-- The click on `approveall`, which does all of it for each button `approve` of the table.
unfoldable pub approve_all : List Row → List Row
approve_all rows =
    if any has_approval rows
    then map (λ r. on_correction close_correction (on_approval (toggle_approval true) r)) rows
    else rows

-- The focus gets into a field with the class `hint`.
unfoldable pub focus_hint : Correction → Correction
focus_hint c =
    if c.hint
    then record c { hint = false; error = false; preserved_hint = some c.value; value = "" }
    else c

-- The focus leaves it. An empty hint is none.
unfoldable pub blur_correction : Correction → Correction
blur_correction c = elim c.preserved_hint [
  | none ↦ c
  | some s ↦
      if str_eq c.value "" && not (str_eq s "") then record c { hint = true; value = s } else c
]

-- A correction is shown and not filled in.
unfoldable pub is_missing : Correction → Bool
is_missing c = not c.hidden && (c.hint || str_eq c.value "")

-- The first two loops of the check: the corrections of one kind.
unfoldable pub lacks_correction : Bool → Row → Bool
unfolding is_missing
lacks_correction kind r = elim r.correction [
  | none ↦ false
  | some c ↦ if c.is_select then kind && is_missing c else not kind && is_missing c
]

unfoldable pub mark_correction : Bool → Correction → Correction
unfolding is_missing
mark_correction kind c =
    if c.is_select
    then (if kind then record c { error = is_missing c } else c)
    else if kind
    then c
    else record c { error = is_missing c }

-- The last loop: the hidden `approve_value` stands in no `div.correction`.
abbrev pub lacks_approval : Row → Bool
lacks_approval r = elim r.approval [ none ↦ false | some a ↦ str_eq a.value "" ]

abbrev pub mark_approval : Approval → Approval
mark_approval a = record a { error = str_eq a.value "" }

unfoldable pub check_corrections : Bool → List (List Row) → Bool × List (List Row)
unfolding lacks_correction mark_correction
check_corrections kind tables = (
  any (any (lacks_correction kind)) tables,
  map (map (on_correction (mark_correction kind))) tables,
)

unfoldable pub check_approvals : List (List Row) → Bool × List (List Row)
check_approvals tables =
    (any (any lacks_approval) tables, map (map (on_approval mark_approval)) tables)

-- The handler of `submit`: whether the form is submitted, and the tables; where it is not, there is
-- an alert.
unfoldable pub submit_attest : List (List Row) → Bool × List (List Row)
unfolding check_corrections check_approvals
submit_attest tables =
    let texts = check_corrections false tables in
    let selects = check_corrections true texts.1 in
    let values = check_approvals selects.1 in (not (texts.0 || (selects.0 || values.0)), values.1)

-- What the user does in the row `r` of the table `t`.
pub data Event : Type 0 where
  toggled : ℕ → ℕ → Bool → Event
  all_approved : ℕ → Event
  focused : ℕ → ℕ → Event
  blurred : ℕ → ℕ → Event
  filled : ℕ → ℕ → String → Event
  submitted : Event

abbrev pub at_row : ℕ → ℕ → (Row → Row) → List (List Row) → List (List Row)
at_row t r g tables = modify (modify g r) t tables

unfoldable pub handle_event : Event → List (List Row) → List (List Row)
unfolding attest_toggle approve_all focus_hint blur_correction submit_attest
handle_event (toggled t r approve) tables = at_row t r (attest_toggle approve) tables
handle_event (all_approved t) tables = modify approve_all t tables
handle_event (focused t r) tables = at_row t r (on_correction focus_hint) tables
handle_event (blurred t r) tables = at_row t r (on_correction blur_correction) tables
handle_event (filled t r s) tables = at_row t r (on_correction (λ c. record c { value = s })) tables
handle_event submitted tables = (submit_attest tables).1

unfoldable pub run_events : List Event → List (List Row) → List (List Row)
unfolding handle_event
run_events [] tables = tables
run_events (e ∷ es) tables = run_events es (handle_event e tables)
