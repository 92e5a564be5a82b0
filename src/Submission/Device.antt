-- ===== src/Submission/Device.antt =====
-- The form of a device and the check before it is submitted.
use jazzhands.Prelude.{
  Bool, true, false, not, ◌&&◌, String, str_eq, Option, none, some, List, [], ◌∷◌, ◌++◌,
  if◌then◌else◌, ◌<>◌,
}
use jazzhands.Submission.Names.{removal_of}

-- An element of the form, as far as it is a checkbox or not.
pub record Element : Type 0 where
  pub is_checkbox : Bool
  pub name : String
  pub checked : Bool

-- The box with the messages, and its buttons: "Close", or "Yes" and "No".
pub data VerifyBox : Type 0 where
  no_box : VerifyBox
  close_box : List String → VerifyBox
  confirm_box : List String → VerifyBox

-- `toggles` are the names and states of the toggle buttons, `hidden` the names and values of the
-- hidden fields that were added to the form, `interface_names` the values of the elements that
-- `getElementById` finds; the two checkboxes of the page may be absent.
pub record Form : Type 0 where
  pub dont_submit : Bool
  pub toggles : List (String × String)
  pub hidden : List (String × String)
  pub elements : List Element
  pub interface_names : List (String × String)
  pub port_reset : Option Bool
  pub retire : Option Bool
  pub box : VerifyBox

-- The first value under a name.
unfoldable pub lookup : String → List (String × String) → Option String
lookup n [] = none
lookup n (p ∷ ps) = let rest = lookup n ps in if str_eq p.0 n then some p.1 else rest

abbrev removal_text : String → Option String → String
removal_text kind none = "Remove and Reserve IP for interface?"
removal_text kind (some name) =
    if str_eq kind "free"
    then "Remove and Free IPs for interface " <> name <> "?"
    else "Remove and Reserve IPs for interface " <> name <> "?"

-- The message for the groups that the name of a checkbox has.
unfoldable pub removal_message : List (String × String) → Option (String × String) → List String
unfolding lookup
removal_message names none = []
removal_message names (some (kind, digits)) =
    removal_text kind (lookup ("INTERFACE_NAME_" <> digits) names) ∷ []

-- The loop on the elements of the form.
unfoldable pub removals : List (String × String) → List Element → List String
unfolding removal_message
removals names [] = []
removals names (e ∷ es) =
    (if e.is_checkbox && e.checked then removal_message names (removal_of e.name) else [])
    ++ removals names es

-- The checkbox is there and checked.
abbrev pub is_checked : Option Bool → Bool
is_checked none = false
is_checked (some b) = b

abbrev reset_text : String
reset_text =
    "You have selected to resync all serial ports on this device.  This will remove all existing serial connections.  Only click YES if you know what you're doing."

abbrev pub conflict_text : String
conflict_text = "You may not both retire a box and rest serial ports to default."

abbrev retire_text : String
retire_text =
    "You have selected to RETIRE the box.  Only click yes if you want to remove the device characteristics from the database"

-- `msg`
unfoldable pub messages : Form → List String
unfolding removals
messages f =
    removals f.interface_names f.elements
    ++ (if is_checked f.port_reset then reset_text ∷ [] else [])
    ++ (if is_checked f.retire && not (is_checked f.port_reset) then retire_text ∷ [] else [])

-- `nogo`
unfoldable pub refusals : Form → List String
refusals f = if is_checked f.retire && is_checked f.port_reset then conflict_text ∷ [] else []

-- The box for the refusals, or for the messages where there are no refusals.
unfoldable pub box_for : List String → List String → VerifyBox
box_for (r ∷ rs) ms = close_box (r ∷ rs)
box_for [] (m ∷ ms) = confirm_box (m ∷ ms)
box_for [] [] = no_box

abbrev is_no_box : VerifyBox → Bool
is_no_box no_box = true
is_no_box (close_box ms) = false
is_no_box (confirm_box ms) = false

-- `verify_device_submission`, with its result: whether the form is submitted.
unfoldable pub verify_device : Form → Form × Bool
unfolding box_for messages refusals
verify_device f =
    let box = box_for (refusals f) (messages f) in
    if f.dont_submit
    then (record f { dont_submit = false }, false)
    else (record f { hidden = f.hidden ++ f.toggles; box = box }, is_no_box box)
