-- ===== src/Submission/Rack.antt =====
-- The form of a rack and the check before it is submitted.
use jazzhands.Prelude.{
  Bool, true, false, ◌&&◌, String, str_eq, Option, none, some, List, [], ◌∷◌, ◌++◌, if◌then◌else◌,
  ◌<>◌,
}
use jazzhands.Submission.Names.{after_prefix, is_digit}

-- A checkbox with the class `scaryrm`, and its other classes.
pub record ScaryBox : Type 0 where
  pub checked : Bool
  pub rmrack : Bool
  pub demonitor : Bool

-- The names and values of the form at the start of the page and now, and the box with its lines.
pub record RackForm : Type 0 where
  pub original : List (String × String)
  pub submitted : List (String × String)
  pub boxes : List ScaryBox
  pub box_visible : Bool
  pub lines : List String

abbrev starts_digit : String → Bool
starts_digit String.[] = false
starts_digit (String.◌∷◌ c s) = is_digit c

abbrev digit_behind : Option String → Bool
digit_behind none = false
digit_behind (some s) = starts_digit s

-- `new RegExp( '^' + point + '_[0-9]' ).test( name )`
unfoldable pub names_point : String → String → Bool
unfolding after_prefix
names_point point name = digit_behind (after_prefix (point <> "_") name)

-- `$.grep` for a point, with the values.
unfoldable pub values_of : String → List (String × String) → List String
unfolding names_point
values_of point [] = []
values_of point (f ∷ fs) =
    let rest = values_of point fs in if names_point point f.0 then f.1 ∷ rest else rest

-- The message where there are two values that differ; `label` is the point in small letters
-- with its first underscore as a space.
unfoldable pub change_text : String → List String → List String
change_text label (v ∷ w ∷ []) =
    if str_eq v w
    then []
    else ("You have changed the rack " <> label <> " from " <> v <> " to " <> w <> ".") ∷ []
change_text label vs = []

abbrev pub data_points : List (String × String)
data_points =
    ("SITE_CODE", "site code")
    ∷ ("ROOM", "room")
    ∷ ("SUB_ROOM", "sub room")
    ∷ ("RACK_ROW", "rack row")
    ∷ ("RACK_NAME", "rack name")
    ∷ []

unfoldable pub changes : List (String × String) → List (String × String) → List String
unfolding values_of change_text
changes fields [] = []
changes fields (p ∷ ps) = change_text p.1 (values_of p.0 fields) ++ changes fields ps

abbrev retire_rack_text : String
retire_rack_text =
    "You have selected to retire the rack.  This will remove all devices in the rack and the rack from the database.  This should only be done if the rack and devices are behing physically removed."

abbrev demonitor_text : String
demonitor_text = "You have chosen to take all the devices in this rack out of monitoring"

-- The loop on the checked boxes.
unfoldable pub warnings : List ScaryBox → List String
warnings [] = []
warnings (b ∷ bs) =
    (if b.checked && b.rmrack then retire_rack_text ∷ [] else [])
    ++ (if b.checked && b.demonitor then demonitor_text ∷ [] else [])
    ++ warnings bs

-- `nogo` before the question.
unfoldable pub nogo : RackForm → List String
unfolding changes warnings
nogo f = changes (f.original ++ f.submitted) data_points ++ warnings f.boxes

abbrev pub question : List String
question = "<p>" ∷ "<b>Are you sure you want to do this?</b>" ∷ []

unfoldable pub ask : List String → RackForm → RackForm × Bool
ask [] f = (f, true)
ask (m ∷ ms) f = (record f { box_visible = true; lines = f.lines ++ ((m ∷ ms) ++ question) }, false)

-- `verify_rack_submission`, with its result: whether the form is submitted. The lines of the box
-- are added to those that are there.
unfoldable pub verify_rack : RackForm → RackForm × Bool
unfolding nogo ask
verify_rack f = ask (nogo f) f

-- The button "No".
unfoldable pub answer_no : RackForm → RackForm
answer_no f = record f { box_visible = false; lines = [] }
