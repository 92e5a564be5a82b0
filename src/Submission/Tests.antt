-- ===== src/Submission/Tests.antt =====
-- The theorems on the checks of forms at concrete forms.
use jazzhands.Prelude.{◌≡◌, ◌↔◌, refl, true, false, none, some, [], ◌∷◌, any}
use jazzhands.Submission.Names.{removal_of, after_prefix, span, number_behind, letters_behind}
use jazzhands.Submission.Device.{
  Element, Form, no_box, confirm_box, is_checked, verify_device, lookup, removals, removal_message,
  messages, refusals, box_for,
}
use jazzhands.Submission.Confirm.{asks_removal, submits_iff}
use jazzhands.Submission.Rack.{
  RackForm, verify_rack, nogo, ask, changes, values_of, names_point, change_text, warnings,
}

abbrev removal_box : Element
removal_box = record { is_checkbox = true; name = "rm_free_INTERFACE_12"; checked = true }

abbrev server : Form
server = record {
  dont_submit = false;
  toggles = ("NETBLOCK_TOGGLE_1_2", "update") ∷ [];
  hidden = [];
  elements = removal_box ∷ [];
  interface_names = ("INTERFACE_NAME_12", "eth0") ∷ [];
  port_reset = some false;
  retire = none;
  box = no_box;
}

abbrev retired : Form
retired = record server { port_reset = some true; retire = some true }

groups : removal_of "x_rm_free_INTERFACE_12_y" ≡ some ("free", "12")
unfolding removal_of after_prefix span number_behind letters_behind
groups = refl

asked : (verify_device server).0.box ≡ confirm_box ("Remove and Free IPs for interface eth0?" ∷ [])
unfolding verify_device messages refusals removals removal_message removal_of after_prefix span
    number_behind letters_behind box_for lookup
asked = refl

submits_iff_example : ((verify_device server).1 ≡ true) ↔ (
    (false ≡ false)
    × (any asks_removal server.elements ≡ false)
    × (is_checked server.port_reset ≡ false)
    × (is_checked server.retire ≡ false))
submits_iff_example = submits_iff server

first_state : lookup "NETBLOCK_TOGGLE_1_2" (verify_device server).0.hidden ≡ some "update"
unfolding verify_device lookup
first_state = refl

abbrev moved_rack : RackForm
moved_rack = record {
  original = ("ROOM_5", "101") ∷ ("SUB_ROOM_5", "a") ∷ [];
  submitted = ("ROOM_5", "102") ∷ ("SUB_ROOM_5", "a") ∷ [];
  boxes = record { checked = true; rmrack = false; demonitor = false } ∷ [];
  box_visible = false;
  lines = [];
}

moved_refused : (verify_rack moved_rack).1 ≡ false
unfolding verify_rack nogo ask changes values_of names_point change_text warnings after_prefix
moved_refused = refl
