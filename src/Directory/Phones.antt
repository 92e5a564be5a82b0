-- ===== src/Directory/Phones.antt =====
-- The fields of the form for a telephone in `manip_phone`, their hints, and what the script
-- management/directory/ajax/manip_number.pl reads from them.
use jazzhands.Prelude.{
  Bool, true, false, ◌||◌, String, Option, none, some, List, [], ◌∷◌, if◌then◌else◌, str_eq,
}

-- An input of the class `hinted`; `has_hint` is the class `inputhint`, and `preserved` the
-- property `preservedHint`.
pub record Hinted : Type 0 where
  pub value : String
  pub has_hint : Bool
  pub preserved : Option String

abbrev pub with_value : String → Hinted
with_value s = record { value = s; has_hint = false; preserved = none }

abbrev pub with_hint : String → Hinted
with_hint s = record { value = s; has_hint = true; preserved = none }

-- The input for the number. Once its value was set to the empty text, the attribute that is set
-- after it does not change what it holds.
unfoldable pub phone_input : Option String → Hinted
phone_input none = with_hint "phone"
phone_input (some s) = if str_eq s "" then with_hint "" else with_value s

-- The inputs for the extension and the pin, with their hints.
unfoldable pub optional_input : String → Option String → Hinted
optional_input hint none = with_hint hint
optional_input hint (some s) = if str_eq s "" then with_hint hint else with_value s

pub record Contact : Type 0 where
  pub phone_number : String
  pub phone_extension : Option String
  pub phone_pin : Option String

pub record PhoneForm : Type 0 where
  pub phone : Hinted
  pub extension : Hinted
  pub pin : Hinted

-- The part of `manip_phone` that makes the inputs, for a new telephone or for a contact.
unfoldable pub manip_phone : Option Contact → PhoneForm
unfolding phone_input optional_input
manip_phone none = record {
  phone = phone_input none;
  extension = optional_input "ext" none;
  pin = optional_input "pin" none;
}
manip_phone (some c) = record {
  phone = phone_input (some c.phone_number);
  extension = optional_input "ext" c.phone_extension;
  pin = optional_input "pin" c.phone_pin;
}

-- The handler of `focus`.
unfoldable pub focused : Hinted → Hinted
focused f =
    if f.has_hint then (record { value = ""; has_hint = false; preserved = some f.value }) else f

unfoldable pub restore_hint : Option String → Hinted → Hinted
restore_hint none f = f
restore_hint (some s) f = if str_eq s "" then f else record f { has_hint = true; value = s }

-- The handler of `blur`.
unfoldable pub blurred : Hinted → Hinted
unfolding restore_hint
blurred f = if str_eq f.value "" then restore_hint f.preserved f else f

unfoldable pub typed : Option String → Hinted → Hinted
typed none f = f
typed (some s) f = record f { value = s }

-- The user goes to an input, types a text there, or nothing, and leaves it.
unfoldable pub visit : Option String → Hinted → Hinted
unfolding focused typed blurred
visit o f = blurred (typed o (focused f))

pub data Visit : Type 0 where
  to_phone : Option String → Visit
  to_extension : Option String → Visit
  to_pin : Option String → Visit

unfoldable pub visit_form : List Visit → PhoneForm → PhoneForm
unfolding visit
visit_form [] f = f
visit_form (to_phone o ∷ vs) f = visit_form vs (record f { phone = visit o f.phone })
visit_form (to_extension o ∷ vs) f = visit_form vs (record f { extension = visit o f.extension })
visit_form (to_pin o ∷ vs) f = visit_form vs (record f { pin = visit o f.pin })

-- What the script takes a parameter for: the empty text and the hint stand for no value.
unfoldable pub read_param : String → String → Option String
read_param hint s = if str_eq s "" || str_eq s hint then none else some s

-- The three parameters that the script reads when the form is sent.
unfoldable pub read_form : PhoneForm → Option String × Option String × Option String
unfolding read_param
read_form f = (
  read_param "phone" f.phone.value,
  read_param "ext" f.extension.value,
  read_param "pin" f.pin.value,
)
