-- ===== src/SearchPopup/State.antt =====
-- The fields with their popups, and the global variables.
use jazzhands.Prelude.{ℕ, Bool, String, Option, none, some, List, ◌==◌, if◌then◌else◌, modify}

-- An option of the list in a popup.
pub record Choice : Type 0 where
  pub text : String
  pub value : String
  pub selected : Bool

-- A popup in the document. `serial` tells it from an earlier popup of the same field, to which a
-- timer or the variable `searchpopup` may still refer. `choices` is the list, once an answer
-- has put it there.
pub record Popup : Type 0 where
  pub serial : ℕ
  pub visible : Bool
  pub leave_up : Bool
  pub user_abort : Bool
  pub choices : Option (List Choice)

-- A text field, with its properties `oldval`, `pending` and `orig_value`, and the hidden field
-- `idsave`. `has_completion` and `stops_submit` tell that its handlers are given `ondone` and
-- `noSubmitForm`; `completions` counts the calls of `ondone`.
pub record Field : Type 0 where
  pub value : String
  pub id : String
  pub oldval : Option String
  pub pending : Bool
  pub orig_value : Option String
  pub has_completion : Bool
  pub stops_submit : Bool
  pub completions : ℕ
  pub popup : Option Popup

-- A search with the popup that it was sent for: the position of its field and its serial number.
pub record Search : Type 0 where
  pub text : String
  pub ready_state : ℕ
  pub sender : ℕ × ℕ

-- The searches stand the last first: the variable `searchrequest` is the first of them. `target`
-- is the variable `searchpopup`, `timer` the popup for which the timer runs.
pub record Page : Type 0 where
  pub fields : List Field
  pub searches : List Search
  pub target : Option (ℕ × ℕ)
  pub timer : Option (ℕ × ℕ)
  pub serials : ℕ
  pub focus : Option ℕ
  pub dont_submit : Bool

abbrev pub set_field : ℕ → (Field → Field) → Page → Page
set_field i g p = record p { fields = modify g i p.fields }

-- The popup in the document with this serial number.
abbrev pub on_popup : ℕ → (Popup → Popup) → Option Popup → Option Popup
on_popup n g none = none
on_popup n g (some q) = if q.serial == n then some (g q) else some q

abbrev pub change_popup : ℕ → (Popup → Popup) → Field → Field
change_popup n g f = record f { popup = on_popup n g f.popup }
