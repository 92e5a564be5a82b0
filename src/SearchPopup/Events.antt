-- ===== src/SearchPopup/Events.antt =====
-- The handlers, as functions on the page.
use jazzhands.Prelude.{
  ℕ, suc, Bool, true, false, not, ◌&&◌, ◌||◌, str_eq, Option, none, some, List, ◌∷◌, if◌then◌else◌,
  ◌==◌, leb, get_elem?,
}
use jazzhands.SearchPopup.State.{Choice, Popup, Field, Page, set_field, change_popup}
use jazzhands.SearchPopup.Close.{close_and_fill_in}

-- The keys that `keyprocess_Search` leaves out: num lock, scroll lock, pause, caps lock, shift,
-- ctrl and alt, and page up to insert with the arrows.
abbrev is_silent : ℕ → Bool
is_silent k =
    k == 144 || k == 145 || k == 19 || k == 20 || leb 16 k && leb k 18 || leb 33 k && leb k 45

-- The key is not tab, and it is the down arrow, or it is not left out and is escape, 0, or one
-- with a character.
unfoldable pub is_processed : ℕ → ℕ → Bool
is_processed key char =
    not (key == 9)
    && (key == 40 || not (is_silent key) && (key == 27 || key == 0 || not (char == 0)))

-- The value is kept when the user begins to type.
unfoldable pub keep_value : Field → Field
keep_value f = if f.pending then f else record f { oldval = some f.value; pending = true }

abbrev new_popup : ℕ → Popup
new_popup n = record {
  serial = n;
  visible = false;
  leave_up = false;
  user_abort = false;
  choices = none;
}

-- `create_search_popup`: the assignment in `if(txtsource.orig_value = null)` clears the property.
abbrev pub with_new_popup : ℕ → Field → Field
with_new_popup n f = record f { orig_value = none; popup = some (new_popup n) }

unfoldable pub create_popup : ℕ → Page → Page
create_popup i p =
    let q = set_field i (with_new_popup p.serials) p in record q { serials = suc p.serials }

abbrev pub set_visible : Bool → Popup → Popup
set_visible b q = record q { visible = b }

-- The popup with this serial number is taken away.
abbrev pub without_popup : ℕ → Option Popup → Option Popup
without_popup n none = none
without_popup n (some q) = if q.serial == n then none else some q

abbrev pub drop_popup : ℕ → Field → Field
drop_popup n f = record f { popup = without_popup n f.popup }

-- `changePopup_Search` for the popup `n` of the field at `i`, which may have left the document; the
-- error that is thrown then where the text is empty changes nothing.
unfoldable pub start_search : ℕ → ℕ → Option Field → Page → Page
start_search i n none p = p
start_search i n (some f) p =
    if str_eq f.value ""
    then set_field i (drop_popup n) p
    else record (set_field i (change_popup n (set_visible true)) p) {
      searches = record { text = f.value; ready_state = 1; sender = (i, n) } ∷ p.searches;
      target = some (i, n);
    }

unfoldable pub change_popup_search : ℕ → ℕ → Page → Page
unfolding start_search
change_popup_search i n p = start_search i n (get_elem? p.fields i) (record p { timer = none })

-- `closeAndFillIn_Search` on the popup of the field at `i`.
unfoldable pub close_popup : ℕ → Popup → Option (List Choice) → Page → Page
unfolding close_and_fill_in
close_popup i q dropdown p = record (set_field i (close_and_fill_in q dropdown) p) {
  focus = some i;
}

abbrev pub set_leave_up : Bool → Popup → Popup
set_leave_up b q = record q { leave_up = b }

-- `keyprocess_Search` from the lookup of the popup on. For escape, `processSearchBox_Breakdown`
-- closes it with no list, since `if(dropdownsel = null)` never holds.
unfoldable pub key_on_popup : ℕ → ℕ → Option Popup → Page → Page
unfolding create_popup close_popup
key_on_popup i key none p =
    if key == 27 then p else record (create_popup i p) { timer = some (i, p.serials) }
key_on_popup i key (some q) p =
    if key == 40
    then set_field i (change_popup q.serial (set_leave_up true)) p
    else if key == 27
    then close_popup i (record q { leave_up = false }) none p
    else record p { timer = some (i, q.serial) }

unfoldable pub key_in_field : ℕ → ℕ → ℕ → Option Field → Page → Page
unfolding is_processed keep_value key_on_popup
key_in_field i key char none p = p
key_in_field i key char (some f) p =
    let kept = set_field i keep_value (record p { timer = none }) in
    if is_processed key char then key_on_popup i key f.popup kept else kept

-- `keyprocess_Search` for a key with its code and its character.
unfoldable pub key_process : ℕ → ℕ → ℕ → Page → Page
unfolding key_in_field
key_process i key char p = key_in_field i key char (get_elem? p.fields i) p

-- `inputEvent_Search`, which does nothing while the timer runs.
unfoldable pub input_popup : ℕ → Option Popup → Page → Page
unfolding create_popup change_popup_search
input_popup i none p = change_popup_search i p.serials (create_popup i p)
input_popup i (some q) p = change_popup_search i q.serial p

unfoldable pub input_field : ℕ → Option Field → Page → Page
unfolding input_popup
input_field i none p = p
input_field i (some f) p = input_popup i f.popup p

unfoldable pub input_timer : ℕ → Option (ℕ × ℕ) → Page → Page
unfolding input_field
input_timer i (some t) p = p
input_timer i none p = input_field i (get_elem? p.fields i) p

unfoldable pub input_event : ℕ → Page → Page
unfolding input_timer
input_event i p = input_timer i p.timer p

-- The timer runs out.
unfoldable pub fire_timer : Option (ℕ × ℕ) → Page → Page
unfolding change_popup_search
fire_timer none p = p
fire_timer (some (i, n)) p = change_popup_search i n p

-- `hidePopup_Search`, when the field loses the focus.
unfoldable pub leave_popup : ℕ → Option Popup → Page → Page
unfolding close_popup
leave_popup i none p = p
leave_popup i (some q) p =
    if q.leave_up
    then set_field i (change_popup q.serial (set_leave_up false)) p
    else if q.visible
    then close_popup i q q.choices p
    else p

unfoldable pub leave_field : ℕ → Option Field → Page → Page
unfolding leave_popup
leave_field i none p = p
leave_field i (some f) p = leave_popup i f.popup p

-- `ddselect.parentNode.txtid.orig_value` is put back where it is set and not empty.
abbrev pub restore_original : Field → Field
restore_original f = elim f.orig_value [
  | none ↦ f
  | some s ↦ if str_eq s "" then f else record f { value = s }
]

-- `checkSelectKeypress_Search`, for a key in the list of a popup.
unfoldable pub key_on_list : ℕ → ℕ → Option Popup → Bool → Page → Page
unfolding close_popup
key_on_list i key none stops p = p
key_on_list i key (some q) stops p =
    if key == 13
    then close_popup i q q.choices (if stops then record p { dont_submit = true } else p)
    else if key == 27
    then close_popup i (record q { user_abort = true }) q.choices (set_field i restore_original p)
    else p

unfoldable pub key_in_list : ℕ → ℕ → Option Field → Page → Page
unfolding key_on_list
key_in_list i key none p = p
key_in_list i key (some f) p = key_on_list i key f.popup f.stops_submit p
