-- ===== src/OtherEnd/Actions.antt =====
-- The handlers, as functions on the page.
use jazzhands.Prelude.{
  ℕ, zero, suc, map, Bool, true, false, not, String, str_eq, Option, none, some, List, [], ◌∷◌,
  ◌++◌, if◌then◌else◌, get_elem?, modify,
}
use jazzhands.OtherEnd.State.{Popup, OtherEnd, Request, Page, pattern_of, search_url}

-- The text that the field goes back to: the last one that was selected, or the original.
abbrev pub fallback : OtherEnd → String
fallback f = elim f.last_selected [ some s ↦ s | none ↦ f.original ]

-- `updateChangeTrackingStatus` on a text field with the attribute `original`.
abbrev pub track : OtherEnd → OtherEnd
track f = record f { changed = not (str_eq f.original f.value) }

abbrev pub with_popup : (Popup → Popup) → OtherEnd → OtherEnd
with_popup g f = record f { popup = elim f.popup [ some p ↦ some (g p) | none ↦ none ] }

abbrev hidden : Popup → Popup
hidden p = record p { visible = false }

-- One round of the loop that hides the popups of the other fields.
unfoldable pub hide_other : OtherEnd → OtherEnd
hide_other f = elim f.popup [
  | some p ↦ track (record f { value = fallback f; popup = some (hidden p) })
  | none ↦ f
]

-- The loop, which leaves out the popup of the field at `i`.
unfoldable pub hide_others : ℕ → List OtherEnd → List OtherEnd
unfolding hide_other
hide_others i [] = []
hide_others zero (f ∷ fs) = f ∷ map hide_other fs
hide_others (suc i) (f ∷ fs) = hide_other f ∷ hide_others i fs

abbrev new_popup : String → Popup
new_popup value = record {
  visible = true;
  options = [];
  selected = none;
  select_disabled = true;
  disconnect_disabled = str_eq value "";
  message = false;
}

-- The popup of the field is shown, and made where there is none.
unfoldable pub open_popup : OtherEnd → OtherEnd
open_popup f = elim f.popup [
  | some p ↦ record f { popup = some (record p { visible = true }) }
  | none ↦ record f { popup = some (new_popup f.value); last_search = f.value }
]

abbrev has_popup : OtherEnd → Bool
has_popup f = elim f.popup [ some p ↦ true | none ↦ false ]

-- `delayedGetMatchingDevices`: the timer of an earlier call is cleared.
abbrev pub schedule : ℕ → Page → Page
schedule i p = record p { timer = some i }

-- `showOtherEndDeviceSearchPopup`, which schedules a search where it makes the popup.
unfoldable pub show_popup : ℕ → Page → Page
unfolding hide_others open_popup
show_popup i p = elim (get_elem? p.fields i) [
  | none ↦ p
  | some f ↦
      let shown = record p { fields = modify open_popup i (hide_others i p.fields) } in
      if has_popup f then shown else schedule i shown
]

-- The field after `hidePopup`.
unfoldable pub closed : OtherEnd → OtherEnd
closed f = track (
    with_popup (λ p. record p { visible = false; message = false })
      (record f { value = fallback f }))

-- `hidePopup`, which is called from the handlers of a popup.
unfoldable pub hide_popup : ℕ → Page → Page
unfolding closed
hide_popup i p = elim (get_elem? p.fields i) [
  | none ↦ p
  | some f ↦
      if has_popup f
      then record p { fields = modify closed i p.fields; timer = some i; focus = some i }
      else p
]

-- What the user types into the field, whose handler schedules a search.
unfoldable pub type_text : ℕ → String → Page → Page
type_text i s p =
    schedule i (record p { fields = modify (λ f. track (record f { value = s })) i p.fields })

-- `getMatchingDevices` for a new pattern that is not empty.
unfoldable pub requested_field : OtherEnd → OtherEnd
requested_field f =
    with_popup (λ p. record p { message = true }) (record f { last_requested = some f.value })

-- `getMatchingDevices` for the empty pattern.
unfoldable pub emptied_field : OtherEnd → OtherEnd
emptied_field f =
    with_popup (λ p. record p { options = []; selected = none; message = false })
      (record f { last_search = "" })

-- The pattern is the last one that was requested.
abbrev pub repeats : OtherEnd → Bool
repeats f = elim f.last_requested [ some s ↦ str_eq s f.value | none ↦ false ]

unfoldable pub get_matching_devices : ℕ → Page → Page
unfolding requested_field emptied_field
get_matching_devices i p = elim (get_elem? p.fields i) [
  | none ↦ p
  | some f ↦
      if repeats f
      then p
      else if str_eq f.value ""
      then record p { fields = modify emptied_field i p.fields }
      else record p {
        fields = modify requested_field i p.fields;
        requests = p.requests ++ record { field = i; pattern = f.value } ∷ [];
      }
]

-- The timer runs out.
unfoldable pub fire_for : Option ℕ → Page → Page
fire_for none p = p
fire_for (some i) p = get_matching_devices i (record p { timer = none })

unfoldable pub fire : Page → Page
unfolding get_matching_devices fire_for
fire p = fire_for p.timer p

-- The field after an answer with the devices of the pattern `s`.
unfoldable pub filled : String → List (String × String) → OtherEnd → OtherEnd
filled s devices f =
    with_popup
      (λ p. record p {
        options = devices;
        selected = none;
        select_disabled = true;
        message = false;
      })
      (record f { last_search = s })

abbrev pub is_awaited : String → OtherEnd → Bool
is_awaited s f = elim f.last_requested [ some r ↦ str_eq s r | none ↦ false ]

abbrev pub remove_at {ℓ} : {A : Type ℓ} → ℕ → List A → List A
remove_at n [] = []
remove_at zero (x ∷ xs) = xs
remove_at (suc n) (x ∷ xs) = x ∷ remove_at n xs

-- The user picks a line of the list, which enables the button Select.
unfoldable pub picked : ℕ → OtherEnd → OtherEnd
picked n f = with_popup (λ q. record q { selected = some n; select_disabled = false }) f

unfoldable pub pick : ℕ → ℕ → Page → Page
unfolding picked
pick i n p = record p { fields = modify (picked n) i p.fields }

-- `updateOtherEnd( button, true )` on a field that is not empty.
unfoldable pub disconnected : OtherEnd → OtherEnd
disconnected f = track (
    with_popup (λ p. record p { visible = false; disconnect_disabled = true })
      (record f { device_id = ""; value = ""; last_selected = some ""; last_search = "" }))

-- `updateOtherEnd( button )` for an option with its value and text.
unfoldable pub connected : String → String → OtherEnd → OtherEnd
connected id text f = track (
    with_popup (λ p. record p { visible = false; disconnect_disabled = false })
      (record f { device_id = id; value = text; last_selected = some text }))

-- `elementSelect.options[elementSelect.selectedIndex]`
unfoldable pub selected_option : OtherEnd → Option (String × String)
selected_option f = elim f.popup [
  | none ↦ none
  | some p ↦ elim p.selected [ none ↦ none | some n ↦ get_elem? p.options n ]
]

abbrev pub finish : ℕ → Page → Page
finish i p = record p { ports = i ∷ p.ports; focus = some i }

-- `updateOtherEnd( button )`, which does nothing where no option is selected.
unfoldable pub select_option : ℕ → Option (String × String) → Page → Page
select_option i none p = p
select_option i (some (id, text)) p =
    finish i (record p { fields = modify (connected id text) i p.fields })

unfoldable pub update_other_end : ℕ → Bool → Page → Page
unfolding disconnected connected selected_option select_option
update_other_end i disconnect p = elim (get_elem? p.fields i) [
  | none ↦ p
  | some f ↦
      if disconnect
      then (if str_eq f.value ""
          then p
          else finish i (record p { fields = modify disconnected i p.fields }))
      else select_option i (selected_option f) p
]

-- `address` is what the browser makes of the address of a request in `responseURL`, and `devices`
-- is what the server answers to a pattern.
module _ (address : String → String) (devices : String → List (String × String)) where
  -- `updateOtherEndDeviceSearchPopup` when the answer to a request is there.
  unfoldable pub fill_popup : Request → Page → Page
  unfolding filled
  fill_popup r p =
      let s = pattern_of (address (search_url r.pattern)) in
      elim (get_elem? p.fields r.field) [
        | none ↦ p
        | some f ↦
            if is_awaited s f
            then record p { fields = modify (filled s (devices r.pattern)) r.field p.fields }
            else p
      ]

  -- The answer to the request at the position `k` of those under way comes in.
  unfoldable pub answer_to : Option Request → ℕ → Page → Page
  answer_to none k p = p
  answer_to (some r) k p = fill_popup r (record p { requests = remove_at k p.requests })

  unfoldable pub answer : ℕ → Page → Page
  unfolding fill_popup answer_to
  answer k p = answer_to (get_elem? p.requests k) k p

  pub data Event : Type 0 where
    show_event hide_event disconnect_event select_event : ℕ → Event
    type_event : ℕ → String → Event
    pick_event : ℕ → ℕ → Event
    fire_event : Event
    answer_event : ℕ → Event

  unfoldable pub handle : Event → Page → Page
  handle (show_event i) p = show_popup i p
  handle (hide_event i) p = hide_popup i p
  handle (disconnect_event i) p = update_other_end i true p
  handle (select_event i) p = update_other_end i false p
  handle (type_event i s) p = type_text i s p
  handle (pick_event i n) p = pick i n p
  handle fire_event p = fire p
  handle (answer_event k) p = answer k p

  unfoldable pub run : List Event → Page → Page
  unfolding handle
  run [] p = p
  run (e ∷ es) p = run es (handle e p)
