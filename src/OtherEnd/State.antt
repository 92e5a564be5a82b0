-- ===== src/OtherEnd/State.antt =====
-- The state of the page, the address of a search, and the pattern of an answer.
use Prim.Native.Char.{code}
use jazzhands.Prelude.{
  ℕ, ◌≡◌, refl, Bool, true, false, String, Option, none, some, List, ◌<>◌, if◌then◌else◌, ◌==◌,
}

-- The popup of a field. `options` are the values and texts of the list, `selected` is
-- `selectedIndex`, and `message` tells that the spinning wheel is shown.
pub record Popup : Type 0 where
  pub visible : Bool
  pub options : List (String × String)
  pub selected : Option ℕ
  pub select_disabled : Bool
  pub disconnect_disabled : Bool
  pub message : Bool

-- A field with the attributes `original`, `lastselected`, `lastsearch`, `lastrequestedsearch`, the
-- class `changed`, and the hidden field of the device's identifier.
pub record OtherEnd : Type 0 where
  pub value : String
  pub original : String
  pub last_selected : Option String
  pub last_search : String
  pub last_requested : Option String
  pub changed : Bool
  pub device_id : String
  pub popup : Option Popup

-- A search that was sent for a field.
pub record Request : Type 0 where
  pub field : ℕ
  pub pattern : String

-- `timer` is the field whose search is scheduled, `ports` are the fields for which
-- `showPhysical_ports` was called, the last first.
pub record Page : Type 0 where
  pub fields : List OtherEnd
  pub timer : Option ℕ
  pub requests : List Request
  pub focus : Option ℕ
  pub ports : List ℕ

-- The first text begins with the second.
unfoldable pub begins_with : String → String → Bool
begins_with s String.[] = true
begins_with String.[] (String.◌∷◌ d t) = false
begins_with (String.◌∷◌ c s) (String.◌∷◌ d t) = if code c == code d then begins_with s t else false

abbrev pub or_else : Option String → Option String → Option String
or_else (some s) o = some s
or_else none o = o

unfoldable pub drop_length : String → String → String
drop_length String.[] s = s
drop_length (String.◌∷◌ c p) String.[] = ""
drop_length (String.◌∷◌ c p) (String.◌∷◌ d s) = drop_length p s

-- What stands behind the last occurrence of `mark`, as the greedy `/^.*mark/` leaves it.
unfoldable pub after_last? : String → String → Option String
unfolding begins_with drop_length
after_last? mark String.[] = none
after_last? mark (String.◌∷◌ c s) =
    or_else (after_last? mark s)
      (if begins_with (String.◌∷◌ c s) mark then some (drop_length mark (String.◌∷◌ c s)) else none)

abbrev or_text : String → Option String → String
or_text s none = s
or_text s (some t) = t

-- `responseURL.replace(/^.*pattern=/,'')`
unfoldable pub pattern_of : String → String
pattern_of address = or_text address (after_last? "pattern=" address)

-- The address of a search.
unfoldable pub search_url : String → String
search_url pattern = "ajax-devsearch.pl?pattern=" <> pattern

-- The address begins with texts in which the mark does not begin.
search_url_found :
    (v : String) → after_last? "pattern=" v ≡ none → after_last? "pattern=" (search_url v) ≡ some v
unfolding search_url after_last?
search_url_found v h = rw (h, after_last?) refl

search_url_behind :
    (v : String)
    → after_last? "pattern=" v ≡ none
    → (b : String) → after_last? "pattern=" (b <> search_url v) ≡ some v
unfolding after_last?
search_url_behind v h String.[] = search_url_found v h
search_url_behind v h (String.◌∷◌ c s) = rw (search_url_behind v h s) refl

-- The browser gives the address of an answer in full; here `base` is what it puts before it. Where
-- the pattern needs no escape and does not hold `pattern=`, the pattern is found again.
pub pattern_of-search_url :
    (base v : String) → after_last? "pattern=" v ≡ none → pattern_of (base <> search_url v) ≡ v
unfolding pattern_of
pattern_of-search_url base v h = rw (search_url_behind v h base) refl
