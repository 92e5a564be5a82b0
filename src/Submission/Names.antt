-- ===== src/Submission/Names.antt =====
-- The names of fields that the checks look for.
use Prim.Native.Char.{Char, code}
use jazzhands.Prelude.{
  Bool, ◌&&◌, ◌||◌, String, str_eq, Option, none, some, if◌then◌else◌, ◌==◌, leb,
}

-- The rest of the text behind a prefix.
unfoldable pub after_prefix : String → String → Option String
after_prefix String.[] s = some s
after_prefix (String.◌∷◌ m ms) String.[] = none
after_prefix (String.◌∷◌ m ms) (String.◌∷◌ c s) =
    if code m == code c then after_prefix ms s else none

abbrev pub is_digit : Char → Bool
is_digit c = leb 48 (code c) && leb (code c) 57

abbrev pub is_letter : Char → Bool
is_letter c = leb 65 (code c) && leb (code c) 90 || leb 97 (code c) && leb (code c) 122

-- The longest start of a text with characters of one kind, and the rest.
unfoldable pub span : (Char → Bool) → String → String × String
span p String.[] = ("", "")
span p (String.◌∷◌ c s) =
    let rest = span p s in if p c then (String.◌∷◌ c rest.0, rest.1) else ("", String.◌∷◌ c s)

abbrev then_digits : String → String × String → Option (String × String)
then_digits kind (digits, rest) = if str_eq digits "" then none else some (kind, digits)

unfoldable pub number_behind : String → Option String → Option (String × String)
unfolding span
number_behind kind none = none
number_behind kind (some s) = then_digits kind (span is_digit s)

abbrev then_interface : String × String → Option (String × String)
then_interface (letters, rest) =
    if str_eq letters "" then none else number_behind letters (after_prefix "_INTERFACE_" rest)

unfoldable pub letters_behind : Option String → Option (String × String)
unfolding after_prefix span number_behind
letters_behind none = none
letters_behind (some s) = then_interface (span is_letter s)

abbrev first_of {ℓ} : {A : Type ℓ} → Option A → Option A → Option A
first_of none o = o
first_of (some a) o = some a

-- `name.match( "rm_([a-zA-Z]+)_INTERFACE_(\d+)" )`, with the two groups.
unfoldable pub removal_of : String → Option (String × String)
unfolding after_prefix letters_behind
removal_of String.[] = none
removal_of (String.◌∷◌ c s) =
    let later = removal_of s in
    first_of (letters_behind (after_prefix "rm_" (String.◌∷◌ c s))) later
