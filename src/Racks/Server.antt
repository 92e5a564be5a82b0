-- ===== src/Racks/Server.antt =====
-- What the server answers to a request for the racks of a site: device-ajax.pl, where `param` is
-- `cgi_parse_param` of STAB.pm with the library that takes an address apart, and `racks` is what
-- the database has.
use Prim.Native.Char.{code}
use jazzhands.Prelude.{
  ℕ, Bool, true, false, ◌&&◌, ◌||◌, ◌==◌, leb, String, Option, none, some, List, [], ◌∷◌, map, all,
  if◌then◌else◌, ◌<>◌, ◌≡◌, str_eq, join,
}
use jazzhands.Racks.Sites.{RackList}

-- `|| undef`, which takes the text `0` for false, too.
unfoldable pub or_undef : Option String → Option String
or_undef none = none
or_undef (some s) = if str_eq s "" || str_eq s "0" then none else some s

-- `$type && $type eq 'dev'`
unfoldable pub is_dev : Option String → Bool
is_dev none = false
is_dev (some s) = str_eq s "dev"

-- `|| ''`
abbrev pub or_empty : Option String → String
or_empty none = ""
or_empty (some s) = s

-- The list for `SiteRacks`: for the type `dev` it has the original value of the address.
unfoldable pub site_racks :
    (String → String → Option String)
    → (Bool → Option String → Option String → String)
    → String
    → RackList
unfolding or_undef is_dev
site_racks param racks a =
    let dev = is_dev (or_undef (param "type" a)) in
    record {
      content = racks dev (or_undef (param "SITE_CODE" a)) (or_undef (param "RACK_LOCATION_ID" a));
      original = if dev then some (or_empty (or_undef (param "ORIGINAL" a))) else none;
    }

-- A letter, a digit, `_`, `-` or `.`, which an address has as it is.
abbrev pub is_plain_code : ℕ → Bool
is_plain_code n =
    leb 48 n && leb n 57
    || leb 65 n && leb n 90
    || leb 97 n && leb n 122
    || n == 95
    || n == 45
    || n == 46

unfoldable pub is_plain : String → Bool
is_plain String.[] = true
is_plain (String.◌∷◌ c s) = let rest = is_plain s in is_plain_code (code c) && rest

abbrev pub is_plain_field : String × String → Bool
is_plain_field f = is_plain f.0 && is_plain f.1

abbrev pub field_text : String × String → String
field_text f = f.0 <> "=" <> f.1

-- The value of the first field of a name.
unfoldable pub field : String → List (String × String) → Option String
field n [] = none
field n (f ∷ fs) = let rest = field n fs in if str_eq f.0 n then some f.1 else rest

-- The values that `cgi_parse_param` takes for a missing one.
unfoldable pub known : Option String → Option String
known none = none
known (some s) = if str_eq s "" || str_eq s "__unknown__" then none else some s

-- The fields of an address are read.
unfoldable pub ReadsFields : (String → String → Option String) → Type 0
ReadsFields param =
    (base n : String) (f : String × String) (fs : List (String × String))
    → is_plain base ≡ true
    → all is_plain_field (f ∷ fs) ≡ true
    → param n (base <> "?" <> join ";" (map field_text (f ∷ fs))) ≡ known (field n (f ∷ fs))
