-- ===== src/Paging/Address.antt =====
-- The address that `changePage` goes to.
use Prim.Native.Char.{Char, code}
use jazzhands.Prelude.{
  Bool, true, false, ◌&&◌, leb, String, Option, none, some, ◌==◌, ◌<>◌, if◌then◌else◌,
}

abbrev is_digit : Char → Bool
is_digit c = leb 48 (code c) && leb (code c) 57

unfoldable pub all_digits : String → Bool
all_digits String.[] = true
all_digits (String.◌∷◌ c s) = is_digit c && all_digits s

unfoldable pub drop_digits : String → String
drop_digits String.[] = ""
drop_digits (String.◌∷◌ c s) =
    let rest = drop_digits s in if is_digit c then rest else String.◌∷◌ c s

-- `\d+` at the beginning, with what is behind it.
unfoldable pub behind_digits : String → Option String
unfolding drop_digits
behind_digits String.[] = none
behind_digits (String.◌∷◌ c s) = if is_digit c then some (drop_digits s) else none

-- The name and the digits at the beginning, with what is behind them.
unfoldable pub behind_param : String → String → Option String
unfolding behind_digits
behind_param String.[] s = behind_digits s
behind_param (String.◌∷◌ n ns) String.[] = none
behind_param (String.◌∷◌ n ns) (String.◌∷◌ c s) =
    if code n == code c then behind_param ns s else none

abbrev pub found_or : Option String → String → String
found_or none s = s
found_or (some r) s = r

-- `link.replace( new RegExp( name + '\\d+' ), '' )`
unfoldable pub remove_param : String → String → String
unfolding behind_param
remove_param name String.[] = ""
remove_param name (String.◌∷◌ c s) =
    let rest = remove_param name s in
    found_or (behind_param name (String.◌∷◌ c s)) (String.◌∷◌ c rest)

-- The text, where it is made of one digit or more.
unfoldable pub as_number : String → Option String
unfolding all_digits
as_number String.[] = none
as_number (String.◌∷◌ c s) = if is_digit c && all_digits s then some (String.◌∷◌ c s) else none

unfoldable pub number_behind : String → String → Option String
unfolding as_number
number_behind String.[] s = as_number s
number_behind (String.◌∷◌ n ns) String.[] = none
number_behind (String.◌∷◌ n ns) (String.◌∷◌ c s) =
    if code n == code c then number_behind ns s else none

abbrev pub first_of : Option String → Option String → Option String
first_of none o = o
first_of (some u) o = some u

-- `pagingDivId.match(/paging-dns-(\d+)$/)`
unfoldable pub universe_of : String → Option String
unfolding number_behind
universe_of String.[] = none
universe_of (String.◌∷◌ c s) =
    let rest = universe_of s in first_of (number_behind "paging-dns-" (String.◌∷◌ c s)) rest

abbrev pub page_param : String → String
page_param id = String.◌∷◌ ";" (id <> "-page=")

abbrev pub limit_param : String → String
limit_param id = String.◌∷◌ ";" (id <> "-limit=")

-- The address without the parameters of the page.
unfoldable pub stripped : String → String → String
unfolding remove_param
stripped id link =
    remove_param ";dnssearch=" (remove_param (limit_param id) (remove_param (page_param id) link))

abbrev pub with_universe : Option String → String → String
with_universe none link = link
with_universe (some u) link = remove_param ";ip_universe_id=" link <> (";ip_universe_id=" <> u)

-- What stays before the page and the limit.
unfoldable pub kept : String → String → String
unfolding stripped universe_of
kept id link = with_universe (universe_of id) (stripped id link)

-- The address for a page.
unfoldable pub page_address : String → String → String → String → String
unfolding kept
page_address id page limit link =
    kept id link <> (page_param id <> (page <> (limit_param id <> limit)))

abbrev pub unless_found : Option String → Bool → Bool
unless_found none b = b
unless_found (some r) b = false

-- The parameter does not stand in the address.
unfoldable pub is_absent : String → String → Bool
is_absent name String.[] = true
is_absent name (String.◌∷◌ c s) =
    unless_found (behind_param name (String.◌∷◌ c s)) (is_absent name s)
