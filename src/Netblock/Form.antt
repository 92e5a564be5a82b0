-- ===== src/Netblock/Form.antt =====
-- The values of the form, and what is posted.
use Prim.Native.Char.{Char, code}
use jazzhands.Prelude.{
  Bool, true, not, ◌&&◌, ◌||◌, String, str_eq, Option, none, some, if◌then◌else◌, ◌==◌, leb,
}

-- The characters that `trim` takes away.
abbrev is_space : Char → Bool
is_space c =
    leb 9 (code c) && leb (code c) 13
    || code c == 32
    || code c == 160
    || code c == 5760
    || leb 8192 (code c) && leb (code c) 8202
    || code c == 8232
    || code c == 8233
    || code c == 8239
    || code c == 8287
    || code c == 12288
    || code c == 65279

unfoldable pub trim_start : String → String
trim_start String.[] = ""
trim_start (String.◌∷◌ c s) = let rest = trim_start s in if is_space c then rest else String.◌∷◌ c s

unfoldable pub trim_end : String → String
trim_end String.[] = ""
trim_end (String.◌∷◌ c s) =
    let rest = trim_end s in if is_space c && str_eq rest "" then "" else String.◌∷◌ c rest

-- `s.trim()`
unfoldable pub trim : String → String
unfolding trim_start trim_end
trim s = trim_end (trim_start s)

abbrev is_digit : Char → Bool
is_digit c = leb 48 (code c) && leb (code c) 57

abbrev pub all_digits : String → Bool
all_digits String.[] = true
all_digits (String.◌∷◌ c s) = is_digit c && all_digits s

abbrev first_of : Option String → Option String → Option String
first_of none o = o
first_of (some a) o = some a

-- `ip.match( /\/(\d+)$/ )`, with its group.
unfoldable pub embedded_bits : String → Option String
embedded_bits String.[] = none
embedded_bits (String.◌∷◌ c s) =
    first_of (if code c == 47 && not (str_eq s "") && all_digits s then some s else none)
      (embedded_bits s)

pub record Form : Type 0 where
  pub ip : String
  pub bits : String
  pub description : String

-- What becomes of the form: a text in the element for errors, or the fields that are posted to
-- write/doadd.pl.
pub data Result : Type 0 where
  fails : String → Result
  posts : Form → Result

-- The part behind the search for bits in the address.
unfoldable pub post_bits : Form → Result
post_bits f =
    if str_eq f.bits ""
    then fails "Bits value is required (either in IP field as /N or in Bits field)"
    else posts f

unfoldable pub with_embedded : Form → Option String → Result
unfolding post_bits
with_embedded f none = post_bits f
with_embedded f (some e) =
    if not (str_eq f.bits "") && not (str_eq f.bits e)
    then fails "Bits do not match"
    else post_bits (if str_eq f.bits "" then record f { bits = e } else f)

-- The values without the spaces around them.
unfoldable pub trimmed : Form → Form
unfolding trim
trimmed f = record { ip = trim f.ip; bits = trim f.bits; description = trim f.description }

unfoldable pub submit_trimmed : Form → Result
unfolding with_embedded embedded_bits
submit_trimmed f =
    if str_eq f.ip "" then fails "IP address is required" else with_embedded f (embedded_bits f.ip)

-- `submitAddNetblock`
unfoldable pub submit_add_netblock : Form → Result
unfolding trimmed submit_trimmed
submit_add_netblock f = submit_trimmed (trimmed f)
