-- ===== src/Collections/Params.antt =====
-- The parameters in the address, `hCGIParams`.
use Prim.Native.Char.{Char, code}
use jazzhands.Prelude.{
  ℕ, suc, Bool, true, false, ◌&&◌, leb, String, str_eq, Option, none, some, List, [], ◌∷◌, ◌==◌,
  if◌then◌else◌, split,
}

-- `replace(/^\?/, '')`
unfoldable pub without_mark : String → String
without_mark String.[] = ""
without_mark (String.◌∷◌ c s) = if code c == 63 then s else String.◌∷◌ c s

-- `kv[0]` and `kv[1]`, which is undefined where there is no `=`.
unfoldable pub key_value : List String → String × Option String
key_value [] = ("", none)
key_value (k ∷ []) = (k, none)
key_value (k ∷ v ∷ r) = (k, some v)

-- The assignment to a property of an object.
unfoldable pub assign :
    String → Option String → List (String × Option String) → List (String × Option String)
assign k v [] = (k, v) ∷ []
assign k v ((j, w) ∷ r) =
    let rest = assign k v r in if str_eq j k then (j, v) ∷ r else (j, w) ∷ rest

unfoldable pub assign_all :
    List String → List (String × Option String) → List (String × Option String)
unfolding key_value assign
assign_all [] params = params
assign_all (v ∷ vs) params =
    let kv = key_value (split "=" v) in assign_all vs (assign kv.0 kv.1 params)

unfoldable pub cgi_params : String → List (String × Option String)
unfolding without_mark assign_all
cgi_params search = assign_all (split ";" (without_mark search)) []

-- `k in hCGIParams`, with the value.
unfoldable pub find_param : String → List (String × Option String) → Option (Option String)
find_param k [] = none
find_param k ((j, w) ∷ r) = let rest = find_param k r in if str_eq j k then some w else rest

-- A value that is undefined is written as this word.
abbrev pub written : Option String → String
written none = "undefined"
written (some s) = s

-- `(k in hCGIParams) ? hCGIParams[k] : ''`
abbrev pub value_or_empty : String → List (String × Option String) → String
value_or_empty k params = elim (find_param k params) [ none ↦ "" | some v ↦ written v ]

abbrev pub is_digit : Char → Bool
is_digit c = leb 48 (code c) && leb (code c) 57

unfoldable pub all_digits : String → Bool
all_digits String.[] = true
all_digits (String.◌∷◌ c s) = is_digit c && all_digits s

unfoldable pub some_digits : String → Bool
unfolding all_digits
some_digits String.[] = false
some_digits (String.◌∷◌ c s) = is_digit c && all_digits s

-- `match( /^prefix\d+$/ )`
unfoldable pub is_numbered : String → String → Bool
unfolding some_digits
is_numbered String.[] s = some_digits s
is_numbered (String.◌∷◌ p ps) String.[] = false
is_numbered (String.◌∷◌ p ps) (String.◌∷◌ c s) = code p == code c && is_numbered ps s

-- The number of keys with this prefix and a number.
unfoldable pub count_numbered : String → List (String × Option String) → ℕ
unfolding is_numbered
count_numbered prefix [] = 0
count_numbered prefix ((k, v) ∷ r) =
    if is_numbered prefix k then suc (count_numbered prefix r) else count_numbered prefix r
