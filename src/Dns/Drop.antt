-- ===== src/Dns/Drop.antt =====
-- The parameters of the page's address, and the select lists with their defaults.
use jazzhands.Prelude.{
  Bool, true, false, String, str_eq, Option, none, some, List, [], ◌∷◌, ◌++◌, if◌then◌else◌, ◌<>◌,
  split,
}

-- The value of a parameter, where a later one of a name replaces an earlier one.
unfoldable pub param : String → List (String × String) → Option String
param n [] = none
param n (p ∷ ps) = elim (param n ps) [
  | some v ↦ some v
  | none ↦ if str_eq p.0 n then some p.1 else none
]

-- An option of a select list.
pub record Choice : Type 0 where
  pub text : String
  pub value : String
  pub selected : Bool
  pub disabled : Bool

-- A select list that is built: its name, which is its `id` too, and its options.
pub record Drop : Type 0 where
  pub name : String
  pub choices : List Choice

-- A piece of `vars` that is a name and a value adds a parameter.
unfoldable pub add_pair :
    (String → String) → List String → List (String × String) → List (String × String)
add_pair decode (n ∷ v ∷ []) ps = (n, decode v) ∷ ps
add_pair decode ws ps = ps

unfoldable pub pairs : (String → String) → List String → List (String × String)
unfolding add_pair
pairs decode [] = []
pairs decode (w ∷ ws) = add_pair decode (split "=" w) (pairs decode ws)

-- `QsToObj` for the search part of the address without its first character; `decode` is
-- `decodeURIComponent`.
unfoldable pub qs_to_obj : (String → String) → String → List (String × String)
unfolding pairs
qs_to_obj decode search = pairs decode (split ";" search)

abbrev pub or_key : String × Option String → String
or_key (key, none) = key
or_key (key, some v) = v

-- The parameter of the field has the option's value.
abbrev pub is_default : Option String → String → Bool
is_default none v = false
is_default (some p) v = str_eq p v

abbrev pub plain_choice : String × Option String → Choice
plain_choice e = record { text = e.0; value = or_key e; selected = false; disabled = false }

-- The loop on the options of a field. The assignment to the constant `bOptionSelected` throws a
-- TypeError, which is `none`.
unfoldable pub choices_for : Option String → List (String × Option String) → Option (List Choice)
choices_for p [] = some []
choices_for p (e ∷ es) = elim (choices_for p es) [
  | none ↦ none
  | some cs ↦ if is_default p (or_key e) then none else some (plain_choice e ∷ cs)
]

abbrev pub suffixed : String → Option String → String
suffixed s none = s
suffixed s (some t) = s <> "_" <> t

abbrev prefixed : Option String → String → String
prefixed none s = s
prefixed (some p) s = p <> "_" <> s

-- The name of the select list for a field; an empty part counts as none.
unfoldable pub drop_name : Option String → Option String → Option String → String → String
drop_name id prefix suffix field = suffixed (prefixed prefix (suffixed field id)) suffix

abbrev pub placeholder_choice : String → Choice
placeholder_choice s = record { text = s; value = ""; selected = true; disabled = true }

-- The placeholder stands first; `bOptionSelected` is `false` here always.
abbrev pub with_placeholder : Option String → List Choice → List Choice
with_placeholder none cs = cs
with_placeholder (some s) cs = placeholder_choice s ∷ cs

-- `build_dns_drop`, which is `none` where it throws. `detail` has the fields with their options.
module _ (params : List (String × String)) (id prefix suffix placeholder : Option String) where
  unfoldable pub build_fields : List (String × List (String × Option String)) → Drop → Option Drop
  unfolding choices_for drop_name param
  build_fields [] d = some d
  build_fields (f ∷ fs) d = elim (choices_for (param f.0 params) f.1) [
    | none ↦ none
    | some cs ↦ build_fields fs (record {
      name = drop_name id prefix suffix f.0;
      choices = with_placeholder placeholder (d.choices ++ cs);
    })
  ]

  unfoldable pub build_dns_drop : List (String × List (String × Option String)) → Option Drop
  unfolding build_fields
  build_dns_drop detail = build_fields detail (record { name = ""; choices = [] })
