-- ===== src/Directory/Usages.antt =====
-- The lists in which the uses of each picture are selected.
use jazzhands.Prelude.{
  ℕ, suc, Bool, false, ◌&&◌, String, str_eq, List, [], ◌∷◌, ◌++◌, ◌<>◌, show, map, includes,
  if◌then◌else◌,
}

-- A list of the class `person_image_usage`, with its name and the texts of its options, which are
-- selected or not.
pub record UsageList : Type 0 where
  pub name : String
  pub options : List (String × Bool)

-- The lists of the pictures, and the variable `pic_offset`.
pub record Pictures : Type 0 where
  pub lists : List UsageList
  pub pic_offset : ℕ

-- The option is selected where its text is one of these.
abbrev pub select_in : List String → String → String × Bool
select_in chosen x = (x, includes x chosen)

-- A list for the valid uses, which come with `is_multivalue`.
unfoldable pub new_list : String → List (String × String) → List String → UsageList
new_list name valid chosen = record { name = name; options = map (λ v. select_in chosen v.0) valid }

-- The texts of the options that are selected.
unfoldable pub selected_texts : List (String × Bool) → List String
selected_texts [] = []
selected_texts (o ∷ os) = let rest = selected_texts os in if o.1 then o.0 ∷ rest else rest

unfoldable pub texts_of : String → List UsageList → List String
unfolding selected_texts
texts_of name [] = []
texts_of name (l ∷ ls) =
    let rest = texts_of name ls in
    if str_eq l.name name then selected_texts l.options ++ rest else rest

-- `removeAttr("selected")` on the options that are selected and have this text.
abbrev pub unselect : String → String × Bool → String × Bool
unselect usage o = if o.1 && str_eq o.0 usage then (o.0, false) else o

unfoldable pub clear_others : String → String → List UsageList → List UsageList
clear_others name usage [] = []
clear_others name usage (l ∷ ls) =
    let rest = clear_others name usage ls in
    if str_eq l.name name
    then l ∷ rest
    else record l { options = map (unselect usage) l.options } ∷ rest

-- The loop on the valid uses.
unfoldable pub enforce_usage :
    String → String → List (String × String) → List UsageList → List UsageList
unfolding clear_others
enforce_usage name usage [] ls = ls
enforce_usage name usage (v ∷ valid) ls =
    enforce_usage name usage valid
      (if str_eq v.0 usage && str_eq v.1 "N" then clear_others name usage ls else ls)

unfoldable pub enforce_usages :
    String → List String → List (String × String) → List UsageList → List UsageList
unfolding enforce_usage
enforce_usages name [] valid ls = ls
enforce_usages name (usage ∷ usages) valid ls =
    enforce_usages name usages valid (enforce_usage name usage valid ls)

-- `enforce_select_is_multivalue`
unfoldable pub enforce_select_is_multivalue :
    String → List (String × String) → List UsageList → List UsageList
unfolding texts_of enforce_usages
enforce_select_is_multivalue name valid ls = enforce_usages name (texts_of name ls) valid ls

-- The user selects exactly the options of these texts in the lists of this name.
abbrev pub reselect : List String → String → UsageList → UsageList
reselect chosen name l =
    if str_eq l.name name
    then record l { options = map (λ o. select_in chosen o.0) l.options }
    else l

pub data Event : Type 0 where
  changed : String → List String → Event
  added : Event

unfoldable pub handle_event : List (String × String) → Event → Pictures → Pictures
unfolding enforce_select_is_multivalue new_list
handle_event valid (changed name chosen) p = record p {
  lists = enforce_select_is_multivalue name valid (map (reselect chosen name) p.lists);
}
handle_event valid added p = record {
  lists = p.lists ++ new_list ("new_person_image_usage_" <> show p.pic_offset) valid [] ∷ [];
  pic_offset = suc p.pic_offset;
}

unfoldable pub run_events : List (String × String) → List Event → Pictures → Pictures
unfolding handle_event
run_events valid [] p = p
run_events valid (e ∷ es) p = run_events valid es (handle_event valid e p)
