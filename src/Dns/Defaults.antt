-- ===== src/Dns/Defaults.antt =====
-- What a select list has where the address of the page has a default for it.
use jazzhands.Prelude.{
  ◌≡◌, refl, ◌∙◌, String, Option, none, some, List, [], ◌∷◌, if◌then◌else◌, any, map, arith,
  Bool-cases, inl, inr,
}
use jazzhands.Dns.Drop.{
  param, or_key, is_default, plain_choice, choices_for, drop_name, with_placeholder, build_fields,
  build_dns_drop,
}

choices_for-any :
    (p : Option String) (es : List (String × Option String))
    → choices_for p es
      ≡ (if any (λ e. is_default p (or_key e)) es then none else some (map plain_choice es))
unfolding choices_for
choices_for-any p [] = refl
choices_for-any p (e ∷ es) = ground (arith, choices_for-any p es)

-- The list for one field is built unless the parameter of that name is the value of one of its
-- options, where the code throws; so the list that is built has all options in their order, and
-- none of them is selected but the placeholder, where there is one.
pub build_dns_drop-any :
    (params : List (String × String)) (id prefix suffix placeholder : Option String)
    (field : String) (es : List (String × Option String))
    → build_dns_drop params id prefix suffix placeholder ((field, es) ∷ []) ≡ (
        if any (λ e. is_default (param field params) (or_key e)) es
        then none
        else some (record {
          name = drop_name id prefix suffix field;
          choices = with_placeholder placeholder (map plain_choice es);
        }))
unfolding build_dns_drop build_fields
build_dns_drop-any params id prefix suffix placeholder field es =
    elim (Bool-cases (any (λ e. is_default (param field params) (or_key e)) es)) [
      | inl t ↦
          let e : choices_for (param field params) es ≡ none =
            choices_for-any (param field params) es ∙ rw t refl in
          rw (t, e, build_fields) refl
      | inr f ↦
          let e : choices_for (param field params) es ≡ some (map plain_choice es) =
            choices_for-any (param field params) es ∙ rw f refl in
          rw (f, e, build_fields) refl
    ]
