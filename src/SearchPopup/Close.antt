-- ===== src/SearchPopup/Close.antt =====
-- `closeAndFillIn_Search`, and what it leaves in the two fields.
use jazzhands.Prelude.{
  suc, ◌≡◌, ◌⊎◌, refl, Bool, true, false, not, ◌&&◌, ◌||◌, String, str_eq, Option, none, some, List,
  [], ◌∷◌, if◌then◌else◌, arith, any, ap, ◌∙◌, eq_iff,
}
use jazzhands.SearchPopup.State.{Choice, Popup, Field}

-- The loop on the options: the first that is selected or whose text is what was typed.
unfoldable pub match_choice : String → List Choice → Option Choice
match_choice typed [] = none
match_choice typed (c ∷ cs) =
    let rest = match_choice typed cs in
    if c.selected then some c else if str_eq c.text typed then some c else rest

abbrev pub list_of : Option (List Choice) → List Choice
list_of none = []
list_of (some cs) = cs

-- The option that is filled in; none where the user gave up.
unfoldable pub picked_choice : Popup → Option (List Choice) → Field → Option Choice
unfolding match_choice
picked_choice q dropdown f = if q.user_abort then none else match_choice f.value (list_of dropdown)

-- An empty text clears the identifier, unless the user gave up.
unfoldable pub clear_empty : Popup → Field → Field
clear_empty q f = if not q.user_abort && str_eq f.value "" then record f { id = "" } else f

-- What is done where no option was found. `null` in a text field is the empty text.
unfoldable pub put_back : Field → Field
put_back f =
    if f.pending
    then record f {
      value = (elim f.oldval [ none ↦ "" | some s ↦ s ]);
      pending = false;
      oldval = none;
    }
    else record f { value = ""; id = ""; oldval = none }

unfoldable pub fill_in : Popup → Option Choice → Field → Field
unfolding clear_empty put_back
fill_in q none f = put_back (clear_empty q f)
fill_in q (some c) f = record (clear_empty q (record f { value = c.text; id = c.value })) {
  oldval = none;
  pending = false;
}

-- `!tid.orig_value || tid.orig_value != tid.value`
abbrev is_new_value : Option String → String → Bool
is_new_value none v = true
is_new_value (some o) v = str_eq o "" || not (str_eq o v)

unfoldable pub complete : Popup → Field → Field
complete q f =
    if not q.user_abort && f.has_completion && is_new_value f.orig_value f.value
    then record f { completions = suc f.completions; orig_value = none }
    else f

-- `closeAndFillIn_Search` on a field and its popup, which is taken away.
unfoldable pub close_and_fill_in : Popup → Option (List Choice) → Field → Field
unfolding picked_choice fill_in complete
close_and_fill_in q dropdown f = record (complete q (fill_in q (picked_choice q dropdown f) f)) {
  popup = none;
}

-- The option stands in the list.
abbrev pub is_option : String → String → List Choice → Bool
is_option text value cs = any (λ c. str_eq c.text text && str_eq c.value value) cs

match_choice-is_option :
    (typed : String) (cs : List Choice) (c : Choice)
    → match_choice typed cs ≡ some c
    → is_option c.text c.value cs ≡ true
unfolding match_choice
match_choice-is_option typed [] c h = cc
match_choice-is_option typed (d ∷ cs) c h =
    ground (arith, match_choice-is_option typed cs c, eq_iff d.text c.text, eq_iff d.value c.value)

complete-pair :
    (q : Popup) (f : Field) → ((complete q f).value ≡ f.value) × ((complete q f).id ≡ f.id)
unfolding complete
complete-pair q f = ground arith

abbrev pub old_text : Field → String
old_text f = elim f.oldval [ none ↦ "" | some s ↦ s ]

-- What the two fields hold: an option of the list, what they held before the user typed, or
-- nothing.
pub FitsTogether : Option (List Choice) → Field → Field → Type 0
FitsTogether dropdown f g =
    (is_option g.value g.id (list_of dropdown) ≡ true)
    ⊎ (((f.pending ≡ true) × (g.value ≡ old_text f) × (g.id ≡ f.id))
        ⊎ ((g.value ≡ "") × (g.id ≡ "")))

fill_in-FitsTogether :
    (q : Popup) (dropdown : Option (List Choice)) (f : Field)
    → (q.user_abort || not (str_eq f.value "")) ≡ true
    → (o : Option Choice) → picked_choice q dropdown f ≡ o
    → FitsTogether dropdown f (fill_in q o f)
unfolding FitsTogether fill_in picked_choice
fill_in-FitsTogether q dropdown f h none e = ground arith
fill_in-FitsTogether q dropdown f h (some c) e =
    ground (arith, match_choice-is_option f.value (list_of dropdown) c, eq_iff c.text "")

-- Where the user gave up, or the text field is not empty, the text and the identifier fit together
-- when the popup is closed: they are the text and the value of one option of the list, or the text
-- is the one from before the user typed and the identifier is kept, or both are empty.
pub close-FitsTogether :
    (q : Popup) (dropdown : Option (List Choice)) (f : Field)
    → (q.user_abort || not (str_eq f.value "")) ≡ true
    → FitsTogether dropdown f (close_and_fill_in q dropdown f)
unfolding FitsTogether close_and_fill_in
close-FitsTogether q dropdown f h =
    let o = picked_choice q dropdown f in
    let g = fill_in q o f in
    let c = complete-pair q g in rw (c.0, c.1) (fill_in-FitsTogether q dropdown f h o refl)

close-pair :
    (q : Popup) (dropdown : Option (List Choice)) (f : Field)
    → ((close_and_fill_in q dropdown f).value ≡ (fill_in q (picked_choice q dropdown f) f).value)
      × ((close_and_fill_in q dropdown f).id ≡ (fill_in q (picked_choice q dropdown f) f).id)
unfolding close_and_fill_in
close-pair q dropdown f = complete-pair q (fill_in q (picked_choice q dropdown f) f)

put_back_empty :
    (q : Popup) (f : Field) (old : String)
    → q.user_abort ≡ false
    → f.value ≡ ""
    → f.pending ≡ true
    → f.oldval ≡ some old
    → ((fill_in q none f).value ≡ old) × ((fill_in q none f).id ≡ "")
unfolding fill_in
put_back_empty q f old a v p o = ground (arith, eq_iff f.value "")

-- Where the text field is empty, the user did not give up, no option fits, and the text from
-- before the user typed was kept, closing the popup puts this text back and leaves the identifier
-- empty.
pub close_empty :
    (q : Popup) (dropdown : Option (List Choice)) (f : Field) (old : String)
    → q.user_abort ≡ false
    → f.value ≡ ""
    → picked_choice q dropdown f ≡ none
    → f.pending ≡ true
    → f.oldval ≡ some old
    → ((close_and_fill_in q dropdown f).value ≡ old) × ((close_and_fill_in q dropdown f).id ≡ "")
close_empty q dropdown f old a v n p o =
    let (e_value, e_id) = close-pair q dropdown f in
    let (value_old, no_id) = put_back_empty q f old a v p o in
    (
      e_value ∙ ap (λ c. (fill_in q c f).value) n ∙ value_old,
      e_id ∙ ap (λ c. (fill_in q c f).id) n ∙ no_id,
    )
