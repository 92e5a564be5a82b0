-- ===== src/Folding/Balance.antt =====
-- What `BalanceTree` does to all the branches of a tree.
use jazzhands.Prelude.{
  ◌≡◌, refl, ap, ◌∙◌, Bool, true, false, not, ◌&&◌, String, Option, none, some, List, [], ◌∷◌,
  if◌then◌else◌, ◌<>◌, str_eq, arith, inl, inr, Bool-cases, all,
}
use jazzhands.Folding.Arrow.{swaparrows}
use jazzhands.Folding.AppTree.{
  Element, Arrow, id_text, Page, has_id, goes_on, turn_arrow, display_of, set_display, turn_for,
  show_branch, target, balance_found, balance_branch, and_then, balance_all, balance_tree,
}

abbrev is_shown : Bool → Option Bool → Bool
is_shown d none = false
is_shown d (some b) = if d then b else not b

abbrev is_there : Option Bool → Bool
is_there none = false
is_there (some b) = true

abbrev picture_is : Bool → Option Bool → Bool
picture_is d none = true
picture_is d (some b) = if d then b else not b

-- The arrow with an identifier, where it has a picture, is down for `true` and else up.
unfoldable pub arrow_is : Bool → String → List Arrow → Bool
arrow_is d s [] = true
arrow_is d s (a ∷ rest) =
    let tail = arrow_is d s rest in if str_eq a.id s then picture_is d a.picture else tail

-- The branch with an identifier is shown, for `true`, or hidden, and its arrow says so.
abbrev pub is_set : Bool → String → Page → Bool
is_set d s page = is_shown d (display_of s page.elements) && arrow_is d (s <> "_arrow") page.arrows

display_self :
    (s : String) (d : Bool) (bs : List Element)
    → is_there (display_of s bs) ≡ true
    → is_shown d (display_of s (set_display s d bs)) ≡ true
unfolding display_of set_display
display_self s d [] h = absurd (ground arith)
display_self s d (b ∷ bs) h = elim (Bool-cases (has_id s b.id)) [
  | inl t ↦ rw (t, t) (ground arith)
  | inr t ↦ rw (t, t) (display_self s d bs (rw t at h))
]

display-other :
    (s t : String) (d : Bool) (bs : List Element)
    → is_shown d (display_of t bs) ≡ true
    → is_shown d (display_of t (set_display s d bs)) ≡ true
unfolding display_of set_display
display-other s t d [] h = h
display-other s t d (b ∷ bs) h = elim (Bool-cases (has_id s b.id)) [
  | inl e ↦ rw e (ground (arith, h))
  | inr e ↦ rw e (ground (arith, h, display-other s t d bs))
]

display-there :
    (s t : String) (d : Bool) (bs : List Element)
    → is_there (display_of t (set_display s d bs)) ≡ is_there (display_of t bs)
unfolding display_of set_display
display-there s t d [] = refl
display-there s t d (b ∷ bs) = ground (arith, display-there s t d bs)

picture-turned : (d : Bool) (o : Option Bool) → picture_is d (swaparrows (turn_for d) o) ≡ true
unfolding swaparrows turn_for
picture-turned true none = refl
picture-turned true (some b) = refl
picture-turned false none = refl
picture-turned false (some b) = refl

arrow_self :
    (s : String) (d : Bool) (arrows : List Arrow)
    → arrow_is d s (turn_arrow s (turn_for d) arrows) ≡ true
unfolding arrow_is turn_arrow
arrow_self s d [] = refl
arrow_self s d (a ∷ rest) = ground (arith, arrow_self s d rest, picture-turned d a.picture)

arrow-other :
    (s t : String) (d : Bool) (arrows : List Arrow)
    → arrow_is d t arrows ≡ true
    → arrow_is d t (turn_arrow s (turn_for d) arrows) ≡ true
unfolding arrow_is turn_arrow
arrow-other s t d [] h = refl
arrow-other s t d (a ∷ rest) h =
    ground (arith, h, arrow-other s t d rest, picture-turned d a.picture)

-- The branch that the tree takes for an element is there.
abbrev branch_there : Option String → Page → Bool
branch_there none page = true
branch_there (some s) page = is_there (display_of s page.elements)

abbrev pub has_branch : Page → Element → Bool
has_branch page w = branch_there (target w.class (id_text w.id)) page

abbrev branch_set : Bool → Option String → Page → Bool
branch_set d none page = true
branch_set d (some s) page = is_set d s page

-- The branch of an element, where it has one, is shown, for `true`, or hidden, with its arrow.
abbrev pub is_balanced : Bool → Page → Element → Bool
is_balanced d page w = branch_set d (target w.class (id_text w.id)) page

-- From a page, what is set stays set and the branches stay there.
Keeps : Bool → Page → Page → Type 0
Keeps d before after =
    ((s : String) → is_set d s before ≡ true → is_set d s after ≡ true)
    × ((s : String)
        → is_there (display_of s after.elements) ≡ is_there (display_of s before.elements))

shown-Keeps :
    (s : String) (d : Bool) (page : Page) → Keeps d page (show_branch s (s <> "_arrow") d page)
unfolding Keeps show_branch
shown-Keeps s d page = (
  (λ t h. ground (
    arith,
    h,
    display-other s t d page.elements,
    arrow-other (s <> "_arrow") (t <> "_arrow") d page.arrows,
  )),
  λ t. display-there s t d page.elements,
)

shown_set :
    (s : String) (d : Bool) (page : Page)
    → is_there (display_of s page.elements) ≡ true
    → is_set d s (show_branch s (s <> "_arrow") d page) ≡ true
unfolding show_branch
shown_set s d page h =
    ground (arith, display_self s d page.elements h, arrow_self (s <> "_arrow") d page.arrows)

by_display :
    (d : Bool) (s : String) (page : Page) (o : Option Bool)
    → display_of s page.elements ≡ o
    → is_there o ≡ true
    → (after : Page) × (balance_found d o s page ≡ goes_on after)
      × (is_set d s after ≡ true)
      × Keeps d page after
unfolding balance_found
by_display d s page none e h = absurd (ground arith)
by_display d s page (some b) e h = (
  show_branch s (s <> "_arrow") d page,
  refl,
  shown_set s d page (ap is_there e ∙ h),
  shown-Keeps s d page,
)

one_balanced :
    (d : Bool) (o : Option String) (page : Page)
    → branch_there o page ≡ true
    → (after : Page) × (balance_branch d o page ≡ goes_on after)
      × (branch_set d o after ≡ true)
      × Keeps d page after
unfolding balance_branch Keeps
one_balanced d none page h = (page, refl, refl, ((λ s k. k), λ s. refl))
one_balanced d (some s) page h = by_display d s page (display_of s page.elements) refl h

there_one :
    (d : Bool) (o : Option String) (before after : Page)
    → Keeps d before after
    → branch_there o before ≡ true
    → branch_there o after ≡ true
unfolding Keeps
there_one d none before after k h = refl
there_one d (some s) before after k h = k.1 s ∙ h

set_after :
    (d : Bool) (o : Option String) (before after : Page)
    → Keeps d before after
    → branch_set d o before ≡ true
    → branch_set d o after ≡ true
unfolding Keeps
set_after d none before after k h = refl
set_after d (some s) before after k h = k.0 s h

there_after :
    (d : Bool) (ws : List Element) (before after : Page)
    → Keeps d before after
    → all (has_branch before) ws ≡ true
    → all (has_branch after) ws ≡ true
unfolding Keeps
there_after d [] before after k h = refl
there_after d (w ∷ ws) before after k h = ground (
  arith,
  there_one d (target w.class (id_text w.id)) before after k (ground (arith, h)),
  there_after d ws before after k,
)

all_balanced :
    (d : Bool) (ws : List Element) (page : Page)
    → all (has_branch page) ws ≡ true
    → (after : Page) × (balance_all d ws page ≡ goes_on after)
      × (all (is_balanced d after) ws ≡ true)
      × Keeps d page after
unfolding balance_all and_then Keeps
all_balanced d [] page h = (page, refl, refl, ((λ s k. k), λ s. refl))
all_balanced d (w ∷ ws) page h =
    let first = one_balanced d (target w.class (id_text w.id)) page (ground (arith, h)) in
    let rest =
      all_balanced d ws first.0 (there_after d ws page first.0 first.3 (ground (arith, h))) in
    (
      rest.0,
      ap (λ r. and_then r (balance_all d ws)) first.1 ∙ rest.1,
      ground (
        arith,
        set_after d (target w.class (id_text w.id)) first.0 rest.0 rest.3 first.2,
        rest.2,
      ),
      ((λ s k. rest.3.0 s (first.3.0 s k)), λ s. rest.3.1 s ∙ first.3.1 s),
    )

-- Where the page has an element with the identifier of each branch that the tree looks for,
-- collapsing the tree raises no exception and hides these elements, their arrows up, and
-- expanding shows them, their arrows down, whatever was shown before, also where elements or
-- arrows share an identifier.
pub balance_tree-balanced :
    (expands : Bool) (page : Page)
    → all (has_branch page) page.elements ≡ true
    → (after : Page) × (balance_tree (if expands then "expand" else "collapse") page
        ≡ goes_on after)
      × (all (is_balanced expands after) page.elements ≡ true)
unfolding balance_tree
balance_tree-balanced true page h =
    let r = all_balanced true page.elements page h in (r.0, r.1, r.2)
balance_tree-balanced false page h =
    let r = all_balanced false page.elements page h in (r.0, r.1, r.2)
