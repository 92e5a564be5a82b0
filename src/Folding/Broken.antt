-- ===== src/Folding/Broken.antt =====
-- A tree of applications that the links for all its branches cannot mend.
use jazzhands.Prelude.{
  ◌≡◌, refl, ap, ◌∙◌, Bool, true, false, ◌&&◌, ◌||◌, String, Option, none, some, List, [], ◌∷◌,
  ◌<>◌, arith, inl, inr, Bool-cases, split, join, any,
}
use jazzhands.Folding.AppTree.{
  Element, Page, Class, root, depth, undecided, other, Result, goes_on, thrown, display_of,
  set_display, show_branch, element_of, has_id, id_text, balance_all, balance_branch, balance_found,
  and_then, target, strip, drop_last,
}
use jazzhands.Folding.Clicks.{is_thrown, page_of}

abbrev is_depth : Class → Bool
is_depth root = false
is_depth depth = true
is_depth undecided = false
is_depth other = false

abbrev is_unnamed : Option String → Bool
is_unnamed none = true
is_unnamed (some s) = false

-- A branch without an identifier, of the class `approle_depth`.
abbrev pub is_nameless : Element → Bool
is_nameless e = is_depth e.class && is_unnamed e.id

abbrev pub class_in : Option Element → Option Class
class_in none = none
class_in (some e) = some e.class

-- The element `s` has the class `approle_depth`, no element is named `newchild`, and a branch has
-- no identifier.
unfoldable pub IsBroken : String → Page → Type 0
IsBroken s page =
    (class_in (element_of s page.elements) ≡ some depth)
    × (class_in (element_of "newchild" page.elements) ≡ none)
    × (any is_nameless page.elements ≡ true)

class-set_display :
    (t s : String) (d : Bool) (es : List Element)
    → class_in (element_of t (set_display s d es)) ≡ class_in (element_of t es)
unfolding element_of set_display
class-set_display t s d [] = refl
class-set_display t s d (e ∷ es) = elim (Bool-cases (has_id s e.id)) [
  | inl k ↦ rw k (elim (Bool-cases (has_id t e.id)) [ inl m ↦ rw m refl | inr m ↦ rw m refl ])
  | inr k ↦ rw k (elim (Bool-cases (has_id t e.id)) [
    | inl m ↦ rw m refl
    | inr m ↦ rw m (class-set_display t s d es)
  ])
]

nameless-set_display :
    (s : String) (d : Bool) (es : List Element)
    → any is_nameless (set_display s d es) ≡ any is_nameless es
unfolding set_display
nameless-set_display s d [] = refl
nameless-set_display s d (e ∷ es) = elim (Bool-cases (has_id s e.id)) [
  | inl k ↦ rw k refl
  | inr k ↦ rw k (ap (λ b. is_nameless e || b) (nameless-set_display s d es))
]

shown-IsBroken :
    (s t img : String) (d : Bool) (page : Page)
    → IsBroken s page
    → IsBroken s (show_branch t img d page)
unfolding IsBroken show_branch
shown-IsBroken s t img d page (a, b, c) = (
  class-set_display s t d page.elements ∙ a,
  class-set_display "newchild" t d page.elements ∙ b,
  nameless-set_display t d page.elements ∙ c,
)

found-IsBroken :
    (s t : String) (d : Bool) (o : Option Bool) (page : Page)
    → IsBroken s page
    → IsBroken s (page_of (balance_found d o t page))
unfolding balance_found page_of
found-IsBroken s t d none page b = b
found-IsBroken s t d (some x) page b = shown-IsBroken s t (t <> "_arrow") d page b

branch-IsBroken :
    (s : String) (d : Bool) (o : Option String) (page : Page)
    → IsBroken s page
    → IsBroken s (page_of (balance_branch d o page))
unfolding balance_branch page_of
branch-IsBroken s d none page b = b
branch-IsBroken s d (some t) page b = found-IsBroken s t d (display_of t page.elements) page b

and_then-IsBroken :
    (s : String) (r : Result) (f : Page → Result)
    → IsBroken s (page_of r)
    → ((page : Page) → IsBroken s page → IsBroken s (page_of (f page)))
    → IsBroken s (page_of (and_then r f))
unfolding and_then page_of
and_then-IsBroken s (goes_on page) f b h = h page b
and_then-IsBroken s (thrown page) f b h = b

pub all-IsBroken :
    (s : String) (d : Bool) (es : List Element) (page : Page)
    → IsBroken s page
    → IsBroken s (page_of (balance_all d es page))
unfolding balance_all page_of
all-IsBroken s d [] page b = b
all-IsBroken s d (e ∷ es) page b =
    and_then-IsBroken s (balance_branch d (target e.class (id_text e.id)) page) (balance_all d es)
      (branch-IsBroken s d (target e.class (id_text e.id)) page b) (all-IsBroken s d es)

not_named : (o : Option String) → has_id "" o ≡ false
not_named none = refl
not_named (some s) = refl

unnamed_hidden : (es : List Element) → display_of "" es ≡ none
unfolding display_of
unnamed_hidden [] = refl
unnamed_hidden (e ∷ es) = rw (not_named e.id) (unnamed_hidden es)

-- The empty identifier is looked for, and nothing is found.
nameless_thrown :
    (d : Bool) (c : Class) (o : Option String) (page : Page)
    → (is_depth c && is_unnamed o) ≡ true
    → balance_branch d (target c (id_text o)) page ≡ thrown page
unfolding balance_branch balance_found target strip drop_last split join
nameless_thrown d depth none page h = rw (unnamed_hidden page.elements) refl
nameless_thrown d depth (some s) page h = absurd (ground (arith, h))
nameless_thrown d root o page h = absurd (ground (arith, h))
nameless_thrown d undecided o page h = absurd (ground (arith, h))
nameless_thrown d other o page h = absurd (ground (arith, h))

then_thrown :
    (r : Result) (f : Page → Result)
    → ((page : Page) → is_thrown (f page) ≡ true)
    → is_thrown (and_then r f) ≡ true
unfolding is_thrown and_then
then_thrown (goes_on page) f h = h page
then_thrown (thrown page) f h = refl

pub balance_thrown :
    (d : Bool) (es : List Element) (page : Page)
    → any is_nameless es ≡ true
    → is_thrown (balance_all d es page) ≡ true
unfolding balance_all is_thrown and_then
balance_thrown d [] page h = absurd (ground (arith, h))
balance_thrown d (e ∷ es) page h = elim (Bool-cases (is_nameless e)) [
  | inl t ↦ rw (nameless_thrown d e.class e.id page t) refl
  | inr t ↦
      then_thrown (balance_branch d (target e.class (id_text e.id)) page) (balance_all d es)
        (λ p. balance_thrown d es p (ground (arith, h, t)))
]
