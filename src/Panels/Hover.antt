-- ===== src/Panels/Hover.antt =====
-- Popups that follow the mouse: `onlink`, `offlink`, `hidetable` and `toggletable` of
-- table-manip.js, and the variable `poppedup`.
use jazzhands.Prelude.{
  ◌≡◌, refl, ap, Bool, true, false, not, ◌&&◌, ◌||◌, String, Option, none, some, List, [], ◌∷◌, map,
  all, includes, if◌then◌else◌, str_eq, eq_iff, arith, inl, inr, Bool-cases,
}

-- A table that pops up, `visible` is its style.
pub record Popup : Type 0 where
  pub id : String
  pub visible : Bool

-- The popups of the page, the other elements that it has by their identifiers, the pictures with
-- `_hover` in their names or without, and the variable `poppedup`.
pub record Page : Type 0 where
  pub popups : List Popup
  pub elements : List String
  pub hovered : List (String × Bool)
  pub popped_up : Option String

unfoldable pub popup_ids : List Popup → List String
popup_ids [] = []
popup_ids (p ∷ ps) = p.id ∷ popup_ids ps

abbrev pub set_visible : String → Bool → Popup → Popup
set_visible s v p = if str_eq p.id s then record p { visible = v } else p

-- The page after the popup that is still open was closed.
unfoldable pub close_popped : Option String → List Popup → List Popup
close_popped none ps = ps
close_popped (some s) ps = map (set_visible s false) ps

abbrev set_hover : String → Bool → (String × Bool) → (String × Bool)
set_hover img h p = if str_eq p.0 img then (p.0, h) else p

-- `onlink` for a link whose picture is there: the element that it pops over and the popup may be
-- missing.
unfoldable pub on_link : String → String → String → Page → Page
unfolding close_popped popup_ids
on_link over popup img page =
    let closed = close_popped page.popped_up page.popups in
    let shows = includes over page.elements && includes popup (popup_ids page.popups) in
    record page {
      hovered = map (set_hover img true) page.hovered;
      popups = if shows then map (set_visible popup true) closed else closed;
      popped_up = if shows then some popup else none;
    }

-- `offlink`, where `outside` tells that the mouse did not leave the link into its popup.
unfoldable pub off_link : Bool → String → String → Page → Page
off_link outside popup img page = record page {
  hovered = map (set_hover img false) page.hovered;
  popups = if outside then map (set_visible popup false) page.popups else page.popups;
  popped_up = if outside then none else page.popped_up;
}

-- `hidetable` for a popup, where `outside` tells that the mouse left the table.
unfoldable pub hide_table : Bool → String → String → Page → Page
hide_table outside popup table page =
    if includes table page.elements
    then (record page {
      popups = if outside then map (set_visible popup false) page.popups else page.popups;
      popped_up = if outside then none else page.popped_up;
    })
    else page

pub data Event : Type 0 where
  entered : String → String → String → Event
  left_link : Bool → String → String → Event
  left_popup : Bool → String → String → Event

unfoldable pub on_mouse : Event → Page → Page
unfolding on_link off_link hide_table
on_mouse (entered over popup img) page = on_link over popup img page
on_mouse (left_link outside popup img) page = off_link outside popup img page
on_mouse (left_popup outside popup table) page = hide_table outside popup table page

unfoldable pub on_mouse_all : List Event → Page → Page
unfolding on_mouse
on_mouse_all [] page = page
on_mouse_all (e ∷ es) page = on_mouse_all es (on_mouse e page)

abbrev is_popup : Option String → String → Bool
is_popup none s = true
is_popup (some t) s = str_eq t s

-- The mouse leaves no other popup and no link of another popup than the one that is open.
unfoldable pub leaves_own : Event → Page → Bool
leaves_own (entered over popup img) page = true
leaves_own (left_link outside popup img) page = not outside || is_popup page.popped_up popup
leaves_own (left_popup outside popup table) page = not outside || is_popup page.popped_up popup

unfoldable pub leaves_own_all : List Event → Page → Bool
unfolding leaves_own on_mouse
leaves_own_all [] page = true
leaves_own_all (e ∷ es) page =
    let rest = leaves_own_all es (on_mouse e page) in leaves_own e page && rest

-- A popup is visible only if it is the one in `poppedup`.
abbrev pub only : Option String → Popup → Bool
only none p = not p.visible
only (some s) p = not p.visible || str_eq p.id s

unfoldable pub OnlyOne : Page → Type 0
OnlyOne page = all (only page.popped_up) page.popups ≡ true

closed_popped :
    (o : Option String) (ps : List Popup)
    → all (only o) ps ≡ true
    → all (only none) (close_popped o ps) ≡ true
unfolding close_popped
closed_popped none ps h = h
closed_popped (some s) [] h = refl
closed_popped (some s) (p ∷ ps) h = ground (arith, closed_popped (some s) ps)

shown_one :
    (s : String) (ps : List Popup)
    → all (only none) ps ≡ true
    → all (only (some s)) (map (set_visible s true) ps) ≡ true
shown_one s [] h = refl
shown_one s (p ∷ ps) h = ground (arith, shown_one s ps)

hidden_one :
    (o : Option String) (s : String) (ps : List Popup)
    → is_popup o s ≡ true
    → all (only o) ps ≡ true
    → all (only none) (map (set_visible s false) ps) ≡ true
hidden_one o s [] i h = refl
hidden_one none s (p ∷ ps) i h = ground (arith, hidden_one none s ps i)
hidden_one (some t) s (p ∷ ps) i h =
    let same = (eq_iff t s).0 i in
    ground (arith, h, hidden_one (some t) s ps i, ap (λ x. str_eq p.id x) same)

on_mouse-OnlyOne :
    (e : Event) (page : Page) → leaves_own e page ≡ true → OnlyOne page → OnlyOne (on_mouse e page)
unfolding OnlyOne on_mouse leaves_own on_link off_link hide_table
on_mouse-OnlyOne (entered over popup img) page l h =
    let closed = closed_popped page.popped_up page.popups h in
    elim (Bool-cases (includes over page.elements && includes popup (popup_ids page.popups))) [
      | inl t ↦ rw t (shown_one popup (close_popped page.popped_up page.popups) closed)
      | inr t ↦ rw t closed
    ]
on_mouse-OnlyOne (left_link false popup img) page l h = h
on_mouse-OnlyOne (left_link true popup img) page l h =
    hidden_one page.popped_up popup page.popups l h
on_mouse-OnlyOne (left_popup outside popup table) page l h =
    elim (Bool-cases (includes table page.elements)) [
      | inl t ↦ rw t (elim (Bool-cases outside) [
        | inl o ↦ rw o (hidden_one page.popped_up popup page.popups (rw o at l) h)
        | inr o ↦ rw o h
      ])
      | inr t ↦ rw t h
    ]

-- From a page where no popup is visible but the one in `poppedup`, any sequence of mouse events
-- that leave, besides the popup that is open, no popup and no link of one leads to such a page.
pub on_mouse_all-OnlyOne :
    (es : List Event) (page : Page)
    → leaves_own_all es page ≡ true
    → OnlyOne page
    → OnlyOne (on_mouse_all es page)
unfolding on_mouse_all leaves_own_all
on_mouse_all-OnlyOne [] page l h = h
on_mouse_all-OnlyOne (e ∷ es) page l h =
    on_mouse_all-OnlyOne es (on_mouse e page) (ground (arith, l))
      (on_mouse-OnlyOne e page (ground (arith, l)) h)
