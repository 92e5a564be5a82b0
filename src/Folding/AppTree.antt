-- ===== src/Folding/AppTree.antt =====
-- The tree of applications: `AppTreeManip`, `BalanceTree` and `AddAppChild` of app-utils.js.
use Prim.Native.Char.{code}
use jazzhands.Prelude.{
  ◌&&◌, ◌||◌, ◌==◌, ltb, ℕ, suc, ◌+◌, Bool, true, false, not, String, Option, none, some, List, [],
  ◌∷◌, ◌++◌, if◌then◌else◌, ◌<>◌, str_eq, split, join,
}
use jazzhands.Folding.Arrow.{Turn, down, up, swaparrows}

pub data Class : Type 0 where
  root : Class
  depth : Class
  undecided : Class
  other : Class

-- An element of the tree, in the order of the document: a `div` or an input, where an input has the
-- class `other`. `level` is its depth in the document, `displayed` that `display` is empty and not
-- `none`, and the margins are the `marginLeft` in pixels of the element and of the one around it.
pub record Element : Type 0 where
  pub id : Option String
  pub level : ℕ
  pub class : Class
  pub displayed : Bool
  pub margin : ℕ
  pub outer_margin : ℕ

-- The picture of an arrow. Its identifier ends in `_arrow`, which that of no element above does.
pub record Arrow : Type 0 where
  pub id : String
  pub picture : Option Bool

-- The elements of the page, and its pictures. `alerted` tells that an alert was shown.
pub record Page : Type 0 where
  pub elements : List Element
  pub arrows : List Arrow
  pub alerted : Bool

-- The page, and whether an exception left the code.
pub data Result : Type 0 where
  goes_on : Page → Result
  thrown : Page → Result

unfoldable pub turn_arrow : String → Turn → List Arrow → List Arrow
unfolding swaparrows
turn_arrow s t [] = []
turn_arrow s t (a ∷ as_left) =
    let rest = turn_arrow s t as_left in
    if str_eq a.id s then record a { picture = swaparrows t a.picture } ∷ as_left else a ∷ rest

-- `getElementById` finds nothing for the empty text.
abbrev pub has_id : String → Option String → Bool
has_id s none = false
has_id s (some t) = if str_eq s "" then false else str_eq t s

-- The property `id` of an element.
abbrev pub id_text : Option String → String
id_text none = ""
id_text (some s) = s

-- Whether the element that `getElementById` finds is displayed.
unfoldable pub display_of : String → List Element → Option Bool
display_of s [] = none
display_of s (b ∷ bs) =
    let rest = display_of s bs in if has_id s b.id then some b.displayed else rest

unfoldable pub set_display : String → Bool → List Element → List Element
set_display s d [] = []
set_display s d (b ∷ bs) =
    let rest = set_display s d bs in
    if has_id s b.id then record b { displayed = d } ∷ bs else b ∷ rest

unfoldable pub turn_for : Bool → Turn
turn_for true = down
turn_for false = up

-- An element is shown or hidden, and an arrow is turned.
unfoldable pub show_branch : String → String → Bool → Page → Page
unfolding set_display turn_arrow turn_for
show_branch s img d page = record page {
  elements = set_display s d page.elements;
  arrows = turn_arrow img (turn_for d) page.arrows;
}

unfoldable pub toggle_from : Option Bool → String → String → Page → Page
unfolding show_branch
toggle_from none s img page = page
toggle_from (some d) s img page = show_branch s img (not d) page

-- `AppTreeManip`
unfoldable pub app_tree_manip : String → String → Page → Page
unfolding toggle_from display_of
app_tree_manip s img page = toggle_from (display_of s page.elements) s img page

-- The parts without the last one, where this is `suffix` and not the only one.
unfoldable pub drop_last : String → List String → List String
drop_last suffix [] = []
drop_last suffix (p ∷ []) = p ∷ []
drop_last suffix (p ∷ q ∷ []) = if str_eq q suffix then p ∷ [] else p ∷ q ∷ []
drop_last suffix (p ∷ q ∷ r ∷ ps) = p ∷ drop_last suffix (q ∷ r ∷ ps)

-- `id.replace(/_root$/, "")`, and so for `_depth`; the suffix has no underscore.
unfoldable pub strip : String → String → String
unfolding drop_last
strip suffix s = join "_" (drop_last suffix (split "_" s))

-- The identifier of the element that `BalanceTree` takes for the branch of an element, if it takes
-- one.
unfoldable pub target : Class → String → Option String
unfolding strip
target root s = some (strip "root" s)
target depth s = some (strip "depth" s)
target undecided s = none
target other s = none

unfoldable pub balance_found : Bool → Option Bool → String → Page → Result
unfolding show_branch
balance_found d none s page = thrown page
balance_found d (some b) s page = goes_on (show_branch s (s <> "_arrow") d page)

-- The loop's body: without such an element, `div.style` throws.
unfoldable pub balance_branch : Bool → Option String → Page → Result
unfolding balance_found display_of
balance_branch d none page = goes_on page
balance_branch d (some s) page = balance_found d (display_of s page.elements) s page

unfoldable pub and_then : Result → (Page → Result) → Result
and_then (goes_on page) f = f page
and_then (thrown page) f = thrown page

unfoldable pub balance_all : Bool → List Element → Page → Result
unfolding balance_branch target and_then
balance_all d [] page = goes_on page
balance_all d (e ∷ es) page =
    and_then (balance_branch d (target e.class (id_text e.id)) page) (balance_all d es)

-- `BalanceTree`
unfoldable pub balance_tree : String → Page → Result
unfolding balance_all
balance_tree what page =
    if str_eq what "collapse"
    then balance_all false page.elements page
    else if str_eq what "expand"
    then balance_all true page.elements page
    else goes_on page

-- `getElementById`
unfoldable pub element_of : String → List Element → Option Element
element_of s [] = none
element_of s (e ∷ es) = let rest = element_of s es in if has_id s e.id then some e else rest

-- The class of the element that is found is set.
unfoldable pub set_class : String → Class → List Element → List Element
set_class s c [] = []
set_class s c (e ∷ es) =
    let rest = set_class s c es in if has_id s e.id then record e { class = c } ∷ es else e ∷ rest

-- New elements behind those that are deeper than a level.
unfoldable pub put_behind : ℕ → List Element → List Element → List Element
put_behind l new [] = new
put_behind l new (e ∷ es) =
    let rest = put_behind l new es in if ltb l e.level then e ∷ rest else new ++ (e ∷ es)

-- `appendChild` for the element that is found: new elements at its end.
unfoldable pub append_child : String → List Element → List Element → List Element
unfolding put_behind
append_child s new [] = []
append_child s new (e ∷ es) =
    let rest = append_child s new es in
    if has_id s e.id then e ∷ put_behind e.level new es else e ∷ rest

abbrev first_part : List String → String
first_part [] = ""
first_part (p ∷ ps) = p

-- `id.replace(/_.*$/, "")`
unfoldable pub before_underscore : String → String
before_underscore s = first_part (split "_" s)

-- `id.match(/^newchild/)`
unfoldable pub starts_with : String → String → Bool
starts_with String.[] s = true
starts_with (String.◌∷◌ c p) String.[] = false
starts_with (String.◌∷◌ c p) (String.◌∷◌ d s) =
    let rest = starts_with p s in (code c == code d) && rest

-- The `div` for a new child with its input, for a `div` with an identifier, a level, its own margin
-- and the one of the element around it. An identifier that is set to the empty text is none.
abbrev new_child_id : Option String → Option String
new_child_id none = none
new_child_id (some s) = if str_eq s "" then none else some s

abbrev pub new_child : Option String → ℕ → ℕ → ℕ → List Element
new_child id level margin outer =
    record {
      id = some ("newchild_" <> id_text id);
      level = suc level;
      class = undecided;
      displayed = true;
      margin = outer + 20;
      outer_margin = margin;
    }
    ∷ record {
      id = new_child_id id;
      level = suc (suc level);
      class = other;
      displayed = true;
      margin = 0;
      outer_margin = outer + 20;
    }
    ∷ []

-- The `div` that an undecided element gets: it has no identifier, and the class `approle_depth`.
abbrev pub new_branch : Element → Element
new_branch e = record {
  id = none;
  level = suc e.level;
  class = depth;
  displayed = true;
  margin = 0;
  outer_margin = e.margin;
}

unfoldable pub alert_for : String → Page → Page
unfolding starts_with
alert_for s page = record page { alerted = starts_with "newchild" s || page.alerted }

-- The element that is found is undecided.
unfoldable pub add_to_new : String → Element → Page → Page
unfolding set_class append_child alert_for
add_to_new s e page = alert_for s (record page {
  elements =
      append_child s (new_branch e ∷ new_child none (suc e.level) 0 e.margin)
        (set_class s depth page.elements);
})

-- The branch is shown if it is hidden; the arrow has the name of the branch.
unfoldable pub opened : String → Bool → Page → Page
unfolding show_branch
opened b displayed page = if displayed then page else show_branch b (b <> "_arrow") true page

-- Without a branch, `div.style` throws.
unfoldable pub add_to_branch : String → String → Option Element → Page → Result
unfolding append_child opened alert_for
add_to_branch s b none page = thrown page
add_to_branch s b (some e) page =
    let shown = opened b e.displayed page in
    goes_on (
      alert_for s (record shown {
        elements = append_child b (new_child e.id e.level e.margin e.outer_margin) shown.elements;
      }))

unfoldable pub add_in_class : String → Class → Element → Page → Result
unfolding add_to_new add_to_branch element_of before_underscore
add_in_class s undecided e page = goes_on (add_to_new s e page)
add_in_class s root e page =
    add_to_branch s (before_underscore s) (element_of (before_underscore s) page.elements) page
add_in_class s depth e page =
    add_to_branch s (before_underscore s) (element_of (before_underscore s) page.elements) page
add_in_class s other e page = goes_on page

unfoldable pub add_to_found : String → Option Element → Page → Result
unfolding add_in_class
add_to_found s none page = goes_on page
add_to_found s (some e) page = add_in_class s e.class e page

-- `AddAppChild`
unfoldable pub add_app_child : String → Page → Result
unfolding add_to_found element_of
add_app_child s page = add_to_found s (element_of s page.elements) page
