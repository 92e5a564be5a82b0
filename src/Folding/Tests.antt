-- ===== src/Folding/Tests.antt =====
-- The theorems on what clicks show and hide at concrete pages.
use jazzhands.Prelude.{
  ◌≡◌, refl, ℕ, String, true, false, some, none, [], ◌∷◌, all, if◌then◌else◌, ◌<>◌, split, join,
}
use jazzhands.Folding.Kids.{
  Link, circuit_link, clicked, answered, run_events, Visibility, hidden, show_kids, toggle_or_make,
  make_kid, toggle_kid, kids_answered, fill_kid, on_event, is_hidden, insert_behind, Kid,
}
use jazzhands.Folding.Kids
use jazzhands.Folding.Arrow.{swaparrows}
use jazzhands.Folding.KidSpec.{
  spec_event, is_patient, Implements, Shows, absent, spec_run, run_kids-Implements,
}
use jazzhands.Folding.AppTree.{
  Page, Class, root, undecided, target, strip, drop_last, display_of, goes_on, balance_tree,
  add_app_child, element_of, Element, other,
}
use jazzhands.Folding.Balance.{has_branch, is_balanced, balance_tree-balanced}
use jazzhands.Folding.Clicks.{all_thrown, add_again, collapse_tree}
use jazzhands.Folding.Grandchildren.{grandchild-IsBroken}

abbrev circuit : Link
circuit = circuit_link "tr_1" "8"

abbrev folded : Kids.Page
folded = record { rows = "tr_1" ∷ "tr_2" ∷ []; kid = none; arrow = some false; under_way = [] }

folded-Implements : Implements circuit ("tr_1" ∷ "tr_2" ∷ []) absent folded
unfolding Implements Shows
folded-Implements = (refl, (refl, refl))

run_kids-Implements_example :
    Implements circuit
      ("tr_1" ∷ "tr_2" ∷ [])
      (spec_run (clicked ∷ answered "<p>" ∷ clicked ∷ clicked ∷ []) absent)
      (run_events circuit (clicked ∷ answered "<p>" ∷ clicked ∷ clicked ∷ []) folded)
unfolding circuit_link is_patient spec_event
run_kids-Implements_example =
    run_kids-Implements circuit ("tr_1" ∷ "tr_2" ∷ [])
      (clicked ∷ answered "<p>" ∷ clicked ∷ clicked ∷ []) absent folded refl refl folded-Implements

-- A second click before the answer hides the row, and the answer turns the arrow down but does
-- not make the row visible.
second_click_hides :
    (run_events circuit (clicked ∷ clicked ∷ answered "<p>" ∷ []) folded).kid
    ≡ some (record { visibility = hidden; displayed = true; content = some "<p>" })
unfolding run_events on_event show_kids toggle_or_make make_kid toggle_kid kids_answered fill_kid
    is_hidden insert_behind circuit_link
second_click_hides = refl

second_click_arrow :
    (run_events circuit (clicked ∷ clicked ∷ answered "<p>" ∷ []) folded).arrow ≡ some true
unfolding run_events on_event show_kids toggle_or_make make_kid toggle_kid kids_answered fill_kid
    is_hidden insert_behind circuit_link swaparrows
second_click_arrow = refl

abbrev div : String → ℕ → Class → Element
div s level c = record {
  id = some s;
  level = level;
  class = c;
  displayed = true;
  margin = 0;
  outer_margin = 0;
}

abbrev added_child : Element
added_child = record (div "newchild_12" 2 undecided) { margin = 20 }

abbrev tree : Page
tree = record {
  elements =
      div "12_root" 0 root
      ∷ record (div "12" 1 other) { displayed = false }
      ∷ added_child
      ∷ div "12" 3 other
      ∷ [];
  arrows = record { id = "12_arrow"; picture = some false } ∷ [];
  alerted = false;
}

tree-has_branch : all (has_branch tree) tree.elements ≡ true
unfolding target strip drop_last split join display_of
tree-has_branch = refl

balance_tree-balanced_example :
    (after : Page) × (balance_tree (if true then "expand" else "collapse") tree ≡ goes_on after)
    × (all (is_balanced true after) tree.elements ≡ true)
balance_tree-balanced_example = balance_tree-balanced true tree tree-has_branch

added_child-found : element_of ("newchild_" <> "12") tree.elements ≡ some added_child
unfolding element_of
added_child-found = refl

no_newchild : element_of "newchild" tree.elements ≡ none
unfolding element_of
no_newchild = refl

grandchild-IsBroken_example :
    (after : Page) × (add_app_child ("newchild_" <> "12") tree ≡ goes_on after)
    × (all_thrown ("newchild_" <> "12") (collapse_tree ∷ add_again ∷ add_again ∷ []) after ≡ true)
grandchild-IsBroken_example =
    grandchild-IsBroken "12" added_child (collapse_tree ∷ add_again ∷ add_again ∷ []) tree
      added_child-found refl no_newchild
