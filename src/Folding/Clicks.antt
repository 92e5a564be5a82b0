-- ===== src/Folding/Clicks.antt =====
-- Clicks on the links of a tree of applications that raise exceptions.
use jazzhands.Prelude.{Bool, true, false, ◌&&◌, String, List, [], ◌∷◌}
use jazzhands.Folding.AppTree.{Page, Result, goes_on, thrown, add_app_child, balance_tree}

unfoldable pub is_thrown : Result → Bool
is_thrown (goes_on page) = false
is_thrown (thrown page) = true

unfoldable pub page_of : Result → Page
page_of (goes_on page) = page
page_of (thrown page) = page

-- A click on the link (add) of an application, or on a link that expands or collapses the tree.
pub data Click : Type 0 where
  add_again : Click
  expand_tree : Click
  collapse_tree : Click

unfoldable pub click_link : String → Click → Page → Result
click_link s add_again page = add_app_child s page
click_link s expand_tree page = balance_tree "expand" page
click_link s collapse_tree page = balance_tree "collapse" page

-- Each of the clicks raises an exception, on the page that those before it left.
unfoldable pub all_thrown : String → List Click → Page → Bool
unfolding click_link is_thrown page_of
all_thrown s [] page = true
all_thrown s (c ∷ cs) page =
    let rest = all_thrown s cs (page_of (click_link s c page)) in
    is_thrown (click_link s c page) && rest
