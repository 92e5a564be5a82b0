-- ===== src/Panels/Tests.antt =====
-- The theorems on panels at concrete pages.
use jazzhands.Prelude.{some, ◌≡◌, refl, true, false, none, [], ◌∷◌, all}
use jazzhands.Panels.StabTabs.{
  TabSet, ShowsTab, tab_ids, click_tabs, last_clicked, has_link, click_tabs-ShowsTab,
}
use jazzhands.Panels.Hover.{
  Page, OnlyOne, entered, left_link, leaves_own_all, on_mouse, on_mouse_all, leaves_own, on_link,
  off_link, hide_table, close_popped, popup_ids, on_mouse_all-OnlyOne,
}
use jazzhands.Panels.ShowHide.{Group, ShowsOne, content_keys, shown_after, show_hide_all}
use jazzhands.Panels.OneShown.{show_hide_all-ShowsOne}

abbrev two_tabs : TabSet
two_tabs = record {
  links =
      record { id = "a"; is_on = true; is_off = false }
      ∷ record { id = "b"; is_on = false; is_off = true }
      ∷ [];
  contents =
      record { id = "a"; is_on = true; is_off = false }
      ∷ record { id = "b"; is_on = false; is_off = true }
      ∷ [];
}

two_tabs-ShowsTab : ShowsTab "a" two_tabs
unfolding ShowsTab tab_ids
two_tabs-ShowsTab = (refl, refl, refl)

two_tabs-links : all (has_link (tab_ids two_tabs.links)) ("b" ∷ "b" ∷ "a" ∷ []) ≡ true
unfolding tab_ids
two_tabs-links = refl

click_tabs-ShowsTab_example :
    ShowsTab (last_clicked "a" ("b" ∷ "b" ∷ "a" ∷ [])) (click_tabs ("b" ∷ "b" ∷ "a" ∷ []) two_tabs)
click_tabs-ShowsTab_example =
    click_tabs-ShowsTab "a" ("b" ∷ "b" ∷ "a" ∷ []) two_tabs two_tabs-ShowsTab two_tabs-links

abbrev menus : Page
menus = record {
  popups = record { id = "m1"; visible = false } ∷ record { id = "m2"; visible = false } ∷ [];
  elements = "bar" ∷ [];
  hovered = ("i1", false) ∷ ("i2", false) ∷ [];
  popped_up = none;
}

menus-OnlyOne : OnlyOne menus
unfolding OnlyOne
menus-OnlyOne = refl

menus-leaves :
    leaves_own_all
      (entered "bar" "m1" "i1" ∷ entered "bar" "m2" "i2" ∷ left_link true "m2" "i2" ∷ [])
      menus
    ≡ true
unfolding leaves_own_all leaves_own on_mouse on_link off_link hide_table close_popped popup_ids
menus-leaves = refl

on_mouse_all-OnlyOne_example : OnlyOne (
    on_mouse_all
      (entered "bar" "m1" "i1" ∷ entered "bar" "m2" "i2" ∷ left_link true "m2" "i2" ∷ [])
      menus)
on_mouse_all-OnlyOne_example =
    on_mouse_all-OnlyOne
      (entered "bar" "m1" "i1" ∷ entered "bar" "m2" "i2" ∷ left_link true "m2" "i2" ∷ []) menus
      menus-leaves menus-OnlyOne

abbrev folders : Group
folders = record {
  controls = record { key = "1"; toggled = false } ∷ record { key = "2"; toggled = true } ∷ [];
  contents =
      record { key = "1"; hidden = true }
      ∷ record { key = "2"; hidden = false }
      ∷ record { key = "1"; hidden = true }
      ∷ [];
}

folders-ShowsOne : ShowsOne (some "2") folders
unfolding ShowsOne
folders-ShowsOne = (refl, refl)

show_hide_all-ShowsOne_example :
    ShowsOne
      (shown_after (content_keys folders.contents) ("1" ∷ "3" ∷ "1" ∷ []) (some "2"))
      (show_hide_all ("1" ∷ "3" ∷ "1" ∷ []) folders)
show_hide_all-ShowsOne_example =
    show_hide_all-ShowsOne ("1" ∷ "3" ∷ "1" ∷ []) (some "2") folders folders-ShowsOne
