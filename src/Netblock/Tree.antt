-- ===== src/Netblock/Tree.antt =====
-- The branches of the tree of netblocks, and their arrows.
use jazzhands.Prelude.{
  ℕ, zero, suc, ◌≡◌, refl, Bool, true, false, not, ◌&&◌, ◌||◌, List, [], ◌∷◌, map, all,
  if◌then◌else◌, arith, modify,
}

-- A child of a list: an item or a list, with the class `irrelevant` or without it.
pub record Child : Type 0 where
  pub is_item : Bool
  pub irrelevant : Bool

-- A list with its children and the picture of its arrow: `collapse.jpg` where it is down, and else
-- `expand.jpg`. `hierarchy` is the class `nbhier`.
pub record Branch : Type 0 where
  pub hierarchy : Bool
  pub children : List Child
  pub arrow_down : Bool

abbrev toggle_child : Child → Child
toggle_child c = if c.is_item then record c { irrelevant = not c.irrelevant } else c

-- The link `netblkexpand` of a branch.
unfoldable pub click_branch : Branch → Branch
click_branch b = record b { children = map toggle_child b.children; arrow_down = not b.arrow_down }

abbrev set_child : Bool → Child → Child
set_child h c = record c { irrelevant = h }

-- The links `collapseall`, for `true`, and `expandall` on one branch.
unfoldable pub set_branch : Bool → Branch → Branch
set_branch h b = record b {
  children = if b.hierarchy then map (set_child h) b.children else b.children;
  arrow_down = not h;
}

pub data Click : Type 0 where
  on_branch : ℕ → Click
  collapse_all : Click
  expand_all : Click

unfoldable pub click_tree : Click → List Branch → List Branch
unfolding click_branch set_branch
click_tree (on_branch i) bs = modify click_branch i bs
click_tree collapse_all bs = map (set_branch true) bs
click_tree expand_all bs = map (set_branch false) bs

unfoldable pub run_clicks : List Click → List Branch → List Branch
unfolding click_tree
run_clicks [] bs = bs
run_clicks (e ∷ es) bs = run_clicks es (click_tree e bs)

-- The item is hidden exactly if the arrow is not down.
abbrev pub shows_right : Bool → Child → Bool
shows_right down c = not c.is_item || (if down then not c.irrelevant else c.irrelevant)

-- The branch is of the hierarchy, and its arrow tells whether its items are shown.
abbrev pub is_right : Branch → Bool
is_right b = b.hierarchy && all (shows_right b.arrow_down) b.children

toggled_children :
    (down : Bool) (cs : List Child)
    → all (shows_right down) cs ≡ true
    → all (shows_right (not down)) (map toggle_child cs) ≡ true
toggled_children down [] h = refl
toggled_children down (c ∷ cs) h = ground (arith, toggled_children down cs)

set_children :
    (h : Bool) (cs : List Child) → all (shows_right (not h)) (map (set_child h) cs) ≡ true
set_children h [] = refl
set_children h (c ∷ cs) = ground (arith, set_children h cs)

click-is_right : (b : Branch) → is_right b ≡ true → is_right (click_branch b) ≡ true
unfolding click_branch
click-is_right b h = ground (arith, toggled_children b.arrow_down b.children)

set-is_right : (s : Bool) (b : Branch) → is_right b ≡ true → is_right (set_branch s b) ≡ true
unfolding set_branch
set-is_right s b h = ground (arith, set_children s b.children)

modify-right :
    (i : ℕ) (bs : List Branch)
    → all is_right bs ≡ true
    → all is_right (modify click_branch i bs) ≡ true
unfolding modify
modify-right i [] h = refl
modify-right zero (b ∷ bs) h = ground (arith, click-is_right b)
modify-right (suc i) (b ∷ bs) h = ground (arith, modify-right i bs)

map-right :
    (s : Bool) (bs : List Branch)
    → all is_right bs ≡ true
    → all is_right (map (set_branch s) bs) ≡ true
map-right s [] h = refl
map-right s (b ∷ bs) h = ground (arith, set-is_right s b, map-right s bs)

click_tree-right :
    (e : Click) (bs : List Branch) → all is_right bs ≡ true → all is_right (click_tree e bs) ≡ true
unfolding click_tree
click_tree-right (on_branch i) bs h = modify-right i bs h
click_tree-right collapse_all bs h = map-right true bs h
click_tree-right expand_all bs h = map-right false bs h

-- From a tree of branches of the hierarchy whose arrows are down exactly where their items are
-- shown, any sequence of clicks on branches and on the links for all of them leaves such a tree.
pub run_clicks-right :
    (es : List Click) (bs : List Branch)
    → all is_right bs ≡ true
    → all is_right (run_clicks es bs) ≡ true
unfolding run_clicks
run_clicks-right [] bs h = h
run_clicks-right (e ∷ es) bs h = run_clicks-right es (click_tree e bs) (click_tree-right e bs h)
