-- ===== src/Panels/StabTabs.antt =====
-- The tabs that `enable_stab_tabs` switches.
use jazzhands.Prelude.{
  ◌≡◌, refl, ap, ◌∙◌, sym, subst, Bool, true, false, not, ◌&&◌, String, List, [], ◌∷◌, map, all,
  includes, distinct, if◌then◌else◌, str_eq, eq_iff, arith, inl, inr, Bool-cases,
}

-- A link or the content of a tab, with the classes `stabtab_on` and `stabtab_off`.
pub record Tab : Type 0 where
  pub id : String
  pub is_on : Bool
  pub is_off : Bool

pub record TabSet : Type 0 where
  pub links : List Tab
  pub contents : List Tab

abbrev pub turn_off : Tab → Tab
turn_off t = if t.is_on then record t { is_on = false; is_off = true } else t

abbrev pub turn_on : Tab → Tab
turn_on t = record t { is_on = true; is_off = false }

-- The class `stabtab_off` of a link, which is the first one with its identifier.
unfoldable pub link_is_off : String → List Tab → Bool
link_is_off s [] = false
link_is_off s (t ∷ ts) = let rest = link_is_off s ts in if str_eq t.id s then t.is_off else rest

unfoldable pub turn_link_on : String → List Tab → List Tab
turn_link_on s [] = []
turn_link_on s (t ∷ ts) =
    let rest = turn_link_on s ts in if str_eq t.id s then turn_on t ∷ ts else t ∷ rest

abbrev pub turn_content_on : String → Tab → Tab
turn_content_on s t = if str_eq t.id s then turn_on t else t

-- A click on a link. Only one that is off does anything.
unfoldable pub click_tab : String → TabSet → TabSet
unfolding link_is_off turn_link_on
click_tab s set =
    if link_is_off s set.links
    then (record {
      links = turn_link_on s (map turn_off set.links);
      contents = map (turn_content_on s) (map turn_off set.contents);
    })
    else set

unfoldable pub click_tabs : List String → TabSet → TabSet
unfolding click_tab
click_tabs [] set = set
click_tabs (s ∷ ss) set = click_tabs ss (click_tab s set)

unfoldable pub tab_ids : List Tab → List String
tab_ids [] = []
tab_ids (t ∷ ts) = t.id ∷ tab_ids ts

-- The tab is on exactly if it is the tab `s`, and else off.
abbrev pub is_right : String → Tab → Bool
is_right s t = if str_eq t.id s then t.is_on && not t.is_off else not t.is_on && t.is_off

-- The links have different identifiers, and just the tab `s` is on, link and content.
unfoldable pub ShowsTab : String → TabSet → Type 0
ShowsTab s set =
    (distinct (tab_ids set.links) ≡ true)
    × (all (is_right s) set.links ≡ true)
    × (all (is_right s) set.contents ≡ true)

-- Every tab is off.
abbrev is_closed : Tab → Bool
is_closed t = not t.is_on && t.is_off

closed_all :
    (s : String) (ts : List Tab)
    → all (is_right s) ts ≡ true
    → all is_closed (map turn_off ts) ≡ true
closed_all s [] h = refl
closed_all s (t ∷ ts) h = ground (arith, closed_all s ts)

contents_right :
    (s : String) (ts : List Tab)
    → all is_closed ts ≡ true
    → all (is_right s) (map (turn_content_on s) ts) ≡ true
contents_right s [] h = refl
contents_right s (t ∷ ts) h = ground (arith, contents_right s ts)

-- No other link has the identifier.
none_on :
    (s : String) (ts : List Tab)
    → includes s (tab_ids ts) ≡ false
    → all is_closed ts ≡ true
    → all (is_right s) ts ≡ true
unfolding tab_ids
none_on s [] i h = refl
none_on s (t ∷ ts) i h = ground (arith, none_on s ts, eq_iff s t.id, eq_iff t.id s)

link_right :
    (s : String) (ts : List Tab)
    → distinct (tab_ids ts) ≡ true
    → includes s (tab_ids ts) ≡ true
    → all is_closed ts ≡ true
    → all (is_right s) (turn_link_on s ts) ≡ true
unfolding tab_ids turn_link_on
link_right s [] d i h = absurd (ground arith)
link_right s (t ∷ ts) d i h = elim (Bool-cases (str_eq t.id s)) [
  | inl e ↦
      let same = (eq_iff t.id s).0 e in
      rw e (ground (arith, none_on s ts (ground (arith, d, same)) (ground (arith, h)), e))
  | inr e ↦ rw e (ground (arith, e, link_right s ts, eq_iff s t.id, eq_iff t.id s))
]

ids-turn_off : (ts : List Tab) → tab_ids (map turn_off ts) ≡ tab_ids ts
unfolding tab_ids
ids-turn_off [] = refl
ids-turn_off (t ∷ ts) = ground (arith, ids-turn_off ts)

ids-turn_link_on : (s : String) (ts : List Tab) → tab_ids (turn_link_on s ts) ≡ tab_ids ts
unfolding tab_ids turn_link_on
ids-turn_link_on s [] = refl
ids-turn_link_on s (t ∷ ts) = ground (arith, ids-turn_link_on s ts)

off_unless :
    (s t : String) (ts : List Tab)
    → all (is_right s) ts ≡ true
    → includes t (tab_ids ts) ≡ true
    → link_is_off t ts ≡ not (str_eq t s)
unfolding tab_ids link_is_off
off_unless s t [] h i = absurd (ground arith)
off_unless s t (u ∷ ts) h i = elim (Bool-cases (str_eq u.id t)) [
  | inl e ↦ let same = (eq_iff u.id t).0 e in rw (e, ← same) (ground (arith, h))
  | inr e ↦
      rw e
        (off_unless s t ts (ground (arith, h)) (ground (arith, i, e, eq_iff t u.id, eq_iff u.id t)))
]

click-ShowsTab :
    (s t : String) (set : TabSet)
    → ShowsTab s set
    → includes t (tab_ids set.links) ≡ true
    → ShowsTab t (click_tab t set) × (tab_ids (click_tab t set).links ≡ tab_ids set.links)
unfolding click_tab ShowsTab
click-ShowsTab s t set (d, l, c) i =
    let off = off_unless s t set.links l i in
    let ids = ids-turn_link_on t (map turn_off set.links) ∙ ids-turn_off set.links in
    elim (Bool-cases (str_eq t s)) [
      | inl e ↦ let same = (eq_iff t s).0 e in rw (off, e) (rw same ((d, l, c), refl))
      | inr e ↦
          rw (off, e)
            (
              (
                ap distinct ids ∙ d,
                link_right t (map turn_off set.links) (ap distinct (ids-turn_off set.links) ∙ d)
                    (ap (includes t) (ids-turn_off set.links) ∙ i) (closed_all s set.links l),
                contents_right t (map turn_off set.contents) (closed_all s set.contents c),
              ),
              ids,
            )
    ]

-- The tab that was clicked last.
unfoldable pub last_clicked : String → List String → String
last_clicked s [] = s
last_clicked s (t ∷ ts) = last_clicked t ts

-- The tab has a link.
abbrev pub has_link : List String → String → Bool
has_link ids t = includes t ids

-- Where the links of a set of tabs have different identifiers and just one tab is on, with its
-- content, any sequence of clicks on links leads to a set where just the tab that was clicked last
-- is on, with its content.
pub click_tabs-ShowsTab :
    (s : String) (ts : List String) (set : TabSet)
    → ShowsTab s set
    → all (has_link (tab_ids set.links)) ts ≡ true
    → ShowsTab (last_clicked s ts) (click_tabs ts set)
unfolding last_clicked click_tabs
click_tabs-ShowsTab s [] set h i = h
click_tabs-ShowsTab s (t ∷ ts) set h i =
    let one = click-ShowsTab s t set h (ground (arith, i)) in
    click_tabs-ShowsTab t ts (click_tab t set) one.0
      (subst (λ ids. all (has_link ids) ts ≡ true) (sym one.1) (ground (arith, i)))
