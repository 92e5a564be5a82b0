-- ===== src/Paging/Pages.antt =====
-- The records of a page, the targets of the buttons, and the rows of other universes.
use native.Mathlib.Nat.{div-eq_of_lt-le, le-div_iff_mul-le}
use jazzhands.Prelude.{
  ℕ, suc, ◌+◌, ◌-◌, ◌*◌, ◌≤◌, ◌<◌, ◌≡◌, ◌↔◌, ◌∙◌, refl, Bool, true, false, not, some, if◌then◌else◌,
  ◌==◌, ltb, List, [], ◌∷◌, map, arith, all, ◌≢◌,
}
use jazzhands.Paging.Container.{
  Container, ceil_div, Button, Controls, current_page, current_offset, build_paging, stays,
  change_page, Mismatches, toggle, toggle_rows,
}

-- Multiplication by a successor.
suc_times : (q l : ℕ) → suc q * l ≡ q * l + l
suc_times q l = omega arith

page_of : (q l : ℕ) → 0 < l → ceil_div (q * l + 1) l ≡ suc q
page_of q l h =
    div-eq_of_lt-le l (omega (arith, suc_times q l))
      (omega (arith, suc_times q l, suc_times (suc q) l))

-- A page is the last one exactly if it reaches the last record.
last_page : (n q l : ℕ) → 0 < l → q * l < n → (suc q == ceil_div n l) ≡ not (ltb (q * l + l) n)
last_page n q l h k = ground (
  arith,
  le-div_iff_mul-le {k = l} {x = suc q} {y = n + l - 1} h,
  le-div_iff_mul-le {k = l} {x = suc (suc q)} {y = n + l - 1} h,
  suc_times q l,
  suc_times (suc q) l,
)

shown_last :
    (n a l : ℕ)
    → 0 < l
    → (if ltb n (a + 1 + l - 1) then n else a + 1 + l - 1) ≡ (if ltb n (a + l) then n else a + l)
shown_last n a l h = ground arith

at_last :
    (n q l : ℕ)
    → 0 < l
    → q * l < n
    → (suc q == ceil_div n l) ≡ ((if ltb n (q * l + 1 + l - 1) then n else q * l + 1 + l - 1) == n)
at_last n q l h k = last_page n q l h k ∙ ground arith

abbrev pub bool_eq : Bool → Bool → Bool
bool_eq a b = if a then b else not b

-- Where the server's offset is the number of the first record of a page, counted from 1, and that
-- record is there, the container has this page; it shows the records from the first of the page
-- to its last, or to the last of all where this comes first; and the buttons Next and Last are
-- off exactly if the last record of all is shown.
pub page_records :
    (c : Container) (q : ℕ)
    → 0 < c.limit
    → c.offset ≡ some (q * c.limit + 1)
    → q * c.limit < c.count
    → ((build_paging c).0.page ≡ suc q)
      × ((build_paging c).1.page_input ≡ suc q)
      × ((build_paging c).1.first ≡ q * c.limit + 1)
      × ((build_paging c).1.last
          ≡ (if ltb c.count (q * c.limit + c.limit) then c.count else q * c.limit + c.limit))
      × ((build_paging c).1.next_button.off ≡ ((build_paging c).1.last == c.count))
      × ((build_paging c).1.last_button.off ≡ ((build_paging c).1.last == c.count))
unfolding build_paging current_page current_offset
page_records c q h o k =
    let pg : current_page c ≡ suc q = rw (o, current_page) (page_of q c.limit h) in
    let at_q : current_offset c ≡ q * c.limit + 1 = rw (o, current_offset) refl in
    let next = at_last c.count q c.limit h k in
    rw (pg, at_q) (refl, refl, refl, shown_last c.count (q * c.limit) c.limit h, next, next)

-- A button leads to one of the pages, and is off exactly if a click on it, with nothing pending,
-- leads nowhere.
pub LeadsRight : Container × Controls → Button → Type 0
LeadsRight (c, k) b =
    (1 ≤ b.target)
    × (b.target ≤ k.pages)
    × ((b.off ≡ true) ↔ (change_page false c b.target ≡ stays))

change_page-stays : (c : Container) (n : ℕ) → (change_page false c n ≡ stays) ↔ (n ≡ c.page)
unfolding change_page
change_page-stays c n = ground arith

-- Where the page of a container is one of its pages, each of its four buttons leads to one of
-- them, and is off exactly if a click on it, with nothing pending, leads nowhere.
pub button_targets :
    (c : Container)
    → 1 ≤ current_page c
    → current_page c ≤ ceil_div c.count c.limit
    → LeadsRight (build_paging c) (build_paging c).1.first_button
      × LeadsRight (build_paging c) (build_paging c).1.previous_button
      × LeadsRight (build_paging c) (build_paging c).1.next_button
      × LeadsRight (build_paging c) (build_paging c).1.last_button
unfolding build_paging LeadsRight
button_targets c h k =
    let p : Container = record c { page = current_page c } in
    (
      ground (arith, change_page-stays p 1),
      ground (arith, change_page-stays p (current_page c - 1), change_page-stays p 1),
      ground (
        arith,
        change_page-stays p (current_page c + 1),
        change_page-stays p (ceil_div c.count c.limit),
      ),
      ground (arith, change_page-stays p (ceil_div c.count c.limit)),
    )

all_const : (b : Bool) (rows : List Bool) → all (λ r. bool_eq r b) (map (λ _. b) rows) ≡ true
all_const b [] = refl
all_const b (r ∷ rows) = rw (all_const b rows) (ground arith)

toggled :
    (m : Mismatches) (rs : List Bool)
    → rs ≢ []
    → all (λ r. bool_eq r (toggle_rows m rs).says_hide) (toggle_rows m rs).rows ≡ true
unfolding toggle_rows
toggled m [] h = elim (h refl) [ ]
toggled m (true ∷ rs) h = all_const false m.rows
toggled m (false ∷ rs) h = all_const true m.rows

-- A click on the button for the rows of other universes leaves all of them visible or all hidden,
-- where there are some, and the button says "Hide Others" exactly if they are visible.
pub toggle_uniform :
    (m : Mismatches)
    → m.rows ≢ []
    → all (λ r. bool_eq r (toggle m).says_hide) (toggle m).rows ≡ true
unfolding toggle
toggle_uniform m h = toggled m m.rows h
