-- ===== src/Folding/KidSpec.antt =====
-- What a row for kids is for its user, and that the code does this where nobody clicks between the
-- first click and its answer.
use jazzhands.Prelude.{
  ◌≡◌, refl, Bool, true, false, not, ◌&&◌, String, Option, none, some, List, [], ◌∷◌, includes,
  if◌then◌else◌, arith, ap, subst, sym,
}
use jazzhands.Folding.Arrow.{down, up, swaparrows}
use jazzhands.Folding.Kids.{
  Visibility, unset, visible, hidden, Link, Page, insert_behind, is_hidden, toggle_kid, make_kid,
  toggle_or_make, show_kids, fill_kid, kids_answered, Event, clicked, answered, on_event,
  run_events,
}

-- The row is not there, waits for its answer, or holds the answer and is open or closed.
pub data Row : Type 0 where
  absent : Row
  waiting : Row
  open_with : String → Row
  closed_with : String → Row

unfoldable pub spec_event : Event → Row → Row
spec_event clicked absent = waiting
spec_event clicked waiting = waiting
spec_event clicked (open_with s) = closed_with s
spec_event clicked (closed_with s) = open_with s
spec_event (answered html) absent = absent
spec_event (answered html) waiting = open_with html
spec_event (answered html) (open_with s) = open_with s
spec_event (answered html) (closed_with s) = closed_with s

unfoldable pub spec_run : List Event → Row → Row
unfolding spec_event
spec_run [] row = row
spec_run (e ∷ es) row = spec_run es (spec_event e row)

abbrev may_come : Event → Row → Bool
may_come clicked waiting = false
may_come (answered html) row = true
may_come clicked row = true

-- Nobody clicks while the row waits.
unfoldable pub is_patient : List Event → Row → Bool
unfolding spec_event
is_patient [] row = true
is_patient (e ∷ es) row = let rest = is_patient es (spec_event e row) in may_come e row && rest

-- The rows, before the row for kids is made and after.
abbrev rows_with : Link → List String → Row → List String
rows_with l rows absent = rows
rows_with l rows r = insert_behind l.parent_row l.kid_row rows

-- The arrow, where there is one, is down for `true` and else up.
abbrev points : Bool → Option Bool → Bool
points b none = true
points b (some a) = if b then a else not a

-- The styles, the arrow and the requests of a row.
unfoldable pub Shows : Link → Row → Page → Type 0
Shows l absent page = (page.kid ≡ none) × (page.under_way ≡ [])
Shows l waiting page =
    (page.kid ≡ some (record { visibility = unset; displayed = false; content = none }))
    × (page.under_way ≡ l.address ∷ [])
Shows l (open_with s) page =
    ((v : Visibility) × (is_hidden v ≡ false)
      × (page.kid ≡ some (record { visibility = v; displayed = true; content = some s })))
    × (points true page.arrow ≡ true)
    × (page.under_way ≡ [])
Shows l (closed_with s) page =
    (page.kid ≡ some (record { visibility = hidden; displayed = false; content = some s }))
    × (points false page.arrow ≡ true)
    × (page.under_way ≡ [])

-- The document shows a row, which stands behind its parent's row, where it is there.
unfoldable pub Implements : Link → List String → Row → Page → Type 0
Implements l rows r page = (page.rows ≡ rows_with l rows r) × Shows l r page

turned_down : (o : Option Bool) → points true (swaparrows down o) ≡ true
unfolding swaparrows
turned_down none = refl
turned_down (some b) = refl

turned_up : (o : Option Bool) → points false (swaparrows up o) ≡ true
unfolding swaparrows
turned_up none = refl
turned_up (some b) = refl

module _ (l : Link) (rows : List String) (there : includes l.parent_row rows ≡ true) where
  click-Implements :
      (r : Row) (page : Page)
      → may_come clicked r ≡ true
      → Implements l rows r page
      → Implements l rows (spec_event clicked r) (show_kids l page)
  unfolding Implements Shows spec_event show_kids toggle_or_make make_kid toggle_kid is_hidden
  click-Implements absent page m (e, (k, u)) =
      rw (k, e, there) (refl, (refl, ap (λ us. l.address ∷ us) u))
  click-Implements waiting page m i = absurd (ground arith)
  click-Implements (open_with s) page m (e, ((v, h, k), a, u)) =
      rw (k, h) (e, (refl, turned_up page.arrow, u))
  click-Implements (closed_with s) page m (e, (k, a, u)) =
      rw k (e, ((visible, refl, refl), turned_down page.arrow, u))

  answer-Implements :
      (html : String) (r : Row) (page : Page)
      → Implements l rows r page
      → Implements l rows (spec_event (answered html) r) (kids_answered html page.under_way page)
  unfolding Implements Shows spec_event kids_answered fill_kid is_hidden
  answer-Implements html absent page (e, (k, u)) =
      subst (λ us. Implements l rows absent (kids_answered html us page)) (sym u) (e, (k, u))
  answer-Implements html waiting page (e, (k, u)) =
      rw (u, k) (e, ((unset, refl, refl), turned_down page.arrow, refl))
  answer-Implements html (open_with s) page (e, (k, a, u)) =
      subst (λ us. Implements l rows (open_with s) (kids_answered html us page)) (sym u)
        (e, (k, a, u))
  answer-Implements html (closed_with s) page (e, (k, a, u)) =
      subst (λ us. Implements l rows (closed_with s) (kids_answered html us page)) (sym u)
        (e, (k, a, u))

  event-Implements :
      (e : Event) (r : Row) (page : Page)
      → may_come e r ≡ true
      → Implements l rows r page
      → Implements l rows (spec_event e r) (on_event l e page)
  unfolding on_event
  event-Implements clicked r page m i = click-Implements r page m i
  event-Implements (answered html) r page m i = answer-Implements html r page i

-- From a document that shows a row for kids as it is specified, where the parent's row is there,
-- any sequence of clicks on its link and of answers with no click while an answer is missing leads
-- to a document that shows the row as specified: absent, waiting, open with its arrow down, or
-- closed with its arrow up, behind its parent's row, with one request while it waits and none else.
pub run_kids-Implements :
    (l : Link) (rows : List String) (es : List Event) (r : Row) (page : Page)
    → includes l.parent_row rows ≡ true
    → is_patient es r ≡ true
    → Implements l rows r page
    → Implements l rows (spec_run es r) (run_events l es page)
unfolding spec_run run_events is_patient
run_kids-Implements l rows [] r page h p i = i
run_kids-Implements l rows (e ∷ es) r page h p i =
    run_kids-Implements l rows es (spec_event e r) (on_event l e page) h (ground arith)
      (event-Implements l rows h e r page (ground arith) i)
