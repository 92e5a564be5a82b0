-- ===== src/Attest/Consistency.antt =====
-- The value of a row, its buttons and its correction agree.
use jazzhands.Prelude.{
  ℕ, ◌≡◌, inl, inr, Bool, true, false, not, ◌&&◌, str_eq, Option, none, some, List, [], ◌∷◌, map,
  any, all, if◌then◌else◌, modify, all-map, all-modify, arith, Bool-cases,
}
use jazzhands.Attest.Page.{
  Correction, Row, on_approval, on_correction, has_approval, toggle_approval, close_correction,
  attest_toggle, approve_all, focus_hint, blur_correction, mark_correction, mark_approval,
  check_corrections, check_approvals, submit_attest, Event, toggled, all_approved, focused, blurred,
  filled, submitted, at_row, handle_event, run_events,
}

-- The correction is shown, and sent, or neither.
abbrev pub shows : Bool → Option Correction → Bool
shows b none = true
shows true (some c) = not c.hidden && not c.disabled
shows false (some c) = c.hidden

-- Before an answer no button is on and the correction is hidden; after `approve` its button is on
-- and the correction is hidden and disabled; after `reject` the other is on and the correction is
-- shown.
abbrev pub is_consistent : Row → Bool
is_consistent r = elim r.approval [
  | none ↦ true
  | some a ↦
      if str_eq a.value ""
      then not a.approve_on && not a.disapprove_on && shows false r.correction
      else if str_eq a.value "approve"
      then a.approve_on
        && not a.disapprove_on
        && elim r.correction [ none ↦ true | some c ↦ c.hidden && c.disabled ]
      else str_eq a.value "reject" && not a.approve_on && a.disapprove_on && shows true r.correction
]

toggle-is_consistent :
    (b : Bool) (r : Row) → is_consistent r ≡ true → is_consistent (attest_toggle b r) ≡ true
unfolding attest_toggle
toggle-is_consistent true r h = ground arith
toggle-is_consistent false r h = ground arith

approve-is_consistent :
    (r : Row)
    → is_consistent (on_correction close_correction (on_approval (toggle_approval true) r)) ≡ true
approve-is_consistent r = ground arith

focus-is_consistent :
    (r : Row) → is_consistent r ≡ true → is_consistent (on_correction focus_hint r) ≡ true
unfolding focus_hint
focus-is_consistent r h = ground arith

blur-is_consistent :
    (r : Row) → is_consistent r ≡ true → is_consistent (on_correction blur_correction r) ≡ true
unfolding blur_correction
blur-is_consistent r h = ground arith

mark-is_consistent :
    (b : Bool) (r : Row)
    → is_consistent r ≡ true
    → is_consistent (on_correction (mark_correction b) r) ≡ true
unfolding mark_correction
mark-is_consistent b r h = ground arith

approvals-is_consistent :
    (r : Row) → is_consistent r ≡ true → is_consistent (on_approval mark_approval r) ≡ true
approvals-is_consistent r h = ground arith

abbrev pub consistent : List (List Row) → Bool
consistent tables = all (all is_consistent) tables

at_row-consistent :
    (t n : ℕ) (g : Row → Row) (tables : List (List Row))
    → ((r : Row) → is_consistent r ≡ true → is_consistent (g r) ≡ true)
    → consistent tables ≡ true
    → consistent (at_row t n g tables) ≡ true
at_row-consistent t n g tables k h =
    all-modify (all is_consistent) (modify g n) t tables
      (λ rows. all-modify is_consistent g n rows k) h

map-consistent :
    (g : Row → Row) (tables : List (List Row))
    → ((r : Row) → is_consistent r ≡ true → is_consistent (g r) ≡ true)
    → consistent tables ≡ true
    → consistent (map (map g) tables) ≡ true
map-consistent g tables k h =
    all-map (all is_consistent) (all is_consistent) (map g) tables
      (λ rows. all-map is_consistent is_consistent g rows k) h

approve_all-consistent :
    (rows : List Row) → all is_consistent rows ≡ true → all is_consistent (approve_all rows) ≡ true
unfolding approve_all
approve_all-consistent rows h = elim (Bool-cases (any has_approval rows)) [
  | inl t ↦ rw t (
      all-map is_consistent is_consistent
        (λ r. on_correction close_correction (on_approval (toggle_approval true) r)) rows
        (λ r k. approve-is_consistent r) h)
  | inr t ↦ rw t h
]

submit-consistent :
    (tables : List (List Row))
    → consistent tables ≡ true
    → consistent (submit_attest tables).1 ≡ true
unfolding submit_attest check_corrections check_approvals
submit-consistent tables h =
    let texts = map (map (on_correction (mark_correction false))) tables in
    let selects = map (map (on_correction (mark_correction true))) texts in
    map-consistent (on_approval mark_approval) selects approvals-is_consistent (
      map-consistent (on_correction (mark_correction true)) texts (mark-is_consistent true) (
        map-consistent (on_correction (mark_correction false)) tables (mark-is_consistent false) h))

handle_event-consistent :
    (e : Event) (tables : List (List Row))
    → consistent tables ≡ true
    → consistent (handle_event e tables) ≡ true
unfolding handle_event
handle_event-consistent (toggled t r approve) tables h =
    at_row-consistent t r (attest_toggle approve) tables (toggle-is_consistent approve) h
handle_event-consistent (all_approved t) tables h =
    all-modify (all is_consistent) approve_all t tables approve_all-consistent h
handle_event-consistent (focused t r) tables h =
    at_row-consistent t r (on_correction focus_hint) tables focus-is_consistent h
handle_event-consistent (blurred t r) tables h =
    at_row-consistent t r (on_correction blur_correction) tables blur-is_consistent h
handle_event-consistent (filled t r s) tables h =
    at_row-consistent t r (on_correction (λ c. record c { value = s })) tables
      (λ x k. fill-is_consistent x k) h
  where
    fill-is_consistent :
        (x : Row)
        → is_consistent x ≡ true
        → is_consistent (on_correction (λ c. record c { value = s }) x) ≡ true
    fill-is_consistent x k = ground arith
handle_event-consistent submitted tables h = submit-consistent tables h

-- From a page where the value, the buttons and the correction of each row agree, any sequence of
-- clicks, entries and tries to submit leads to such a page.
pub run_events-consistent :
    (es : List Event) (tables : List (List Row))
    → consistent tables ≡ true
    → consistent (run_events es tables) ≡ true
unfolding run_events
run_events-consistent [] tables h = h
run_events-consistent (e ∷ es) tables h =
    run_events-consistent es (handle_event e tables) (handle_event-consistent e tables h)
