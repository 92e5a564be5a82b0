-- ===== src/OtherEnd/Popups.antt =====
-- At most one popup is visible, and a popup that closes restores what was selected.
use jazzhands.Prelude.{
  ℕ, zero, suc, ◌+◌, ◌≤◌, ◌≡◌, refl, ap, Bool, true, false, String, Option, none, some, List, [],
  ◌∷◌, map, arith, get_elem?, modify, if◌then◌else◌, Option-cases, inl, inr,
}
use jazzhands.OtherEnd.State.{OtherEnd, Request, Page, pattern_of, search_url}
use jazzhands.OtherEnd.Actions.{
  hide_other, hide_others, open_popup, show_popup, closed, hide_popup, type_text, requested_field,
  emptied_field, get_matching_devices, fire, filled, pick, disconnected, connected,
  update_other_end, fill_popup, answer, fire_for, answer_to, Event, show_event, hide_event,
  disconnect_event, select_event, type_event, pick_event, fire_event, answer_event, handle, run,
  selected_option, track, picked, select_option, remove_at,
}

abbrev pub is_visible : OtherEnd → Bool
is_visible f = elim f.popup [ some p ↦ p.visible | none ↦ false ]

-- The number of popups that are visible.
abbrev pub visible_count : List OtherEnd → ℕ
visible_count [] = 0
visible_count (f ∷ fs) = (if is_visible f then 1 else 0) + visible_count fs

hide_other_hidden : (f : OtherEnd) → is_visible (hide_other f) ≡ false
unfolding hide_other
hide_other_hidden f = ground arith

map-hide_other : (fs : List OtherEnd) → visible_count (map hide_other fs) ≡ 0
map-hide_other [] = refl
map-hide_other (f ∷ fs) = rw (hide_other_hidden f, map-hide_other fs) refl

hide_others-count :
    (g : OtherEnd → OtherEnd) (i : ℕ) (fs : List OtherEnd)
    → visible_count (modify g i (hide_others i fs)) ≤ 1
unfolding hide_others modify
hide_others-count g i [] = omega arith
hide_others-count g zero (f ∷ fs) = rw (map-hide_other fs) (ground arith)
hide_others-count g (suc i) (f ∷ fs) = omega (
  arith,
  hide_others-count g i fs,
  ap (λ (b : Bool). let n : ℕ = if b then 1 else 0 in n) (hide_other_hidden f),
)

-- A change of one field that does not make a hidden popup visible.
Hides : (OtherEnd → OtherEnd) → Type 0
Hides g = (f : OtherEnd) → is_visible f ≡ false → is_visible (g f) ≡ false

modify-count :
    (g : OtherEnd → OtherEnd)
    → Hides g
    → (i : ℕ) (fs : List OtherEnd) → visible_count (modify g i fs) ≤ visible_count fs
unfolding modify Hides
modify-count g h i [] = omega arith
modify-count g h zero (f ∷ fs) = ground (arith, h f)
modify-count g h (suc i) (f ∷ fs) = ground (arith, modify-count g h i fs)

closed-Hides : Hides closed
unfolding Hides closed
closed-Hides f h = ground arith

typed-Hides : (s : String) → Hides (λ f. track (record f { value = s }))
unfolding Hides
typed-Hides s f h = h

requested-Hides : Hides requested_field
unfolding Hides requested_field
requested-Hides f h = ground arith

emptied-Hides : Hides emptied_field
unfolding Hides emptied_field
emptied-Hides f h = ground arith

filled-Hides : (s : String) (ds : List (String × String)) → Hides (filled s ds)
unfolding Hides filled
filled-Hides s ds f h = ground arith

picked-Hides : (n : ℕ) → Hides (picked n)
unfolding Hides picked
picked-Hides n f h = ground arith

disconnected-Hides : Hides disconnected
unfolding Hides disconnected
disconnected-Hides f h = ground arith

connected-Hides : (id text : String) → Hides (connected id text)
unfolding Hides connected
connected-Hides id text f h = ground arith

AtMostOne : Page → Type 0
AtMostOne p = visible_count p.fields ≤ 1

show_popup-AtMostOne : (i : ℕ) (p : Page) → AtMostOne p → AtMostOne (show_popup i p)
unfolding show_popup AtMostOne
show_popup-AtMostOne i p h = ground (arith, hide_others-count open_popup i p.fields)

hide_popup-AtMostOne : (i : ℕ) (p : Page) → AtMostOne p → AtMostOne (hide_popup i p)
unfolding hide_popup AtMostOne
hide_popup-AtMostOne i p h = ground (arith, modify-count closed closed-Hides i p.fields)

get_matching-AtMostOne : (i : ℕ) (p : Page) → AtMostOne p → AtMostOne (get_matching_devices i p)
unfolding get_matching_devices AtMostOne
get_matching-AtMostOne i p h = ground (
  arith,
  modify-count requested_field requested-Hides i p.fields,
  modify-count emptied_field emptied-Hides i p.fields,
)

fire-AtMostOne : (t : Option ℕ) (p : Page) → AtMostOne p → AtMostOne (fire_for t p)
unfolding fire_for AtMostOne
fire-AtMostOne none p h = h
fire-AtMostOne (some i) p h = get_matching-AtMostOne i (record p { timer = none }) h

selecting :
    (i : ℕ) (p : Page) (o : Option (String × String))
    → AtMostOne p
    → AtMostOne (select_option i o p)
unfolding AtMostOne select_option
selecting i p none h = h
selecting i p (some (id, text)) h =
    omega (arith, modify-count (connected id text) (connected-Hides id text) i p.fields)

update_other_end-AtMostOne :
    (i : ℕ) (b : Bool) (p : Page) → AtMostOne p → AtMostOne (update_other_end i b p)
unfolding update_other_end AtMostOne
update_other_end-AtMostOne i b p h = elim (Option-cases (get_elem? p.fields i)) [
  | inl n ↦ rw (n, update_other_end) h
  | inr (f, n) ↦ ground (
    arith,
    modify-count disconnected disconnected-Hides i p.fields,
    selecting i p (selected_option f) h,
  )
]

module _ (address : String → String) (devices : String → List (String × String)) where
  fill_popup-AtMostOne :
      (r : Request) (p : Page) → AtMostOne p → AtMostOne (fill_popup address devices r p)
  unfolding fill_popup AtMostOne
  fill_popup-AtMostOne r p h = ground (
    arith,
    modify-count (filled (pattern_of (address (search_url r.pattern))) (devices r.pattern))
        (filled-Hides _ _) r.field p.fields,
  )

  answer-AtMostOne :
      (o : Option Request) (k : ℕ) (p : Page)
      → AtMostOne p
      → AtMostOne (answer_to address devices o k p)
  unfolding answer_to AtMostOne
  answer-AtMostOne none k p h = h
  answer-AtMostOne (some r) k p h =
      fill_popup-AtMostOne r (record p { requests = remove_at k p.requests }) h

  handle-AtMostOne :
      (e : Event address devices) (p : Page) → AtMostOne p → AtMostOne (handle address devices e p)
  unfolding handle type_text pick AtMostOne fire answer
  handle-AtMostOne (show_event i) p h = show_popup-AtMostOne i p h
  handle-AtMostOne (hide_event i) p h = hide_popup-AtMostOne i p h
  handle-AtMostOne (disconnect_event i) p h = update_other_end-AtMostOne i true p h
  handle-AtMostOne (select_event i) p h = update_other_end-AtMostOne i false p h
  handle-AtMostOne (type_event i s) p h =
      omega (arith, modify-count (λ f. track (record f { value = s })) (typed-Hides s) i p.fields)
  handle-AtMostOne (pick_event i n) p h =
      omega (arith, modify-count (picked n) (picked-Hides n) i p.fields)
  handle-AtMostOne fire_event p h = fire-AtMostOne p.timer p h
  handle-AtMostOne (answer_event k) p h = answer-AtMostOne (get_elem? p.requests k) k p h

  -- From a page with at most one visible popup, any sequence of the user's actions, of timers and
  -- of answers in any order leaves at most one visible popup.
  pub run-visible :
      (es : List (Event address devices)) (p : Page)
      → visible_count p.fields ≤ 1
      → visible_count (run address devices es p).fields ≤ 1
  unfolding run AtMostOne
  run-visible [] p h = h
  run-visible (e ∷ es) p h = run-visible es (handle address devices e p) (handle-AtMostOne e p h)

-- A field whose device was selected from the list, and whose popup is shown and closed again
-- after any text was typed, has that device's name again.
pub closed-connected :
    (id text typed : String) (f : OtherEnd)
    → ((closed (record (connected id text f) { value = typed })).value ≡ text)
      × ((closed (record (connected id text f) { value = typed })).device_id ≡ id)
unfolding closed connected
closed-connected id text typed f = (refl, refl)
