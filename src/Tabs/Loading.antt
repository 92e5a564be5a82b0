-- ===== src/Tabs/Loading.antt =====
-- No tab stays empty once the requests are answered.
use jazzhands.Prelude.{
  ℕ, zero, suc, ◌≡◌, refl, inl, inr, Bool, true, false, not, ◌&&◌, ◌||◌, String, str_eq, eq_iff,
  eq_refl, Option, none, some, some_inj, List, [], ◌∷◌, ◌++◌, map, any, all, all-map, all_mono,
  if◌then◌else◌, arith, Bool-cases, Option-cases, get_elem?, modify, ◌==◌,
}
use jazzhands.Tabs.Page.{
  TabDiv, TabRequest, Page, Reload, is_forced, is_false, forced, unforced, undefined, content_name,
  has_div, show_div, hide_other, new_div, new_request, activate, send, show_dev_tab,
  force_dev_tab_load, reach, fill_div, on_ready_state, change_state,
}
use jazzhands.Tabs.Spec.{Event, selected, answered, opened}
use jazzhands.Tabs.Refinement.{handle_event, run_events}

abbrev pub is_filled : TabDiv → Bool
is_filled d = elim d.content [ none ↦ false | some html ↦ true ]

-- A request for the element has no answer yet.
abbrev pub awaits : String → List TabRequest → Bool
awaits id rs = any (λ r. not (r.ready_state == 4) && str_eq id r.target) rs

abbrev pub is_awaited : List TabRequest → TabDiv → Bool
is_awaited rs d = is_filled d || awaits d.id rs

abbrev pub all_awaited : {R : Type 0} → Page R → Bool
all_awaited p = all (is_awaited p.requests) p.divs

hidden-is_awaited :
    (name : String) (rs : List TabRequest) (ds : List TabDiv)
    → all (is_awaited rs) ds ≡ true
    → all (is_awaited rs) (map (hide_other name) ds) ≡ true
hidden-is_awaited name rs ds h =
    all-map (is_awaited rs) (is_awaited rs) (hide_other name) ds (λ d k. hidden d k) h
  where
    hidden : (d : TabDiv) → is_awaited rs d ≡ true → is_awaited rs (hide_other name d) ≡ true
    hidden d k = ground arith

kept-is_awaited :
    (name : String) (rs : List TabRequest) (ds : List TabDiv)
    → all (is_awaited rs) ds ≡ true
    → all (is_awaited rs) (map (show_div name false) ds) ≡ true
kept-is_awaited name rs ds h =
    all-map (is_awaited rs) (is_awaited rs) (show_div name false) ds (λ d k. kept d k) h
  where
    kept : (d : TabDiv) → is_awaited rs d ≡ true → is_awaited rs (show_div name false d) ≡ true
    kept d k = ground arith

-- A request for the element is sent.
sent-is_awaited :
    (b : Bool) (q : TabRequest) (rs : List TabRequest) (ds : List TabDiv)
    → q.ready_state ≡ 1
    → all (is_awaited rs) ds ≡ true
    → all (is_awaited (q ∷ rs)) (map (show_div q.target b) ds) ≡ true
sent-is_awaited b q rs ds e h =
    all-map (is_awaited rs) (is_awaited (q ∷ rs)) (show_div q.target b) ds (λ d k. sent b d k) h
  where
    sent :
        (b : Bool) (d : TabDiv)
        → is_awaited rs d ≡ true
        → is_awaited (q ∷ rs) (show_div q.target b d) ≡ true
    sent true d k = ground (arith, eq_iff d.id q.target)
    sent false d k = ground arith

added-is_awaited :
    (q : TabRequest) (rs : List TabRequest) (ds : List TabDiv)
    → q.ready_state ≡ 1
    → all (is_awaited rs) ds ≡ true
    → all (is_awaited (q ∷ rs)) (ds ++ new_div q.target ∷ []) ≡ true
added-is_awaited q rs [] e h = ground (arith, eq_refl q.target)
added-is_awaited q rs (d ∷ ds) e h = ground (arith, added-is_awaited q rs ds)

-- A request that changes its state leaves an element awaited, or is the one that was awaited.
reach-awaits :
    (n k : ℕ) (id : String) (rs : List TabRequest) (r : TabRequest)
    → get_elem? (modify (reach n) k rs) k ≡ some r
    → awaits id rs ≡ true
    → (r.ready_state == 4 && str_eq id r.target || awaits id (modify (reach n) k rs)) ≡ true
unfolding modify
reach-awaits n k id [] r e h = cc
reach-awaits n zero id (q ∷ rs) r e h =
    let same = some_inj (reach n q) r e in rw⁻¹ same (ground arith)
reach-awaits n (suc k) id (q ∷ rs) r e h = ground (arith, reach-awaits n k id rs r e)

missing-awaits :
    (n k : ℕ) (id : String) (rs : List TabRequest)
    → get_elem? (modify (reach n) k rs) k ≡ none
    → awaits id rs ≡ true
    → awaits id (modify (reach n) k rs) ≡ true
unfolding modify
missing-awaits n k id [] e h = h
missing-awaits n zero id (q ∷ rs) e h = cc
missing-awaits n (suc k) id (q ∷ rs) e h = ground (arith, missing-awaits n k id rs e)

missing-is_awaited :
    (n k : ℕ) (rs : List TabRequest) (ds : List TabDiv)
    → get_elem? (modify (reach n) k rs) k ≡ none
    → all (is_awaited rs) ds ≡ true
    → all (is_awaited (modify (reach n) k rs)) ds ≡ true
missing-is_awaited n k rs ds e h =
    all_mono (is_awaited rs) (is_awaited (modify (reach n) k rs)) ds
      (λ d i. ground (arith, missing-awaits n k d.id rs e)) h

pending-is_awaited :
    (n k : ℕ) (rs : List TabRequest) (r : TabRequest) (ds : List TabDiv)
    → get_elem? (modify (reach n) k rs) k ≡ some r
    → (r.ready_state == 4) ≡ false
    → all (is_awaited rs) ds ≡ true
    → all (is_awaited (modify (reach n) k rs)) ds ≡ true
pending-is_awaited n k rs r ds e t h =
    all_mono (is_awaited rs) (is_awaited (modify (reach n) k rs)) ds
      (λ d i. ground (arith, reach-awaits n k d.id rs r e)) h

answered-is_awaited :
    (n k : ℕ) (html : String) (rs : List TabRequest) (r : TabRequest) (ds : List TabDiv)
    → get_elem? (modify (reach n) k rs) k ≡ some r
    → all (is_awaited rs) ds ≡ true
    → all (is_awaited (modify (reach n) k rs)) (map (fill_div r.target html) ds) ≡ true
answered-is_awaited n k html rs r ds e h =
    all-map (is_awaited rs) (is_awaited (modify (reach n) k rs)) (fill_div r.target html) ds
      (λ d i. ground (arith, reach-awaits n k d.id rs r e)) h

module _ (R : Type 0) (server : String → String) (refresh : List TabDiv → R → R)
    (address devid : String) where
  show-all_awaited :
      (what : String) (reload : Reload) (p : Page R)
      → all_awaited p ≡ true
      → all_awaited (show_dev_tab address what reload (some devid) p) ≡ true
  unfolding show_dev_tab
  show-all_awaited what reload p h =
      let name = content_name what in
      let q = new_request address devid what in
      elim (Bool-cases (has_div name p.divs)) [
        | inl t ↦ rw t (shown reload)
        | inr t ↦ elim (Bool-cases p.has_group) [
          | inl g ↦
              rw (t, g)
                (hidden-is_awaited name (q ∷ p.requests) (p.divs ++ new_div name ∷ [])
                  (added-is_awaited q p.requests p.divs refl h))
          | inr g ↦ rw (t, g) h
        ]
      ]
    where
      shown :
          (reload : Reload)
          → (let page = activate what (record p {
            divs = map (show_div (content_name what) (is_forced reload)) p.divs;
          }) in
              all_awaited
                (if is_false reload then page else send (new_request address devid what) page)
              ≡ true)
      shown forced =
          let q = new_request address devid what in
          hidden-is_awaited (content_name what) (q ∷ p.requests)
            (map (show_div (content_name what) true) p.divs)
            (sent-is_awaited true q p.requests p.divs refl h)
      shown unforced =
          hidden-is_awaited (content_name what) p.requests
            (map (show_div (content_name what) false) p.divs)
            (kept-is_awaited (content_name what) p.requests p.divs h)
      shown undefined =
          let q = new_request address devid what in
          hidden-is_awaited (content_name what) (q ∷ p.requests)
            (map (show_div (content_name what) false) p.divs)
            (sent-is_awaited false q p.requests p.divs refl h)

  answer-all_awaited :
      (k n : ℕ) (p : Page R)
      → all_awaited p ≡ true
      → all_awaited (change_state server refresh k n p) ≡ true
  unfolding change_state on_ready_state
  answer-all_awaited k n p h =
      let rs = modify (reach n) k p.requests in
      elim (Option-cases (get_elem? rs k)) [
        | inl e ↦ rw e (missing-is_awaited n k p.requests p.divs e h)
        | inr (r, e) ↦ elim (Bool-cases (r.ready_state == 4)) [
          | inl t ↦ rw (e, t) (answered-is_awaited n k (server r.url) p.requests r p.divs e h)
          | inr t ↦ rw (e, t) (pending-is_awaited n k p.requests r p.divs e t h)
        ]
      ]

  start_with-all_awaited :
      (o : Option String) (p : Page R)
      → all_awaited p ≡ true
      → all_awaited (force_dev_tab_load address o (some devid) p) ≡ true
  unfolding force_dev_tab_load
  start_with-all_awaited none p h = h
  start_with-all_awaited (some what) p h = elim (Bool-cases (str_eq what "")) [
    | inl t ↦ rw t h
    | inr t ↦ rw t (show-all_awaited what forced p h)
  ]

  run_events-all_awaited :
      (es : List Event) (p : Page R)
      → all_awaited p ≡ true
      → all_awaited (run_events R server refresh address devid es p) ≡ true
  unfolding run_events handle_event
  run_events-all_awaited [] p h = h
  run_events-all_awaited (selected what reload ∷ es) p h =
      run_events-all_awaited es (show_dev_tab address what reload (some devid) p)
        (show-all_awaited what reload p h)
  run_events-all_awaited (answered k n ∷ es) p h =
      run_events-all_awaited es (change_state server refresh k n p) (answer-all_awaited k n p h)
  run_events-all_awaited (opened o ∷ es) p h =
      run_events-all_awaited es (force_dev_tab_load address o (some devid) p)
        (start_with-all_awaited o p h)

  -- From a document where each tab is filled or a request for it is under way, after any sequence
  -- of selections, also with reloads, and of answers in any order, once every request that was
  -- sent is answered no tab is left empty.
  pub answered-all_filled :
      (es : List Event) (p : Page R)
      → all_awaited p ≡ true
      → all (λ r. r.ready_state == 4) (run_events R server refresh address devid es p).requests
        ≡ true
      → all is_filled (run_events R server refresh address devid es p).divs ≡ true
  answered-all_filled es p h k =
      let q = run_events R server refresh address devid es p in
      all_mono (is_awaited q.requests) is_filled q.divs
        (λ d i. ground (arith, none_awaited d.id q.requests k)) (run_events-all_awaited es p h)
    where
      none_awaited :
          (id : String) (rs : List TabRequest)
          → all (λ r. r.ready_state == 4) rs ≡ true
          → awaits id rs ≡ false
      none_awaited id [] k = refl
      none_awaited id (r ∷ rs) k = ground (arith, none_awaited id rs)
