-- ===== src/Tabs/Refinement.antt =====
-- The document does what the tabs promise.
use jazzhands.Prelude.{
  ℕ, zero, suc, ◌≡◌, refl, ap, ◌∙◌, sym, subst, inl, inr, Bool, true, false, String, str_eq,
  str_eq-append_right, eq_iff, eq_refl, Option, none, some, some_inj, List, [], ◌∷◌, ◌++◌, map, all,
  All, includes, distinct, if◌then◌else◌, arith, Bool-cases, get_elem?, modify, ◌==◌,
}
use jazzhands.Tabs.Page.{
  TabDiv, TabLink, TabRequest, Page, Reload, is_forced, is_false, content_name, has_div, show_div,
  hide_other, mark_link, new_div, tab_url, show_dev_tab, force_dev_tab_load, forced, reach,
  fill_div, on_ready_state, change_state,
}
use jazzhands.Tabs.Spec.{
  Tabs, fresh, Event, selected, answered, opened, select, start_with, promised, is_shown, is_click,
  sent_once, promised-once,
}

module _ (R : Type 0) (server : String → String) (refresh : List TabDiv → R → R)
    (address devid : String) where
  unfoldable pub handle_event : Event → Page R → Page R
  handle_event (selected what reload) p = show_dev_tab address what reload (some devid) p
  handle_event (answered k n) p = change_state server refresh k n p
  handle_event (opened o) p = force_dev_tab_load address o (some devid) p

  unfoldable pub run_events : List Event → Page R → Page R
  unfolding handle_event
  run_events [] p = p
  run_events (e ∷ es) p = run_events es (handle_event e p)

  abbrev pub ContentFor : String → Option String → Type 0
  ContentFor w none = Unit {0}
  ContentFor w (some html) = html ≡ server (tab_url address devid w)

  abbrev pub DivFor : Option String → String → TabDiv → Type 0
  DivFor o w d = (d.id ≡ content_name w) × (d.active ≡ is_shown o w) × ContentFor w d.content

  -- The elements are those of the tabs that are loaded, in their order.
  abbrev pub DivsFor : Option String → List String → List TabDiv → Type 0
  DivsFor o [] [] = Unit {0}
  DivsFor o [] (d ∷ ds) = ⊥
  DivsFor o (w ∷ ws) [] = ⊥
  DivsFor o (w ∷ ws) (d ∷ ds) = DivFor o w d × DivsFor o ws ds

  abbrev pub RequestFor : String → TabRequest → Type 0
  RequestFor w r = (r.target ≡ content_name w) × (r.url ≡ tab_url address devid w)

  abbrev pub RequestsFor : List String → List TabRequest → Type 0
  RequestsFor [] [] = Unit {0}
  RequestsFor [] (r ∷ rs) = ⊥
  RequestsFor (w ∷ ws) [] = ⊥
  RequestsFor (w ∷ ws) (r ∷ rs) = RequestFor w r × RequestsFor ws rs

  -- The tab that is shown is the one active element and the one active link, each element that is
  -- filled holds the server's answer for its tab, and the requests are those of the tabs.
  pub record Implements (s : Tabs) (p : Page R) : Type 0 where
    pub group : p.has_group ≡ true
    pub divs : DivsFor s.shown s.loaded p.divs
    pub links : All (λ l. l.active ≡ is_shown s.shown l.id) p.links
    pub requests : RequestsFor s.sent p.requests

  has_div-includes :
      (o : Option String) (what : String) (ws : List String) (ds : List TabDiv)
      → DivsFor o ws ds
      → has_div (content_name what) ds ≡ includes what ws
  has_div-includes o what [] [] h = refl
  has_div-includes o what [] (d ∷ ds) h = elim h [ ]
  has_div-includes o what (w ∷ ws) [] h = elim h [ ]
  has_div-includes o what (w ∷ ws) (d ∷ ds) h =
      let e : str_eq d.id (content_name what) ≡ str_eq w what =
        ap (λ n. str_eq n (content_name what)) h.0.0 ∙ str_eq-append_right w what "_content" in
      ground (arith, e, has_div-includes o what ws ds h.1)

  shown-DivFor :
      (o : Option String) (what w : String) (b : Bool) (d : TabDiv)
      → DivFor o w d
      → DivFor (some what) w (hide_other (content_name what) (show_div (content_name what) b d))
  shown-DivFor o what w b d h =
      let e : str_eq d.id (content_name what) ≡ str_eq w what =
        ap (λ n. str_eq n (content_name what)) h.0 ∙ str_eq-append_right w what "_content" in
      elim (Bool-cases (str_eq w what)) [
        | inl t ↦
            let u : str_eq d.id (content_name what) ≡ true = e ∙ t in
            rw (u, u) (h.0, sym t, reloaded b)
        | inr t ↦
            let u : str_eq d.id (content_name what) ≡ false = e ∙ t in rw (u, u) (h.0, sym t, h.2)
      ]
    where
      reloaded : (b : Bool) → ContentFor w (if b then none else d.content)
      reloaded true = tt
      reloaded false = h.2

  shown-DivsFor :
      (o : Option String) (what : String) (b : Bool) (ws : List String) (ds : List TabDiv)
      → DivsFor o ws ds
      → DivsFor
          (some what)
          ws
          (map (hide_other (content_name what)) (map (show_div (content_name what) b) ds))
  shown-DivsFor o what b [] [] h = tt
  shown-DivsFor o what b [] (d ∷ ds) h = elim h [ ]
  shown-DivsFor o what b (w ∷ ws) [] h = elim h [ ]
  shown-DivsFor o what b (w ∷ ws) (d ∷ ds) h =
      (shown-DivFor o what w b d h.0, shown-DivsFor o what b ws ds h.1)

  added-DivsFor :
      (o : Option String) (what : String) (ws : List String) (ds : List TabDiv)
      → includes what ws ≡ false
      → DivsFor o ws ds
      → DivsFor
          (some what)
          (ws ++ what ∷ [])
          (map (hide_other (content_name what)) (ds ++ new_div (content_name what) ∷ []))
  added-DivsFor o what [] [] k h =
      rw (eq_refl (content_name what)) ((refl, sym (eq_refl what), tt), tt)
  added-DivsFor o what [] (d ∷ ds) k h = elim h [ ]
  added-DivsFor o what (w ∷ ws) [] k h = elim h [ ]
  added-DivsFor o what (w ∷ ws) (d ∷ ds) k h =
      let t : str_eq w what ≡ false = ground arith in
      let u : str_eq d.id (content_name what) ≡ false =
        ap (λ n. str_eq n (content_name what)) h.0.0 ∙ str_eq-append_right w what "_content" ∙ t in
      (rw u (h.0.0, sym t, h.0.2), added-DivsFor o what ws ds (ground arith) h.1)

  filled-DivsFor :
      (o : Option String) (v : String) (ws : List String) (ds : List TabDiv)
      → DivsFor o ws ds
      → DivsFor o ws (map (fill_div (content_name v) (server (tab_url address devid v))) ds)
  filled-DivsFor o v [] [] h = tt
  filled-DivsFor o v [] (d ∷ ds) h = elim h [ ]
  filled-DivsFor o v (w ∷ ws) [] h = elim h [ ]
  filled-DivsFor o v (w ∷ ws) (d ∷ ds) h =
      let e : str_eq d.id (content_name v) ≡ str_eq w v =
        ap (λ n. str_eq n (content_name v)) h.0.0 ∙ str_eq-append_right w v "_content" in
      let rest = filled-DivsFor o v ws ds h.1 in
      elim (Bool-cases (str_eq w v)) [
        | inl t ↦
            let u : str_eq d.id (content_name v) ≡ true = e ∙ t in
            (
              rw u (
                h.0.0,
                h.0.1,
                ap (λ x. server (tab_url address devid x)) (sym ((eq_iff w v).0 t)),
              ),
              rest,
            )
        | inr t ↦ let u : str_eq d.id (content_name v) ≡ false = e ∙ t in (rw u h.0, rest)
      ]

  All-mark :
      (what : String) (ls : List TabLink)
      → All (λ l. l.active ≡ str_eq l.id what) (map (mark_link what) ls)
  All-mark what [] = tt
  All-mark what (l ∷ ls) = (refl, All-mark what ls)

  reach-RequestsFor :
      (n k : ℕ) (ws : List String) (rs : List TabRequest)
      → RequestsFor ws rs
      → RequestsFor ws (modify (reach n) k rs)
  unfolding modify
  reach-RequestsFor n k [] [] h = h
  reach-RequestsFor n k [] (r ∷ rs) h = elim h [ ]
  reach-RequestsFor n k (w ∷ ws) [] h = elim h [ ]
  reach-RequestsFor n zero (w ∷ ws) (r ∷ rs) h = h
  reach-RequestsFor n (suc k) (w ∷ ws) (r ∷ rs) h = (h.0, reach-RequestsFor n k ws rs h.1)

  get-RequestFor :
      (k : ℕ) (ws : List String) (rs : List TabRequest) (r : TabRequest)
      → RequestsFor ws rs
      → get_elem? rs k ≡ some r
      → (w : String) × RequestFor w r
  get-RequestFor k [] [] r h e = cc
  get-RequestFor k [] (q ∷ rs) r h e = elim h [ ]
  get-RequestFor k (w ∷ ws) [] r h e = elim h [ ]
  get-RequestFor zero (w ∷ ws) (q ∷ rs) r h e = (w, subst (RequestFor w) (some_inj q r e) h.0)
  get-RequestFor (suc k) (w ∷ ws) (q ∷ rs) r h e = get-RequestFor k ws rs r h.1 e

  select-Implements :
      (what : String) (reload : Reload) (s : Tabs) (p : Page R)
      → Implements s p
      → Implements (select what reload s) (show_dev_tab address what reload (some devid) p)
  unfolding select show_dev_tab
  select-Implements what reload s p h =
      let e = has_div-includes s.shown what s.loaded p.divs h.divs in
      elim (Bool-cases (includes what s.loaded)) [
        | inl t ↦
            let u : has_div (content_name what) p.divs ≡ true = e ∙ t in
            let divs = shown-DivsFor s.shown what (is_forced reload) s.loaded p.divs h.divs in
            elim (Bool-cases (is_false reload)) [
              | inl f ↦
                  rw (t, u, f)
                    (record {
                      group = h.group;
                      divs = divs;
                      links = All-mark what p.links;
                      requests = h.requests;
                    })
              | inr f ↦
                  rw (t, u, f)
                    (record {
                      group = h.group;
                      divs = divs;
                      links = All-mark what p.links;
                      requests = ((refl, refl), h.requests);
                    })
            ]
        | inr t ↦
            let u : has_div (content_name what) p.divs ≡ false = e ∙ t in
            let g = h.group in
            rw (t, u, g)
              (record {
                group = refl;
                divs = added-DivsFor s.shown what s.loaded p.divs t h.divs;
                links = All-mark what p.links;
                requests = ((refl, refl), h.requests);
              })
      ]

  on_ready_state-Implements :
      (s : Tabs) (o : Option TabRequest) (p : Page R)
      → ((r : TabRequest) → o ≡ some r → (w : String) × RequestFor w r)
      → Implements s p
      → Implements s (on_ready_state server refresh o p)
  unfolding on_ready_state
  on_ready_state-Implements s none p k h = h
  on_ready_state-Implements s (some r) p k h = elim (Bool-cases (r.ready_state == 4)) [
    | inl t ↦
        let (w, same) = k r refl in
        rw (t, same.0, same.1)
          (record {
            group = h.group;
            divs = filled-DivsFor s.shown w s.loaded p.divs h.divs;
            links = h.links;
            requests = h.requests;
          })
    | inr t ↦
        rw t (record { group = h.group; divs = h.divs; links = h.links; requests = h.requests })
  ]

  answer-Implements :
      (k n : ℕ) (s : Tabs) (p : Page R)
      → Implements s p
      → Implements s (change_state server refresh k n p)
  unfolding change_state
  answer-Implements k n s p h =
      let rs = modify (reach n) k p.requests in
      let requests = reach-RequestsFor n k s.sent p.requests h.requests in
      on_ready_state-Implements s (get_elem? rs k) (record p { requests = rs })
        (λ r e. get-RequestFor k s.sent rs r requests e)
        (record { group = h.group; divs = h.divs; links = h.links; requests = requests })

  start_with-Implements :
      (o : Option String) (s : Tabs) (p : Page R)
      → Implements s p
      → Implements (start_with o s) (force_dev_tab_load address o (some devid) p)
  unfolding start_with force_dev_tab_load
  start_with-Implements none s p h = h
  start_with-Implements (some what) s p h = elim (Bool-cases (str_eq what "")) [
    | inl t ↦ rw t h
    | inr t ↦ rw t (select-Implements what forced s p h)
  ]

  -- Where the document shows what the tabs promise, any sequence of selections and answers in any
  -- order leads to a document that shows what they promise then: the tab selected last, and no
  -- other, is active with its link, and each tab holds the answer to its own request or none yet.
  pub run_events-Implements :
      (es : List Event) (s : Tabs) (p : Page R)
      → Implements s p
      → Implements (promised es s) (run_events es p)
  unfolding run_events promised handle_event
  run_events-Implements [] s p h = h
  run_events-Implements (selected what reload ∷ es) s p h =
      run_events-Implements es (select what reload s)
        (show_dev_tab address what reload (some devid) p) (select-Implements what reload s p h)
  run_events-Implements (answered k n ∷ es) s p h =
      run_events-Implements es s (change_state server refresh k n p) (answer-Implements k n s p h)
  run_events-Implements (opened o ∷ es) s p h =
      run_events-Implements es (start_with o s) (force_dev_tab_load address o (some devid) p)
        (start_with-Implements o s p h)

  targets-distinct :
      (ws : List String) (rs : List TabRequest)
      → RequestsFor ws rs
      → distinct ws ≡ true
      → distinct (map (λ r. r.target) rs) ≡ true
  targets-distinct [] [] h k = refl
  targets-distinct [] (r ∷ rs) h k = elim h [ ]
  targets-distinct (w ∷ ws) [] h k = elim h [ ]
  targets-distinct (w ∷ ws) (r ∷ rs) h k =
      ground (arith, targets-includes r.target w ws rs h.1 h.0.0, targets-distinct ws rs h.1)
    where
      targets-includes :
          (n w : String) (ws : List String) (rs : List TabRequest)
          → RequestsFor ws rs
          → n ≡ content_name w
          → includes n (map (λ r. r.target) rs) ≡ includes w ws
      targets-includes n w [] [] h e = refl
      targets-includes n w [] (r ∷ rs) h e = elim h [ ]
      targets-includes n w (v ∷ ws) [] h e = elim h [ ]
      targets-includes n w (v ∷ ws) (r ∷ rs) h e =
          let u : str_eq r.target n ≡ str_eq v w =
            rw (h.0.0, e) (str_eq-append_right v w "_content") in
          ground (arith, u, targets-includes n w ws rs h.1 e)

  -- From a document with no tab loaded and no request sent, any sequence of clicks on links and of
  -- answers sends at most one request for each tab.
  pub clicks_once :
      (es : List Event) (p : Page R)
      → Implements fresh p
      → all is_click es ≡ true
      → distinct (map (λ r. r.target) (run_events es p).requests) ≡ true
  clicks_once es p h k =
      let once : sent_once (promised es fresh) ≡ true = promised-once es fresh k refl in
      targets-distinct (promised es fresh).sent (run_events es p).requests
        (run_events-Implements es fresh p h).requests (ground arith)
