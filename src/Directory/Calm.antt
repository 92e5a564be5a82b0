-- ===== src/Directory/Calm.antt =====
-- What the box shows where the searches do not overlap, and what where they do.
use jazzhands.Prelude.{
  ℕ, zero, suc, ◌≡◌, refl, ap, ◌∙◌, subst, inl, inr, Bool, true, false, ◌&&◌, String, str_eq,
  Option, none, some, List, [], ◌∷◌, ◌++◌, get_elem?, if◌then◌else◌, arith, Bool-cases,
}
use jazzhands.Directory.Search.{
  Response, ResultRow, SearchPage, tables_of, process_search, fire_search, without, Event, typed,
  timer_fired, answered, failed, answer_search, handle_event, run_events,
}

abbrev is_empty : List String → Bool
is_empty [] = true
is_empty (t ∷ ts) = false

-- The timer runs out, or the box is emptied, only while no search is under way, and none fails.
abbrev pub is_calm : Event → SearchPage → Bool
is_calm (typed s) p = if str_eq s "" then is_empty p.sent else true
is_calm timer_fired p = is_empty p.sent
is_calm (answered n) p = true
is_calm (failed n status) p = false

module _ (server : String → Response) where
  abbrev pub all_calm : List Event → SearchPage → Bool
  all_calm [] p = true
  all_calm (e ∷ es) p = is_calm e p && all_calm es (handle_event server e p)

  -- The tables for a text in the box.
  abbrev pub tables_for : String → List (List ResultRow)
  tables_for s = if str_eq s "" then [] else tables_of (server s)

  abbrev pub FitsSent : List String → SearchPage → Type 0
  FitsSent [] p = p.results ≡ tables_for p.text
  FitsSent (t ∷ []) p = (t ≡ p.text) × (str_eq p.text "" ≡ false) × (p.results ≡ [])
  FitsSent (t ∷ u ∷ ts) p = ⊥

  abbrev pub FitsTimer : Option String → SearchPage → Type 0
  FitsTimer none p = FitsSent p.sent p
  FitsTimer (some t) p = (t ≡ p.text) × (str_eq p.text "" ≡ false)

  -- While no timer runs, the box has the tables for the text, or its search is under way.
  pub FitsText : SearchPage → Type 0
  FitsText p = FitsTimer p.timer p

  typed-FitsText :
      (s : String) (p : SearchPage)
      → is_calm (typed s) p ≡ true
      → FitsText (process_search (record p { text = s }))
  unfolding FitsText process_search
  typed-FitsText s p c = elim (Bool-cases (str_eq s "")) [
    | inl t ↦ rw t (cleared p.sent (ground arith) t)
    | inr t ↦ rw t (refl, t)
  ]
    where
      cleared :
          (ts : List String)
          → is_empty ts ≡ true
          → str_eq s "" ≡ true
          → FitsSent ts (record p { text = s; timer = none; results = [] })
      cleared [] e t = rw t refl
      cleared (u ∷ ts) e t = absurd cc

  fired-FitsText :
      (o : Option String) (ts : List String) (p : SearchPage)
      → is_empty ts ≡ true
      → FitsText (record p { timer = o; sent = ts })
      → FitsText (fire_search o (record p { timer = o; sent = ts }))
  unfolding FitsText fire_search
  fired-FitsText none ts p c h = h
  fired-FitsText (some find) [] p c h = (h.0, h.1, refl)
  fired-FitsText (some find) (t ∷ ts) p c h = absurd cc

  answered-FitsText :
      (n : ℕ) (o : Option String) (ts : List String) (p : SearchPage)
      → FitsText (record p { timer = o; sent = ts })
      → FitsText (answer_search server n (get_elem? ts n) (record p { timer = o; sent = ts }))
  unfolding FitsText answer_search without
  answered-FitsText n o [] p h = h
  answered-FitsText zero (some find) (t ∷ ts) p h = h
  answered-FitsText zero none (t ∷ []) p h =
      let e : t ≡ p.text = h.0 in
      let same : p.results ++ tables_of (server t) ≡ tables_of (server p.text) =
        ap (λ rs. rs ++ tables_of (server t)) h.2 ∙ ap (λ s. tables_of (server s)) e in
      let known = h.1 in rw known same
  answered-FitsText zero none (t ∷ u ∷ ts) p h = elim h [ ]
  answered-FitsText (suc n) none (t ∷ []) p h = h
  answered-FitsText (suc n) none (t ∷ u ∷ ts) p h = elim h [ ]
  answered-FitsText (suc n) (some find) (t ∷ ts) p h = some_timer (get_elem? ts n)
    where
      some_timer :
          (a : Option String)
          → FitsText
              (answer_search server (suc n) a (record p { timer = some find; sent = t ∷ ts }))
      some_timer none = h
      some_timer (some b) = h

  run_events-FitsText :
      (es : List Event) (p : SearchPage)
      → all_calm es p ≡ true
      → FitsText p
      → FitsText (run_events server es p)
  unfolding run_events handle_event
  run_events-FitsText [] p c h = h
  run_events-FitsText (typed s ∷ es) p c h =
      run_events-FitsText es (process_search (record p { text = s })) (ground arith)
        (typed-FitsText s p (ground arith))
  run_events-FitsText (timer_fired ∷ es) p c h =
      run_events-FitsText es (fire_search p.timer p) (ground arith)
        (fired-FitsText p.timer p.sent p (ground arith) h)
  run_events-FitsText (answered n ∷ es) p c h =
      run_events-FitsText es (answer_search server n (get_elem? p.sent n) p) (ground arith)
        (answered-FitsText n p.timer p.sent p h)
  run_events-FitsText (failed n status ∷ es) p c h = absurd (ground arith)

  -- From an empty box, after any events where no search fails, and the timer runs out and the box
  -- is emptied only while no search is under way, once no timer runs and no search is under way
  -- the box of results has the answer to the text in the box and nothing else, and nothing where
  -- it is empty.
  pub calm_results :
      (es : List Event) (p : SearchPage)
      → p.timer ≡ none
      → p.sent ≡ []
      → p.text ≡ ""
      → p.results ≡ []
      → all_calm es p ≡ true
      → (run_events server es p).timer ≡ none
      → (run_events server es p).sent ≡ []
      → (run_events server es p).results ≡ tables_for (run_events server es p).text
  unfolding FitsText
  calm_results es p t s x r c u v =
      let q = run_events server es p in
      let empty : FitsText p = rw (t, s, x) r in
      let done = run_events-FitsText es p c empty in
      subst (λ ts. FitsSent ts q) v (subst (λ o. FitsTimer o q) u done)

  -- Where a second search is sent before the first is answered, the tables of both are shown;
  -- where the box is emptied before the answer, its table is shown under an empty box.
  pub late_answers :
      (a b : String) (p : SearchPage)
      → str_eq a "" ≡ false
      → str_eq b "" ≡ false
      → p.sent ≡ []
      → ((run_events server
            (typed a ∷ timer_fired ∷ typed b ∷ timer_fired ∷ answered 0 ∷ answered 0 ∷ [])
            p).results
          ≡ tables_of (server a) ++ tables_of (server b))
        × ((run_events server (typed a ∷ timer_fired ∷ typed "" ∷ answered 0 ∷ []) p).results
            ≡ tables_of (server a))
  unfolding run_events handle_event process_search fire_search answer_search without
  late_answers a b p h k s = rw (h, k, s) (refl, refl)
