-- ===== src/SearchPopup/Newest.antt =====
-- Where the lists in the popups come from, after any sequence of events.
use jazzhands.Prelude.{
  ℕ, zero, suc, ◌+◌, ◌≡◌, inl, inr, refl, ap₂, ◌∙◌, sym, String, Option, none, some, some_inj, List,
  [], ◌∷◌, ◌==◌, ==_iff, get_elem?, modify, arith, Bool-cases,
}
use jazzhands.SearchPopup.State.{Choice, Popup, Search, Page, on_popup, change_popup}
use jazzhands.SearchPopup.Events.{key_process, input_event}
use jazzhands.SearchPopup.Answers.{
  set_value, on_list, picks, keeps_up, reach, put_list, update_search_page, change_search_state,
  Event, typed, key_up, input, timer_fired, left, list_key, list_pick, mouse, state_changed,
  handle_event, run_events,
}
use jazzhands.SearchPopup.Source.{
  PopupFrom, Asked-reach, Extends, FieldsFrom-Extends, FieldsFrom-modify, Keeps,
}
use jazzhands.SearchPopup.Keeps.{picks-Keeps, mouse-Keeps}
use jazzhands.SearchPopup.Steps.{
  newest_sender, ListsAnswer, set_field-ListsAnswer, key_in_field-ListsAnswer,
  input_timer-ListsAnswer, fire_timer-ListsAnswer, leave_field-ListsAnswer, key_in_list-ListsAnswer,
}

reach-newest :
    (k s : ℕ) (rs : List Search) → newest_sender (modify (reach s) k rs) ≡ newest_sender rs
unfolding modify
reach-newest k s [] = refl
reach-newest zero s (r ∷ rs) = refl
reach-newest (suc k) s (r ∷ rs) = refl

module _ (server : String → List Choice) where
  put_list-PopupFrom :
      (r : Search) (rs : List Search) (i n : ℕ) (o : Option Popup)
      → r.sender ≡ (i, n)
      → PopupFrom server (r ∷ rs) (0 + i) o
      → PopupFrom server (r ∷ rs) (0 + i) (on_popup n (put_list server (server r.text)) o)
  put_list-PopupFrom r rs i n none e h = tt
  put_list-PopupFrom r rs i n (some q) e h = elim (Bool-cases (q.serial == n)) [
    | inl t ↦
        let at_i : i ≡ 0 + i = omega arith in
        rw t (inl (e ∙ ap₂ (λ (a b : ℕ). (a, b)) at_i (sym ((==_iff q.serial n).0 t)), refl))
    | inr t ↦ rw t h
  ]

  update_search_page-ListsAnswer :
      (rs : List Search) (t : Option (ℕ × ℕ)) (p : Page)
      → ListsAnswer server (record p { searches = rs; target = t })
      → ListsAnswer server
          (update_search_page server (get_elem? rs 0) t (record p { searches = rs; target = t }))
  unfolding update_search_page
  update_search_page-ListsAnswer [] t p h = h
  update_search_page-ListsAnswer (r ∷ rs) none p h = h
  update_search_page-ListsAnswer (r ∷ rs) (some (i, n)) p h =
      elim (Bool-cases (r.ready_state == 4)) [
        | inl done ↦ rw done (record {
          lists =
              FieldsFrom-modify server (r ∷ rs) (change_popup n (put_list server (server r.text))) 0
                i p.fields
                (λ f k.
                  put_list-PopupFrom r rs i n f.popup (sym (some_inj (i, n) r.sender h.newest)) k)
                h.lists;
          newest = h.newest;
        })
        | inr more ↦ rw more h
      ]

  change_search_state-ListsAnswer :
      (k s : ℕ) (p : Page)
      → ListsAnswer server p
      → ListsAnswer server (change_search_state server k s p)
  unfolding change_search_state Extends
  change_search_state-ListsAnswer k s p h =
      let rs = modify (reach s) k p.searches in
      update_search_page-ListsAnswer rs p.target p (record {
        lists =
            FieldsFrom-Extends server p.searches rs 0 p.fields
              (λ a ls m. Asked-reach server s k p.searches a ls m) h.lists;
        newest = h.newest ∙ sym (reach-newest k s p.searches);
      })

  handle_event-ListsAnswer :
      (e : Event) (p : Page) → ListsAnswer server p → ListsAnswer server (handle_event server e p)
  unfolding handle_event key_process input_event Keeps
  handle_event-ListsAnswer (typed i s) p h =
      set_field-ListsAnswer server i (set_value s) p (λ rs j f k. k) h
  handle_event-ListsAnswer (key_up i key char) p h =
      key_in_field-ListsAnswer server i key char (get_elem? p.fields i) p h
  handle_event-ListsAnswer (input i) p h = input_timer-ListsAnswer server i p.timer p h
  handle_event-ListsAnswer timer_fired p h = fire_timer-ListsAnswer server p.timer p h
  handle_event-ListsAnswer (left i) p h =
      leave_field-ListsAnswer server i (get_elem? p.fields i) p h
  handle_event-ListsAnswer (list_key i key) p h =
      key_in_list-ListsAnswer server i key (get_elem? p.fields i) p h
  handle_event-ListsAnswer (list_pick i n) p h =
      set_field-ListsAnswer server i (on_list (picks n)) p (picks-Keeps server n) h
  handle_event-ListsAnswer (mouse b i) p h =
      set_field-ListsAnswer server i (on_list (keeps_up b)) p (mouse-Keeps server b) h
  handle_event-ListsAnswer (state_changed k s) p h = change_search_state-ListsAnswer k s p h

  -- From a page where each list in a popup answers a search that was sent for this very popup, and
  -- the variable `searchpopup` is the popup of the newest search, any sequence of typing, keys,
  -- timers, clicks and state changes of requests in any order leads to such a page.
  pub run_events-ListsAnswer :
      (es : List Event) (p : Page)
      → ListsAnswer server p
      → ListsAnswer server (run_events server es p)
  unfolding run_events
  run_events-ListsAnswer [] p h = h
  run_events-ListsAnswer (e ∷ es) p h =
      run_events-ListsAnswer es (handle_event server e p) (handle_event-ListsAnswer e p h)
