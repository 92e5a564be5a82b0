-- ===== src/SearchPopup/Steps.antt =====
-- Each event keeps the source of the lists.
use jazzhands.Prelude.{
  ℕ, suc, ◌≡◌, inl, inr, refl, Bool, true, false, String, str_eq, Option, none, some, List, [], ◌∷◌,
  if◌then◌else◌, ◌==◌, get_elem?, Bool-cases,
}
use jazzhands.SearchPopup.State.{Choice, Popup, Field, Search, Page, set_field, change_popup}
use jazzhands.SearchPopup.Close.{close_and_fill_in}
use jazzhands.SearchPopup.Events.{
  keep_value, with_new_popup, create_popup, set_visible, drop_popup, start_search,
  change_popup_search, close_popup, set_leave_up, key_on_popup, key_in_field, is_processed,
  input_popup, input_field, input_timer, fire_timer, leave_popup, leave_field, restore_original,
  key_on_list, key_in_list,
}
use jazzhands.SearchPopup.Source.{FieldsFrom, Extends, FieldsFrom-Extends, Keeps, FieldsFrom-Keeps}
use jazzhands.SearchPopup.Keeps.{
  on_popup-Keeps, without_popup-Keeps, keep_value-Keeps, close-Keeps, restore-Keeps,
}

abbrev pub newest_sender : List Search → Option (ℕ × ℕ)
newest_sender [] = none
newest_sender (r ∷ rs) = some r.sender

module _ (server : String → List Choice) where
  -- Each list in a popup answers a search that was sent for this popup, and the variable
  -- `searchpopup` is the popup for which the newest search was sent.
  pub record ListsAnswer (p : Page) : Type 0 where
    pub lists : FieldsFrom server p.searches 0 p.fields
    pub newest : p.target ≡ newest_sender p.searches

  pub set_field-ListsAnswer :
      (i : ℕ) (g : Field → Field) (p : Page)
      → Keeps server g
      → ListsAnswer p
      → ListsAnswer (set_field i g p)
  set_field-ListsAnswer i g p k h = record {
    lists = FieldsFrom-Keeps server p.searches g i p.fields k h.lists;
    newest = h.newest;
  }

  -- A page with the same fields, searches and target.
  other_page :
      (p : Page) (timer : Option (ℕ × ℕ)) (serials : ℕ) (focus : Option ℕ) (stops : Bool)
      → ListsAnswer p
      → ListsAnswer
          (record p { timer = timer; serials = serials; focus = focus; dont_submit = stops })
  other_page p timer serials focus stops h = record { lists = h.lists; newest = h.newest }

  new_search :
      (r : Search) (p : Page)
      → ListsAnswer p
      → ListsAnswer (record p { searches = r ∷ p.searches; target = some r.sender })
  unfolding Extends
  new_search r p h = record {
    lists =
        FieldsFrom-Extends server p.searches (r ∷ p.searches) 0 p.fields (λ a ls k. inr k) h.lists;
    newest = refl;
  }

  start_search-ListsAnswer :
      (i n : ℕ) (o : Option Field) (p : Page) → ListsAnswer p → ListsAnswer (start_search i n o p)
  unfolding start_search
  start_search-ListsAnswer i n none p h = h
  start_search-ListsAnswer i n (some f) p h = elim (Bool-cases (str_eq f.value "")) [
    | inl t ↦ rw t (set_field-ListsAnswer i (drop_popup n) p (without_popup-Keeps server n) h)
    | inr t ↦ rw t (
        new_search (record { text = f.value; ready_state = 1; sender = (i, n) })
          (set_field i (change_popup n (set_visible true)) p)
          (set_field-ListsAnswer i (change_popup n (set_visible true)) p
            (on_popup-Keeps server n (set_visible true) (λ q. (refl, refl))) h))
  ]

  change_popup_search-ListsAnswer :
      (i n : ℕ) (p : Page) → ListsAnswer p → ListsAnswer (change_popup_search i n p)
  unfolding change_popup_search
  change_popup_search-ListsAnswer i n p h =
      start_search-ListsAnswer i n (get_elem? p.fields i) (record p { timer = none })
        (other_page p none p.serials p.focus p.dont_submit h)

  create_popup-ListsAnswer : (i : ℕ) (p : Page) → ListsAnswer p → ListsAnswer (create_popup i p)
  unfolding create_popup Keeps
  create_popup-ListsAnswer i p h =
      let q = set_field i (with_new_popup p.serials) p in
      other_page q q.timer (suc p.serials) q.focus q.dont_submit
        (set_field-ListsAnswer i (with_new_popup p.serials) p (λ rs j f k. tt) h)

  close_popup-ListsAnswer :
      (i : ℕ) (q : Popup) (d : Option (List Choice)) (p : Page)
      → ListsAnswer p
      → ListsAnswer (close_popup i q d p)
  unfolding close_popup
  close_popup-ListsAnswer i q d p h =
      other_page (set_field i (close_and_fill_in q d) p) p.timer p.serials (some i) p.dont_submit
        (set_field-ListsAnswer i (close_and_fill_in q d) p (close-Keeps server q d) h)

  set_leave_up-ListsAnswer :
      (i n : ℕ) (b : Bool) (p : Page)
      → ListsAnswer p
      → ListsAnswer (set_field i (change_popup n (set_leave_up b)) p)
  set_leave_up-ListsAnswer i n b p h =
      set_field-ListsAnswer i (change_popup n (set_leave_up b)) p
        (on_popup-Keeps server n (set_leave_up b) (λ q. (refl, refl))) h

  key_on_popup-ListsAnswer :
      (i key : ℕ) (o : Option Popup) (p : Page)
      → ListsAnswer p
      → ListsAnswer (key_on_popup i key o p)
  unfolding key_on_popup
  key_on_popup-ListsAnswer i key none p h = elim (Bool-cases (key == 27)) [
    | inl t ↦ rw t h
    | inr t ↦
        let q = create_popup i p in
        rw t (
          other_page q (some (i, p.serials)) q.serials q.focus q.dont_submit
            (create_popup-ListsAnswer i p h))
  ]
  key_on_popup-ListsAnswer i key (some q) p h = elim (Bool-cases (key == 40)) [
    | inl t ↦ rw t (set_leave_up-ListsAnswer i q.serial true p h)
    | inr t ↦ elim (Bool-cases (key == 27)) [
      | inl u ↦ rw (t, u) (close_popup-ListsAnswer i (record q { leave_up = false }) none p h)
      | inr u ↦ rw (t, u) (other_page p (some (i, q.serial)) p.serials p.focus p.dont_submit h)
    ]
  ]

  pub key_in_field-ListsAnswer :
      (i key char : ℕ) (o : Option Field) (p : Page)
      → ListsAnswer p
      → ListsAnswer (key_in_field i key char o p)
  unfolding key_in_field
  key_in_field-ListsAnswer i key char none p h = h
  key_in_field-ListsAnswer i key char (some f) p h =
      let kept = set_field i keep_value (record p { timer = none }) in
      let k =
        set_field-ListsAnswer i keep_value (record p { timer = none }) (keep_value-Keeps server)
          (other_page p none p.serials p.focus p.dont_submit h) in
      elim (Bool-cases (is_processed key char)) [
        | inl t ↦ rw t (key_on_popup-ListsAnswer i key f.popup kept k)
        | inr t ↦ rw t k
      ]

  input_popup-ListsAnswer :
      (i : ℕ) (o : Option Popup) (p : Page) → ListsAnswer p → ListsAnswer (input_popup i o p)
  unfolding input_popup
  input_popup-ListsAnswer i none p h =
      change_popup_search-ListsAnswer i p.serials (create_popup i p)
        (create_popup-ListsAnswer i p h)
  input_popup-ListsAnswer i (some q) p h = change_popup_search-ListsAnswer i q.serial p h

  input_field-ListsAnswer :
      (i : ℕ) (o : Option Field) (p : Page) → ListsAnswer p → ListsAnswer (input_field i o p)
  unfolding input_field
  input_field-ListsAnswer i none p h = h
  input_field-ListsAnswer i (some f) p h = input_popup-ListsAnswer i f.popup p h

  pub input_timer-ListsAnswer :
      (i : ℕ) (t : Option (ℕ × ℕ)) (p : Page) → ListsAnswer p → ListsAnswer (input_timer i t p)
  unfolding input_timer
  input_timer-ListsAnswer i (some t) p h = h
  input_timer-ListsAnswer i none p h = input_field-ListsAnswer i (get_elem? p.fields i) p h

  pub fire_timer-ListsAnswer :
      (t : Option (ℕ × ℕ)) (p : Page) → ListsAnswer p → ListsAnswer (fire_timer t p)
  unfolding fire_timer
  fire_timer-ListsAnswer none p h = h
  fire_timer-ListsAnswer (some (i, n)) p h = change_popup_search-ListsAnswer i n p h

  leave_popup-ListsAnswer :
      (i : ℕ) (o : Option Popup) (p : Page) → ListsAnswer p → ListsAnswer (leave_popup i o p)
  unfolding leave_popup
  leave_popup-ListsAnswer i none p h = h
  leave_popup-ListsAnswer i (some q) p h = elim (Bool-cases q.leave_up) [
    | inl t ↦ rw t (set_leave_up-ListsAnswer i q.serial false p h)
    | inr t ↦ elim (Bool-cases q.visible) [
      | inl u ↦ rw (t, u) (close_popup-ListsAnswer i q q.choices p h)
      | inr u ↦ rw (t, u) h
    ]
  ]

  pub leave_field-ListsAnswer :
      (i : ℕ) (o : Option Field) (p : Page) → ListsAnswer p → ListsAnswer (leave_field i o p)
  unfolding leave_field
  leave_field-ListsAnswer i none p h = h
  leave_field-ListsAnswer i (some f) p h = leave_popup-ListsAnswer i f.popup p h

  stopped :
      (b : Bool) (p : Page)
      → ListsAnswer p
      → ListsAnswer (if b then record p { dont_submit = true } else p)
  stopped true p h = other_page p p.timer p.serials p.focus true h
  stopped false p h = h

  key_on_list-ListsAnswer :
      (i key : ℕ) (o : Option Popup) (b : Bool) (p : Page)
      → ListsAnswer p
      → ListsAnswer (key_on_list i key o b p)
  unfolding key_on_list
  key_on_list-ListsAnswer i key none b p h = h
  key_on_list-ListsAnswer i key (some q) b p h = elim (Bool-cases (key == 13)) [
    | inl t ↦ rw t (
        close_popup-ListsAnswer i q q.choices (if b then record p { dont_submit = true } else p)
          (stopped b p h))
    | inr t ↦ elim (Bool-cases (key == 27)) [
      | inl u ↦
          rw (t, u)
            (close_popup-ListsAnswer i (record q { user_abort = true }) q.choices
              (set_field i restore_original p)
              (set_field-ListsAnswer i restore_original p (restore-Keeps server) h))
      | inr u ↦ rw (t, u) h
    ]
  ]

  pub key_in_list-ListsAnswer :
      (i key : ℕ) (o : Option Field) (p : Page)
      → ListsAnswer p
      → ListsAnswer (key_in_list i key o p)
  unfolding key_in_list
  key_in_list-ListsAnswer i key none p h = h
  key_in_list-ListsAnswer i key (some f) p h =
      key_on_list-ListsAnswer i key f.popup f.stops_submit p h
