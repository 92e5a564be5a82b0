-- ===== src/SearchPopup/Keeps.antt =====
-- The changes of fields that keep the source of the lists in their popups.
use jazzhands.Prelude.{
  ℕ, zero, suc, ◌≡◌, inl, inr, refl, ap, sym, subst, Bool, true, false, String, Option, none, some,
  List, [], ◌∷◌, map, ◌==◌, arith, Bool-cases,
}
use jazzhands.SearchPopup.State.{Choice, Popup, on_popup, change_popup}
use jazzhands.SearchPopup.Close.{close_and_fill_in}
use jazzhands.SearchPopup.Events.{keep_value, without_popup, drop_popup, restore_original}
use jazzhands.SearchPopup.Answers.{mark, select_only, pick_choice, on_list, picks, keeps_up}
use jazzhands.SearchPopup.Source.{labels, Asked, PopupFrom, Keeps}

labels-mark : (b : Bool) (cs : List Choice) → labels (map (mark b) cs) ≡ labels cs
labels-mark b [] = refl
labels-mark b (c ∷ cs) = ap ((c.text, c.value) ∷◌) (labels-mark b cs)

labels-select_only : (n : ℕ) (cs : List Choice) → labels (select_only n cs) ≡ labels cs
labels-select_only n [] = refl
labels-select_only zero (c ∷ cs) = ap ((c.text, c.value) ∷◌) (labels-mark false cs)
labels-select_only (suc n) (c ∷ cs) = ap ((c.text, c.value) ∷◌) (labels-select_only n cs)

module _ (server : String → List Choice) where
  -- A change of a popup that leaves its list and its number.
  pub on_popup-Keeps :
      (n : ℕ) (g : Popup → Popup)
      → ((q : Popup) → ((g q).choices ≡ q.choices) × ((g q).serial ≡ q.serial))
      → Keeps server (change_popup n g)
  unfolding Keeps
  on_popup-Keeps n g k rs i f h = popup_keeps f.popup h
    where
      popup_keeps :
          (o : Option Popup) → PopupFrom server rs i o → PopupFrom server rs i (on_popup n g o)
      popup_keeps none h = tt
      popup_keeps (some q) h = elim (Bool-cases (q.serial == n)) [
        | inl t ↦ rw (t, (k q).0, (k q).1) h
        | inr t ↦ rw t h
      ]

  pub without_popup-Keeps : (n : ℕ) → Keeps server (drop_popup n)
  unfolding Keeps
  without_popup-Keeps n rs i f h = popup_keeps f.popup h
    where
      popup_keeps :
          (o : Option Popup) → PopupFrom server rs i o → PopupFrom server rs i (without_popup n o)
      popup_keeps none h = tt
      popup_keeps (some q) h = elim (Bool-cases (q.serial == n)) [
        | inl t ↦ rw t tt
        | inr t ↦ rw t h
      ]

  pub keep_value-Keeps : Keeps server keep_value
  unfolding Keeps keep_value
  keep_value-Keeps rs i f h = elim (Bool-cases f.pending) [ inl t ↦ rw t h | inr t ↦ rw t h ]

  pub picks-Keeps : (n : ℕ) → Keeps server (on_list (picks n))
  unfolding Keeps
  picks-Keeps n rs i f h = popup_keeps f.popup h
    where
      list_keeps :
          (s : ℕ) (o : Option (List Choice))
          → PopupFrom server rs i (
              some (record {
                serial = s;
                visible = true;
                leave_up = true;
                user_abort = true;
                choices = o;
              }))
          → PopupFrom server rs i (
              some (record {
                serial = s;
                visible = true;
                leave_up = true;
                user_abort = true;
                choices = pick_choice n o;
              }))
      list_keeps s none h = tt
      list_keeps s (some cs) h = subst (Asked server rs (i, s)) (sym (labels-select_only n cs)) h

      popup_keeps :
          (o : Option Popup)
          → PopupFrom server rs i o
          → PopupFrom server rs i (elim o [ none ↦ none | some q ↦ some (picks n q) ])
      popup_keeps none h = tt
      popup_keeps (some q) h = list_keeps q.serial q.choices h

  pub mouse-Keeps : (b : Bool) → Keeps server (on_list (keeps_up b))
  unfolding Keeps
  mouse-Keeps b rs i f h = popup_keeps f.popup h
    where
      popup_keeps :
          (o : Option Popup)
          → PopupFrom server rs i o
          → PopupFrom server rs i (elim o [ none ↦ none | some q ↦ some (keeps_up b q) ])
      popup_keeps none h = tt
      popup_keeps (some q) h = h

  pub close-Keeps : (q : Popup) (d : Option (List Choice)) → Keeps server (close_and_fill_in q d)
  unfolding Keeps close_and_fill_in
  close-Keeps q d rs i f h = tt

  pub restore-Keeps : Keeps server restore_original
  unfolding Keeps
  restore-Keeps rs i f h =
      let same : f.popup ≡ (restore_original f).popup = ground arith in
      subst (PopupFrom server rs i) same h
