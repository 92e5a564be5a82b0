-- ===== src/SearchPopup/Source.antt =====
-- Where the list of a popup comes from.
use jazzhands.Prelude.{
  ℕ, zero, suc, ◌+◌, ◌≡◌, ◌⊎◌, inl, inr, sym, subst, String, Option, none, some, List, [], ◌∷◌, map,
  modify, arith,
}
use jazzhands.SearchPopup.State.{Choice, Popup, Field, Search}
use jazzhands.SearchPopup.Answers.{reach}

abbrev pub labels : List Choice → List (String × String)
labels cs = map (λ c. (c.text, c.value)) cs

module _ (server : String → List Choice) where
  -- One of the searches was sent for this popup, and the server answers it with these options.
  abbrev pub Asked : List Search → ℕ × ℕ → List (String × String) → Type 0
  Asked [] s ls = ⊥
  Asked (r ∷ rs) s ls = ((r.sender ≡ s) × (labels (server r.text) ≡ ls)) ⊎ Asked rs s ls

  abbrev pub ListFrom : List Search → ℕ × ℕ → Option (List Choice) → Type 0
  ListFrom rs s none = Unit {0}
  ListFrom rs s (some cs) = Asked rs s (labels cs)

  abbrev pub PopupFrom : List Search → ℕ → Option Popup → Type 0
  PopupFrom rs i none = Unit {0}
  PopupFrom rs i (some q) = ListFrom rs (i, q.serial) q.choices

  -- Each popup of the fields, the first of which is at the position `i`.
  abbrev pub FieldsFrom : List Search → ℕ → List Field → Type 0
  FieldsFrom rs i [] = Unit {0}
  FieldsFrom rs i (f ∷ fs) = PopupFrom rs i f.popup × FieldsFrom rs (suc i) fs

  pub Asked-reach :
      (s : ℕ) (k : ℕ) (rs : List Search) (a : ℕ × ℕ) (ls : List (String × String))
      → Asked rs a ls
      → Asked (modify (reach s) k rs) a ls
  unfolding modify
  Asked-reach s k [] a ls h = h
  Asked-reach s zero (r ∷ rs) a ls h = h
  Asked-reach s (suc k) (r ∷ rs) a ls (inl h) = inl h
  Asked-reach s (suc k) (r ∷ rs) a ls (inr h) = inr (Asked-reach s k rs a ls h)

  -- What one of two lists of searches answers, the other answers too.
  unfoldable pub Extends : List Search → List Search → Type 0
  Extends rs ts = (a : ℕ × ℕ) (ls : List (String × String)) → Asked rs a ls → Asked ts a ls

  PopupFrom-Extends :
      (rs ts : List Search) (i : ℕ) (o : Option Popup)
      → Extends rs ts
      → PopupFrom rs i o
      → PopupFrom ts i o
  unfolding Extends
  PopupFrom-Extends rs ts i none e h = tt
  PopupFrom-Extends rs ts i (some q) e h = ListFrom-Extends q.choices h
    where
      ListFrom-Extends :
          (c : Option (List Choice)) → ListFrom rs (i, q.serial) c → ListFrom ts (i, q.serial) c
      ListFrom-Extends none h = tt
      ListFrom-Extends (some cs) h = e (i, q.serial) (labels cs) h

  pub FieldsFrom-Extends :
      (rs ts : List Search) (i : ℕ) (fs : List Field)
      → Extends rs ts
      → FieldsFrom rs i fs
      → FieldsFrom ts i fs
  FieldsFrom-Extends rs ts i [] e h = tt
  FieldsFrom-Extends rs ts i (f ∷ fs) e h =
      (PopupFrom-Extends rs ts i f.popup e h.0, FieldsFrom-Extends rs ts (suc i) fs e h.1)

  -- A change of the field at `i + j` that keeps the property there keeps it on the page.
  pub FieldsFrom-modify :
      (rs : List Search) (g : Field → Field) (i j : ℕ) (fs : List Field)
      → ((f : Field) → PopupFrom rs (i + j) f.popup → PopupFrom rs (i + j) (g f).popup)
      → FieldsFrom rs i fs
      → FieldsFrom rs i (modify g j fs)
  unfolding modify
  FieldsFrom-modify rs g i j [] k h = tt
  FieldsFrom-modify rs g i zero (f ∷ fs) k h =
      let e : i + zero ≡ i = omega arith in
      (
        subst (λ n. PopupFrom rs n (g f).popup) e
            (k f (subst (λ n. PopupFrom rs n f.popup) (sym e) h.0)),
        h.1,
      )
  FieldsFrom-modify rs g i (suc j) (f ∷ fs) k h =
      let e : i + suc j ≡ suc i + j = omega arith in
      (
        h.0,
        FieldsFrom-modify rs g (suc i) j fs
            (subst (λ n. (f : Field) → PopupFrom rs n f.popup → PopupFrom rs n (g f).popup) e k)
            h.1,
      )

  -- A change of the fields that needs no more than is known of any field.
  unfoldable pub Keeps : (Field → Field) → Type 0
  Keeps g =
      (rs : List Search) (i : ℕ) (f : Field) → PopupFrom rs i f.popup → PopupFrom rs i (g f).popup

  pub FieldsFrom-Keeps :
      (rs : List Search) (g : Field → Field) (j : ℕ) (fs : List Field)
      → Keeps g
      → FieldsFrom rs 0 fs
      → FieldsFrom rs 0 (modify g j fs)
  unfolding Keeps
  FieldsFrom-Keeps rs g j fs k h = FieldsFrom-modify rs g 0 j fs (λ f. k rs (0 + j) f) h
