-- ===== src/FormTracking/Reset.antt =====
-- `resetForm`, and `hasPendingChanges` of management/stab/web/src/web/javascript/paging.js.
-- What a browser's `form.reset()` does is a parameter, with the laws of `ResetsControls`.
pub mod Clean
use jazzhands.Prelude.{
  ℕ, zero, suc, ◌+◌, ◌≡◌, Bool, true, false, not, ◌&&◌, ◌||◌, Option, none, some, String, List, [],
  ◌∷◌, map, if◌then◌else◌, ◌==◌, any, length,
}
use jazzhands.FormTracking.Elements.{
  Choice, Control, select, radio, checkbox, input, Element, update_all,
}

-- A table row, with the classes of its `tr` and, for each cell, whether it has `pendingrm`.
pub record Row : Type 0 where
  pub id : ℕ
  pub form : ℕ
  pub dnsadd : Bool
  pub dnsrefadd : Bool
  pub rowrm : Bool
  pub pendingrm : List Bool

pub record Page : Type 0 where
  pub elements : List Element
  pub rows : List Row

module _ {ℓ} {A : Type ℓ} where
  unfoldable pub keep : (A → Bool) → List A → List A
  keep p [] = []
  keep p (x ∷ xs) = let rest = keep p xs in if p x then x ∷ rest else rest

-- The element stands in one of the rows.
unfoldable pub stands_in : List Row → Element → Bool
stands_in [] e = false
stands_in (r ∷ rs) e = elim e.row [
  | none ↦ false
  | some i ↦ if r.id == i then true else stands_in rs e
]

-- `querySelectorAll( … ).forEach( ( tr ) => { tr.remove(); })`: the elements go with their row.
unfoldable pub drop_rows : (Row → Bool) → Page → Page
unfolding keep stands_in
drop_rows p page = record {
  elements = keep (λ e. not (stands_in (keep p page.rows) e)) page.elements;
  rows = keep (λ r. not (p r)) page.rows;
}

unfoldable pub unmark_row : ℕ → Row → Row
unmark_row f r =
    if r.form == f then record r { rowrm = false; pendingrm = map (λ _. false) r.pendingrm } else r

abbrev pub default_choice : Choice → Choice
default_choice c = record c { selected = c.default_selected }

abbrev pub default_count : List Choice → ℕ
default_count [] = 0
default_count (c ∷ cs) = (if c.default_selected then 1 else 0) + default_count cs

-- What a browser does on `form.reset()`. Of a select element only the case with one default option
-- is stated, in which the option becomes the one that is selected.
pub record ResetsControls (reset : Control → Control) : Type 0 where
  pub reset_radio : (c d : Bool) → reset (radio c d) ≡ radio d d
  pub reset_checkbox : (c d : Bool) → reset (checkbox c d) ≡ checkbox d d
  pub reset_input : (v d : String) → reset (input v d) ≡ input d d
  pub reset_select :
      (cs : List Choice) → default_count cs ≡ 1 → reset (select cs) ≡ select (map default_choice cs)

module _ (reset : Control → Control) where
  unfoldable pub reset_element : ℕ → Element → Element
  reset_element f e = if e.form == f then record e { control = reset e.control } else e

  -- The body of the loop over the forms.
  unfoldable pub reset_one : ℕ → Page → Page
  unfolding reset_element
  reset_one f page =
      let p1 = record page { elements = map (reset_element f) page.elements } in
      let p2 = drop_rows (λ r. r.form == f && r.dnsadd) p1 in
      let p3 = drop_rows (λ r. r.form == f && r.dnsrefadd) p2 in
      let p4 = record p3 { rows = map (unmark_row f) p3.rows } in
      record p4 { elements = update_all (some f) p4.elements }

  reset_forms : List ℕ → Page → Page
  reset_forms [] page = page
  reset_forms (f ∷ fs) page = reset_forms fs (reset_one f page)

  -- `resetForm`, with the user's answer, the form that is given, if any, and the forms of the page.
  unfoldable pub reset_form : Bool → Option ℕ → List ℕ → Page → Page
  unfolding reset_forms
  reset_form confirmed form forms page =
      if confirmed then reset_forms (elim form [ some f ↦ f ∷ [] | none ↦ forms ]) page else page

-- `hasPendingChanges`; every element of the model stands in a form.
unfoldable pub has_pending_changes : Page → Bool
has_pending_changes page =
    if any (λ e. e.tracked && e.changed) page.elements
    then true
    else if any (λ r. r.rowrm) page.rows
        || any (λ r. r.dnsadd) page.rows
        || any (λ r. r.dnsrefadd) page.rows
    then true
    else false
