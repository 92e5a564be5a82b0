-- ===== src/FormTracking/Reset/Clean.antt =====
-- After a reset the page has no pending change.
use jazzhands.Prelude.{
  ℕ, zero, suc, ◌<◌, ◌≡◌, refl, sym, ◌∙◌, Bool, true, false, not, ◌&&◌, none, some, List, [], ◌∷◌,
  map, any, all, All, ◌==◌, ==_iff, arith, get_elem?, get_elem?_of_lt, lt-length_of_get_elem?,
  Bool-cases, inl, inr, some_inj, subst, eq_refl,
}
use jazzhands.FormTracking.Elements.{
  Choice, Control, select, radio, checkbox, input, Element, update_all,
}
use jazzhands.FormTracking.Status.{differs, same_as_default, settled, IsGrouped}
use jazzhands.FormTracking.Pass.{update_all_visited, update_all-Kept, length-update_all}
use jazzhands.FormTracking.Reset.{
  Row, Page, keep, drop_rows, unmark_row, default_choice, default_count, ResetsControls,
  reset_element, reset_one, reset_form, has_pending_changes,
}

-- The element has no attribute `original`, and a select element has one default option.
abbrev pub OneDefault : Control → Type 0
OneDefault (select cs) = default_count cs ≡ 1
OneDefault (radio c d) = Unit
OneDefault (checkbox c d) = Unit
OneDefault (input v d) = Unit

pub record IsPlain (f : ℕ) (e : Element) : Type 0 where
  pub in_form : e.form ≡ f
  pub no_original : e.original ≡ none
  pub one_default : OneDefault e.control

-- What the reset makes of such an element.
record IsReset (f : ℕ) (e : Element) : Type 0 where
  in_form : e.form ≡ f
  no_original : e.original ≡ none
  at_default : differs e ≡ false

all_default : (cs : List Choice) → all same_as_default (map default_choice cs) ≡ true
all_default [] = refl
all_default (c ∷ cs) = ground (arith, all_default cs)

control_at_default :
    (reset : Control → Control) (laws : ResetsControls reset) (e : Element) (c : Control)
    → OneDefault c
    → differs (record e { original = none; control = reset c }) ≡ false
control_at_default reset laws e (select cs) h =
    rw (laws.reset_select cs h) (rw (all_default cs) refl)
control_at_default reset laws e (radio c d) h = rw (laws.reset_radio c d) (ground arith)
control_at_default reset laws e (checkbox c d) h = rw (laws.reset_checkbox c d) (ground arith)
control_at_default reset laws e (input v d) h = rw (laws.reset_input v d) (rw (eq_refl d) refl)

module _ {ℓ κ μ} {A : Type ℓ} (P : A → Type κ) (Q : A → Type μ) where
  All-keep :
      (p : A → Bool)
      → ((x : A) → P x → p x ≡ true → Q x)
      → (xs : List A) → All P xs
      → All Q (keep p xs)
  unfolding keep
  All-keep p h [] k = tt
  All-keep p h (x ∷ xs) k = elim (Bool-cases (p x)) [
    | inl e ↦ rw e (h x k.0 e, All-keep p h xs k.1)
    | inr e ↦ rw e (All-keep p h xs k.1)
  ]

  All-map : (f : A → A) → ((x : A) → P x → Q (f x)) → (xs : List A) → All P xs → All Q (map f xs)
  All-map f h [] k = tt
  All-map f h (x ∷ xs) k = (h x k.0, All-map f h xs k.1)

  All-imp : ((x : A) → P x → Q x) → (xs : List A) → All P xs → All Q xs
  All-imp h [] k = tt
  All-imp h (x ∷ xs) k = (h x k.0, All-imp h xs k.1)

module _ {ℓ κ} {A : Type ℓ} (P : A → Type κ) where
  All-get : (xs : List A) (j : ℕ) (x : A) → All P xs → get_elem? xs j ≡ some x → P x
  All-get [] j x k h = cc
  All-get (y ∷ xs) zero x k h = subst P (some_inj y x h) k.0
  All-get (y ∷ xs) (suc j) x k h = All-get xs j x k.1 h

any_none :
    {A : Type 0} (p : A → Bool) (xs : List A)
    → ((j : ℕ) (x : A) → get_elem? xs j ≡ some x → p x ≡ false)
    → any p xs ≡ false
any_none p [] h = refl
any_none p (x ∷ xs) h = rw (h 0 x refl, any_none p xs (λ j. h (suc j))) refl

any-All : {A : Type 0} (p : A → Bool) (xs : List A) → All (λ x. p x ≡ false) xs → any p xs ≡ false
any-All p [] h = refl
any-All p (x ∷ xs) h = rw (h.0, any-All p xs h.1) refl

-- A row of the form in which nothing is pending.
record RowIsClean (r : Row) : Type 0 where
  not_added : r.dnsadd ≡ false
  not_ref_added : r.dnsrefadd ≡ false
  not_removed : r.rowrm ≡ false

-- What the pass over the tracked elements makes of elements that were reset.
module _ (f : ℕ) (page : List Element) (h : All (IsReset f) page) where
  grouped : (j : ℕ) (a : Element) → get_elem? page j ≡ some a → IsGrouped (λ _. false) a
  unfolding IsGrouped
  grouped j a k _ = rw (All-get (IsReset f) page j a h k).no_original refl

  pass_at :
      (j : ℕ) (a : Element)
      → get_elem? page j ≡ some a
      → (t : Bool) → a.tracked ≡ t
      → (b : Element) × (get_elem? (update_all (some f) page) j ≡ some b)
        × ((b.tracked && b.changed) ≡ false)
  pass_at j a k true t =
      let r = All-get (IsReset f) page j a h k in
      (
        settled a,
        update_all_visited (λ _. false) (some f) page j a grouped k t
            ((==_iff a.form f).1 r.in_form),
        rw (t, r.at_default) refl,
      )
  pass_at j a k false t = elim (update_all-Kept (λ _. false) (some f) page j a grouped k) [
    | inl q ↦ (a, q, rw t refl)
    | inr q ↦ (settled a, q, rw t refl)
  ]

  none_reported : any (λ e. e.tracked && e.changed) (update_all (some f) page) ≡ false
  none_reported = any_none _ (update_all (some f) page) (λ j b k.
      let (a, p) = get_elem?_of_lt page j (
        subst (λ n. j < n) (length-update_all (some f) page)
          (lt-length_of_get_elem? (update_all (some f) page) j k)) in
      let (c, q, r) = pass_at j a p a.tracked refl in
      subst (λ e. (e.tracked && e.changed) ≡ false) (some_inj c b (sym q ∙ k)) r)

module _ (reset : Control → Control) (laws : ResetsControls reset) (f : ℕ) where
  reset_element-IsReset : (e : Element) → IsPlain f e → IsReset f (reset_element reset f e)
  unfolding reset_element
  reset_element-IsReset e h = rw ((==_iff e.form f).1 h.in_form) (record {
    in_form = h.in_form;
    no_original = h.no_original;
    at_default =
        subst (λ o. differs (record e { original = o; control = reset e.control }) ≡ false)
          (sym h.no_original) (control_at_default reset laws e e.control h.one_default);
  })

  dropped_elements :
      (p : Row → Bool) (page : Page)
      → All (IsReset f) page.elements
      → All (IsReset f) (drop_rows p page).elements
  unfolding drop_rows
  dropped_elements p page h = All-keep (IsReset f) (IsReset f) _ (λ x k _. k) page.elements h

  rows_clean :
      (rows : List Row)
      → All (λ r. r.form ≡ f) rows
      → All RowIsClean (
          map (unmark_row f) (
            keep
              (λ r. not (r.form == f && r.dnsrefadd))
              (keep (λ r. not (r.form == f && r.dnsadd)) rows)))
  rows_clean rows k =
      All-map (λ r. (r.form ≡ f) × (r.dnsadd ≡ false) × (r.dnsrefadd ≡ false)) RowIsClean
        (unmark_row f)
        (λ r h.
          unfold unmark_row in
          rw ((==_iff r.form f).1 h.0)
            (record { not_added = h.1; not_ref_added = h.2; not_removed = refl }))
        _
        (All-keep (λ r. (r.form ≡ f) × (r.dnsadd ≡ false)) _ _
          (λ r h e. (h.0, h.1, ground (arith, (==_iff r.form f).1 h.0))) _
          (All-keep (λ r. r.form ≡ f) _ _ (λ r h e. (h, ground (arith, (==_iff r.form f).1 h))) rows
            k))

  -- After a confirmed reset of the form in which all elements and rows stand, nothing is pending,
  -- whatever was edited, added or marked for removal, where no element has the attribute
  -- `original` and every select element has one default option.
  pub reset_form_clean :
      (forms : List ℕ) (page : Page)
      → All (IsPlain f) page.elements
      → All (λ r. r.form ≡ f) page.rows
      → has_pending_changes (reset_form reset true (some f) forms page) ≡ false
  unfolding has_pending_changes reset_form reset_one drop_rows
  reset_form_clean forms page h k =
      let es =
        All-map (IsPlain f) (IsReset f) (reset_element reset f) reset_element-IsReset page.elements
          h in
      let p1 : Page = record page { elements = map (reset_element reset f) page.elements } in
      let ds = dropped_elements (λ r. r.form == f && r.dnsadd) p1 es in
      let p2 = drop_rows (λ r. r.form == f && r.dnsadd) p1 in
      let rs = dropped_elements (λ r. r.form == f && r.dnsrefadd) p2 ds in
      let clean = rows_clean page.rows k in
      rw
        (
          none_reported f _ rs,
          any-All (λ r. r.rowrm) _ (All-imp RowIsClean _ (λ r c. c.not_removed) _ clean),
          any-All (λ r. r.dnsadd) _ (All-imp RowIsClean _ (λ r c. c.not_added) _ clean),
          any-All (λ r. r.dnsrefadd) _ (All-imp RowIsClean _ (λ r c. c.not_ref_added) _ clean),
        )
        refl
