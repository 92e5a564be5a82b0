-- ===== src/FormTracking/Pass.antt =====
-- The pass over the tracked elements of a page, as the page's start and `resetForm` make it.
use jazzhands.Prelude.{
  some_inj, ℕ, zero, suc, ◌+◌, ◌≤◌, ◌<◌, ◌≡◌, refl, sym, ap, ◌∙◌, Bool, true, ◌&&◌, String, Option,
  none, some, List, get_elem?, length, arith, ◌⊎◌, inl, inr, ℕ_discrete, Option-cases, Bool-cases,
  lt-length_of_get_elem?, get_elem?_of_lt, subst, if◌then◌else◌,
}
use jazzhands.FormTracking.Elements.{Element, update_status, within, visit, update_from, update_all}
use jazzhands.FormTracking.Status.{
  differs, settled, IsGrouped, IsGrouped-settled, update_status_self, update_status_other,
  length-update_status,
}

-- Every radio button of the page belongs to a group as `g` tells.
abbrev pub AllGrouped : (String → Bool) → List Element → Type 0
AllGrouped g page = (j : ℕ) (a : Element) → get_elem? page j ≡ some a → IsGrouped g a

-- The element at `j` was `a`, and is now `a` or its settled form.
abbrev pub Kept : ℕ → Element → List Element → Type 0
Kept j a page = (get_elem? page j ≡ some a) ⊎ (get_elem? page j ≡ some (settled a))

Kept-settled :
    (j : ℕ) (a : Element) (page : List Element)
    → Kept j (settled a) page
    → get_elem? page j ≡ some (settled a)
Kept-settled j a page (inl p) = p
Kept-settled j a page (inr p) = p

within-settled : (s : Option ℕ) (e : Element) → within s (settled e) ≡ within s e
within-settled none e = refl
within-settled (some f) e = refl

updated_at :
    (i j : ℕ) (page : List Element) (e a : Element)
    → i ≡ j
    → get_elem? page i ≡ some e
    → get_elem? page j ≡ some a
    → get_elem? (update_status e i page) j ≡ some (settled a)
updated_at i j page e a p n h =
    let same : e ≡ a = some_inj _ _ (sym n ∙ subst (λ k. get_elem? page k ≡ some a) (sym p) h) in
    subst (λ k. get_elem? (update_status e i page) k ≡ some (settled a)) p
      (update_status_self e i page n ∙ ap (λ x. some (settled x)) same)

module _ (g : String → Bool) (scope : Option ℕ) where
  chosen : Element → Bool
  chosen e = e.tracked && within scope e

  chosen-settled : (e : Element) → chosen e ≡ true → chosen (settled e) ≡ true
  unfolding chosen
  chosen-settled e c = rw (within-settled scope e) c

  visit-none : (i : ℕ) (page : List Element) → get_elem? page i ≡ none → visit scope i page ≡ page
  unfolding visit
  visit-none i page h = rw (h, visit) refl

  visit-some :
      (i : ℕ) (page : List Element) (e : Element)
      → get_elem? page i ≡ some e
      → visit scope i page ≡ (if chosen e then update_status e i page else page)
  unfolding visit chosen
  visit-some i page e h = rw (h, visit) refl

  length-visit : (i : ℕ) (page : List Element) → length (visit scope i page) ≡ length page
  length-visit i page = elim (Option-cases (get_elem? page i)) [
    | inl h ↦ ap length (visit-none i page h)
    | inr (e, h) ↦ elim (Bool-cases (chosen e)) [
      | inl c ↦ rw (visit-some i page e h, c) (length-update_status e i page)
      | inr c ↦ rw (visit-some i page e h, c) refl
    ]
  ]

  visit_self :
      (i : ℕ) (page : List Element) (a : Element)
      → get_elem? page i ≡ some a
      → chosen a ≡ true
      → get_elem? (visit scope i page) i ≡ some (settled a)
  visit_self i page a h c = rw (visit-some i page a h, c) (update_status_self a i page h)

  visit-Kept :
      (i j : ℕ) (page : List Element) (a : Element)
      → AllGrouped g page
      → get_elem? page j ≡ some a
      → Kept j a (visit scope i page)
  visit-Kept i j page a k h = elim (Option-cases (get_elem? page i)) [
    | inl n ↦ inl (rw (visit-none i page n) h)
    | inr (e, n) ↦ elim (Bool-cases (chosen e)) [
      | inr c ↦ inl (rw (visit-some i page e n, c) h)
      | inl c ↦
          rw (visit-some i page e n, c)
            (elim (ℕ_discrete i j) [
              | yes p ↦ inr (updated_at i j page e a p n h)
              | no p ↦ update_status_other g e i j page a (k i e n) (k j a h) p h
            ])
    ]
  ]

  visit-AllGrouped :
      (i : ℕ) (page : List Element) → AllGrouped g page → AllGrouped g (visit scope i page)
  visit-AllGrouped i page k j b h =
      let (a, p) = get_elem?_of_lt page j (
        subst (λ n. j < n) (length-visit i page)
          (lt-length_of_get_elem? (visit scope i page) j h)) in
      elim (visit-Kept i j page a k p) [
        | inl q ↦ subst (IsGrouped g) (some_inj _ _ (sym q ∙ h)) (k j a p)
        | inr q ↦ subst (IsGrouped g) (some_inj _ _ (sym q ∙ h)) (IsGrouped-settled g a (k j a p))
      ]

  -- The rest of the pass keeps or settles every element, and settles those that it visits.
  update_from-Kept :
      (n i j : ℕ) (page : List Element) (a : Element)
      → AllGrouped g page
      → get_elem? page j ≡ some a
      → Kept j a (update_from scope n i page)
  unfolding update_from
  update_from-Kept zero i j page a k h = inl h
  update_from-Kept (suc n) i j page a k h = elim (visit-Kept i j page a k h) [
    | inl p ↦ update_from-Kept n (suc i) j (visit scope i page) a (visit-AllGrouped i page k) p
    | inr p ↦ inr (
        Kept-settled j a _ (
          update_from-Kept n (suc i) j (visit scope i page) (settled a) (visit-AllGrouped i page k)
            p))
  ]

  update_from_visited :
      (n i j : ℕ) (page : List Element) (a : Element)
      → AllGrouped g page
      → get_elem? page j ≡ some a
      → chosen a ≡ true
      → i ≤ j
      → j < i + n
      → get_elem? (update_from scope n i page) j ≡ some (settled a)
  unfolding update_from
  update_from_visited zero i j page a k h c lo hi = absurd (omega arith)
  update_from_visited (suc n) i j page a k h c lo hi =
      let k' = visit-AllGrouped i page k in
      elim (ℕ_discrete i j) [
        | yes p ↦ Kept-settled j a _ (
            update_from-Kept n (suc i) j (visit scope i page) (settled a) k' (
              subst (λ m. get_elem? (visit scope i page) m ≡ some (settled a)) p
                (visit_self i page a (subst (λ m. get_elem? page m ≡ some a) (sym p) h) c)))
        | no p ↦ elim (visit-Kept i j page a k h) [
          | inl q ↦
              update_from_visited n (suc i) j (visit scope i page) a k' q c (omega arith)
                (omega arith)
          | inr q ↦
              update_from_visited n (suc i) j (visit scope i page) (settled a) k' q
                (chosen-settled a c) (omega arith) (omega arith)
        ]
      ]

-- A pass over a page, where the radio buttons of a name all have the attribute `original` or none
-- has, gives every tracked element within the scope the class `changed` exactly if it differs from
-- its original state, and leaves it in its place with nothing else changed.
pub update_all_visited :
    (g : String → Bool) (scope : Option ℕ) (page : List Element) (j : ℕ) (a : Element)
    → AllGrouped g page
    → get_elem? page j ≡ some a
    → a.tracked ≡ true
    → within scope a ≡ true
    → get_elem? (update_all scope page) j ≡ some (record a { changed = differs a })
unfolding update_all chosen
update_all_visited g scope page j a k h t w =
    update_from_visited g scope (length page) 0 j page a k h (rw (w, t) refl) (omega arith)
      (omega (arith, lt-length_of_get_elem? page j h))

-- The class of any element stays, or says whether it differs.
pub update_all-Kept :
    (g : String → Bool) (scope : Option ℕ) (page : List Element) (j : ℕ) (a : Element)
    → AllGrouped g page
    → get_elem? page j ≡ some a
    → Kept j a (update_all scope page)
unfolding update_all
update_all-Kept g scope page j a k h = update_from-Kept g scope (length page) 0 j page a k h

pub length-update_all :
    (scope : Option ℕ) (page : List Element) → length (update_all scope page) ≡ length page
unfolding update_all update_from
length-update_all scope page = go (length page) 0 page
  where
    go : (n i : ℕ) (p : List Element) → length (update_from scope n i p) ≡ length p
    go zero i p = refl
    go (suc n) i p = go n (suc i) (visit scope i p) ∙ length-visit (λ _. true) scope i p
