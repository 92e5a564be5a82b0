-- ===== src/OtherEnd/Retype.antt =====
-- A search that is cleared and typed again.
use jazzhands.Prelude.{
  arith, ℕ, ◌≡◌, ◌≢◌, refl, ◌∙◌, ap, String, str_eq-false, eq_refl, none, some, List, [], get_elem?,
  modify, get_elem?-modify_self,
}
use jazzhands.OtherEnd.State.{OtherEnd, Page}
use jazzhands.OtherEnd.Actions.{type_text, fire, get_matching_devices, emptied_field, track}

-- The lines of a field's list.
abbrev pub options : OtherEnd → List (String × String)
options f = elim f.popup [ some p ↦ p.options | none ↦ [] ]

type_and_wait : ℕ → String → Page → Page
type_and_wait i s p = fire (type_text i s p)

typed : String → OtherEnd → OtherEnd
typed s f = track (record f { value = s })

module _ (i : ℕ) (p : Page) (f : OtherEnd) (v : String) (h : get_elem? p.fields i ≡ some f)
    (r : f.last_requested ≡ some v) where
  type_again : type_and_wait i v p ≡ record p { fields = modify (typed v) i p.fields; timer = none }
  unfolding type_and_wait fire type_text typed
  type_again =
      rw (get_elem?-modify_self (typed v) i p.fields h, get_matching_devices)
        (rw (r, eq_refl v) refl)

  type_empty :
      v ≢ ""
      → type_and_wait i "" p
        ≡ record p { fields = modify emptied_field i (modify (typed "") i p.fields); timer = none }
  unfolding type_and_wait fire type_text typed
  type_empty ne =
      rw (get_elem?-modify_self (typed "") i p.fields h, get_matching_devices)
        (rw (r, str_eq-false v "" ne) refl)

abbrev emptied : OtherEnd → OtherEnd
emptied f = emptied_field (typed "" f)

emptied-options : (s : String) (f : OtherEnd) → options (typed s (emptied f)) ≡ []
unfolding emptied_field typed
emptied-options s f = ground arith

emptied-requested : (f : OtherEnd) → (emptied f).last_requested ≡ f.last_requested
unfolding emptied_field typed
emptied-requested f = refl

-- Where the last search that was requested for a field was for a text that is not empty, and the
-- user clears the field, waits, types the same text again and waits, then no new search is sent
-- and the list of the popup stays empty.
pub retyped_list_empty :
    (i : ℕ) (p : Page) (f : OtherEnd) (v : String)
    → get_elem? p.fields i ≡ some f
    → f.last_requested ≡ some v
    → v ≢ ""
    → ((fire (type_text i v (fire (type_text i "" p)))).requests ≡ p.requests)
      × ((g : OtherEnd) × (get_elem? (fire (type_text i v (fire (type_text i "" p)))).fields i
            ≡ some g)
          × (options g ≡ []))
unfolding type_and_wait
retyped_list_empty i p f v h r ne =
    let first = modify emptied_field i (modify (typed "") i p.fields) in
    let p1 : Page = record p { fields = first; timer = none } in
    let at_i : get_elem? first i ≡ some (emptied f) =
      get_elem?-modify_self emptied_field i (modify (typed "") i p.fields)
        (get_elem?-modify_self (typed "") i p.fields h) in
    let e = type_empty i p f v h r ne in
    let again = type_again i p1 (emptied f) v at_i (emptied-requested f ∙ r) in
    let whole = ap (type_and_wait i v) e ∙ again in
    (
      ap (λ q. q.requests) whole,
      (
        typed v (emptied f),
        ap (λ q. get_elem? q.fields i) whole ∙ get_elem?-modify_self (typed v) i first at_i,
        emptied-options v f,
      ),
    )
