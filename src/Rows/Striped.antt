-- ===== src/Rows/Striped.antt =====
-- The rows that were added keep alternating classes when one of them is taken away.
use jazzhands.Prelude.{
  ℕ, suc, ◌%◌, ◌≡◌, refl, Bool, true, not, List, [], ◌∷◌, if◌then◌else◌, ◌==◌, ◌&&◌, map, arith,
}
use jazzhands.Rows.Table.{Row, restripe, remove_row, purge_row}

abbrev is_even : ℕ → Bool
is_even i = i % 2 == 0

abbrev bool_eq : Bool → Bool → Bool
bool_eq a b = if a then b else not b

-- The added rows have the class `odd` or `even` by turns, where the first of them has `odd`
-- for an even `i`.
unfoldable pub is_striped : ℕ → List Row → Bool
is_striped i [] = true
is_striped i (r ∷ rs) =
    let next = is_striped (suc i) rs in
    let here = is_striped i rs in
    if r.added then bool_eq r.odd (is_even i) && bool_eq r.even (not (is_even i)) && next else here

restripe-is_striped : (i : ℕ) (rs : List Row) → is_striped i (restripe i rs) ≡ true
unfolding is_striped restripe
restripe-is_striped i [] = refl
restripe-is_striped i (r ∷ rs) =
    ground (arith, restripe-is_striped i rs, restripe-is_striped (suc i) rs)

restripe-fields :
    (i : ℕ) (rs : List Row) → map (λ r. r.fields) (restripe i rs) ≡ map (λ r. r.fields) rs
unfolding restripe
restripe-fields i [] = refl
restripe-fields i (r ∷ rs) = ground (arith, restripe-fields i rs, restripe-fields (suc i) rs)

-- After a row is purged, the added rows that are left have the classes `odd` and `even` by turns,
-- from `odd` on, and all other rows of the page are there with their fields, in their order.
pub purge_row-striped :
    (k : ℕ) (page : List Row)
    → (is_striped 0 (purge_row k page) ≡ true)
      × (map (λ r. r.fields) (purge_row k page) ≡ map (λ r. r.fields) (remove_row k page))
unfolding purge_row
purge_row-striped k page =
    (restripe-is_striped 0 (remove_row k page), restripe-fields 0 (remove_row k page))
