-- ===== src/Rows/LicenseIds.antt =====
-- The lists for new licences have different identifiers.
use jazzhands.Prelude.{
  ℕ, suc, ◌≡◌, refl, ap, ◌∙◌, sym, Bool, true, false, String, Option, none, some, List, [], ◌∷◌,
  ◌++◌, map, all, includes, includes-append, distinct, ltb, ◌==◌, ==_iff, ◌<>◌, show, length, arith,
  inl, inr, Bool-cases, eq_iff,
}
use jazzhands.Rows.Fresh.{fresh_with}
use jazzhands.Rows.Licenses.{
  LicenseRow, Licenses, id_list, drop_ids, drop_prefix, free_license, add_license, fill_license,
  license_answered, remove_license, Event, added, removed, on_license, on_licenses,
}

abbrev filled : Option String → Bool
filled none = false
filled (some s) = true

abbrev is_filled : LicenseRow → Bool
is_filled r = filled r.drop

abbrev older : ℕ → LicenseRow → Bool
older next r = ltb r.object next

-- Every row has its list, the lists have different identifiers, and no answer is missing.
unfoldable pub HasDistinctLists : Licenses → Type 0
HasDistinctLists l =
    (distinct (drop_ids l.rows) ≡ true)
    × (all is_filled l.rows ≡ true)
    × (all (older l.next) l.rows ≡ true)
    × (l.under_way ≡ [])

abbrev with_drop : ℕ → ℕ → String → LicenseRow
with_drop o i s = record { object = o; number = i; drop = some s }

filled_last :
    (o i : ℕ) (s : String) (rs : List LicenseRow)
    → all (older o) rs ≡ true
    → map (fill_license o s) (rs ++ (record { object = o; number = i; drop = none } ∷ []))
      ≡ rs ++ (with_drop o i s ∷ [])
filled_last o i s [] h = rw ((==_iff o o).1 refl) refl
filled_last o i s (r ∷ rs) h =
    let other : (r.object == o) ≡ false = ground (arith, h) in
    rw other (ap (λ l. r ∷ l) (filled_last o i s rs (ground (arith, h))))

append-id : (a b : List String) (s : String) → (a ++ b) ++ (s ∷ []) ≡ a ++ (b ++ (s ∷ []))
append-id [] b s = refl
append-id (x ∷ a) b s = ap (λ l. x ∷ l) (append-id a b s)

ids-append :
    (o i : ℕ) (s : String) (rs : List LicenseRow)
    → drop_ids (rs ++ (with_drop o i s ∷ [])) ≡ drop_ids rs ++ (s ∷ [])
unfolding drop_ids
ids-append o i s [] = refl
ids-append o i s (r ∷ rs) =
    ap (λ l. id_list r.drop ++ l) (ids-append o i s rs)
    ∙ sym (append-id (id_list r.drop) (drop_ids rs) s)

distinct-append :
    (xs : List String) (s : String)
    → distinct xs ≡ true
    → includes s xs ≡ false
    → distinct (xs ++ (s ∷ [])) ≡ true
distinct-append [] s d i = refl
distinct-append (x ∷ xs) s d i =
    ground (arith, distinct-append xs s, includes-append x xs (s ∷ []), eq_iff x s, eq_iff s x)

all-append :
    {A : Type 0}
    → (p : A → Bool) (xs : List A) (x : A) → all p xs ≡ true
    → p x ≡ true
    → all p (xs ++ (x ∷ [])) ≡ true
all-append p [] x h e = ground (arith, e)
all-append p (y ∷ ys) x h e = ground (arith, all-append p ys x, e)

older-suc : (n : ℕ) (rs : List LicenseRow) → all (older n) rs ≡ true → all (older (suc n)) rs ≡ true
older-suc n [] h = refl
older-suc n (r ∷ rs) h = ground (arith, older-suc n rs)

added-HasDistinctLists :
    (devid : String) (l : Licenses)
    → HasDistinctLists l
    → HasDistinctLists (on_license devid added l)
unfolding HasDistinctLists on_license add_license license_answered free_license
added-HasDistinctLists devid l (d, f, o, u) =
    let s = drop_prefix devid <> show (free_license devid l.rows) in
    let i = free_license devid l.rows in
    let fresh : includes s (drop_ids l.rows) ≡ false =
      fresh_with (length (drop_ids l.rows)) (drop_prefix devid) (drop_ids l.rows) (drop_ids l.rows)
        0 (λ m h. refl) (omega arith) in
    rw (u, filled_last l.next i s l.rows o)
      (
        ap distinct (ids-append l.next i s l.rows) ∙ distinct-append (drop_ids l.rows) s d fresh,
        all-append is_filled l.rows (with_drop l.next i s) f refl,
        all-append (older (suc l.next)) l.rows (with_drop l.next i s) (older-suc l.next l.rows o)
            (ground arith),
        refl,
      )

behind :
    (o : Option String) (ids : List String) (x : String)
    → includes x (id_list o ++ ids) ≡ false
    → includes x ids ≡ false
behind none ids x h = h
behind (some s) ids x h = ground (arith, h)

keeps_front :
    (o : Option String) (ids kept : List String) (x : String)
    → (includes x ids ≡ false → includes x kept ≡ false)
    → includes x (id_list o ++ ids) ≡ false
    → includes x (id_list o ++ kept) ≡ false
keeps_front none ids kept x k h = k h
keeps_front (some s) ids kept x k h = ground (arith, h, k)

tail_distinct :
    (o : Option String) (ids : List String)
    → distinct (id_list o ++ ids) ≡ true
    → distinct ids ≡ true
tail_distinct none ids h = h
tail_distinct (some s) ids h = ground (arith, h)

front_distinct :
    (o : Option String) (ids kept : List String)
    → ((x : String) → includes x ids ≡ false → includes x kept ≡ false)
    → (distinct ids ≡ true → distinct kept ≡ true)
    → distinct (id_list o ++ ids) ≡ true
    → distinct (id_list o ++ kept) ≡ true
front_distinct none ids kept i d h = d h
front_distinct (some s) ids kept i d h = ground (arith, h, i s, d)

includes-remove :
    (x : String) (o : ℕ) (rs : List LicenseRow)
    → includes x (drop_ids rs) ≡ false
    → includes x (drop_ids (remove_license o rs)) ≡ false
unfolding drop_ids remove_license
includes-remove x o [] h = refl
includes-remove x o (r ∷ rs) h = elim (Bool-cases (r.object == o)) [
  | inl t ↦ rw t (behind r.drop (drop_ids rs) x h)
  | inr t ↦ rw t (
      keeps_front r.drop (drop_ids rs) (drop_ids (remove_license o rs)) x (includes-remove x o rs)
        h)
]

distinct-remove :
    (o : ℕ) (rs : List LicenseRow)
    → distinct (drop_ids rs) ≡ true
    → distinct (drop_ids (remove_license o rs)) ≡ true
unfolding drop_ids remove_license
distinct-remove o [] h = refl
distinct-remove o (r ∷ rs) h = elim (Bool-cases (r.object == o)) [
  | inl t ↦ rw t (tail_distinct r.drop (drop_ids rs) h)
  | inr t ↦ rw t (
      front_distinct r.drop (drop_ids rs) (drop_ids (remove_license o rs))
        (λ x. includes-remove x o rs) (distinct-remove o rs) h)
]

all-remove :
    (p : LicenseRow → Bool) (o : ℕ) (rs : List LicenseRow)
    → all p rs ≡ true
    → all p (remove_license o rs) ≡ true
unfolding remove_license
all-remove p o [] h = refl
all-remove p o (r ∷ rs) h = ground (arith, all-remove p o rs)

after_removal :
    (devid : String) (o : ℕ) (l : Licenses)
    → HasDistinctLists l
    → HasDistinctLists (on_license devid (removed o) l)
unfolding HasDistinctLists on_license
after_removal devid o l (d, f, n, u) = (
  distinct-remove o l.rows d,
  all-remove is_filled o l.rows f,
  all-remove (older l.next) o l.rows n,
  u,
)

event-HasDistinctLists :
    (devid : String) (e : Event) (l : Licenses)
    → HasDistinctLists l
    → HasDistinctLists (on_license devid e l)
event-HasDistinctLists devid added l h = added-HasDistinctLists devid l h
event-HasDistinctLists devid (removed o) l h = after_removal devid o l h

-- Where every row for a new licence has its list and the lists have different identifiers, any
-- sequence of clicks on the button for a new licence, each answered before the next one, and on
-- the links REMOVE leads to such rows.
pub on_licenses-HasDistinctLists :
    (devid : String) (es : List Event) (l : Licenses)
    → HasDistinctLists l
    → HasDistinctLists (on_licenses devid es l)
unfolding on_licenses
on_licenses-HasDistinctLists devid [] l h = h
on_licenses-HasDistinctLists devid (e ∷ es) l h =
    on_licenses-HasDistinctLists devid es (on_license devid e l)
      (event-HasDistinctLists devid e l h)
