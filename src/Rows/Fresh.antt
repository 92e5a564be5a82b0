-- ===== src/Rows/Fresh.antt =====
-- The number of a new row is the first one that is free.
use jazzhands.Prelude.{
  ℕ, zero, suc, ◌≤◌, ◌<◌, ◌≡◌, ◌≢◌, refl, sym, ◌∙◌, true, false, String, str_eq, str_eq-false,
  eq_iff, List, [], ◌∷◌, if◌then◌else◌, ◌<>◌, show, append-show_inj, includes, length, arith, inl,
  inr, Bool-cases, ℕ_discrete, subst,
}
use jazzhands.Rows.Table.{
  Row, ids, free_offset, new_offset, insert_after, insert_before, add_new_dns_row,
  add_dns_ref_record_row, add_account, ref_prefix, new_dns_row, new_ref_row, new_account_row,
}

other_id : (prefix : String) (m n : ℕ) → n < m → (prefix <> show m) ≢ (prefix <> show n)
other_id prefix m n h e = absurd (omega (arith, append-show_inj prefix m n e))

without : String → List String → List String
without x [] = []
without x (y ∷ ys) = let rest = without x ys in if str_eq y x then rest else y ∷ rest

without-length : (x : String) (ys : List String) → length (without x ys) ≤ length ys
unfolding without
without-length x [] = omega arith
without-length x (y ∷ ys) = ground (arith, without-length x ys)

without-shorter :
    (x : String) (ys : List String) → includes x ys ≡ true → length (without x ys) < length ys
unfolding without
without-shorter x [] h = absurd (ground arith)
without-shorter x (y ∷ ys) h = ground (arith, without-shorter x ys, without-length x ys)

without-includes :
    (x z : String) (ys : List String) → z ≢ x → includes z (without x ys) ≡ includes z ys
unfolding without
without-includes x z [] h = refl
without-includes x z (y ∷ ys) h = elim (Bool-cases (str_eq y x)) [
  | inl t ↦ rw (t, str_eq-false y z (λ e. h (sym e ∙ (eq_iff y x).0 t))) (without-includes x z ys h)
  | inr f ↦ rw (f, without-includes x z ys h) refl
]

-- `left` holds what is taken from the number `o` on.
pub fresh_with :
    (fuel : ℕ) (prefix : String) (taken left : List String) (o : ℕ)
    → ((m : ℕ) → o ≤ m → includes (prefix <> show m) taken ≡ includes (prefix <> show m) left)
    → length left ≤ fuel
    → includes (prefix <> show (free_offset fuel prefix taken o)) taken ≡ false
unfolding free_offset
fresh_with zero prefix taken [] o h k = h o (omega arith)
fresh_with zero prefix taken (x ∷ left) o h k = absurd (omega arith)
fresh_with (suc fuel) prefix taken left o h k =
    elim (Bool-cases (includes (prefix <> show o) taken)) [
      | inl t ↦
          let gone : includes (prefix <> show o) left ≡ true = sym (h o (omega arith)) ∙ t in
          rw t (
            fresh_with fuel prefix taken (without (prefix <> show o) left) (suc o)
              (λ m k'.
                h m (omega arith)
                ∙ sym (
                    without-includes (prefix <> show o) (prefix <> show m) left
                      (other_id prefix m o (omega arith))))
              (omega (arith, without-shorter (prefix <> show o) left gone)))
      | inr f ↦ rw f f
    ]

free_offset_le :
    (fuel : ℕ) (prefix : String) (taken : List String) (o : ℕ) → o ≤ free_offset fuel prefix taken o
unfolding free_offset
free_offset_le zero prefix taken o = omega arith
free_offset_le (suc fuel) prefix taken o = ground (arith, free_offset_le fuel prefix taken (suc o))

taken_below :
    (fuel : ℕ) (prefix : String) (taken : List String) (o m : ℕ)
    → o ≤ m
    → m < free_offset fuel prefix taken o
    → includes (prefix <> show m) taken ≡ true
unfolding free_offset
taken_below zero prefix taken o m h k = absurd (omega arith)
taken_below (suc fuel) prefix taken o m h k =
    elim (Bool-cases (includes (prefix <> show o) taken)) [
      | inl t ↦ elim (ℕ_discrete o m) [
        | yes e ↦ subst (λ n. includes (prefix <> show n) taken ≡ true) e t
        | no ne ↦ taken_below fuel prefix taken (suc o) m (ground (arith, ne)) (ground (arith, t))
      ]
      | inr f ↦ absurd (ground (arith, f))
    ]

-- The number of a new row is the first, from the start on, for which the page has no input with
-- its identifier.
pub IsFirstFree : String → ℕ → List Row → ℕ → Type 0
IsFirstFree prefix start page o =
    (start ≤ o)
    × (includes (prefix <> show o) (ids page) ≡ false)
    × ((m : ℕ) → start ≤ m → m < o → includes (prefix <> show m) (ids page) ≡ true)

new_offset-IsFirstFree :
    (prefix : String) (start : ℕ) (page : List Row)
    → IsFirstFree prefix start page (new_offset prefix start page)
unfolding IsFirstFree new_offset
new_offset-IsFirstFree prefix start page = (
  free_offset_le (length (ids page)) prefix (ids page) start,
  fresh_with (length (ids page)) prefix (ids page) (ids page) start (λ m h. refl) (omega arith),
  taken_below (length (ids page)) prefix (ids page) start,
)

-- Each of the three ways to add a row ends, whatever rows the page has, with the row of the first
-- number that is free, in its place beside the button's row.
pub added-IsFirstFree :
    (k : ℕ) (page : List Row) (record_id : String) (types classes domains : List (String × String))
    → ((o : ℕ) × IsFirstFree "new_DNS_NAME_" 1 page o
        × (add_new_dns_row k types classes page
            ≡ insert_after k (new_dns_row types classes o) page))
      × ((o : ℕ) × IsFirstFree (ref_prefix record_id) 0 page o
          × (add_dns_ref_record_row k record_id domains page
              ≡ insert_before k (new_ref_row record_id domains o) page))
      × ((o : ℕ) × IsFirstFree "ACCOUNT_ID_new_" 0 page o
          × (add_account k page ≡ insert_before k (new_account_row o) page))
unfolding add_new_dns_row add_dns_ref_record_row add_account
added-IsFirstFree k page record_id types classes domains = (
  (new_offset "new_DNS_NAME_" 1 page, new_offset-IsFirstFree "new_DNS_NAME_" 1 page, refl),
  (
    new_offset (ref_prefix record_id) 0 page,
    new_offset-IsFirstFree (ref_prefix record_id) 0 page,
    refl,
  ),
  (new_offset "ACCOUNT_ID_new_" 0 page, new_offset-IsFirstFree "ACCOUNT_ID_new_" 0 page, refl),
)
