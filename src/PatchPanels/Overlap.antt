-- ===== src/PatchPanels/Overlap.antt =====
-- Two rows that are added to the path of a port before the first answer.
use jazzhands.Prelude.{
  ℕ, zero, suc, ◌+◌, ◌-◌, ◌≤◌, ◌<◌, ◌≡◌, ◌≢◌, refl, ◌∙◌, ap, sym, Bool, true, false, Option, none,
  some, List, [], ◌∷◌, if◌then◌else◌, length, modify, arith, inl, inr, Bool-cases, ℕ_discrete,
  lt→ltb, length-modify,
}
use jazzhands.PatchPanels.Rows.{
  RowId, Row, Table, Request, Answer, Result, goes_on, thrown, has_field, found, rename,
  incremented, length-insert_row, set_id, increment_id, increment_option, id_at, increment,
  and_then, renumber, fill_row, answer_row, new_row, insert_row, append_row, request_of,
}

id_at-rename : (i x : RowId) (j : ℕ) (rs : List Row) → id_at j (rename i x rs) ≡ id_at j rs
unfolding id_at rename
id_at-rename i x j [] = refl
id_at-rename i x zero (r ∷ rs) = elim (Bool-cases (has_field i r.field)) [
  | inl t ↦ rw t refl
  | inr t ↦ rw t refl
]
id_at-rename i x (suc j) (r ∷ rs) = elim (Bool-cases (has_field i r.field)) [
  | inl t ↦ rw t refl
  | inr t ↦ rw t (id_at-rename i x j rs)
]

length-rename : (i x : RowId) (rs : List Row) → length (rename i x rs) ≡ length rs
unfolding rename
length-rename i x [] = refl
length-rename i x (r ∷ rs) = ground (arith, length-rename i x rs)

id_at-modify :
    (x : RowId) (k j : ℕ) (rs : List Row) → j ≢ k → id_at j (modify (set_id x) k rs) ≡ id_at j rs
unfolding id_at modify
id_at-modify x k j [] h = refl
id_at-modify x zero zero (r ∷ rs) h = absurd (h refl)
id_at-modify x zero (suc j) (r ∷ rs) h = refl
id_at-modify x (suc k) zero (r ∷ rs) h = refl
id_at-modify x (suc k) (suc j) (r ∷ rs) h = id_at-modify x k j rs (λ e. h (ap suc e))

unfoldable pub rows_of : Result → List Row
rows_of (goes_on rs) = rs
rows_of (thrown rs) = rs

unfoldable pub is_thrown : Result → Bool
is_thrown (goes_on rs) = false
is_thrown (thrown rs) = true

id_at-increment_option :
    (k j : ℕ) (o : Option RowId) (rs : List Row)
    → j ≢ k
    → id_at j (rows_of (increment_option k o rs)) ≡ id_at j rs
unfolding increment_option increment_id rows_of
id_at-increment_option k j none rs h = refl
id_at-increment_option k j (some i) rs h =
    elim (Bool-cases (found i (modify (set_id (incremented i)) k rs))) [
      | inl t ↦ rw t (
          id_at-rename i (incremented i) j (modify (set_id (incremented i)) k rs)
          ∙ id_at-modify (incremented i) k j rs h)
      | inr t ↦ rw t (id_at-modify (incremented i) k j rs h)
    ]

increment_keeps :
    (k j : ℕ) (rs : List Row) → id_at j rs ≡ none → id_at j (rows_of (increment k rs)) ≡ none
unfolding increment increment_option rows_of
increment_keeps k j rs h = elim (ℕ_discrete j k) [
  | yes e ↦
      ap (λ o. id_at j (rows_of (increment_option k o rs))) (ap (λ m. id_at m rs) (sym e) ∙ h) ∙ h
  | no d ↦ id_at-increment_option k j (id_at k rs) rs d ∙ h
]

length-increment_option :
    (k : ℕ) (o : Option RowId) (rs : List Row)
    → length (rows_of (increment_option k o rs)) ≡ length rs
unfolding increment_option increment_id rows_of
length-increment_option k none rs = refl
length-increment_option k (some i) rs =
    let kept = length-modify (set_id (incremented i)) k rs in
    elim (Bool-cases (found i (modify (set_id (incremented i)) k rs))) [
      | inl t ↦ rw t (length-rename i (incremented i) (modify (set_id (incremented i)) k rs) ∙ kept)
      | inr t ↦ rw t kept
    ]

and_then_keeps :
    (P : List Row → Type 0) (r : Result) (f : List Row → Result)
    → P (rows_of r)
    → ((rs : List Row) → P rs → P (rows_of (f rs)))
    → P (rows_of (and_then r f))
unfolding and_then rows_of
and_then_keeps P (goes_on rs) f p h = h rs p
and_then_keeps P (thrown rs) f p h = p

renumber_keeps :
    (c n j : ℕ) (rs : List Row) → id_at j rs ≡ none → id_at j (rows_of (renumber c n rs)) ≡ none
unfolding renumber rows_of
renumber_keeps zero n j rs h = h
renumber_keeps (suc c) n j rs h =
    and_then_keeps (λ rows. id_at j rows ≡ none) (increment (n + suc c) rs) (renumber c n)
      (increment_keeps (n + suc c) j rs h) (renumber_keeps c n j)

length-renumber : (c n : ℕ) (rs : List Row) → length (rows_of (renumber c n rs)) ≡ length rs
unfolding renumber rows_of increment
length-renumber zero n rs = refl
length-renumber (suc c) n rs =
    and_then_keeps (λ rows. length rows ≡ length rs) (increment (n + suc c) rs) (renumber c n)
      (length-increment_option (n + suc c) (id_at (n + suc c) rs) rs)
      (λ rows e. length-renumber c n rows ∙ e)

then_thrown :
    (r : Result) (f : List Row → Result)
    → ((rs : List Row) → r ≡ goes_on rs → is_thrown (f rs) ≡ true)
    → is_thrown (and_then r f) ≡ true
unfolding is_thrown and_then
then_thrown (goes_on rs) f h = h rs refl
then_thrown (thrown rs) f h = refl

renumber_thrown :
    (c n j : ℕ) (rs : List Row)
    → n < j
    → j ≤ n + c
    → id_at j rs ≡ none
    → is_thrown (renumber c n rs) ≡ true
unfolding renumber increment increment_option and_then is_thrown rows_of
renumber_thrown zero n j rs h l e = absurd (omega arith)
renumber_thrown (suc c) n j rs h l e = elim (ℕ_discrete j (n + suc c)) [
  | yes same ↦
      ap (λ r. is_thrown (and_then r (renumber c n)))
        (ap (λ o. increment_option (n + suc c) o rs) (ap (λ m. id_at m rs) (sym same) ∙ e))
  | no other ↦ then_thrown (increment (n + suc c) rs) (renumber c n) (λ rows g.
      renumber_thrown c n j rows h (omega (arith, other)) (
        ap (λ r. id_at j (rows_of r)) (sym g)
        ∙ id_at-increment_option (n + suc c) j (id_at (n + suc c) rs) rs other
        ∙ e))
]

and_then_rows : (r : Result) (f : List Row → Result) → is_thrown r ≡ true → and_then r f ≡ r
unfolding and_then is_thrown
and_then_rows (goes_on rs) f h = absurd (ground arith)
and_then_rows (thrown rs) f h = refl

-- An answer that finds a row without an identifier below its own throws.
answered_thrown :
    (q : Request) (a : Answer) (j : ℕ) (rs : List Row)
    → q.new_index < j
    → j < length rs
    → id_at j rs ≡ none
    → (answer_row q a rs ≡ renumber (length rs - 1 - q.new_index) q.new_index rs)
      × (is_thrown (renumber (length rs - 1 - q.new_index) q.new_index rs) ≡ true)
unfolding answer_row
answered_thrown q a j rs h l e =
    let t = renumber_thrown (length rs - 1 - q.new_index) q.new_index j rs h (omega arith) e in
    (and_then_rows (renumber (length rs - 1 - q.new_index) q.new_index rs) (fill_row q a) t, t)

insert_empty : (n o : ℕ) (rs : List Row) → id_at n (insert_row n (new_row o) rs) ≡ none
unfolding id_at insert_row
insert_empty zero o rs = refl
insert_empty (suc n) o [] = refl
insert_empty (suc n) o (r ∷ rs) = insert_empty n o rs

-- The rows at the next two places below `k` have no identifier.
pub BothEmpty : ℕ → List Row → Type 0
BothEmpty k rs =
    (id_at (suc k) rs ≡ none) × (id_at (suc (suc k)) rs ≡ none) × (suc (suc k) < length rs)

-- An answer raises an exception, and the two rows stay empty.
pub IsStuck : ℕ → Request → Answer → List Row → Type 0
IsStuck k q a rs =
    (is_thrown (answer_row q a rs) ≡ true) × BothEmpty k (rows_of (answer_row q a rs))

answer_row-IsStuck :
    (k : ℕ) (q : Request) (a : Answer) (rs : List Row)
    → q.new_index ≡ suc k
    → BothEmpty k rs
    → IsStuck k q a rs
unfolding BothEmpty IsStuck
answer_row-IsStuck k q a rs e b =
    let c = length rs - 1 - q.new_index in
    let t = answered_thrown q a (suc (suc k)) rs (omega (arith, e)) b.2 b.1 in
    rw t.0 (
      t.1,
      (
        renumber_keeps c q.new_index (suc k) rs b.0,
        renumber_keeps c q.new_index (suc (suc k)) rs b.1,
        omega (arith, b.2, length-renumber c q.new_index rs),
      ),
    )

insert_below :
    (n o : ℕ) (rs : List Row)
    → n < length rs
    → id_at (suc n) (insert_row n (new_row o) rs) ≡ id_at n rs
unfolding id_at insert_row
insert_below n o [] h = absurd (omega arith)
insert_below zero o (r ∷ rs) h = refl
insert_below (suc n) o (r ∷ rs) h = insert_below n o rs (omega arith)

twice-BothEmpty :
    (k : ℕ) (t : Table) → k < length t.rows → BothEmpty k (append_row k (append_row k t)).rows
unfolding BothEmpty append_row
twice-BothEmpty k t h =
    let once = insert_row (suc k) (new_row t.next) t.rows in
    let l : length once ≡ suc (length t.rows) =
      length-insert_row (suc k) (new_row t.next) t.rows (omega arith) in
    let l' = length-insert_row (suc k) (new_row (suc t.next)) once (omega (arith, l)) in
    rw (lt→ltb k (length t.rows) h, lt→ltb k (length once) (omega (arith, l)))
      (
        insert_empty (suc k) (suc t.next) once,
        insert_below (suc k) (suc t.next) once (omega (arith, l))
            ∙ insert_empty (suc k) t.next t.rows,
        omega (arith, l, l'),
      )

-- After two clicks on the button of a row before an answer, the answers to both requests, in
-- either order and whatever they hold, raise an exception and leave both new rows without an
-- identifier.
pub twice-IsStuck :
    (k : ℕ) (t : Table) (first second : Answer) (swapped : Bool)
    → k < length t.rows
    → (q : Request) × (r : Request) × (q
        ≡ (if swapped then request_of k (append_row k t) else request_of k t))
      × (r ≡ (if swapped then request_of k t else request_of k (append_row k t)))
      × IsStuck k q first (append_row k (append_row k t)).rows
      × IsStuck k r second (rows_of (answer_row q first (append_row k (append_row k t)).rows))
unfolding request_of IsStuck
twice-IsStuck k t first second swapped h =
    let q = if swapped then request_of k (append_row k t) else request_of k t in
    let r = if swapped then request_of k t else request_of k (append_row k t) in
    let rows = (append_row k (append_row k t)).rows in
    let one = answer_row-IsStuck k q first rows (ground arith) (twice-BothEmpty k t h) in
    (
      q,
      r,
      refl,
      refl,
      one,
      answer_row-IsStuck k r second (rows_of (answer_row q first rows)) (ground arith) one.1,
    )
