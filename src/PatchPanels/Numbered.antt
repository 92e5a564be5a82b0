-- ===== src/PatchPanels/Numbered.antt =====
-- A row that is added to the path of a port, with its answer: the rows stay numbered.
use jazzhands.Prelude.{
  ℕ, zero, suc, ◌+◌, ◌-◌, ◌≤◌, ◌<◌, ◌≡◌, ◌≢◌, refl, sym, ap, ◌∙◌, Bool, true, false, String,
  eq_refl, Option, none, some, List, [], ◌∷◌, if◌then◌else◌, ltb, leb, ◌==◌, ==_iff, length, modify,
  length-modify, map, arith, inl, inr, Bool-cases, subst, lt→ltb, ltb→lt,
}
use jazzhands.PatchPanels.Rows.{
  RowId, Field, Row, Table, Request, Answer, goes_on, has_field, found, field_with, rename, set_id,
  increment_id, increment_option, id_at, increment, and_then, renumber, fill, fill_row, answer_row,
  new_row, insert_row, length-insert_row, append_row, request_of, table_of, add_row, add_rows,
}

abbrev row_id : String → ℕ → RowId
row_id s v = record { stem = s; number = v }

unfoldable pub id_of : String → Option ℕ → Option RowId
id_of s none = none
id_of s (some v) = some (row_id s v)

-- The first row has no field.
unfoldable pub field_of : String → ℕ → Option ℕ → Option Field
field_of s zero o = none
field_of s (suc k) none = none
field_of s (suc k) (some v) = some (field_with (row_id s v))

-- From the index `k` on, the row at an index has the number that `numbers` tells, and `here` tells
-- which of them is the object `q`.
Fits : String → ℕ → ℕ → (ℕ → Bool) → (ℕ → Option ℕ) → ℕ → List Row → Type 0
Fits s next q here numbers k [] = Unit {0}
Fits s next q here numbers k (r ∷ rs) =
    (r.id ≡ id_of s (numbers k))
    × (r.field ≡ field_of s k (numbers k))
    × ((r.object == q) ≡ here k)
    × (r.object < next)
    × Fits s next q here numbers (suc k) rs

-- From the index `k` on, each row has its index as its number, and its field has it too.
unfoldable pub Numbered : String → ℕ → ℕ → List Row → Type 0
Numbered s next k [] = Unit {0}
Numbered s next k (r ∷ rs) =
    (r.id ≡ some (row_id s k))
    × (r.field ≡ field_of s k (some k))
    × (r.object < next)
    × Numbered s next (suc k) rs

-- The numbers while the loop still has to do `c` rows below the new row at `n`.
unfoldable shifted : ℕ → ℕ → ℕ → Option ℕ
shifted c n k =
    if ltb k n
    then some k
    else if k == n
    then none
    else if leb k (n + c)
    then some (k - 1)
    else some k

has_field-other :
    (s : String) (k v : ℕ) (o : Option ℕ)
    → o ≢ some v
    → has_field (row_id s v) (field_of s k o) ≡ false
unfolding has_field field_of
has_field-other s zero v o h = refl
has_field-other s (suc k) v none h = refl
has_field-other s (suc k) v (some w) h =
    ground (arith, (λ (e : w ≡ v). h (ap (λ x. some x) e)), ==_iff v w)

has_field-same :
    (s : String) (k v : ℕ) → 0 < k → has_field (row_id s v) (field_of s k (some v)) ≡ true
unfolding has_field field_of
has_field-same s zero v h = absurd (omega arith)
has_field-same s (suc k) v h = ground (arith, eq_refl s, ==_iff v v)

-- The index after `i` steps from `k`.
ahead : ℕ → ℕ → ℕ
ahead zero k = k
ahead (suc i) k = ahead i (suc k)

ahead_sum : (i k : ℕ) → ahead i k ≡ k + i
unfolding ahead
ahead_sum zero k = omega arith
ahead_sum (suc i) k = omega (arith, ahead_sum i (suc k))

ahead_zero : (i : ℕ) → ahead i 0 ≡ i
ahead_zero i = omega (arith, ahead_sum i 0)

module _ (s : String) (next q : ℕ) (here : ℕ → Bool) where
  id_at-Fits :
      (numbers : ℕ → Option ℕ) (i k : ℕ) (rs : List Row)
      → i < length rs
      → Fits s next q here numbers k rs
      → id_at i rs ≡ id_of s (numbers (ahead i k))
  unfolding Fits ahead id_at
  id_at-Fits numbers i k [] h f = absurd (omega arith)
  id_at-Fits numbers zero k (r ∷ rs) h f = f.0
  id_at-Fits numbers (suc i) k (r ∷ rs) h f = id_at-Fits numbers i (suc k) rs (omega arith) f.4

  found-Fits :
      (numbers : ℕ → Option ℕ) (x : RowId) (v i k : ℕ) (rs : List Row)
      → i < length rs
      → 0 < ahead i k
      → numbers (ahead i k) ≡ some v
      → Fits s next q here numbers k rs
      → found (row_id s v) (modify (set_id x) i rs) ≡ true
  unfolding Fits ahead found modify
  found-Fits numbers x v i k [] h p e f = absurd (omega arith)
  found-Fits numbers x v zero k (r ∷ rs) h p e f =
      rw (f.1, e, has_field-same s k v (omega arith)) refl
  found-Fits numbers x v (suc i) k (r ∷ rs) h p e f =
      ground (arith, found-Fits numbers x v i (suc k) rs (omega arith) p e f.4)

  rename-Fits :
      (numbers : ℕ → Option ℕ) (x : RowId) (v i k : ℕ) (rs : List Row)
      → i < length rs
      → 0 < ahead i k
      → numbers (ahead i k) ≡ some v
      → ((m : ℕ) → m < ahead i k → numbers m ≢ some v)
      → Fits s next q here numbers k rs
      → rename (row_id s v) x (modify (set_id x) i rs)
        ≡ modify (λ r. record r { id = some x; field = some (field_with x) }) i rs
  unfolding Fits ahead rename modify
  rename-Fits numbers x v i k [] h p e o f = absurd (omega arith)
  rename-Fits numbers x v zero k (r ∷ rs) h p e o f =
      rw (f.1, e, has_field-same s k v (omega arith)) refl
  rename-Fits numbers x v (suc i) k (r ∷ rs) h p e o f =
      rw
        (ap (has_field (row_id s v)) f.1
          ∙ has_field-other s k v (numbers k) (o k (omega (arith, ahead_sum i (suc k)))))
        (ap (λ l. r ∷ l) (rename-Fits numbers x v i (suc k) rs (omega arith) p e o f.4))

  same-Fits :
      (before after : ℕ → Option ℕ) (k : ℕ) (rs : List Row)
      → ((m : ℕ) → k ≤ m → after m ≡ before m)
      → Fits s next q here before k rs
      → Fits s next q here after k rs
  unfolding Fits ahead
  same-Fits before after k [] o f = tt
  same-Fits before after k (r ∷ rs) o f =
      rw (o k (omega arith))
        (f.0, f.1, f.2, f.3, same-Fits before after (suc k) rs (λ m h. o m (omega arith)) f.4)

  modify-Fits :
      (before after : ℕ → Option ℕ) (v i k : ℕ) (rs : List Row)
      → 0 < ahead i k
      → ((m : ℕ) → m ≢ ahead i k → after m ≡ before m)
      → after (ahead i k) ≡ some v
      → Fits s next q here before k rs
      → Fits s next q here after k (
          modify
            (λ r. record r { id = some (row_id s v); field = some (field_with (row_id s v)) })
            i
            rs)
  unfolding Fits ahead modify id_of field_of
  modify-Fits before after v i k [] p o e f = tt
  modify-Fits before after v zero zero (r ∷ rs) p o e f = absurd (omega arith)
  modify-Fits before after v zero (suc k) (r ∷ rs) p o e f = (
    rw e refl,
    rw e refl,
    f.2,
    f.3,
    same-Fits before after (suc (suc k)) rs (λ m h. o m (omega arith)) f.4,
  )
  modify-Fits before after v (suc i) k (r ∷ rs) p o e f =
      rw (o k (omega (arith, ahead_sum i (suc k))))
        (f.0, f.1, f.2, f.3, modify-Fits before after v i (suc k) rs p o e f.4)

-- The loop's body on the row at an index is as if the row were changed alone.
abbrev moved : String → ℕ → Row → Row
moved s v r = record r { id = some (row_id s v); field = some (field_with (row_id s v)) }

shifted_before : (c n m : ℕ) → m < n + suc c → shifted (suc c) n m ≢ some (n + c)
unfolding shifted
shifted_before c n m h e = ground (arith)

shifted_other : (c n m : ℕ) → m ≢ n + suc c → shifted c n m ≡ shifted (suc c) n m
unfolding shifted
shifted_other c n m h = ground (arith, h)

shifted_here : (c n : ℕ) → shifted (suc c) n (n + suc c) ≡ some (n + c)
unfolding shifted
shifted_here c n = ground (arith)

shifted_next : (c n : ℕ) → shifted c n (n + suc c) ≡ some (suc (n + c))
unfolding shifted
shifted_next c n = ground (arith)

increment-shifted :
    (s : String) (next q : ℕ) (here : ℕ → Bool) (c n : ℕ) (rs : List Row)
    → n + suc c < length rs
    → Fits s next q here (shifted (suc c) n) 0 rs
    → increment (n + suc c) rs ≡ goes_on (modify (moved s (suc (n + c))) (n + suc c) rs)
unfolding increment increment_option increment_id and_then id_of
increment-shifted s next q here c n rs h f =
    let e : shifted (suc c) n (ahead (n + suc c) 0) ≡ some (n + c) =
      ap (shifted (suc c) n) (ahead_zero (n + suc c)) ∙ shifted_here c n in
    let i = id_at-Fits s next q here (shifted (suc c) n) (n + suc c) 0 rs h f ∙ ap (id_of s) e in
    let p : 0 < ahead (n + suc c) 0 = omega (arith, ahead_zero (n + suc c)) in
    let x = row_id s (suc (n + c)) in
    rw
      (
        i,
        found-Fits s next q here (shifted (suc c) n) x (n + c) (n + suc c) 0 rs h p e f,
        rename-Fits s next q here (shifted (suc c) n) x (n + c) (n + suc c) 0 rs h p e
            (λ m k. shifted_before c n m (omega (arith, ahead_zero (n + suc c)))) f,
      )
      refl

renumber-Fits :
    (s : String) (next q : ℕ) (here : ℕ → Bool) (c n : ℕ) (rs : List Row)
    → n + c < length rs
    → Fits s next q here (shifted c n) 0 rs
    → (done : List Row) × (renumber c n rs ≡ goes_on done) × Fits s next q here (shifted 0 n) 0 done
unfolding renumber and_then
renumber-Fits s next q here zero n rs h f = (rs, refl, f)
renumber-Fits s next q here (suc c) n rs h f =
    let rows = modify (moved s (suc (n + c))) (n + suc c) rs in
    let sum = ahead_zero (n + suc c) in
    let next_fits =
      modify-Fits s next q here (shifted (suc c) n) (shifted c n) (suc (n + c)) (n + suc c) 0 rs
        (omega (arith, sum)) (λ m k. shifted_other c n m (λ e. k (omega (arith, sum))))
        (ap (shifted c n) (ahead_zero (n + suc c)) ∙ shifted_next c n) f in
    let rest =
      renumber-Fits s next q here c n rows
        (omega (arith, length-modify (moved s (suc (n + c))) (n + suc c) rs)) next_fits in
    (rest.0, rw (increment-shifted s next q here c n rs h f) (rest.1), rest.2)

shifted_above : (c n k : ℕ) → k < n → shifted c n k ≡ some k
unfolding shifted
shifted_above c n k h = ground arith

shifted_self : (c n : ℕ) → shifted c n n ≡ none
unfolding shifted
shifted_self c n = ground arith

shifted_below : (c n k : ℕ) → n ≤ k → k < n + c → shifted c n (suc k) ≡ some k
unfolding shifted
shifted_below c n k h l = ground arith

shifted_end : (n k : ℕ) → k ≢ n → shifted 0 n k ≡ some k
unfolding shifted
shifted_end n k h = ground (arith, h)

field_of-suc : (s : String) (k : ℕ) (o : Option ℕ) → 0 < k → field_of s k o ≡ field_of s (suc k) o
unfolding field_of
field_of-suc s zero o h = absurd (omega arith)
field_of-suc s (suc k) none h = refl
field_of-suc s (suc k) (some v) h = refl

differs : (a b : ℕ) → a ≢ b → (a == b) ≡ false
differs a b h = ground (arith, h)

-- The last step gives the new row its identifier and its field.
filled :
    (s : String) (next q n k : ℕ) (a : Answer) (rs : List Row)
    → a.id ≡ row_id s (suc n)
    → a.field ≡ some (field_with (row_id s (suc n)))
    → Fits s next q (λ m. m == suc n) (shifted 0 (suc n)) k rs
    → Numbered s next k (map (fill (record { new_row = q; new_index = suc n }) a) rs)
unfolding Fits Numbered shifted field_of id_of
filled s next q n k a [] i j f = tt
filled s next q n k a (r ∷ rs) i j f = elim (Bool-cases (r.object == q)) [
  | inl t ↦
      let k_is : k ≡ suc n = (==_iff k (suc n)).0 (sym f.2 ∙ t) in
      rw (t, k_is, i, j)
        (
          refl,
          refl,
          f.3,
          filled s next q n (suc (suc n)) a rs i j (
              subst (λ m. Fits s next q (λ m. m == suc n) (shifted 0 (suc n)) (suc m) rs) k_is f.4),
        )
  | inr u ↦
      let k_not : k ≢ suc n = λ e. ground (arith, f.2, u, e) in
      let e = shifted_end (suc n) k k_not in
      rw u (
        f.0 ∙ ap (id_of s) e,
        f.1 ∙ ap (field_of s k) e,
        f.3,
        filled s next q n (suc k) a rs i j f.4,
      )
]

module _ (s : String) (next n : ℕ) where
  below-Fits :
      (c k : ℕ) (rs : List Row)
      → suc n ≤ k
      → k + length rs ≤ suc n + c
      → Numbered s next k rs
      → Fits s (suc next) next (λ m. m == suc n) (shifted c (suc n)) (suc k) rs
  unfolding Fits Numbered id_of field_of
  below-Fits c k [] h l f = tt
  below-Fits c k (r ∷ rs) h l f =
      let e = shifted_below c (suc n) k h (omega arith) in
      (
        f.0 ∙ sym (ap (id_of s) e),
        f.1 ∙ field_of-suc s k (some k) (omega arith) ∙ sym (ap (field_of s (suc k)) e),
        ground (arith, f.2),
        omega (arith, f.2),
        below-Fits c (suc k) rs (omega arith) (omega arith) f.3,
      )

  insert-Fits :
      (c i k : ℕ) (rs : List Row)
      → ahead i k ≡ suc n
      → i ≤ length rs
      → k + length rs ≤ suc n + c
      → Numbered s next k rs
      → Fits s
          (suc next)
          next
          (λ m. m == suc n)
          (shifted c (suc n))
          k
          (insert_row i (new_row next) rs)
  unfolding Fits Numbered ahead insert_row id_of field_of
  insert-Fits c zero k rs e h l f = rw e (
    sym (ap (id_of s) (shifted_self c (suc n))),
    sym (ap (field_of s (suc n)) (shifted_self c (suc n))),
    ground arith,
    omega arith,
    below-Fits c (suc n) rs (omega arith) (omega arith) (subst (λ m. Numbered s next m rs) e f),
  )
  insert-Fits c (suc i) k [] e h l f = absurd (omega arith)
  insert-Fits c (suc i) k (r ∷ rs) e h l f =
      let sum = ahead_sum i (suc k) in
      let e' = shifted_above c (suc n) k (omega (arith, sum, e)) in
      (
        f.0 ∙ sym (ap (id_of s) e'),
        f.1 ∙ sym (ap (field_of s k) e'),
        ground (arith, f.2, sum, e),
        omega (arith, f.2),
        insert-Fits c i (suc k) rs e (omega arith) (omega arith) f.3,
      )

-- What the server sends for the row with a number: the row's identifier, and a field with it.
unfoldable pub IsServer : String → (ℕ → Answer) → Type 0
IsServer s server =
    (n : ℕ)
    → ((server (suc n)).id ≡ row_id s (suc n))
      × ((server (suc n)).field ≡ some (field_with (row_id s (suc n))))

-- Each row has its index as its number, and each row but the first has a field with it.
unfoldable pub IsNumbered : String → Table → Type 0
IsNumbered s t = Numbered s t.next 0 t.rows

answered_when :
    (q : Request) (a : Answer) (rs done : List Row) (c : ℕ)
    → length rs - 1 - q.new_index ≡ c
    → renumber c q.new_index rs ≡ goes_on done
    → answer_row q a rs ≡ goes_on (map (fill q a) done)
unfolding answer_row and_then fill_row
answered_when q a rs done c e h = rw (e, h) refl

answer_row-Numbered :
    (s : String) (server : ℕ → Answer) (k : ℕ) (t : Table)
    → IsServer s server
    → k < length t.rows
    → IsNumbered s t
    → (done : List Row) × (answer_row (request_of k t) (server (suc k)) (append_row k t).rows
        ≡ goes_on done)
      × Numbered s (suc t.next) 0 done
unfolding IsServer IsNumbered request_of append_row
answer_row-Numbered s server k t v h f =
    let c = length t.rows - suc k in
    let rows = insert_row (suc k) (new_row t.next) t.rows in
    let count : length rows - 1 - suc k ≡ c =
      omega (arith, length-insert_row (suc k) (new_row t.next) t.rows (omega arith)) in
    let placed =
      insert-Fits s t.next k c (suc k) 0 t.rows (ahead_zero (suc k)) (omega arith) (omega arith)
        f in
    let rest =
      renumber-Fits s (suc t.next) t.next (λ m. m == suc k) c (suc k) rows
        (omega (arith, length-insert_row (suc k) (new_row t.next) t.rows (omega arith))) placed in
    (
      map (fill (record { new_row = t.next; new_index = suc k }) (server (suc k))) rest.0,
      rw (lt→ltb k (length t.rows) h) (
          answered_when (record { new_row = t.next; new_index = suc k }) (server (suc k)) rows
            rest.0 c count rest.1),
      filled s (suc t.next) t.next k 0 (server (suc k)) rest.0 (v k).0 (v k).1 rest.2,
    )

add_row-IsNumbered :
    (s : String) (server : ℕ → Answer) (k : ℕ) (t : Table)
    → IsServer s server
    → IsNumbered s t
    → (after : Table) × (add_row server k t ≡ some after) × IsNumbered s after
unfolding add_row table_of append_row IsNumbered Numbered
add_row-IsNumbered s server k t v f = elim (Bool-cases (ltb k (length t.rows))) [
  | inl b ↦
      let rest = answer_row-Numbered s server k t v (ltb→lt k (length t.rows) b) f in
      let e = ap (table_of (append_row k t).next) (rest.1) in
      (record { rows = rest.0; next = suc t.next }, rw b (rw b at e), rest.2)
  | inr b ↦ (t, rw b refl, f)
]

-- On a table whose rows are numbered by their places, each row but the first with a field of its
-- number, any sequence of clicks on the buttons for a new row, each answer_row before the next one,
-- raises no exception and leaves such a table, where the server sends for the row with a number
-- that number and a field with it.
pub add_rows-IsNumbered :
    (s : String) (server : ℕ → Answer) (ks : List ℕ) (t : Table)
    → IsServer s server
    → IsNumbered s t
    → (after : Table) × (add_rows server ks (some t) ≡ some after) × IsNumbered s after
unfolding add_rows
add_rows-IsNumbered s server [] t v f = (t, refl, f)
add_rows-IsNumbered s server (k ∷ ks) t v f =
    let one = add_row-IsNumbered s server k t v f in
    let rest = add_rows-IsNumbered s server ks one.0 v one.2 in
    (rest.0, ap (add_rows server ks) one.1 ∙ rest.1, rest.2)
