-- ===== src/PatchPanels/Rows.antt =====
-- The rows of the path of a port and `AppendPatchPanelRow`, with the change of the numbers when
-- the answer comes.
use jazzhands.Prelude.{
  ℕ, zero, suc, ◌+◌, ◌-◌, ◌≤◌, ◌≡◌, refl, ap, arith, Bool, true, false, ◌&&◌, String, Option, none,
  some, List, [], ◌∷◌, if◌then◌else◌, ltb, ◌==◌, str_eq, length, modify, map,
}

-- The identifier `<stem>_row<number>` of a field; that of its row has `tr_` before it.
pub record RowId : Type 0 where
  pub stem : String
  pub number : ℕ

pub record Field : Type 0 where
  pub id : RowId
  pub name : RowId

-- A row, `object` is its identity in the browser. The field of a row is the one that has the
-- identifier of the row without `tr_`. A row has no identifier before its answer.
pub record Row : Type 0 where
  pub object : ℕ
  pub id : Option RowId
  pub field : Option Field

-- `next` is the identity of the next new row.
pub record Table : Type 0 where
  pub rows : List Row
  pub next : ℕ

-- A request keeps the row that it was sent for, and the index that this had.
pub record Request : Type 0 where
  pub new_row : ℕ
  pub new_index : ℕ

-- The elements `trid` and `contents` of the response.
pub record Answer : Type 0 where
  pub id : RowId
  pub field : Option Field

abbrev same_id : RowId → RowId → Bool
same_id a b = str_eq a.stem b.stem && (a.number == b.number)

unfoldable pub has_field : RowId → Option Field → Bool
has_field i none = false
has_field i (some f) = same_id i f.id

-- `document.getElementById(refid)` finds a field.
unfoldable pub found : RowId → List Row → Bool
unfolding has_field
found i [] = false
found i (r ∷ rs) = if has_field i r.field then true else found i rs

abbrev pub field_with : RowId → Field
field_with i = record { id = i; name = i }

-- The field that is found gets a new identifier and name.
unfoldable pub rename : RowId → RowId → List Row → List Row
unfolding has_field
rename i new [] = []
rename i new (r ∷ rs) =
    let rest = rename i new rs in
    if has_field i r.field then record r { field = some (field_with new) } ∷ rs else r ∷ rest

-- Rows, and whether the code went on or an exception left the handler.
pub data Result : Type 0 where
  goes_on : List Row → Result
  thrown : List Row → Result

abbrev pub incremented : RowId → RowId
incremented i = record i { number = suc i.number }

abbrev pub set_id : RowId → Row → Row
set_id i r = record r { id = some i }

-- The loop's body where the row has the identifier `i`: without a field, `refelem.id` throws.
unfoldable pub increment_id : ℕ → RowId → List Row → Result
unfolding found rename modify
increment_id k i rs =
    let rows = modify (set_id (incremented i)) k rs in
    if found i rows then goes_on (rename i (incremented i) rows) else thrown rows

unfoldable pub id_at : ℕ → List Row → Option RowId
id_at k [] = none
id_at zero (r ∷ rs) = r.id
id_at (suc k) (r ∷ rs) = id_at k rs

-- A row without an identifier has the empty text there, and no element is found for it.
unfoldable pub increment_option : ℕ → Option RowId → List Row → Result
unfolding increment_id
increment_option k none rs = thrown rs
increment_option k (some i) rs = increment_id k i rs

-- The loop's body for the row at an index.
unfoldable pub increment : ℕ → List Row → Result
unfolding increment_option id_at
increment k rs = increment_option k (id_at k rs) rs

unfoldable pub and_then : Result → (List Row → Result) → Result
and_then (goes_on rs) f = f rs
and_then (thrown rs) f = thrown rs

-- The loop, from the last row to the one below `new_index`; the first number is that of the rows
-- that it still has to do.
unfoldable pub renumber : ℕ → ℕ → List Row → Result
unfolding increment and_then
renumber zero n rs = goes_on rs
renumber (suc c) n rs = and_then (increment (n + suc c) rs) (renumber c n)

abbrev pub fill : Request → Answer → Row → Row
fill q a r = if r.object == q.new_row then record r { id = some a.id; field = a.field } else r

unfoldable pub fill_row : Request → Answer → List Row → Result
fill_row q a rs = goes_on (map (fill q a) rs)

-- The answer to a request.
unfoldable pub answer_row : Request → Answer → List Row → Result
unfolding renumber and_then fill_row
answer_row q a rs = and_then (renumber (length rs - 1 - q.new_index) q.new_index rs) (fill_row q a)

abbrev pub new_row : ℕ → Row
new_row o = record { object = o; id = none; field = none }

-- `insertRow`
unfoldable pub insert_row : ℕ → Row → List Row → List Row
insert_row zero row rs = row ∷ rs
insert_row (suc n) row [] = row ∷ []
insert_row (suc n) row (r ∷ rs) = r ∷ insert_row n row rs

pub length-insert_row :
    (n : ℕ) (row : Row) (rs : List Row)
    → n ≤ length rs
    → length (insert_row n row rs) ≡ suc (length rs)
unfolding insert_row
length-insert_row zero row rs h = refl
length-insert_row (suc n) row [] h = absurd (omega arith)
length-insert_row (suc n) row (r ∷ rs) h = ap suc (length-insert_row n row rs (omega arith))

-- `AppendPatchPanelRow` for a button in the row at `k`: the row and the request.
unfoldable pub append_row : ℕ → Table → Table
unfolding insert_row
append_row k t = record {
  rows = if ltb k (length t.rows) then insert_row (suc k) (new_row t.next) t.rows else t.rows;
  next = if ltb k (length t.rows) then suc t.next else t.next;
}

unfoldable pub request_of : ℕ → Table → Request
request_of k t = record { new_row = t.next; new_index = suc k }

-- The table after an answer, none after an exception.
unfoldable pub table_of : ℕ → Result → Option Table
table_of next (goes_on rs) = some (record { rows = rs; next = next })
table_of next (thrown rs) = none

-- A click in the row at `k`, and its answer before anything else happens. Without such a row
-- there is no such button.
unfoldable pub add_row : (ℕ → Answer) → ℕ → Table → Option Table
unfolding append_row request_of answer_row table_of
add_row server k t =
    if ltb k (length t.rows)
    then table_of (append_row k t).next
        (answer_row (request_of k t) (server (suc k)) (append_row k t).rows)
    else some t

unfoldable pub add_rows : (ℕ → Answer) → List ℕ → Option Table → Option Table
unfolding add_row
add_rows server ks none = none
add_rows server [] (some t) = some t
add_rows server (k ∷ ks) (some t) = add_rows server ks (add_row server k t)
