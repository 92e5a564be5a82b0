-- ===== src/Collections/Members.antt =====
-- The rows for new members.
use jazzhands.Prelude.{
  ℕ, zero, suc, ◌-◌, ◌≡◌, refl, ap, ◌∙◌, sym, inl, inr, Bool, true, false, not, ◌&&◌, ltb, String,
  str_eq, Option, none, some, List, [], ◌∷◌, ◌++◌, ◌<>◌, show, if◌then◌else◌, any, all, arith,
  Bool-cases, append-show_inj, str_eq-false,
}
use mathlib.Core.List.{append_assoc}
use jazzhands.Collections.Params.{find_param, written, value_or_empty, count_numbered}

-- A row with its identifier, and the name and the value of each of its text fields, if it has any.
pub record Member : Type 0 where
  pub id : String
  pub fields : List (String × String)

-- The children of `collection-members`, and the variable `iNumNetblockInputs`.
pub record Members : Type 0 where
  pub rows : List Member
  pub netblock_inputs : ℕ

-- `insertBefore` the row with this identifier, or at the end where there is none.
unfoldable pub insert_before : String → Member → List Member → List Member
insert_before id row [] = row ∷ []
insert_before id row (r ∷ rs) =
    let rest = insert_before id row rs in if str_eq r.id id then row ∷ r ∷ rs else r ∷ rest

abbrev pub netblock_name : ℕ → String
netblock_name n = "add_NETBLOCK" <> show n

abbrev pub rank_name : ℕ → String
rank_name n = "rank_add_NETBLOCK" <> show n

abbrev pub row_id : ℕ → String
row_id n = "netblock-input-row" <> show n

abbrev pub input_row : List (String × Option String) → ℕ → Member
input_row params n = record {
  id = row_id n;
  fields =
      (netblock_name n, value_or_empty (netblock_name n) params)
      ∷ (rank_name n, value_or_empty (rank_name n) params)
      ∷ [];
}

-- `insert_netblock_input_row`
unfoldable pub insert_netblock_input_row : List (String × Option String) → Members → Members
unfolding insert_before
insert_netblock_input_row params m =
    let n = suc m.netblock_inputs in
    record {
      rows = insert_before "netblock-input-row1" (input_row params n) m.rows;
      netblock_inputs = n;
    }

unfoldable pub insert_times : ℕ → List (String × Option String) → Members → Members
unfolding insert_netblock_input_row
insert_times zero params m = m
insert_times (suc k) params m = insert_times k params (insert_netblock_input_row params m)

-- The first field gets its parameter, where there is one.
abbrev pub set_value : Option (Option String) → String → String → String × String
set_value none name value = (name, value)
set_value (some v) name value = (name, written v)

abbrev pub set_field :
    List (String × Option String) → List (String × String) → List (String × String)
set_field params [] = []
set_field params ((name, value) ∷ fs) =
    let rest = set_field params fs in
    if str_eq name "add_NETBLOCK1"
    then set_value (find_param "add_NETBLOCK1" params) name value ∷ fs
    else (name, value) ∷ rest

abbrev pub has_first : Member → Bool
has_first r = any (λ f. str_eq f.0 "add_NETBLOCK1") r.fields

unfoldable pub restore_first : List (String × Option String) → List Member → List Member
restore_first params [] = []
restore_first params (r ∷ rs) =
    let rest = restore_first params rs in
    if has_first r then record r { fields = set_field params r.fields } ∷ rs else r ∷ rest

-- The handler of `ready`, where the button `insert_NETBLOCK` is there.
unfoldable pub repopulate : List (String × Option String) → Members → Members
unfolding insert_times restore_first count_numbered
repopulate params m =
    let n = count_numbered "add_NETBLOCK" params in
    let first = record m { rows = restore_first params m.rows } in
    if ltb 1 n then insert_times (n - 1) params first else first

-- The row that holds the parameters with a number.
abbrev holding_row : List (String × Option String) → ℕ → Member
holding_row params n = record {
  id = "netblock-input-row" <> show n;
  fields =
      ("add_NETBLOCK" <> show n, value_or_empty ("add_NETBLOCK" <> show n) params)
      ∷ ("rank_add_NETBLOCK" <> show n, value_or_empty ("rank_add_NETBLOCK" <> show n) params)
      ∷ [];
}

-- The rows for the numbers from `n` on.
abbrev pub input_rows : List (String × Option String) → ℕ → ℕ → List Member
input_rows params n zero = []
input_rows params n (suc k) = holding_row params n ∷ input_rows params (suc n) k

-- The first row, as the server writes it, with a value.
abbrev pub first_row : String → Member
first_row value = record {
  id = "netblock-input-row1";
  fields = ("add_NETBLOCK1", value) ∷ ("rank_add_NETBLOCK1", "") ∷ [];
}

-- No row has the identifier of the first row, or its field.
abbrev pub is_other : Member → Bool
is_other r = not (str_eq r.id "netblock-input-row1") && not (has_first r)

insert_before-append :
    (row first : Member) (xs after : List Member)
    → first.id ≡ "netblock-input-row1"
    → all (λ r. not (str_eq r.id "netblock-input-row1")) xs ≡ true
    → insert_before "netblock-input-row1" row (xs ++ first ∷ after) ≡ xs ++ row ∷ first ∷ after
unfolding insert_before
insert_before-append row first [] after e h = rw e refl
insert_before-append row first (x ∷ xs) after e h =
    let t : str_eq x.id "netblock-input-row1" ≡ false = ground arith in
    let u = insert_before-append row first xs after e (ground arith) in rw (t, u) refl

all-append_one :
    {A : Type 0} (p : A → Bool) (xs : List A) (x : A)
    → all p xs ≡ true
    → p x ≡ true
    → all p (xs ++ x ∷ []) ≡ true
all-append_one p [] x h k = ground arith
all-append_one p (y ∷ xs) x h k = ground (arith, all-append_one p xs x)

first_id : "netblock-input-row1" ≡ row_id 1
unfolding show
first_id = refl

row_id_ne : (n : ℕ) → ltb 0 n ≡ true → str_eq (row_id (suc n)) "netblock-input-row1" ≡ false
row_id_ne n h = str_eq-false (row_id (suc n)) "netblock-input-row1" (λ e.
    let same : suc n ≡ 1 = append-show_inj "netblock-input-row" (suc n) 1 (e ∙ first_id) in
    absurd (ground arith))

insert_times-rows :
    (k : ℕ) (params : List (String × Option String)) (m : Members) (first : Member)
    (xs after : List Member)
    → m.rows ≡ xs ++ first ∷ after
    → ltb 0 m.netblock_inputs ≡ true
    → first.id ≡ "netblock-input-row1"
    → all (λ r. not (str_eq r.id "netblock-input-row1")) xs ≡ true
    → (insert_times k params m).rows
      ≡ xs ++ (input_rows params (suc m.netblock_inputs) k ++ first ∷ after)
unfolding insert_times insert_netblock_input_row
insert_times-rows zero params m first xs after e n i h = e
insert_times-rows (suc k) params m first xs after e n i h =
    let row = input_row params (suc m.netblock_inputs) in
    let next = insert_netblock_input_row params m in
    let rows : next.rows ≡ (xs ++ row ∷ []) ++ first ∷ after =
      ap (insert_before "netblock-input-row1" row) e
      ∙ insert_before-append row first xs after i h
      ∙ sym (append_assoc xs (row ∷ []) (first ∷ after)) in
    let other = row_id_ne m.netblock_inputs n in
    insert_times-rows k params next first (xs ++ row ∷ []) after rows (ground arith) i
      (all-append_one (λ r. not (str_eq r.id "netblock-input-row1")) xs row h (ap not other))
    ∙ append_assoc xs (row ∷ [])
        (input_rows params (suc (suc m.netblock_inputs)) k ++ first ∷ after)

set_value-written :
    (o : Option (Option String)) (name : String)
    → set_value o name "" ≡ (name, elim o [ none ↦ "" | some v ↦ written v ])
set_value-written none name = refl
set_value-written (some v) name = refl

restore_first-append :
    (params : List (String × Option String)) (xs after : List Member)
    → all is_other xs ≡ true
    → restore_first params (xs ++ first_row "" ∷ after)
      ≡ xs ++ first_row (value_or_empty "add_NETBLOCK1" params) ∷ after
unfolding restore_first
restore_first-append params [] after h =
    ap
      (λ f.
        record { id = "netblock-input-row1"; fields = f ∷ ("rank_add_NETBLOCK1", "") ∷ [] } ∷ after)
      (set_value-written (find_param "add_NETBLOCK1" params) "add_NETBLOCK1")
restore_first-append params (x ∷ xs) after h =
    let t : has_first x ≡ false = ground arith in
    let u = restore_first-append params xs after (ground arith) in rw (t, u) refl

others :
    (xs : List Member)
    → all is_other xs ≡ true
    → all (λ r. not (str_eq r.id "netblock-input-row1")) xs ≡ true
others [] h = refl
others (x ∷ xs) h = ground (arith, others xs)

-- On a page as the server writes it, with one row for a network between other rows, the rows for
-- the networks after the page is ready are numbered from 1 to the number of the parameters of the
-- form `add_NETBLOCK` with digits, or to 1 where there is none, 1 being the last; each holds the
-- parameter with its number, and each but the first that of its rank; all other rows stay.
pub repopulate-rows :
    (params : List (String × Option String)) (m : Members) (xs after : List Member)
    → m.rows ≡ xs ++ first_row "" ∷ after
    → m.netblock_inputs ≡ 1
    → all is_other xs ≡ true
    → (repopulate params m).rows
      ≡ xs
        ++ (input_rows params 2 (count_numbered "add_NETBLOCK" params - 1)
            ++ first_row (value_or_empty "add_NETBLOCK1" params) ∷ after)
unfolding repopulate
repopulate-rows params m xs after e i h =
    let n = count_numbered "add_NETBLOCK" params in
    let value = value_or_empty "add_NETBLOCK1" params in
    let first = record m { rows = restore_first params m.rows } in
    let rows : first.rows ≡ xs ++ first_row value ∷ after =
      ap (restore_first params) e ∙ restore_first-append params xs after h in
    elim (Bool-cases (ltb 1 n)) [
      | inl t ↦ rw t (
          insert_times-rows (n - 1) params first (first_row value) xs after rows (ground arith) refl
            (others xs h)
          ∙ ap (λ k. xs ++ (input_rows params (suc k) (n - 1) ++ first_row value ∷ after)) i)
      | inr t ↦ let none_more : n - 1 ≡ 0 = ground arith in rw (t, none_more) rows
    ]
