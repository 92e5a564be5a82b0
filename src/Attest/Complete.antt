-- ===== src/Attest/Complete.antt =====
-- What is submitted, and what is marked where nothing is.
use jazzhands.Prelude.{
  ◌≡◌, ap, ap₂, ◌∙◌, sym, inl, inr, refl, Bool, true, false, not, ◌&&◌, ◌||◌, str_eq, Option, none,
  some, List, [], ◌∷◌, map, any, all, if◌then◌else◌, arith, Bool-cases,
}
use jazzhands.Attest.Page.{
  Correction, Row, on_approval, on_correction, is_missing, lacks_correction, lacks_approval,
  mark_correction, mark_approval, check_corrections, check_approvals, submit_attest, Event,
  run_events,
}
use jazzhands.Attest.Consistency.{is_consistent, consistent, run_events-consistent}

-- A correction that is shown holds a text, which is not the hint.
abbrev pub is_filled_in : Correction → Bool
is_filled_in c = if c.hidden then true else if c.hint then false else not (str_eq c.value "")

-- The row has a value where it has buttons, and its correction is filled in where it is shown.
abbrev pub is_complete : Row → Bool
is_complete r =
    elim r.approval [ none ↦ true | some a ↦ not (str_eq a.value "") ]
    && elim r.correction [ none ↦ true | some c ↦ is_filled_in c ]

-- The cells of a row carry the class `error` exactly where something is missing.
abbrev pub marked : Row → Row
marked r =
    on_approval (λ a. record a { error = str_eq a.value "" })
      (on_correction (λ c. record c { error = not (is_filled_in c) }) r)

all-any {ℓ} :
    {A : Type ℓ} (p q : A → Bool) (xs : List A)
    → ((x : A) → p x ≡ not (q x))
    → all p xs ≡ not (any q xs)
all-any p q [] h = refl
all-any p q (x ∷ xs) h = ground (arith, h x, all-any p q xs h)

any-or {ℓ} :
    {A : Type ℓ} (p q : A → Bool) (xs : List A) → any (λ x. p x || q x) xs ≡ (any p xs || any q xs)
any-or p q [] = refl
any-or p q (x ∷ xs) = ground (arith, any-or p q xs)

any-map {ℓ} :
    {A : Type ℓ} (p : A → Bool) (g : A → A) (xs : List A)
    → ((x : A) → p (g x) ≡ p x)
    → any p (map g xs) ≡ any p xs
any-map p g [] h = refl
any-map p g (x ∷ xs) h = ap₂ (λ b c. b || c) (h x) (any-map p g xs h)

missing : (c : Correction) → is_missing c ≡ not (is_filled_in c)
unfolding is_missing
missing c = ground arith

row-lacks :
    (r : Row)
    → is_complete r
      ≡ not (lacks_correction false r || (lacks_correction true r || lacks_approval r))
unfolding lacks_correction is_missing
row-lacks r = ground arith

mark_both :
    (c : Correction)
    → mark_correction true (mark_correction false c) ≡ record c { error = not (is_filled_in c) }
unfolding mark_correction
mark_both c = elim (Bool-cases c.is_select) [
  | inl t ↦ rw (t, missing c) refl
  | inr t ↦ rw (t, missing c) refl
]

row-marked :
    (r : Row)
    → on_approval mark_approval
        (on_correction (mark_correction true) (on_correction (mark_correction false) r))
      ≡ marked r
row-marked r =
    ap (λ c. record { approval = (on_approval mark_approval r).approval; correction = c })
      (correction_marked r.correction)
  where
    correction_marked :
        (o : Option Correction)
        → (on_correction (mark_correction true) (
            on_correction
              (mark_correction false)
              (record { approval = none; correction = o }))).correction
          ≡ (on_correction
              (λ c. record c { error = not (is_filled_in c) })
              (record { approval = none; correction = o })).correction
    correction_marked none = refl
    correction_marked (some c) = ap some (mark_both c)

rows-map :
    (f g h k : Row → Row)
    → ((r : Row) → h (g (f r)) ≡ k r)
    → (rows : List Row) → map h (map g (map f rows)) ≡ map k rows
rows-map f g h k e [] = refl
rows-map f g h k e (r ∷ rows) = ap₂ ◌∷◌ (e r) (rows-map f g h k e rows)

tables-map :
    (f g h k : Row → Row)
    → ((r : Row) → h (g (f r)) ≡ k r)
    → (tables : List (List Row))
    → map (map h) (map (map g) (map (map f) tables)) ≡ map (map k) tables
tables-map f g h k e [] = refl
tables-map f g h k e (rows ∷ tables) =
    ap₂ ◌∷◌ (rows-map f g h k e rows) (tables-map f g h k e tables)

any-tables :
    (p : Row → Bool) (g : Row → Row)
    → ((r : Row) → p (g r) ≡ p r)
    → (tables : List (List Row)) → any (any p) (map (map g) tables) ≡ any (any p) tables
any-tables p g h tables = any-map (any p) (map g) tables (λ rows. any-map p g rows h)

lacks-marked :
    (r : Row)
    → lacks_correction true (on_correction (mark_correction false) r) ≡ lacks_correction true r
unfolding lacks_correction mark_correction is_missing
lacks-marked r = ground arith

all-lacks :
    (rows : List Row)
    → all is_complete rows
      ≡ not (
          any (lacks_correction false) rows
          || (any (lacks_correction true) rows || any lacks_approval rows))
all-lacks [] = refl
all-lacks (r ∷ rows) = ground (arith, row-lacks r, all-lacks rows)

tables-lack :
    (tables : List (List Row))
    → all (all is_complete) tables
      ≡ not (
          any (any (lacks_correction false)) tables
          || (any (any (lacks_correction true)) tables || any (any lacks_approval) tables))
tables-lack [] = refl
tables-lack (rows ∷ tables) = ground (arith, all-lacks rows, tables-lack tables)

-- The form is submitted exactly if each row with buttons has a value and each correction that is
-- shown is filled in, with something that is not the hint; after the check each cell has the class
-- `error` exactly if this fails there, and nothing else is changed.
pub submit-is_complete :
    (tables : List (List Row))
    → ((submit_attest tables).0 ≡ all (all is_complete) tables)
      × ((submit_attest tables).1 ≡ map (map marked) tables)
unfolding submit_attest check_corrections check_approvals
submit-is_complete tables =
    let f = on_correction (mark_correction false) in
    let g = on_correction (mark_correction true) in
    let selects = any-tables (lacks_correction true) f lacks-marked tables in
    let values =
      any-tables lacks_approval g (λ r. refl) (map (map f) tables)
      ∙ any-tables lacks_approval f (λ r. refl) tables in
    (
      ap₂ (λ b c. not (any (any (lacks_correction false)) tables || (b || c))) selects values
          ∙ sym (tables-lack tables),
      tables-map f g (on_approval mark_approval) marked row-marked tables,
    )

-- What may be sent for a row with buttons: an approval without a correction, since a field that is
-- disabled is not sent, or a rejection with its correction, if there is one.
abbrev pub is_answered : Row → Bool
is_answered r = elim r.approval [
  | none ↦ true
  | some a ↦
      if str_eq a.value "approve"
      then elim r.correction [ none ↦ true | some c ↦ c.disabled ]
      else str_eq a.value "reject" && elim r.correction [
        | none ↦ true
        | some c ↦ not c.disabled && not c.hint && not (str_eq c.value "")
      ]
]

row-is_answered : (r : Row) → is_consistent r ≡ true → is_complete r ≡ true → is_answered r ≡ true
row-is_answered r h k = ground arith

all_both {ℓ} :
    {A : Type ℓ} (p q r : A → Bool) (xs : List A)
    → ((x : A) → p x ≡ true → q x ≡ true → r x ≡ true)
    → all p xs ≡ true
    → all q xs ≡ true
    → all r xs ≡ true
all_both p q r [] f h k = refl
all_both p q r (x ∷ xs) f h k = ground (arith, f x, all_both p q r xs f)

tables-is_answered :
    (tables : List (List Row))
    → consistent tables ≡ true
    → all (all is_complete) tables ≡ true
    → all (all is_answered) tables ≡ true
tables-is_answered tables =
    all_both (all is_consistent) (all is_complete) (all is_answered) tables
      (λ rows. all_both is_consistent is_complete is_answered rows row-is_answered)

-- After any sequence of clicks, entries and tries to submit on a page that began with rows whose
-- value, buttons and correction agree, a form that is submitted answers each row that has buttons:
-- it approves it and the correction is disabled, or it rejects it and the correction, where there
-- is one, is enabled, not empty and not the hint.
pub submitted-is_answered :
    (es : List Event) (tables : List (List Row))
    → consistent tables ≡ true
    → (submit_attest (run_events es tables)).0 ≡ true
    → all (all is_answered) (run_events es tables) ≡ true
submitted-is_answered es tables h k =
    let after = run_events es tables in
    tables-is_answered after (run_events-consistent es tables h)
      (sym ((submit-is_complete after).0) ∙ k)
