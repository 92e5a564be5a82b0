-- ===== src/FormTracking/Submit.antt =====
-- `preSubmitTrackedElements`: the hidden inputs with the lists of changed elements.
use jazzhands.Prelude.{
  ◌≡◌, refl, ap, Bool, true, false, ◌&&◌, String, str_eq, eq_iff, List, [], ◌∷◌, ◌++◌, includes,
  includes-append, distinct, split, join, last_part, if◌then◌else◌, any, arith, all_free,
  split-join, Bool-cases, inl, inr,
}
use mathlib.Core.List.{append-nil}
use jazzhands.FormTracking.Elements.{Element}

-- An input that a submit handler has added to a form.
pub record Hidden : Type 0 where
  pub name : String
  pub class_name : String
  pub value : String

-- `if( ! xs.includes( s ) ) xs.push( s )`
unfoldable pub push_new : String → List String → List String
push_new s xs = if includes s xs then xs else xs ++ s ∷ []

-- What follows the last `_` of a name.
unfoldable pub id_of : String → String
id_of name = last_part (split "_" name)

-- The loop over `.tracked.changed`: the names and the identifiers so far.
unfoldable pub collect : List String → List String → List Element → List String × List String
unfolding push_new id_of
collect names ids [] = (names, ids)
collect names ids (e ∷ es) =
    collect (if e.tracked && e.changed then push_new e.name names else names)
      (if e.tracked && e.changed then push_new (id_of e.name) ids else ids) es

-- `document.querySelectorAll( 'input.changedElements' )`, removed
unfoldable pub without_lists : List Hidden → List Hidden
without_lists [] = []
without_lists (h ∷ hs) =
    let rest = without_lists hs in if str_eq h.class_name "changedElements" then rest else h ∷ rest

unfoldable pub pre_submit : List Element → List Hidden → List Hidden
unfolding collect without_lists
pre_submit page hidden =
    let (names, ids) = collect [] [] page in
    without_lists hidden
    ++ record { name = "CHANGED_ELEMENTS"; class_name = "changedElements"; value = join "," names }
      ∷ record {
        name = "CHANGED_ELEMENTS_IDS";
        class_name = "changedElements";
        value = join "," ids;
      }
      ∷ []

distinct-push_new :
    (s : String) (xs : List String) → distinct xs ≡ true → distinct (push_new s xs) ≡ true
unfolding push_new
distinct-push_new s xs h = elim (Bool-cases (includes s xs)) [
  | inl old ↦ rw old h
  | inr new ↦ rw new (go xs h new)
]
  where
    go :
        (ys : List String)
        → distinct ys ≡ true
        → includes s ys ≡ false
        → distinct (ys ++ s ∷ []) ≡ true
    go [] h k = refl
    go (y ∷ ys) h k = ground (arith, go ys, includes-append y ys (s ∷ []), eq_iff s y, eq_iff y s)

includes-push_new :
    (t s : String) (xs : List String)
    → includes t (push_new s xs) ≡ (if str_eq s t then true else includes t xs)
unfolding push_new
includes-push_new t s xs = ground (arith, includes-append t xs (s ∷ []), eq_iff s t)

-- The element is reported.
abbrev pub reported : Element → Bool
reported e = e.tracked && e.changed

collect_step :
    (names ids : List String) (e : Element) (es : List Element) (b : Bool)
    → reported e ≡ b
    → collect names ids (e ∷ es)
      ≡ collect
          (if b then push_new e.name names else names)
          (if b then push_new (id_of e.name) ids else ids)
          es
unfolding collect
collect_step names ids e es b h =
    ap
      (λ c.
        collect (if c then push_new e.name names else names)
          (if c then push_new (id_of e.name) ids else ids) es)
      h

includes-collect :
    (s : String) (names ids : List String) (es : List Element)
    → includes s (collect names ids es).0
      ≡ (if includes s names then true else any (λ e. reported e && str_eq e.name s) es)
includes-collect s names ids [] = unfold collect in ground arith
includes-collect s names ids (e ∷ es) = elim (Bool-cases (reported e)) [
  | inl r ↦
      rw (collect_step names ids e es true r, r)
        (rw
          (
            includes-collect s (push_new e.name names) (push_new (id_of e.name) ids) es,
            includes-push_new s e.name names,
          )
          (ground arith))
  | inr r ↦ rw (collect_step names ids e es false r, r) (includes-collect s names ids es)
]

distinct-collect :
    (names ids : List String) (es : List Element)
    → distinct names ≡ true
    → distinct ids ≡ true
    → (distinct (collect names ids es).0 ≡ true) × (distinct (collect names ids es).1 ≡ true)
distinct-collect names ids [] h k = unfold collect in (h, k)
distinct-collect names ids (e ∷ es) h k = elim (Bool-cases (reported e)) [
  | inl r ↦ rw (collect_step names ids e es true r) (
      distinct-collect (push_new e.name names) (push_new (id_of e.name) ids) es
        (distinct-push_new e.name names h) (distinct-push_new (id_of e.name) ids k))
  | inr r ↦ rw (collect_step names ids e es false r) (distinct-collect names ids es h k)
]

without_lists-append :
    (xs ys : List Hidden) → without_lists (xs ++ ys) ≡ without_lists xs ++ without_lists ys
unfolding without_lists
without_lists-append [] ys = refl
without_lists-append (x ∷ xs) ys = ground (arith, without_lists-append xs ys)

without_lists_idem : (xs : List Hidden) → without_lists (without_lists xs) ≡ without_lists xs
unfolding without_lists
without_lists_idem [] = refl
without_lists_idem (x ∷ xs) = elim (Bool-cases (str_eq x.class_name "changedElements")) [
  | inl r ↦ rw r (without_lists_idem xs)
  | inr r ↦ rw (r, r) (ap (x ∷◌) (without_lists_idem xs))
]

-- The list of names that is submitted holds no name twice, and holds a name exactly if a tracked
-- element with the class `changed` has it.
pub collect_names :
    (page : List Element)
    → (distinct (collect [] [] page).0 ≡ true)
      × ((s : String)
          → includes s (collect [] [] page).0 ≡ any (λ e. reported e && str_eq e.name s) page)
collect_names page = ((distinct-collect [] [] page refl refl).0, λ s. includes-collect s [] [] page)

-- A second submit replaces the hidden inputs of the first: only those of the last page are left.
pub pre_submit_twice :
    (page earlier : List Element) (hidden : List Hidden)
    → pre_submit page (pre_submit earlier hidden) ≡ pre_submit page hidden
unfolding pre_submit
pre_submit_twice page earlier hidden =
    rw
      (
        without_lists-append (without_lists hidden) _,
        without_lists_idem hidden,
        append-nil (without_lists hidden),
      )
      refl

-- The server gets the names back by splitting the value at the commas, where some element is
-- reported and no name holds a comma.
pub split-join_names :
    (page : List Element) (x : String) (xs : List String)
    → (collect [] [] page).0 ≡ x ∷ xs
    → all_free "," (x ∷ xs) ≡ true
    → split "," (join "," (collect [] [] page).0) ≡ (collect [] [] page).0
split-join_names page x xs h k = rw h (split-join "," x xs k)
