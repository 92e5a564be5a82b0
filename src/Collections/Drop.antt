-- ===== src/Collections/Drop.antt =====
-- The list of collections on the page where one is chosen: `change_collection_select`,
-- `build_collection_drop`, and the answers.
use jazzhands.Prelude.{
  ℕ, zero, suc, ◌≡◌, refl, ap, subst, inl, inr, Bool, true, false, String, str_eq, Option, none,
  some, List, [], ◌∷◌, ◌++◌, all, ◌==◌, get_elem?, if◌then◌else◌, arith, Bool-cases, eq_iff,
}

-- `chosen` is the value of `coltypepicker`, `sent` are the types of the requests that have no
-- answer yet, the first that was sent first. `drop` is the list in `colbox`, with the values and
-- texts of its options.
pub record Picker : Type 0 where
  pub chosen : String
  pub detail_shown : Bool
  pub container_shown : Bool
  pub drop : Option (List (String × String))
  pub sent : List String

-- The list for the collections of an answer, which has none where the key is missing.
unfoldable pub listed : Option (List (String × String)) → Option (List (String × String))
listed none = none
listed (some []) = none
listed (some (c ∷ cs)) = some (("", "Please Select") ∷ c ∷ cs)

abbrev pub has_collections : Option (List (String × String)) → Bool
has_collections none = false
has_collections (some cs) = true

unfoldable pub build_collection_drop : Option (List (String × String)) → Picker → Picker
unfolding listed
build_collection_drop resp p = record p {
  container_shown = has_collections resp;
  drop = listed resp;
}

unfoldable pub change_collection_select : Picker → Picker
change_collection_select p =
    if str_eq p.chosen "__unknown__"
    then record p { detail_shown = false; drop = none }
    else record p { detail_shown = true; sent = p.sent ++ p.chosen ∷ [] }

pub data Event : Type 0 where
  chose : String → Event
  answered : ℕ → Event

unfoldable pub remove_at : ℕ → List String → List String
remove_at n [] = []
remove_at zero (t ∷ ts) = ts
remove_at (suc n) (t ∷ ts) = t ∷ remove_at n ts

-- An answer that comes before those of requests sent earlier.
abbrev pub in_order : Event → Bool
in_order (chose t) = true
in_order (answered n) = n == 0

-- `server` gives the answer for a type.
module _ (server : String → Option (List (String × String))) where
  unfoldable pub take_answer : ℕ → Option String → Picker → Picker
  unfolding build_collection_drop remove_at
  take_answer n none p = p
  take_answer n (some t) p =
      build_collection_drop (server t) (record p { sent = remove_at n p.sent })

  unfoldable pub handle_event : Event → Picker → Picker
  unfolding change_collection_select take_answer
  handle_event (chose t) p = change_collection_select (record p { chosen = t })
  handle_event (answered n) p = take_answer n (get_elem? p.sent n) p

  unfoldable pub run_events : List Event → Picker → Picker
  unfolding handle_event
  run_events [] p = p
  run_events (e ∷ es) p = run_events es (handle_event e p)

  abbrev pub last_of : String → List String → String
  last_of t [] = t
  last_of t (u ∷ us) = last_of u us

  -- The list is that of the type, or its request is the last.
  abbrev pub FitsSent : String → Option (List (String × String)) → List String → Type 0
  FitsSent chosen drop [] = drop ≡ listed (server chosen)
  FitsSent chosen drop (t ∷ ts) = last_of t ts ≡ chosen

  unfoldable pub Fits : Picker → Type 0
  Fits p = str_eq p.chosen "__unknown__" ≡ false → FitsSent p.chosen p.drop p.sent

  last_of-append : (t : String) (ts : List String) (u : String) → last_of t (ts ++ u ∷ []) ≡ u
  last_of-append t [] u = refl
  last_of-append t (s ∷ ts) u = last_of-append s ts u

  FitsSent-append :
      (u : String) (drop : Option (List (String × String))) (ts : List String)
      → FitsSent u drop (ts ++ u ∷ [])
  FitsSent-append u drop [] = refl
  FitsSent-append u drop (t ∷ ts) = last_of-append t ts u

  chose-Fits : (t : String) (p : Picker) → Fits (handle_event (chose t) p)
  unfolding Fits handle_event change_collection_select
  chose-Fits t p = elim (Bool-cases (str_eq t "__unknown__")) [
    | inl e ↦ rw e (λ k. absurd (cc))
    | inr e ↦ rw e (λ k. FitsSent-append t p.drop p.sent)
  ]

  take-Fits :
      (ts : List String) (p : Picker)
      → Fits (record p { sent = ts })
      → Fits (take_answer 0 (get_elem? ts 0) (record p { sent = ts }))
  unfolding Fits take_answer build_collection_drop remove_at
  take-Fits [] p h = h
  take-Fits (t ∷ []) p h = λ k. ap (λ c. listed (server c)) (h k)
  take-Fits (t ∷ u ∷ ts) p h = λ k. h k

  answered-Fits :
      (n : ℕ) (p : Picker) → (n == 0) ≡ true → Fits p → Fits (handle_event (answered n) p)
  unfolding handle_event
  answered-Fits zero p e h = take-Fits p.sent p h
  answered-Fits (suc n) p e h = absurd (ground arith)

  run_events-Fits :
      (es : List Event) (p : Picker) → all in_order es ≡ true → Fits p → Fits (run_events es p)
  unfolding run_events
  run_events-Fits [] p o h = h
  run_events-Fits (chose t ∷ es) p o h =
      run_events-Fits es (handle_event (chose t) p) (ground arith) (chose-Fits t p)
  run_events-Fits (answered n ∷ es) p o h =
      run_events-Fits es (handle_event (answered n) p) (ground arith)
        (answered-Fits n p (ground arith) h)

  -- Where no type is chosen at first, and the answers come in the order of the requests, then,
  -- once all have come, the list is that of the type that is chosen, if one is.
  pub answered-listed :
      (es : List Event) (p : Picker)
      → p.chosen ≡ "__unknown__"
      → all in_order es ≡ true
      → (run_events es p).sent ≡ []
      → str_eq (run_events es p).chosen "__unknown__" ≡ false
      → (run_events es p).drop ≡ listed (server (run_events es p).chosen)
  unfolding Fits
  answered-listed es p u o s k =
      let start : Fits p = λ c. absurd (ground (arith, eq_iff p.chosen "__unknown__")) in
      let q = run_events es p in subst (FitsSent q.chosen q.drop) s (run_events-Fits es p o start k)

  -- Where a type is chosen, then another, and the answer for the second comes before that for the
  -- first, the list is that of the first type while the second is chosen.
  pub overtaken_list :
      (a b : String) (p : Picker)
      → p.sent ≡ []
      → str_eq a "__unknown__" ≡ false
      → str_eq b "__unknown__" ≡ false
      → ((run_events (chose a ∷ chose b ∷ answered 1 ∷ answered 0 ∷ []) p).chosen ≡ b)
        × ((run_events (chose a ∷ chose b ∷ answered 1 ∷ answered 0 ∷ []) p).drop
            ≡ listed (server a))
  unfolding run_events handle_event change_collection_select take_answer build_collection_drop
      remove_at
  overtaken_list a b p s h k = rw (h, k, s) (refl, refl)
