-- ===== src/Dns/Populated.antt =====
-- What the lists of domains hold.
use mathlib.Core.List.{append_assoc, append-nil}
use jazzhands.Prelude.{
  ℕ, zero, suc, ◌<◌, ◌≡◌, refl, ap, ◌∙◌, sym, subst, inl, inr, Bool, true, false, ◌||◌, String,
  eq_iff, Option, none, some, List, [], ◌∷◌, ◌++◌, All, any, includes, includes-append, distinct,
  length, get_elem?, modify, length-modify, arith, Bool-cases, ◌==◌,
}
use jazzhands.Dns.Domains.{
  DomainList, DomainPage, get_dns_domains, values_of, missing_options, populate, Event, activated,
  timer_fired, answered, drop_at, when_offered, populate_delayed, when_list, populate_dropdown,
  fire, take_answer, handle_event, run_events,
}

missing-includes :
    (v : String) (existing : List String) (os : List (String × String))
    → includes v (existing ++ values_of (missing_options existing os))
      ≡ (includes v existing || includes v (values_of os))
unfolding missing_options
missing-includes v existing [] = ground (arith, includes-append v existing [])
missing-includes v existing (o ∷ os) = elim (Bool-cases (includes o.0 existing)) [
  | inl t ↦ let e = missing-includes v existing os in rw t (ground (arith, e, eq_iff o.0 v))
  | inr t ↦
      let e = missing-includes v (existing ++ o.0 ∷ []) os in
      let f = includes-append v existing (o.0 ∷ []) in
      let g =
        append_assoc existing (o.0 ∷ []) (values_of (missing_options (existing ++ o.0 ∷ []) os)) in
      rw (t, sym g) (ground (arith, e, f))
]

distinct-append_one :
    (xs : List String) (x : String)
    → distinct xs ≡ true
    → includes x xs ≡ false
    → distinct (xs ++ x ∷ []) ≡ true
distinct-append_one [] x h k = refl
distinct-append_one (y ∷ xs) x h k =
    ground (arith, distinct-append_one xs x, includes-append y xs (x ∷ []), eq_iff x y, eq_iff y x)

missing-distinct :
    (existing : List String) (os : List (String × String))
    → distinct existing ≡ true
    → distinct (existing ++ values_of (missing_options existing os)) ≡ true
unfolding missing_options
missing-distinct existing [] h = subst (λ xs. distinct xs ≡ true) (sym (append-nil existing)) h
missing-distinct existing (o ∷ os) h = elim (Bool-cases (includes o.0 existing)) [
  | inl t ↦ rw t (missing-distinct existing os h)
  | inr t ↦
      let g =
        append_assoc existing (o.0 ∷ []) (values_of (missing_options (existing ++ o.0 ∷ []) os)) in
      rw (t, sym g)
        (missing-distinct (existing ++ o.0 ∷ []) os (distinct-append_one existing o.0 h t))
]

values_of-append :
    (os ps : List (String × String)) → values_of (os ++ ps) ≡ values_of os ++ values_of ps
values_of-append [] ps = refl
values_of-append (o ∷ os) ps = ap (o.0 ∷◌) (values_of-append os ps)

All-modify :
    (P : DomainList → Type 0) (g : DomainList → DomainList) (n : ℕ) (ds : List DomainList)
    → ((d : DomainList) → P d → P (g d))
    → All P ds
    → All P (modify g n ds)
unfolding modify
All-modify P g n [] k h = h
All-modify P g zero (d ∷ ds) k h = (k d h.0, h.1)
All-modify P g (suc n) (d ∷ ds) k h = (h.0, All-modify P g n ds k h.1)

abbrev pub offered_values : Option (List (String × String)) → List String
offered_values none = []
offered_values (some os) = values_of os

-- No domain stands twice in the list, and a list that is populated has all that are offered.
unfoldable pub IsFair : Option (List (String × String)) → DomainList → Type 0
IsFair offered d =
    (distinct (values_of d.options) ≡ true)
    × (d.populated ≡ true
        → (v : String) → includes v (offered_values offered) ≡ true
        → includes v (values_of d.options) ≡ true)

populate-IsFair :
    (os : List (String × String)) (d : DomainList)
    → IsFair (some os) d
    → IsFair (some os) (populate os d)
unfolding IsFair populate
populate-IsFair os d h =
    let existing = values_of d.options in
    let e = values_of-append d.options (missing_options existing os) in
    (
      rw e (missing-distinct existing os h.0),
      λ p v k. rw e (ground (arith, missing-includes v existing os)),
    )

module _ (offered : Option (List (String × String))) where
  unfoldable pub AllFair : DomainPage → Type 0
  AllFair p = All (IsFair offered) p.lists

  when_offered-AllFair :
      (o : Option (List (String × String)))
      → o ≡ offered
      → (i : ℕ) (p : DomainPage) → All (IsFair offered) p.lists
      → All (IsFair offered) (when_offered i o p).lists
  when_offered-AllFair none e i p h = h
  when_offered-AllFair (some os) e i p h = elim (Bool-cases p.loaded) [
    | inl t ↦ rw t (
        All-modify (IsFair offered) (populate os) i p.lists
          (λ d k.
            subst (λ x. IsFair x (populate os d)) e
              (populate-IsFair os d (subst (λ x. IsFair x d) (sym e) k)))
          h)
    | inr t ↦ rw t h
  ]

  delayed-AllFair :
      (i : ℕ) (p : DomainPage)
      → All (IsFair offered) p.lists
      → All (IsFair offered) (populate_delayed offered i p).lists
  unfolding populate_delayed
  delayed-AllFair i p h = when_offered-AllFair offered refl i p h

  get-lists : (p : DomainPage) → (get_dns_domains p).lists ≡ p.lists
  unfolding get_dns_domains
  get-lists p = elim (Bool-cases p.loaded) [ inl t ↦ rw t refl | inr t ↦ rw t refl ]

  when_list-AllFair :
      (i : ℕ) (o : Option DomainList) (p : DomainPage)
      → All (IsFair offered) p.lists
      → All (IsFair offered) (when_list offered i o p).lists
  when_list-AllFair i none p h = h
  when_list-AllFair i (some d) p h = elim (Bool-cases d.populated) [
    | inl t ↦ rw t h
    | inr t ↦
        rw t (
          delayed-AllFair i (get_dns_domains p)
            (subst (All (IsFair offered)) (sym (get-lists p)) h))
  ]

  fire-AllFair :
      (n : ℕ) (o : Option ℕ) (p : DomainPage)
      → All (IsFair offered) p.lists
      → All (IsFair offered) (fire offered n o p).lists
  fire-AllFair n none p h = h
  fire-AllFair n (some i) p h = delayed-AllFair i (record p { waiting = drop_at n p.waiting }) h

  answer-AllFair :
      (n : ℕ) (p : DomainPage)
      → All (IsFair offered) p.lists
      → All (IsFair offered) (take_answer n p).lists
  answer-AllFair zero p h = h
  answer-AllFair (suc n) p h = h

  -- From a page where no list of domains has a domain twice, and none that is populated lacks a
  -- domain that the server offers, any sequence of activations of lists, timers and answers leads
  -- to such a page.
  pub run_events-AllFair :
      (es : List Event) (p : DomainPage) → AllFair p → AllFair (run_events offered es p)
  unfolding run_events handle_event populate_dropdown AllFair
  run_events-AllFair [] p h = h
  run_events-AllFair (activated i ∷ es) p h =
      run_events-AllFair es (populate_dropdown offered i p)
        (when_list-AllFair i (get_elem? p.lists i) p h)
  run_events-AllFair (timer_fired n ∷ es) p h =
      run_events-AllFair es (fire offered n (get_elem? p.waiting n) p)
        (fire-AllFair n (get_elem? p.waiting n) p h)
  run_events-AllFair (answered ∷ es) p h =
      run_events-AllFair es (take_answer p.requests p) (answer-AllFair p.requests p h)

abbrev pub is_populated : ℕ → List DomainList → Bool
is_populated i ds = elim (get_elem? ds i) [ none ↦ false | some d ↦ d.populated ]

populated-kept :
    (os : List (String × String)) (i j : ℕ) (ds : List DomainList)
    → is_populated i ds ≡ true
    → is_populated i (modify (populate os) j ds) ≡ true
unfolding modify populate
populated-kept os i j [] h = h
populated-kept os zero zero (d ∷ ds) h = refl
populated-kept os zero (suc j) (d ∷ ds) h = h
populated-kept os (suc i) zero (d ∷ ds) h = h
populated-kept os (suc i) (suc j) (d ∷ ds) h = populated-kept os i j ds h

populated_self :
    (os : List (String × String)) (i : ℕ) (ds : List DomainList)
    → i < length ds
    → is_populated i (modify (populate os) i ds) ≡ true
unfolding modify populate
populated_self os i [] h = absurd (omega arith)
populated_self os zero (d ∷ ds) h = refl
populated_self os (suc i) (d ∷ ds) h = populated_self os i ds (omega arith)

-- The timers run out, the first that waits first.
abbrev pub timers : ℕ → List Event
timers zero = []
timers (suc n) = timer_fired 0 ∷ timers n

abbrev populate_all : List (String × String) → List ℕ → List DomainList → List DomainList
populate_all os [] ds = ds
populate_all os (i ∷ is) ds = populate_all os is (modify (populate os) i ds)

timers-populate :
    (os : List (String × String)) (is : List ℕ) (ds : List DomainList) (n : ℕ)
    → run_events
        (some os)
        (timers (length is))
        (record { lists = ds; loaded = true; requests = n; waiting = is })
      ≡ record { lists = populate_all os is ds; loaded = true; requests = n; waiting = [] }
unfolding run_events handle_event populate_delayed drop_at
timers-populate os [] ds n = refl
timers-populate os (i ∷ is) ds n = timers-populate os is (modify (populate os) i ds) n

populate_all-kept :
    (os : List (String × String)) (i : ℕ) (is : List ℕ) (ds : List DomainList)
    → is_populated i ds ≡ true
    → is_populated i (populate_all os is ds) ≡ true
populate_all-kept os i [] ds h = h
populate_all-kept os i (j ∷ is) ds h =
    populate_all-kept os i is (modify (populate os) j ds) (populated-kept os i j ds h)

populate_all-populated :
    (os : List (String × String)) (i : ℕ) (is : List ℕ) (ds : List DomainList)
    → any (λ j. j == i) is ≡ true
    → i < length ds
    → is_populated i (populate_all os is ds) ≡ true
populate_all-populated os i [] ds h k = cc
populate_all-populated os i (j ∷ is) ds h k = elim (Bool-cases (j == i)) [
  | inl t ↦
      let same : j ≡ i = ground arith in
      populate_all-kept os i is (modify (populate os) j ds) (
        subst (λ x. is_populated i (modify (populate os) x ds) ≡ true) (sym same)
          (populated_self os i ds k))
  | inr t ↦
      let e = length-modify (populate os) j ds in
      populate_all-populated os i is (modify (populate os) j ds) (ground arith) (omega (arith, e))
]

-- Once the domains are there, each list that waits for them is populated when the timers that run
-- have run out, and none waits any more.
pub waiting_populated :
    (os : List (String × String)) (i : ℕ) (p : DomainPage)
    → p.loaded ≡ true
    → any (λ j. j == i) p.waiting ≡ true
    → i < length p.lists
    → (is_populated i (run_events (some os) (timers (length p.waiting)) p).lists ≡ true)
      × ((run_events (some os) (timers (length p.waiting)) p).waiting ≡ [])
waiting_populated os i p h w k =
    let start : p ≡ record p { loaded = true } = ap (λ b. record p { loaded = b }) h in
    let e =
      ap (run_events (some os) (timers (length p.waiting))) start
      ∙ timers-populate os p.waiting p.lists p.requests in
    rw e (populate_all-populated os i p.waiting p.lists w k, refl)
