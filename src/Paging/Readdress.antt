-- ===== src/Paging/Readdress.antt =====
-- A change to a second page replaces the parameters of the first.
use Prim.Native.Char.{Char, code}
use jazzhands.Prelude.{
  ◌≡◌, refl, ap, ◌∙◌, sym, subst, inl, inr, Bool, true, false, String, Option, none, some, some_inj,
  Option-cases, ◌==◌, ◌<>◌, if◌then◌else◌, free_of, arith, Bool-cases,
}
use jazzhands.Paging.Address.{
  all_digits, drop_digits, behind_digits, behind_param, remove_param, as_number, number_behind,
  universe_of, page_param, limit_param, stripped, with_universe, kept, page_address, is_absent,
  found_or, unless_found, first_of,
}

append_empty : (s : String) → s <> "" ≡ s
append_empty String.[] = refl
append_empty (String.◌∷◌ c s) = ap (String.◌∷◌ c) (append_empty s)

append_assoc : (s t u : String) → (s <> t) <> u ≡ s <> (t <> u)
append_assoc String.[] t u = refl
append_assoc (String.◌∷◌ c s) t u = ap (String.◌∷◌ c) (append_assoc s t u)

-- A text that ends or goes on with a semicolon.
abbrev is_next : String → Bool
is_next String.[] = true
is_next (String.◌∷◌ c s) = code c == 59

drop-digits_append :
    (d t : String) → all_digits d ≡ true → is_next t ≡ true → drop_digits (d <> t) ≡ t
unfolding all_digits drop_digits
drop-digits_append String.[] String.[] h k = refl
drop-digits_append String.[] (String.◌∷◌ c t) h k = ground arith
drop-digits_append (String.◌∷◌ c d) t h k = ground (arith, drop-digits_append d t)

-- Digits, not none of them.
abbrev pub is_number : String → Bool
is_number String.[] = false
is_number (String.◌∷◌ c s) = all_digits (String.◌∷◌ c s)

behind_param_self :
    (name d t : String)
    → is_number d ≡ true
    → is_next t ≡ true
    → behind_param name (name <> (d <> t)) ≡ some t
unfolding behind_param behind_digits all_digits
behind_param_self String.[] String.[] t h k = cc
behind_param_self String.[] (String.◌∷◌ c d) t h k = ground (arith, drop-digits_append d t)
behind_param_self (String.◌∷◌ n ns) d t h k =
    let same : (code n == code n) ≡ true = ground arith in rw same (behind_param_self ns d t h k)

remove_param_self :
    (name d t : String) (n : Char)
    → is_number d ≡ true
    → is_next t ≡ true
    → remove_param (String.◌∷◌ n name) (String.◌∷◌ n name <> (d <> t)) ≡ t
unfolding remove_param
remove_param_self name d t n h k =
    ap (λ o. found_or o (String.◌∷◌ n (remove_param (String.◌∷◌ n name) (name <> (d <> t)))))
      (behind_param_self (String.◌∷◌ n name) d t h k)

behind_digits_next :
    (s t : String) → is_next t ≡ true → behind_digits s ≡ none → behind_digits (s <> t) ≡ none
unfolding behind_digits
behind_digits_next String.[] String.[] k h = refl
behind_digits_next String.[] (String.◌∷◌ c t) k h = ground arith
behind_digits_next (String.◌∷◌ c s) t k h = ground arith

behind_param_next :
    (name s t : String)
    → free_of ";" name ≡ true
    → is_next t ≡ true
    → behind_param name s ≡ none
    → behind_param name (s <> t) ≡ none
unfolding behind_param free_of
behind_param_next String.[] s t f k h = behind_digits_next s t k h
behind_param_next (String.◌∷◌ n ns) String.[] String.[] f k h = refl
behind_param_next (String.◌∷◌ n ns) String.[] (String.◌∷◌ c t) f k h = ground arith
behind_param_next (String.◌∷◌ n ns) (String.◌∷◌ c s) t f k h =
    elim (Bool-cases (code n == code c)) [
      | inl e ↦
          let inner : behind_param ns s ≡ none = ground arith in
          rw e (behind_param_next ns s t (ground arith) k inner)
      | inr e ↦ rw e refl
    ]

absent_head :
    (name s : String) (c : Char) (t : String)
    → free_of ";" name ≡ true
    → is_next t ≡ true
    → behind_param (String.◌∷◌ ";" name) (String.◌∷◌ c s) ≡ none
    → behind_param (String.◌∷◌ ";" name) (String.◌∷◌ c (s <> t)) ≡ none
unfolding behind_param
absent_head name s c t f k h = elim (Bool-cases (59 == code c)) [
  | inl e ↦
      let inner : behind_param name s ≡ none = ground arith in
      rw e (behind_param_next name s t f k inner)
  | inr e ↦ rw e refl
]

-- What is absent from the beginning is removed from the rest.
remove_param-append :
    (name s t : String)
    → free_of ";" name ≡ true
    → is_next t ≡ true
    → is_absent (String.◌∷◌ ";" name) s ≡ true
    → remove_param (String.◌∷◌ ";" name) (s <> t) ≡ s <> remove_param (String.◌∷◌ ";" name) t
unfolding remove_param is_absent
remove_param-append name String.[] t f k h = refl
remove_param-append name (String.◌∷◌ c s) t f k h =
    elim (Option-cases (behind_param (String.◌∷◌ ";" name) (String.◌∷◌ c s))) [
      | inl e ↦
          let rest : is_absent (String.◌∷◌ ";" name) s ≡ true =
            subst (λ o. unless_found o (is_absent (String.◌∷◌ ";" name) s) ≡ true) e h in
          ap (λ o. found_or o (String.◌∷◌ c (remove_param (String.◌∷◌ ";" name) (s <> t))))
            (absent_head name s c t f k e)
          ∙ ap (String.◌∷◌ c) (remove_param-append name s t f k rest)
      | inr (r, e) ↦
          let never : false ≡ true =
            subst (λ o. unless_found o (is_absent (String.◌∷◌ ";" name) s) ≡ true) e h in
          absurd (ground arith)
    ]

remove_param-absent :
    (name s : String)
    → free_of ";" name ≡ true
    → is_absent (String.◌∷◌ ";" name) s ≡ true
    → remove_param (String.◌∷◌ ";" name) s ≡ s
unfolding remove_param
remove_param-absent name s f h =
    ap (remove_param (String.◌∷◌ ";" name)) (sym (append_empty s))
    ∙ remove_param-append name s "" f refl h
    ∙ append_empty s

-- A parameter behind a text where it is absent is removed.
remove_param_behind :
    (name s d t : String)
    → free_of ";" name ≡ true
    → is_absent (String.◌∷◌ ";" name) s ≡ true
    → is_number d ≡ true
    → is_next t ≡ true
    → remove_param (String.◌∷◌ ";" name) (s <> (String.◌∷◌ ";" name <> (d <> t))) ≡ s <> t
remove_param_behind name s d t f h n k =
    remove_param-append name s (String.◌∷◌ ";" name <> (d <> t)) f refl h
    ∙ ap (λ x. s <> x) (remove_param_self name d t ";" n k)

number_behind-is_number : (name s u : String) → number_behind name s ≡ some u → is_number u ≡ true
unfolding number_behind as_number all_digits
number_behind-is_number String.[] String.[] u h = cc
number_behind-is_number String.[] (String.◌∷◌ c s) u h =
    elim (Bool-cases (is_number (String.◌∷◌ c s))) [
      | inl e ↦
          let same : some (String.◌∷◌ c s) ≡ some u =
            subst (λ b. (if b then some (String.◌∷◌ c s) else none) ≡ some u) e h in
          subst (λ x. is_number x ≡ true) (some_inj (String.◌∷◌ c s) u same) e
      | inr e ↦ ground arith
    ]
number_behind-is_number (String.◌∷◌ n ns) String.[] u h = cc
number_behind-is_number (String.◌∷◌ n ns) (String.◌∷◌ c s) u h =
    number_behind-is_number ns s u (ground arith)

universe_of-is_number : (id u : String) → universe_of id ≡ some u → is_number u ≡ true
unfolding universe_of
universe_of-is_number String.[] u h = cc
universe_of-is_number (String.◌∷◌ c s) u h =
    elim (Option-cases (number_behind "paging-dns-" (String.◌∷◌ c s))) [
      | inl e ↦ universe_of-is_number s u (subst (λ o. first_of o (universe_of s) ≡ some u) e h)
      | inr (v, e) ↦
          let same = some_inj v u (subst (λ o. first_of o (universe_of s) ≡ some u) e h) in
          subst (λ x. is_number x ≡ true) same
            (number_behind-is_number "paging-dns-" (String.◌∷◌ c s) v e)
    ]

free_of-append : (s t : String) → free_of ";" s ≡ true → free_of ";" (s <> t) ≡ free_of ";" t
unfolding free_of
free_of-append String.[] t h = refl
free_of-append (String.◌∷◌ c s) t h = ground (arith, free_of-append s t)

universe_again :
    (o : Option String) (link : String)
    → ((u : String) → o ≡ some u → is_number u ≡ true)
    → is_absent ";ip_universe_id=" (remove_param ";ip_universe_id=" link) ≡ true
    → with_universe o (with_universe o link) ≡ with_universe o link
unfolding free_of
universe_again none link n h = refl
universe_again (some u) link n h =
    let r = remove_param ";ip_universe_id=" link in
    ap (λ x. x <> (";ip_universe_id=" <> u))
      (ap (λ x. remove_param ";ip_universe_id=" (r <> (";ip_universe_id=" <> x)))
          (sym (append_empty u))
        ∙ remove_param_behind "ip_universe_id=" r u "" refl h (n u refl) refl
        ∙ append_empty r)

stripped_again :
    (id page limit b : String)
    → free_of ";" id ≡ true
    → is_number page ≡ true
    → is_number limit ≡ true
    → is_absent (page_param id) b ≡ true
    → is_absent (limit_param id) b ≡ true
    → is_absent ";dnssearch=" b ≡ true
    → stripped id (b <> (page_param id <> (page <> (limit_param id <> limit)))) ≡ b
unfolding stripped free_of
stripped_again id page limit b f n m h k s =
    let last =
      ap (λ x. remove_param (limit_param id) (b <> (limit_param id <> x)))
        (sym (append_empty limit))
      ∙ remove_param_behind (id <> "-limit=") b limit "" (free_of-append id "-limit=" f) k m refl
      ∙ append_empty b in
    ap (λ x. remove_param ";dnssearch=" (remove_param (limit_param id) x))
      (remove_param_behind (id <> "-page=") b page (limit_param id <> limit)
        (free_of-append id "-page=" f) h n refl)
    ∙ ap (remove_param ";dnssearch=") last
    ∙ remove_param-absent "dnssearch=" b refl s

-- A change to a second page leads to the address that it would have led to without the first,
-- where the page and the limit are numbers, the identifier holds no semicolon, and the address had
-- each of the parameters once at most, so that none is left when they are taken out.
pub page_address_again :
    (id first second limit link : String)
    → free_of ";" id ≡ true
    → is_number first ≡ true
    → is_number limit ≡ true
    → is_absent (page_param id) (kept id link) ≡ true
    → is_absent (limit_param id) (kept id link) ≡ true
    → is_absent ";dnssearch=" (kept id link) ≡ true
    → is_absent ";ip_universe_id=" (remove_param ";ip_universe_id=" (stripped id link)) ≡ true
    → page_address id second limit (page_address id first limit link)
      ≡ page_address id second limit link
unfolding page_address kept
page_address_again id first second limit link f n m h k s a =
    let b = kept id link in
    ap (λ x. x <> (page_param id <> (second <> (limit_param id <> limit))))
      (ap (with_universe (universe_of id)) (stripped_again id first limit b f n m h k s)
        ∙ universe_again (universe_of id) (stripped id link) (λ u e. universe_of-is_number id u e)
            a)
