-- ===== src/Directory/Single.antt =====
-- A use that is allowed once is selected for one picture at most.
use jazzhands.Prelude.{
  ℕ, suc, ◌+◌, ◌≤◌, ◌≡◌, refl, ◌∙◌, sym, subst, inl, inr, Bool, true, false, not, ◌&&◌, String,
  str_eq, eq_iff, List, [], ◌∷◌, map, any, includes, includes-append, if◌then◌else◌, arith,
  Bool-cases,
}
use jazzhands.Directory.Usages.{
  UsageList, selected_texts, texts_of, unselect, clear_others, enforce_usage, enforce_usages,
  reselect,
}

abbrev pub has_usage : String → List (String × Bool) → Bool
has_usage usage os = any (λ o. o.1 && str_eq o.0 usage) os

-- The number of lists of a name, of lists in which a use is selected, of those of a name, and of
-- the others.
abbrev pub count_name : String → List UsageList → ℕ
count_name n [] = 0
count_name n (l ∷ ls) = if str_eq l.name n then suc (count_name n ls) else count_name n ls

abbrev pub holders : String → List UsageList → ℕ
holders u [] = 0
holders u (l ∷ ls) = if has_usage u l.options then suc (holders u ls) else holders u ls

abbrev pub holders_in : String → String → List UsageList → ℕ
holders_in name u [] = 0
holders_in name u (l ∷ ls) =
    if str_eq l.name name && has_usage u l.options
    then suc (holders_in name u ls)
    else holders_in name u ls

abbrev pub holders_out : String → String → List UsageList → ℕ
holders_out name u [] = 0
holders_out name u (l ∷ ls) =
    if not (str_eq l.name name) && has_usage u l.options
    then suc (holders_out name u ls)
    else holders_out name u ls

abbrev pub is_single : List (String × String) → String → Bool
is_single valid u = any (λ v. str_eq v.0 u && str_eq v.1 "N") valid

pub holders-sum :
    (name u : String) (ls : List UsageList)
    → holders u ls ≡ holders_in name u ls + holders_out name u ls
holders-sum name u [] = refl
holders-sum name u (l ∷ ls) = ground (arith, holders-sum name u ls)

pub in-count : (name u : String) (ls : List UsageList) → holders_in name u ls ≤ count_name name ls
in-count name u [] = omega arith
in-count name u (l ∷ ls) = ground (arith, in-count name u ls)

unselect_mono :
    (u v : String) (os : List (String × Bool))
    → has_usage u (map (unselect v) os) ≡ true
    → has_usage u os ≡ true
unselect_mono u v [] h = h
unselect_mono u v (o ∷ os) h = ground (arith, unselect_mono u v os)

unselect-none : (u : String) (os : List (String × Bool)) → has_usage u (map (unselect u) os) ≡ false
unselect-none u [] = refl
unselect-none u (o ∷ os) = ground (arith, unselect-none u os)

-- The lists of the name are as before, and in the others no more is selected.
pub record Shrinks (name : String) (ls ms : List UsageList) : Type 0 where
  pub out_le : (u : String) → holders_out name u ms ≤ holders_out name u ls
  pub in_same : (u : String) → holders_in name u ms ≡ holders_in name u ls
  pub names : (n : String) → count_name n ms ≡ count_name n ls

Shrinks-refl : (name : String) (ls : List UsageList) → Shrinks name ls ls
Shrinks-refl name ls = record { out_le = λ u. omega arith; in_same = λ u. refl; names = λ n. refl }

Shrinks-trans :
    (name : String) (ls ms ns : List UsageList)
    → Shrinks name ls ms
    → Shrinks name ms ns
    → Shrinks name ls ns
Shrinks-trans name ls ms ns h k = record {
  out_le = λ u. let a = h.out_le u in let b = k.out_le u in omega arith;
  in_same = λ u. k.in_same u ∙ h.in_same u;
  names = λ n. k.names n ∙ h.names n;
}

clear-out_le :
    (name v u : String) (ls : List UsageList)
    → holders_out name u (clear_others name v ls) ≤ holders_out name u ls
unfolding clear_others
clear-out_le name v u [] = omega arith
clear-out_le name v u (l ∷ ls) =
    ground (arith, clear-out_le name v u ls, unselect_mono u v l.options)

clear-out_none :
    (name u : String) (ls : List UsageList) → holders_out name u (clear_others name u ls) ≡ 0
unfolding clear_others
clear-out_none name u [] = refl
clear-out_none name u (l ∷ ls) = ground (arith, clear-out_none name u ls, unselect-none u l.options)

clear-in :
    (name v u : String) (ls : List UsageList)
    → holders_in name u (clear_others name v ls) ≡ holders_in name u ls
unfolding clear_others
clear-in name v u [] = refl
clear-in name v u (l ∷ ls) = ground (arith, clear-in name v u ls)

clear-names :
    (name v n : String) (ls : List UsageList)
    → count_name n (clear_others name v ls) ≡ count_name n ls
unfolding clear_others
clear-names name v n [] = refl
clear-names name v n (l ∷ ls) = ground (arith, clear-names name v n ls)

clear-Shrinks : (name v : String) (ls : List UsageList) → Shrinks name ls (clear_others name v ls)
clear-Shrinks name v ls = record {
  out_le = λ u. clear-out_le name v u ls;
  in_same = λ u. clear-in name v u ls;
  names = λ n. clear-names name v n ls;
}

enforce_usage-Shrinks :
    (name u : String) (valid : List (String × String)) (ls : List UsageList)
    → Shrinks name ls (enforce_usage name u valid ls)
unfolding enforce_usage
enforce_usage-Shrinks name u [] ls = Shrinks-refl name ls
enforce_usage-Shrinks name u (v ∷ valid) ls = elim (Bool-cases (str_eq v.0 u && str_eq v.1 "N")) [
  | inl t ↦ rw t (
      Shrinks-trans name ls (clear_others name u ls)
        (enforce_usage name u valid (clear_others name u ls)) (clear-Shrinks name u ls)
        (enforce_usage-Shrinks name u valid (clear_others name u ls)))
  | inr t ↦ rw t (enforce_usage-Shrinks name u valid ls)
]

enforce_usage-none :
    (name u : String) (valid : List (String × String)) (ls : List UsageList)
    → is_single valid u ≡ true
    → holders_out name u (enforce_usage name u valid ls) ≡ 0
unfolding enforce_usage
enforce_usage-none name u [] ls h = cc
enforce_usage-none name u (v ∷ valid) ls h = elim (Bool-cases (str_eq v.0 u && str_eq v.1 "N")) [
  | inl t ↦
      let ms = clear_others name u ls in
      let s = (enforce_usage-Shrinks name u valid ms).out_le u in
      let z = clear-out_none name u ls in rw t (omega (arith, s, z))
  | inr t ↦ rw t (enforce_usage-none name u valid ls (ground arith))
]

pub enforce_usages-Shrinks :
    (name : String) (us : List String) (valid : List (String × String)) (ls : List UsageList)
    → Shrinks name ls (enforce_usages name us valid ls)
unfolding enforce_usages
enforce_usages-Shrinks name [] valid ls = Shrinks-refl name ls
enforce_usages-Shrinks name (u ∷ us) valid ls =
    let ms = enforce_usage name u valid ls in
    Shrinks-trans name ls ms (enforce_usages name us valid ms)
      (enforce_usage-Shrinks name u valid ls) (enforce_usages-Shrinks name us valid ms)

pub enforce_usages-none :
    (name : String) (us : List String) (valid : List (String × String)) (ls : List UsageList)
    (u : String)
    → is_single valid u ≡ true
    → includes u us ≡ true
    → holders_out name u (enforce_usages name us valid ls) ≡ 0
unfolding enforce_usages
enforce_usages-none name [] valid ls u h k = cc
enforce_usages-none name (v ∷ us) valid ls u h k =
    let ms = enforce_usage name v valid ls in
    elim (Bool-cases (str_eq v u)) [
      | inl t ↦
          let same : v ≡ u = (eq_iff v u).0 t in
          let z =
            subst (λ x. holders_out name u (enforce_usage name x valid ls) ≡ 0) (sym same)
              (enforce_usage-none name u valid ls h) in
          let s = (enforce_usages-Shrinks name us valid ms).out_le u in omega (arith, z, s)
      | inr t ↦ enforce_usages-none name us valid ms u h (ground arith)
    ]

pub texts-in :
    (name u : String) (ls : List UsageList)
    → includes u (texts_of name ls) ≡ false
    → holders_in name u ls ≡ 0
unfolding texts_of
texts-in name u [] h = refl
texts-in name u (l ∷ ls) h = ground (
  arith,
  texts-in name u ls,
  selected-has u l.options,
  includes-append u (selected_texts l.options) (texts_of name ls),
)
  where
    selected-has :
        (u : String) (os : List (String × Bool)) → includes u (selected_texts os) ≡ has_usage u os
    selected-has u [] = refl
    selected-has u (o ∷ os) = ground (arith, selected-has u os)

pub reselect-out :
    (chosen : List String) (name u : String) (ls : List UsageList)
    → holders_out name u (map (reselect chosen name) ls) ≡ holders_out name u ls
reselect-out chosen name u [] = refl
reselect-out chosen name u (l ∷ ls) = ground (arith, reselect-out chosen name u ls)

pub reselect-names :
    (chosen : List String) (name n : String) (ls : List UsageList)
    → count_name n (map (reselect chosen name) ls) ≡ count_name n ls
reselect-names chosen name n [] = refl
reselect-names chosen name n (l ∷ ls) = ground (arith, reselect-names chosen name n ls)
