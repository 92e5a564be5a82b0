-- ===== src/Directory/Once.antt =====
-- Any changes keep the uses that are allowed once to one picture.
use jazzhands.Prelude.{
  ℕ, ◌+◌, ◌≤◌, ◌≡◌, refl, ◌∙◌, subst, inl, inr, true, false, String, str_eq, str_eq-false, eq_iff,
  List, [], ◌∷◌, ◌++◌, ◌<>◌, show, append-show_inj, map, includes, if◌then◌else◌, arith, Bool-cases,
}
use jazzhands.Directory.Usages.{
  UsageList, Pictures, select_in, new_list, texts_of, enforce_usages, enforce_select_is_multivalue,
  reselect, Event, changed, added, handle_event, run_events,
}
use jazzhands.Directory.Single.{
  has_usage, count_name, holders, holders_out, is_single, holders-sum, in-count,
  enforce_usages-Shrinks, enforce_usages-none, texts-in, reselect-out, reselect-names,
}

abbrev pub new_name : ℕ → String
new_name k = "new_person_image_usage_" <> show k

-- No two lists have the same name, the names of lists to come are free, and a use that is allowed
-- once is selected in one list at most.
pub record Proper (valid : List (String × String)) (p : Pictures) : Type 0 where
  pub names : (n : String) → count_name n p.lists ≤ 1
  pub fresh : (k : ℕ) → p.pic_offset ≤ k → count_name (new_name k) p.lists ≡ 0
  pub single : (u : String) → is_single valid u ≡ true → holders u p.lists ≤ 1

enforced-single :
    (valid : List (String × String)) (name u : String) (ls : List UsageList)
    → count_name name ls ≤ 1
    → holders_out name u ls ≤ 1
    → is_single valid u ≡ true
    → holders u (enforce_select_is_multivalue name valid ls) ≤ 1
unfolding enforce_select_is_multivalue
enforced-single valid name u ls c o s =
    let us = texts_of name ls in
    let ms = enforce_usages name us valid ls in
    let shrinks = enforce_usages-Shrinks name us valid ls in
    let sum = holders-sum name u ms in
    let out = shrinks.out_le u in
    let same = shrinks.in_same u in
    elim (Bool-cases (includes u us)) [
      | inl t ↦
          let z = enforce_usages-none name us valid ls u s t in
          let i = in-count name u ls in omega (arith, sum, same, z, i, c)
      | inr t ↦ let i = texts-in name u ls t in omega (arith, sum, same, out, i, o)
    ]

changed-Proper :
    (valid : List (String × String)) (name : String) (chosen : List String) (p : Pictures)
    → Proper valid p
    → Proper valid (handle_event valid (changed name chosen) p)
unfolding handle_event enforce_select_is_multivalue
changed-Proper valid name chosen p h =
    let ls = map (reselect chosen name) p.lists in
    let shrinks = enforce_usages-Shrinks name (texts_of name ls) valid ls in
    let same : (n : String)
        → count_name n (enforce_select_is_multivalue name valid ls) ≡ count_name n p.lists =
      λ n. shrinks.names n ∙ reselect-names chosen name n p.lists in
    record {
      names = λ n. let e = same n in let k = h.names n in omega (arith, e, k);
      fresh = λ k l. same (new_name k) ∙ h.fresh k l;
      single = λ u s.
          let e = reselect-out chosen name u p.lists in
          let k = h.single u s in
          let sum = holders-sum name u p.lists in
          let c = reselect-names chosen name name p.lists in
          let d = h.names name in
          enforced-single valid name u ls (omega (arith, c, d)) (omega (arith, e, k, sum)) s;
    }

unselected :
    (u : String) (valid : List (String × String))
    → has_usage u (map (λ v. select_in [] v.0) valid) ≡ false
unselected u [] = refl
unselected u (v ∷ valid) = ground (arith, unselected u valid)

count-append :
    (n : String) (ls : List UsageList) (l : UsageList)
    → count_name n (ls ++ l ∷ []) ≡ count_name n ls + (if str_eq l.name n then 1 else 0)
count-append n [] l = ground arith
count-append n (m ∷ ls) l = ground (arith, count-append n ls l)

holders-append :
    (u : String) (ls : List UsageList) (l : UsageList)
    → has_usage u l.options ≡ false
    → holders u (ls ++ l ∷ []) ≡ holders u ls
holders-append u [] l h = ground arith
holders-append u (m ∷ ls) l h = ground (arith, holders-append u ls l h)

added-Proper :
    (valid : List (String × String)) (p : Pictures)
    → Proper valid p
    → Proper valid (handle_event valid added p)
unfolding handle_event new_list
added-Proper valid p h =
    let name = new_name p.pic_offset in
    let l = new_list name valid [] in
    let free = h.fresh p.pic_offset (omega arith) in
    record {
      names = λ n.
          let e = count-append n p.lists l in
          let k = h.names n in
          elim (Bool-cases (str_eq name n)) [
            | inl t ↦
                let same : name ≡ n = (eq_iff name n).0 t in
                let z = subst (λ x. count_name x p.lists ≡ 0) same free in
                rw e (rw t (omega (arith, z)))
            | inr t ↦ rw e (rw t (omega (arith, k)))
          ];
      fresh = λ k g.
          let e = count-append (new_name k) p.lists l in
          let z = h.fresh k (omega arith) in
          let other : str_eq name (new_name k) ≡ false = str_eq-false name (new_name k) (λ q.
            let same = append-show_inj "new_person_image_usage_" p.pic_offset k q in
            absurd (omega (arith, same))) in
          rw e (rw other (omega (arith, z)));
      single = λ u s.
          let e = holders-append u p.lists l (unselected u valid) in let k = h.single u s in rw e k;
    }

-- From lists with different names, where the names of lists to come are free and each use that is
-- not `is_multivalue` is selected for one picture at most, any changes of what is selected and any
-- lists that are added lead to such lists.
pub run_events-Proper :
    (valid : List (String × String)) (es : List Event) (p : Pictures)
    → Proper valid p
    → Proper valid (run_events valid es p)
unfolding run_events
run_events-Proper valid [] p h = h
run_events-Proper valid (changed name chosen ∷ es) p h =
    run_events-Proper valid es (handle_event valid (changed name chosen) p)
      (changed-Proper valid name chosen p h)
run_events-Proper valid (added ∷ es) p h =
    run_events-Proper valid es (handle_event valid added p) (added-Proper valid p h)
