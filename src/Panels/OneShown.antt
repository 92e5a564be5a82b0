-- ===== src/Panels/OneShown.antt =====
-- At most one control of a group is open.
use jazzhands.Prelude.{
  ℕ, zero, suc, ◌≤◌, ◌+◌, ◌≡◌, refl, ap, ◌∙◌, sym, Bool, true, false, String, Option, none, some,
  List, [], ◌∷◌, map, all, any, length, get_elem?, modify, str_eq, eq_iff, arith, inl, inr,
  Bool-cases, ◌⊎◌, subst, some_inj, includes, length-modify, length-map,
}
use jazzhands.Panels.ShowHide.{
  Content, Group, hide_other, set_hidden, show_content, hide_content, visit_content, visit_from,
  is_of, show_hide, show_hide_all, is_key, toggled_right, ShowsOne, content_keys, next_shown,
  shown_after,
}
use jazzhands.Panels.PartWay.{
  part_way, first_part_way, last_part_way, skip, hidden_part, shown_part, left_of, left_any,
  left_end, left_next, at_index, toggled_only, toggled_none, not_now,
}

-- What the visit of a content of the control does, on the way from `before` to `after`.
Visits : String → Option String → Option String → Type 0
Visits k before after =
    (now : Option String) (i : ℕ) (g : Group) (c : Content)
    → (now ≡ before) ⊎ (now ≡ after)
    → get_elem? g.contents i ≡ some c
    → str_eq c.key k ≡ true
    → part_way k before after now i g.contents ≡ true
    → all (toggled_right now) g.controls ≡ true
    → (part_way k before after after (suc i) (visit_content (some c) k i g).contents ≡ true)
      × (all (toggled_right after) (visit_content (some c) k i g).controls ≡ true)
      × (length (visit_content (some c) k i g).contents ≡ length g.contents)

to_show-Visits :
    (k : String) (before : Option String) → is_key before k ≡ false → Visits k before (some k)
unfolding Visits visit_content show_content
to_show-Visits k before b now i g c w e t p r =
    let hidden : c.hidden ≡ true =
      ground
        (arith, at_index k before (some k) now i g.contents c p e, t, b, (eq_iff c.key k).0 t) in
    rw (t, hidden)
      (
        shown_part k before now i g.contents p
            (λ d f. ap (λ x. str_eq x.key k) (some_inj d c (sym f ∙ e)) ∙ t),
        toggled_only k g.controls,
        length-modify (set_hidden false) i (map (hide_other k) g.contents)
            ∙ length-map (hide_other k) g.contents,
      )

to_hide-Visits : (k : String) → Visits k (some k) none
unfolding Visits visit_content hide_content
to_hide-Visits k now i g c w e t p r =
    let shown : c.hidden ≡ false =
      ground (arith, at_index k (some k) none now i g.contents c p e, t) in
    let n : (x : String) → str_eq x k ≡ false → is_key now x ≡ false = λ x f. not_now k now x w f in
    rw (t, shown)
      (
        hidden_part k now i g.contents n p
            (λ d f. ap (λ x. str_eq x.key k) (some_inj d c (sym f ∙ e)) ∙ t),
        toggled_none k now g.controls n r,
        length-modify (set_hidden true) i g.contents,
      )

-- The state of the loop before the content at an index.
OnTheWay : String → Option String → Option String → Option String → ℕ → Group → Type 0
OnTheWay k before after now i g =
    ((now ≡ before) ⊎ (now ≡ after))
    × ((left_of k i g.contents ≡ true) ⊎ (now ≡ after))
    × (part_way k before after now i g.contents ≡ true)
    × (all (toggled_right now) g.controls ≡ true)

next_left :
    (k : String) (after now : Option String) (i : ℕ) (cs : List Content)
    → (left_of k i cs ≡ true) ⊎ (now ≡ after)
    → ((c : Content) → get_elem? cs i ≡ some c → str_eq c.key k ≡ false)
    → (left_of k (suc i) cs ≡ true) ⊎ (now ≡ after)
next_left k after now i cs (inl l) o = inl (left_next k i cs l o)
next_left k after now i cs (inr e) o = inr e

finished :
    (k : String) (before after now : Option String) (i : ℕ) (g : Group)
    → length g.contents ≤ i
    → OnTheWay k before after now i g
    → ShowsOne after g
unfolding OnTheWay ShowsOne
finished k before after now i g h (w, inl l, p, r) =
    absurd (ground (arith, left_end k i g.contents h, l))
finished k before after now i g h (w, inr e, p, r) = (
  subst (λ o. all (toggled_right o) g.controls ≡ true) e r,
  last_part_way k before after i g.contents
      (subst (λ o. part_way k before after o i g.contents ≡ true) e p) h,
)

visit_one :
    (k : String) (before after now : Option String) (i : ℕ) (g : Group) (o : Option Content)
    → get_elem? g.contents i ≡ o
    → Visits k before after
    → OnTheWay k before after now i g
    → (later : Option String) × OnTheWay k before after later (suc i) (visit_content o k i g)
      × (length (visit_content o k i g).contents ≡ length g.contents)
unfolding visit_content OnTheWay Visits
visit_one k before after now i g none e v (w, l, p, r) =
    let other : (c : Content) → get_elem? g.contents i ≡ some c → str_eq c.key k ≡ false =
      λ c f. absurd (ground (arith, sym e ∙ f)) in
    (
      now,
      (
        w,
        next_left k after now i g.contents l other,
        skip k before after now i g.contents p other,
        r,
      ),
      refl,
    )
visit_one k before after now i g (some c) e v (w, l, p, r) = elim (Bool-cases (str_eq c.key k)) [
  | inl t ↦ let s = v now i g c w e t p r in (after, (inr refl, inr refl, s.0, s.1), s.2)
  | inr t ↦
      let other : (d : Content) → get_elem? g.contents i ≡ some d → str_eq d.key k ≡ false =
        λ d f. ap (λ x. str_eq x.key k) (some_inj d c (sym f ∙ e)) ∙ t in
      rw t (
        now,
        (
          w,
          next_left k after now i g.contents l other,
          skip k before after now i g.contents p other,
          r,
        ),
        refl,
      )
]

run_loop :
    (k : String) (before after now : Option String) (n i : ℕ) (g : Group)
    → length g.contents ≡ i + n
    → Visits k before after
    → OnTheWay k before after now i g
    → ShowsOne after (visit_from n i k g)
unfolding visit_from ShowsOne
run_loop k before after now zero i g e v o = finished k before after now i g (omega arith) o
run_loop k before after now (suc n) i g e v o =
    let one = visit_one k before after now i g (get_elem? g.contents i) refl v o in
    run_loop k before after one.0 n (suc i) (visit_content (get_elem? g.contents i) k i g)
      (omega (arith, one.2)) v one.1

start :
    (k : String) (before after : Option String) (g : Group)
    → any (is_of k) g.contents ≡ true
    → ShowsOne before g
    → OnTheWay k before after before zero g
unfolding OnTheWay ShowsOne
start k before after g a h =
    (inl refl, inl (left_any k g.contents ∙ a), first_part_way k before after g.contents h.1, h.0)

key_is : (shown : Option String) (k : String) → is_key shown k ≡ true → shown ≡ some k
key_is none k h = absurd (ground (arith, h))
key_is (some s) k h = ap (λ x. some x) (sym ((eq_iff k s).0 h))

any-includes : (k : String) (cs : List Content) → any (is_of k) cs ≡ includes k (content_keys cs)
unfolding content_keys
any-includes k [] = refl
any-includes k (c ∷ cs) = ground (arith, any-includes k cs, eq_iff c.key k, eq_iff k c.key)

keys-map : (k : String) (cs : List Content) → content_keys (map (hide_other k) cs) ≡ content_keys cs
unfolding content_keys
keys-map k [] = refl
keys-map k (c ∷ cs) = ground (arith, keys-map k cs)

keys-modify :
    (h : Bool) (i : ℕ) (cs : List Content)
    → content_keys (modify (set_hidden h) i cs) ≡ content_keys cs
unfolding content_keys modify
keys-modify h i [] = refl
keys-modify h zero (c ∷ cs) = refl
keys-modify h (suc i) (c ∷ cs) = ap (λ ks. c.key ∷ ks) (keys-modify h i cs)

keys-visit :
    (o : Option Content) (k : String) (i : ℕ) (g : Group)
    → content_keys (visit_content o k i g).contents ≡ content_keys g.contents
unfolding visit_content show_content hide_content
keys-visit none k i g = refl
keys-visit (some c) k i g = elim (Bool-cases (str_eq c.key k)) [
  | inr t ↦ rw t refl
  | inl t ↦ rw t (elim (Bool-cases c.hidden) [
    | inl f ↦ rw f (keys-modify false i (map (hide_other k) g.contents) ∙ keys-map k g.contents)
    | inr f ↦ rw f (keys-modify true i g.contents)
  ])
]

keys-visit_from :
    (n i : ℕ) (k : String) (g : Group)
    → content_keys (visit_from n i k g).contents ≡ content_keys g.contents
unfolding visit_from
keys-visit_from zero i k g = refl
keys-visit_from (suc n) i k g =
    keys-visit_from n (suc i) k (visit_content (get_elem? g.contents i) k i g)
    ∙ keys-visit (get_elem? g.contents i) k i g

keys-show_hide :
    (k : String) (g : Group) → content_keys (show_hide k g).contents ≡ content_keys g.contents
unfolding show_hide
keys-show_hide k g = elim (Bool-cases (any (is_of k) g.contents)) [
  | inl t ↦ rw t (keys-visit_from (length g.contents) zero k g)
  | inr t ↦ rw t refl
]

show_hide-ShowsOne :
    (k : String) (shown : Option String) (g : Group)
    → ShowsOne shown g
    → ShowsOne (next_shown (content_keys g.contents) k shown) (show_hide k g)
unfolding next_shown show_hide
show_hide-ShowsOne k shown g h = elim (Bool-cases (any (is_of k) g.contents)) [
  | inr t ↦ rw (sym (any-includes k g.contents), t) h
  | inl t ↦
      rw (sym (any-includes k g.contents), t)
        (elim (Bool-cases (is_key shown k)) [
          | inr f ↦ rw f (
              run_loop k shown (some k) shown (length g.contents) zero g (omega arith)
                (to_show-Visits k shown f) (start k shown (some k) g t h))
          | inl f ↦ rw f (
              run_loop k (some k) none (some k) (length g.contents) zero g (omega arith)
                (to_hide-Visits k)
                (start k (some k) none g t (subst (λ o. ShowsOne o g) (key_is shown k f) h)))
        ])
]

-- Where at most one control of a group is toggled and just its contents are shown, all of them,
-- any sequence of clicks on controls leads to such a group, also where a control has several
-- contents: a click shows the contents of its control and hides the others, or hides them if they
-- are shown, and does nothing without contents.
pub show_hide_all-ShowsOne :
    (ks : List String) (shown : Option String) (g : Group)
    → ShowsOne shown g
    → ShowsOne (shown_after (content_keys g.contents) ks shown) (show_hide_all ks g)
unfolding shown_after show_hide_all
show_hide_all-ShowsOne [] shown g h = h
show_hide_all-ShowsOne (k ∷ ks) shown g h =
    subst
      (λ keys.
        ShowsOne (shown_after keys ks (next_shown (content_keys g.contents) k shown))
          (show_hide_all ks (show_hide k g)))
      (keys-show_hide k g)
      (show_hide_all-ShowsOne ks (next_shown (content_keys g.contents) k shown) (show_hide k g)
        (show_hide-ShowsOne k shown g h))
