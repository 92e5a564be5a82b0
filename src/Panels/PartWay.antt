-- ===== src/Panels/PartWay.antt =====
-- The contents of a group while the loop of `showhide` is on its way.
use jazzhands.Prelude.{
  ℕ, zero, suc, ◌≤◌, ◌≡◌, refl, ap, ◌∙◌, Bool, true, false, ◌&&◌, ◌||◌, String, Option, none, some,
  List, [], ◌∷◌, map, all, any, length, get_elem?, modify, if◌then◌else◌, str_eq, arith, inl, inr,
  ◌⊎◌, subst, some_inj,
}
use jazzhands.Panels.ShowHide.{
  Control, Content, only_toggled, untoggled, hide_other, set_hidden, is_of, is_key, toggled_right,
  hidden_right,
}

-- A content of the control `k` is as `before`, or already as `after`; the others are as `now`.
abbrev part_right : String → Option String → Option String → Content → Bool
part_right k mine now c = if str_eq c.key k then hidden_right mine c else hidden_right now c

-- The contents during the loop, the first `i` of which were visited.
unfoldable pub part_way :
    String → Option String → Option String → Option String → ℕ → List Content → Bool
part_way k before after now i [] = true
part_way k before after now zero (c ∷ cs) =
    let rest = part_way k before after now zero cs in part_right k before now c && rest
part_way k before after now (suc i) (c ∷ cs) =
    let rest = part_way k before after now i cs in part_right k after now c && rest

pub first_part_way :
    (k : String) (before after : Option String) (cs : List Content)
    → all (hidden_right before) cs ≡ true
    → part_way k before after before zero cs ≡ true
unfolding part_way
first_part_way k before after [] h = refl
first_part_way k before after (c ∷ cs) h = ground (arith, first_part_way k before after cs)

pub last_part_way :
    (k : String) (before after : Option String) (i : ℕ) (cs : List Content)
    → part_way k before after after i cs ≡ true
    → length cs ≤ i
    → all (hidden_right after) cs ≡ true
unfolding part_way
last_part_way k before after i [] h l = refl
last_part_way k before after zero (c ∷ cs) h l = absurd (omega arith)
last_part_way k before after (suc i) (c ∷ cs) h l =
    ground (arith, last_part_way k before after i cs (ground (arith, h)) (omega arith))

pub skip :
    (k : String) (before after now : Option String) (i : ℕ) (cs : List Content)
    → part_way k before after now i cs ≡ true
    → ((c : Content) → get_elem? cs i ≡ some c → str_eq c.key k ≡ false)
    → part_way k before after now (suc i) cs ≡ true
unfolding part_way
skip k before after now i [] h o = refl
skip k before after now zero (c ∷ cs) h o = ground (arith, h, o c refl)
skip k before after now (suc i) (c ∷ cs) h o =
    ground (arith, h, skip k before after now i cs (ground (arith, h)) o)

pub others :
    (k : String) (before now : Option String) (cs : List Content)
    → part_way k before (some k) now zero cs ≡ true
    → part_way k before (some k) (some k) zero (map (hide_other k) cs) ≡ true
unfolding part_way
others k before now [] h = refl
others k before now (c ∷ cs) h = ground (arith, others k before now cs)

closed_rest :
    (k : String) (now : Option String) (cs : List Content)
    → ((x : String) → str_eq x k ≡ false → is_key now x ≡ false)
    → part_way k (some k) none now zero cs ≡ true
    → part_way k (some k) none none zero cs ≡ true
unfolding part_way
closed_rest k now [] n h = refl
closed_rest k now (c ∷ cs) n h = ground (arith, n c.key, closed_rest k now cs n)

pub hidden_part :
    (k : String) (now : Option String) (i : ℕ) (cs : List Content)
    → ((x : String) → str_eq x k ≡ false → is_key now x ≡ false)
    → part_way k (some k) none now i cs ≡ true
    → ((c : Content) → get_elem? cs i ≡ some c → str_eq c.key k ≡ true)
    → part_way k (some k) none none (suc i) (modify (set_hidden true) i cs) ≡ true
unfolding part_way modify
hidden_part k now i [] n h o = refl
hidden_part k now zero (c ∷ cs) n h o = ground (arith, h, o c refl, closed_rest k now cs n)
hidden_part k now (suc i) (c ∷ cs) n h o =
    ground (arith, h, n c.key, hidden_part k now i cs n (ground (arith, h)) o)

pub shown_part :
    (k : String) (before now : Option String) (i : ℕ) (cs : List Content)
    → part_way k before (some k) now i cs ≡ true
    → ((c : Content) → get_elem? cs i ≡ some c → str_eq c.key k ≡ true)
    → part_way k before
        (some k)
        (some k)
        (suc i)
        (modify (set_hidden false) i (map (hide_other k) cs))
      ≡ true
unfolding part_way modify
shown_part k before now i [] h o = refl
shown_part k before now zero (c ∷ cs) h o = ground (arith, h, o c refl, others k before now cs)
shown_part k before now (suc i) (c ∷ cs) h o =
    ground (arith, h, shown_part k before now i cs (ground (arith, h)) o)

-- A content of the control `k` is left, from the index `i` on.
unfoldable pub left_of : String → ℕ → List Content → Bool
left_of k i [] = false
left_of k zero (c ∷ cs) = let rest = left_of k zero cs in is_of k c || rest
left_of k (suc i) (c ∷ cs) = left_of k i cs

pub left_any : (k : String) (cs : List Content) → left_of k zero cs ≡ any (is_of k) cs
unfolding left_of
left_any k [] = refl
left_any k (c ∷ cs) = ground (arith, left_any k cs)

pub left_end : (k : String) (i : ℕ) (cs : List Content) → length cs ≤ i → left_of k i cs ≡ false
unfolding left_of
left_end k i [] h = refl
left_end k zero (c ∷ cs) h = absurd (omega arith)
left_end k (suc i) (c ∷ cs) h = left_end k i cs (omega arith)

pub left_next :
    (k : String) (i : ℕ) (cs : List Content)
    → left_of k i cs ≡ true
    → ((c : Content) → get_elem? cs i ≡ some c → str_eq c.key k ≡ false)
    → left_of k (suc i) cs ≡ true
unfolding left_of
left_next k i [] h o = absurd (ground (arith, h))
left_next k zero (c ∷ cs) h o = ground (arith, h, o c refl)
left_next k (suc i) (c ∷ cs) h o = left_next k i cs h o

pub at_index :
    (k : String) (before after now : Option String) (i : ℕ) (cs : List Content) (c : Content)
    → part_way k before after now i cs ≡ true
    → get_elem? cs i ≡ some c
    → part_right k before now c ≡ true
unfolding part_way
at_index k before after now i [] c h e = absurd (ground (arith, e))
at_index k before after now zero (d ∷ cs) c h e =
    subst (λ x. part_right k before now x ≡ true) (some_inj d c e) (ground (arith, h))
at_index k before after now (suc i) (d ∷ cs) c h e =
    at_index k before after now i cs c (ground (arith, h)) e

pub toggled_only :
    (k : String) (cs : List Control) → all (toggled_right (some k)) (map (only_toggled k) cs) ≡ true
toggled_only k [] = refl
toggled_only k (c ∷ cs) = ground (arith, toggled_only k cs)

pub toggled_none :
    (k : String) (now : Option String) (cs : List Control)
    → ((x : String) → str_eq x k ≡ false → is_key now x ≡ false)
    → all (toggled_right now) cs ≡ true
    → all (toggled_right none) (map (untoggled k) cs) ≡ true
toggled_none k now [] n h = refl
toggled_none k now (c ∷ cs) n h = ground (arith, n c.key, toggled_none k now cs n)

pub not_now :
    (k : String) (now : Option String) (x : String)
    → (now ≡ some k) ⊎ (now ≡ none)
    → str_eq x k ≡ false
    → is_key now x ≡ false
not_now k now x (inl e) f = ap (λ o. is_key o x) e ∙ f
not_now k now x (inr e) f = ap (λ o. is_key o x) e
