-- ===== src/Folding/Grandchildren.antt =====
-- A child that is added to a new application.
use jazzhands.Prelude.{
  ◌≡◌, refl, ap, ◌∙◌, sym, Bool, true, false, ◌||◌, String, Option, none, some, List, [], ◌∷◌, ◌++◌,
  some_inj, subst, ◌<>◌, arith, inl, inr, Bool-cases, split, any, ltb, ℕ, suc,
}
use jazzhands.Folding.AppTree.{
  Element, Page, Class, depth, undecided, goes_on, thrown, element_of, has_id, set_class,
  put_behind, append_child, new_child, new_branch, before_underscore, add_to_new, add_to_branch,
  add_in_class, add_to_found, add_app_child, balance_tree, alert_for,
}
use jazzhands.Folding.Clicks.{
  is_thrown, page_of, click_link, all_thrown, Click, add_again, expand_tree, collapse_tree,
}
use jazzhands.Folding.Broken.{is_nameless, class_in, IsBroken, all-IsBroken, balance_thrown}

is_found : Option Class → Bool
is_found none = false
is_found (some c) = true

class-set_class :
    (s : String) (c : Class) (es : List Element)
    → is_found (class_in (element_of s es)) ≡ true
    → class_in (element_of s (set_class s c es)) ≡ some c
unfolding is_found element_of set_class
class-set_class s c [] h = absurd (ground (arith, h))
class-set_class s c (e ∷ es) h = elim (Bool-cases (has_id s e.id)) [
  | inl k ↦ rw k (rw k refl)
  | inr k ↦ rw k (rw k (class-set_class s c es (rw k at h)))
]

none-set_class :
    (t s : String) (c : Class) (es : List Element)
    → class_in (element_of t es) ≡ none
    → class_in (element_of t (set_class s c es)) ≡ none
unfolding element_of set_class
none-set_class t s c [] h = refl
none-set_class t s c (e ∷ es) h = elim (Bool-cases (has_id t e.id)) [
  | inl m ↦ absurd (ground (arith, rw m at h))
  | inr m ↦ elim (Bool-cases (has_id s e.id)) [
    | inl k ↦ rw k (rw m (rw m at h))
    | inr k ↦ rw k (rw m (none-set_class t s c es (rw m at h)))
  ]
]

class-append_child :
    (s : String) (new es : List Element)
    → class_in (element_of s (append_child s new es)) ≡ class_in (element_of s es)
unfolding element_of append_child
class-append_child s new [] = refl
class-append_child s new (e ∷ es) = elim (Bool-cases (has_id s e.id)) [
  | inl k ↦ rw k (rw k refl)
  | inr k ↦ rw k (rw k (class-append_child s new es))
]

none-append :
    (t : String) (xs ys : List Element)
    → class_in (element_of t xs) ≡ none
    → class_in (element_of t ys) ≡ none
    → class_in (element_of t (xs ++ ys)) ≡ none
unfolding element_of
none-append t [] ys h k = k
none-append t (x ∷ xs) ys h k = elim (Bool-cases (has_id t x.id)) [
  | inl m ↦ absurd (ground (arith, rw m at h))
  | inr m ↦ rw m (none-append t xs ys (rw m at h) k)
]

none-put_behind :
    (t : String) (l : ℕ) (new es : List Element)
    → class_in (element_of t new) ≡ none
    → class_in (element_of t es) ≡ none
    → class_in (element_of t (put_behind l new es)) ≡ none
unfolding element_of put_behind
none-put_behind t l new [] n h = n
none-put_behind t l new (e ∷ es) n h = elim (Bool-cases (ltb l e.level)) [
  | inr d ↦ rw d (none-append t new (e ∷ es) n h)
  | inl d ↦ rw d (elim (Bool-cases (has_id t e.id)) [
    | inl m ↦ absurd (ground (arith, rw m at h))
    | inr m ↦ rw m (none-put_behind t l new es n (rw m at h))
  ])
]

none-append_child :
    (t s : String) (new es : List Element)
    → class_in (element_of t new) ≡ none
    → class_in (element_of t es) ≡ none
    → class_in (element_of t (append_child s new es)) ≡ none
unfolding element_of append_child
none-append_child t s new [] n h = refl
none-append_child t s new (e ∷ es) n h = elim (Bool-cases (has_id t e.id)) [
  | inl m ↦ absurd (ground (arith, rw m at h))
  | inr m ↦ elim (Bool-cases (has_id s e.id)) [
    | inl k ↦ rw k (rw m (none-put_behind t e.level new es n (rw m at h)))
    | inr k ↦ rw k (rw m (none-append_child t s new es n (rw m at h)))
  ]
]

any-append : (p : Element → Bool) (xs ys : List Element) → any p (xs ++ ys) ≡ (any p xs || any p ys)
any-append p [] ys = refl
any-append p (x ∷ xs) ys = ground (arith, any-append p xs ys)

any-put_behind :
    (p : Element → Bool) (l : ℕ) (new es : List Element)
    → any p new ≡ true
    → any p (put_behind l new es) ≡ true
unfolding put_behind
any-put_behind p l new [] h = h
any-put_behind p l new (e ∷ es) h =
    ground (arith, any-put_behind p l new es, any-append p new (e ∷ es))

any-append_child :
    (p : Element → Bool) (s : String) (new es : List Element)
    → any p new ≡ true
    → is_found (class_in (element_of s es)) ≡ true
    → any p (append_child s new es) ≡ true
unfolding is_found element_of append_child
any-append_child p s new [] h f = absurd (ground (arith, f))
any-append_child p s new (e ∷ es) h f = elim (Bool-cases (has_id s e.id)) [
  | inl k ↦ rw k (ground (arith, any-put_behind p e.level new es h))
  | inr k ↦ rw k (ground (arith, any-append_child p s new es h (rw k at f)))
]

no_new :
    (e : Element)
    → class_in (element_of "newchild" (new_branch e ∷ new_child none (suc e.level) 0 e.margin))
      ≡ none
unfolding element_of
no_new e = refl

first-IsBroken :
    (s : String) (e : Element) (page : Page)
    → is_found (class_in (element_of s page.elements)) ≡ true
    → class_in (element_of "newchild" page.elements) ≡ none
    → IsBroken s (add_to_new s e page)
unfolding IsBroken add_to_new alert_for is_found
first-IsBroken s e page f n =
    let new = new_branch e ∷ new_child none (suc e.level) 0 e.margin in
    let set = set_class s depth page.elements in
    let c = class-set_class s depth page.elements f in
    (
      class-append_child s new set ∙ c,
      none-append_child "newchild" s new set (no_new e)
          (none-set_class "newchild" s depth page.elements n),
      any-append_child is_nameless s new set refl (ap is_found c),
    )

no_branch :
    (s : String) (o : Option Element) (page : Page)
    → class_in o ≡ none
    → add_to_branch s "newchild" o page ≡ thrown page
unfolding add_to_branch
no_branch s none page h = refl
no_branch s (some e) page h = absurd (ground (arith, h))

again_thrown :
    (s : String) (o : Option Element) (page : Page)
    → class_in o ≡ some depth
    → before_underscore s ≡ "newchild"
    → class_in (element_of "newchild" page.elements) ≡ none
    → add_to_found s o page ≡ thrown page
unfolding add_to_found add_in_class
again_thrown s none page c b n = absurd (ground (arith, c))
again_thrown s (some e) page c b n =
    ap (λ x. add_in_class s x e page) (some_inj e.class depth c)
    ∙ ap (λ x. add_to_branch s x (element_of x page.elements) page) b
    ∙ no_branch s (element_of "newchild" page.elements) page n

added_thrown :
    (s : String) (page : Page)
    → before_underscore s ≡ "newchild"
    → IsBroken s page
    → add_app_child s page ≡ thrown page
unfolding add_app_child IsBroken
added_thrown s page u (a, b, c) = again_thrown s (element_of s page.elements) page a u b

stays : (s : String) (page : Page) → IsBroken s page → IsBroken s (page_of (thrown page))
unfolding page_of
stays s page b = b

nameless_in : (s : String) (page : Page) → IsBroken s page → any is_nameless page.elements ≡ true
unfolding IsBroken
nameless_in s page (a, b, c) = c

click_link-IsBroken :
    (s : String) (c : Click) (page : Page)
    → before_underscore s ≡ "newchild"
    → IsBroken s page
    → (is_thrown (click_link s c page) ≡ true) × IsBroken s (page_of (click_link s c page))
unfolding click_link add_app_child balance_tree is_thrown
click_link-IsBroken s add_again page u b =
    let t = added_thrown s page u b in
    (ap is_thrown t, subst (λ r. IsBroken s (page_of r)) (sym t) (stays s page b))
click_link-IsBroken s expand_tree page u b = (
  balance_thrown true page.elements page (nameless_in s page b),
  all-IsBroken s true page.elements page b,
)
click_link-IsBroken s collapse_tree page u b = (
  balance_thrown false page.elements page (nameless_in s page b),
  all-IsBroken s false page.elements page b,
)

clicks_thrown :
    (s : String) (cs : List Click) (page : Page)
    → before_underscore s ≡ "newchild"
    → IsBroken s page
    → all_thrown s cs page ≡ true
unfolding all_thrown
clicks_thrown s [] page u b = refl
clicks_thrown s (c ∷ cs) page u b =
    let one = click_link-IsBroken s c page u b in
    ground (arith, one.0, clicks_thrown s cs (page_of (click_link s c page)) u one.1)

new_prefix : (k : String) → before_underscore ("newchild_" <> k) ≡ "newchild"
unfolding before_underscore split
new_prefix k = refl

broken_clicks :
    (s : String) (e : Element) (cs : List Click) (page : Page)
    → before_underscore s ≡ "newchild"
    → element_of s page.elements ≡ some e
    → e.class ≡ undecided
    → element_of "newchild" page.elements ≡ none
    → (after : Page) × (add_app_child s page ≡ goes_on after) × (all_thrown s cs after ≡ true)
unfolding add_app_child add_to_found add_in_class is_found
broken_clicks s e cs page u h c n =
    let b = first-IsBroken s e page (ap (λ o. is_found (class_in o)) h) (ap class_in n) in
    (add_to_new s e page, rw (h, c) refl, clicks_thrown s cs (add_to_new s e page) u b)

-- A child that is added to a new application breaks the tree: where no element is named
-- `newchild`, the first click on the application's link (add) raises no exception, and from then on
-- each click of any sequence of clicks on this link and on the links that expand and collapse the
-- tree raises one.
pub grandchild-IsBroken :
    (k : String) (e : Element) (cs : List Click) (page : Page)
    → element_of ("newchild_" <> k) page.elements ≡ some e
    → e.class ≡ undecided
    → element_of "newchild" page.elements ≡ none
    → (after : Page) × (add_app_child ("newchild_" <> k) page ≡ goes_on after)
      × (all_thrown ("newchild_" <> k) cs after ≡ true)
grandchild-IsBroken k e cs page = broken_clicks ("newchild_" <> k) e cs page (new_prefix k)
