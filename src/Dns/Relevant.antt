-- ===== src/Dns/Relevant.antt =====
-- Which fields of a record are shown after its type was changed, and which are there.
use jazzhands.Prelude.{
  ◌≡◌, refl, sym, ◌∙◌, ap, subst, Bool, true, false, not, ◌||◌, String, str_eq, List, [], ◌∷◌, map,
  if◌then◌else◌, all, arith,
}
use jazzhands.Dns.Record.{
  Box, Select, Row, show_box, hide_box, show_select, hide_select, show_priority, show_srv, hide_srv,
  change_head, change_tail, change_dns_record, change_all,
}

abbrev all_hidden : Bool → List Box → Bool
all_hidden b bs = all (λ x. if b then x.irrelevant else not x.irrelevant) bs

abbrev all_selects_hidden : Bool → List Select → Bool
all_selects_hidden b ss = all (λ x. if b then x.hidden else not x.hidden) ss

hidden_boxes : (bs : List Box) → all_hidden true (map hide_box bs) ≡ true
hidden_boxes [] = refl
hidden_boxes (b ∷ bs) = hidden_boxes bs

shown_boxes : (bs : List Box) → all_hidden false (map show_box bs) ≡ true
shown_boxes [] = refl
shown_boxes (b ∷ bs) = shown_boxes bs

hidden_selects : (bs : List Select) → all_selects_hidden true (map hide_select bs) ≡ true
hidden_selects [] = refl
hidden_selects (b ∷ bs) = hidden_selects bs

shown_selects : (bs : List Select) → all_selects_hidden false (map show_select bs) ≡ true
shown_selects [] = refl
shown_selects (b ∷ bs) = shown_selects bs

shown_priority : (r : Row) (bs : List Box) → all_hidden false (show_priority r bs) ≡ true
unfolding show_priority
shown_priority r [] = refl
shown_priority r (b ∷ bs) = shown_boxes bs

abbrev names : List Box → List String
names bs = map (λ b. b.name) bs

abbrev list_names : List Select → List String
list_names ss = map (λ s. s.drop.name) ss

names-show : (bs : List Box) → names (map show_box bs) ≡ names bs
names-show [] = refl
names-show (b ∷ bs) = rw (names-show bs) refl

names-hide : (bs : List Box) → names (map hide_box bs) ≡ names bs
names-hide [] = refl
names-hide (b ∷ bs) = rw (names-hide bs) refl

list_names-show : (ss : List Select) → list_names (map show_select ss) ≡ list_names ss
list_names-show [] = refl
list_names-show (s ∷ ss) = rw (list_names-show ss) refl

list_names-hide : (ss : List Select) → list_names (map hide_select ss) ≡ list_names ss
list_names-hide [] = refl
list_names-hide (s ∷ ss) = rw (list_names-hide ss) refl

-- The fields that only an SRV record has are shown for `srv` and else hidden, all of them, and
-- those for the priority are shown for `srv` and `mx`, and else hidden.
pub Fits : Bool → Bool → Row → Type 0
Fits srv mx r =
    (all_hidden (not srv) r.weight ≡ true)
    × (all_hidden (not srv) r.port ≡ true)
    × (all_selects_hidden (not srv) r.protocol ≡ true)
    × (all_selects_hidden (not srv) r.service ≡ true)
    × (all_hidden (not (srv || mx)) r.priority ≡ true)

-- The second row has the same fields of an SRV record as the first, and asked for no more.
pub KeepsFields : Row → Row → Type 0
KeepsFields r after =
    (names after.weight ≡ names r.weight)
    × (names after.port ≡ names r.port)
    × (list_names after.protocol ≡ list_names r.protocol)
    × (list_names after.service ≡ list_names r.service)
    × (after.asked ≡ r.asked)

KeepsFields-trans : (a b c : Row) → KeepsFields a b → KeepsFields b c → KeepsFields a c
unfolding KeepsFields
KeepsFields-trans a b c (w, p, q, s, k) (w', p', q', s', k') =
    (w' ∙ w, p' ∙ p, q' ∙ q, s' ∙ s, k' ∙ k)

shown_tail :
    (mx : Bool) (r : Row) (p : Select) (ps : List Select)
    → Fits true mx (change_tail true mx (record r { service = p ∷ ps }))
      × KeepsFields
          (record r { service = p ∷ ps })
          (change_tail true mx (record r { service = p ∷ ps }))
unfolding change_tail show_srv Fits KeepsFields
shown_tail mx r p ps = (
  (
    shown_boxes r.weight,
    shown_boxes r.port,
    shown_selects r.protocol,
    shown_selects (p ∷ ps),
    shown_priority r r.priority,
  ),
  (
    names-show r.weight,
    names-show r.port,
    list_names-show r.protocol,
    list_names-show (p ∷ ps),
    refl,
  ),
)

hidden_tail :
    (mx : Bool) (r : Row)
    → Fits false mx (change_tail false mx r) × KeepsFields r (change_tail false mx r)
unfolding change_tail hide_srv Fits KeepsFields
hidden_tail true r = (
  (
    hidden_boxes r.weight,
    hidden_boxes r.port,
    hidden_selects r.protocol,
    hidden_selects r.service,
    shown_priority r r.priority,
  ),
  (
    names-hide r.weight,
    names-hide r.port,
    list_names-hide r.protocol,
    list_names-hide r.service,
    refl,
  ),
)
hidden_tail false r = (
  (
    hidden_boxes r.weight,
    hidden_boxes r.port,
    hidden_selects r.protocol,
    hidden_selects r.service,
    hidden_boxes r.priority,
  ),
  (
    names-hide r.weight,
    names-hide r.port,
    list_names-hide r.protocol,
    list_names-hide r.service,
    refl,
  ),
)

tail-Fits :
    (srv mx : Bool) (r : Row) (p : Select) (ps : List Select)
    → r.service ≡ p ∷ ps
    → Fits srv mx (change_tail srv mx r) × KeepsFields r (change_tail srv mx r)
tail-Fits true mx r p ps h =
    subst
      (λ ss.
        Fits true mx (change_tail true mx (record r { service = ss }))
        × KeepsFields (record r { service = ss }) (change_tail true mx (record r { service = ss })))
      (sym h) (shown_tail mx r p ps)
tail-Fits false mx r p ps h = hidden_tail mx r

change-Fits :
    (t : String) (r : Row) (p : Select) (ps : List Select)
    → r.service ≡ p ∷ ps
    → Fits (str_eq t "SRV") (str_eq t "MX") (change_dns_record t r)
      × KeepsFields r (change_dns_record t r)
unfolding change_dns_record change_head KeepsFields
change-Fits t r p ps h = tail-Fits (str_eq t "SRV") (str_eq t "MX") (change_head t r) p ps h

-- The list of services stays on the page.
service_there :
    (a b : List Select) (p : Select)
    → list_names b ≡ list_names (p ∷ a)
    → (q : Select) × (qs : List Select) × (b ≡ q ∷ qs)
service_there a [] p h = absurd (ground (arith, h))
service_there a (q ∷ qs) p h = (q, qs, refl)

change_all-KeepsFields :
    (ts : List String) (r : Row) (p : Select) (ps : List Select)
    → r.service ≡ p ∷ ps
    → KeepsFields r (change_all ts r)
unfolding change_all KeepsFields
change_all-KeepsFields [] r p ps h = (refl, refl, refl, refl, refl)
change_all-KeepsFields (t ∷ ts) r p ps h =
    let kept = (change-Fits t r p ps h).1 in
    let (q, qs, e) =
      service_there ps (change_dns_record t r).service p (kept.3 ∙ ap list_names h) in
    KeepsFields-trans r (change_dns_record t r) (change_all ts (change_dns_record t r)) kept
      (change_all-KeepsFields ts (change_dns_record t r) q qs e)

-- Where the list of services is on the page, any sequence of changes of the type keeps the fields
-- of an SRV record, makes none and asks for none, and after it what is shown depends on the last
-- type alone: these fields are all shown for SRV and all hidden for any other type, and those for
-- the priority are all shown for SRV and MX and all hidden for any other type.
pub change_all-Fits :
    (ts : List String) (t : String) (r : Row) (p : Select) (ps : List Select)
    → r.service ≡ p ∷ ps
    → Fits (str_eq t "SRV") (str_eq t "MX") (change_dns_record t (change_all ts r))
      × KeepsFields r (change_dns_record t (change_all ts r))
unfolding KeepsFields
change_all-Fits ts t r p ps h =
    let first = change_all-KeepsFields ts r p ps h in
    let (q, qs, e) = service_there ps (change_all ts r).service p (first.3 ∙ ap list_names h) in
    let (fits, kept) = change-Fits t (change_all ts r) q qs e in
    (fits, KeepsFields-trans r (change_all ts r) (change_dns_record t (change_all ts r)) first kept)
