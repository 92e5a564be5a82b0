-- ===== src/Dns/Domains.antt =====
-- The lists of domains in dns-common.js: `get_dns_domains`, `popuplate_dns_domain_dropdown` and its
-- delayed part.
use jazzhands.Prelude.{
  ℕ, zero, suc, Bool, true, String, Option, none, some, List, [], ◌∷◌, ◌++◌, map, includes,
  get_elem?, modify, if◌then◌else◌,
}

-- A list with the values and texts of its options, and its attribute `populated`.
pub record DomainList : Type 0 where
  pub options : List (String × String)
  pub populated : Bool

-- `loaded` tells that `jDnsDomains` is set, `requests` counts the requests under way, `waiting`
-- are the lists whose timer runs.
pub record DomainPage : Type 0 where
  pub lists : List DomainList
  pub loaded : Bool
  pub requests : ℕ
  pub waiting : List ℕ

-- `get_dns_domains`
unfoldable pub get_dns_domains : DomainPage → DomainPage
get_dns_domains p = if p.loaded then p else record p { requests = suc p.requests }

abbrev pub values_of : List (String × String) → List String
values_of options = map (λ o. o.0) options

-- The loop on the domains, with the values that are there.
unfoldable pub missing_options : List String → List (String × String) → List (String × String)
missing_options existing [] = []
missing_options existing (o ∷ os) =
    let skipped = missing_options existing os in
    let added = missing_options (existing ++ o.0 ∷ []) os in
    if includes o.0 existing then skipped else o ∷ added

unfoldable pub populate : List (String × String) → DomainList → DomainList
unfolding missing_options
populate offered d = record {
  options = d.options ++ missing_options (values_of d.options) offered;
  populated = true;
}

pub data Event : Type 0 where
  activated : ℕ → Event
  timer_fired : ℕ → Event
  answered : Event

unfoldable pub drop_at : ℕ → List ℕ → List ℕ
drop_at n [] = []
drop_at zero (i ∷ is) = is
drop_at (suc n) (i ∷ is) = i ∷ drop_at n is

-- The lists get the domains that are offered, if they are there.
abbrev pub when_offered : ℕ → Option (List (String × String)) → DomainPage → DomainPage
when_offered i none p = record p { waiting = p.waiting ++ i ∷ [] }
when_offered i (some os) p =
    if p.loaded
    then record p { lists = modify (populate os) i p.lists }
    else record p { waiting = p.waiting ++ i ∷ [] }

abbrev pub take_answer : ℕ → DomainPage → DomainPage
take_answer zero p = p
take_answer (suc n) p = record p { loaded = true; requests = n }

-- `offered` are the domains of the server's answer, none where it has no `domains` or no `options`.
module _ (offered : Option (List (String × String))) where
  -- `popuplate_dns_domain_dropdown_delayed`
  unfoldable pub populate_delayed : ℕ → DomainPage → DomainPage
  unfolding populate
  populate_delayed i p = when_offered i offered p

  abbrev pub when_list : ℕ → Option DomainList → DomainPage → DomainPage
  when_list i none p = p
  when_list i (some d) p = if d.populated then p else populate_delayed i (get_dns_domains p)

  -- `popuplate_dns_domain_dropdown`, on `mousedown` and on `focus`.
  unfoldable pub populate_dropdown : ℕ → DomainPage → DomainPage
  unfolding populate_delayed get_dns_domains
  populate_dropdown i p = when_list i (get_elem? p.lists i) p

  abbrev pub fire : ℕ → Option ℕ → DomainPage → DomainPage
  fire n none p = p
  fire n (some i) p = populate_delayed i (record p { waiting = drop_at n p.waiting })

  unfoldable pub handle_event : Event → DomainPage → DomainPage
  unfolding populate_dropdown populate_delayed drop_at
  handle_event (activated i) p = populate_dropdown i p
  handle_event (timer_fired n) p = fire n (get_elem? p.waiting n) p
  handle_event answered p = take_answer p.requests p

  unfoldable pub run_events : List Event → DomainPage → DomainPage
  unfolding handle_event
  run_events [] p = p
  run_events (e ∷ es) p = run_events es (handle_event e p)
