-- ===== src/Racks/Latest.antt =====
-- Where the answers come in order, the list is that of the site that was chosen last.
use jazzhands.Prelude.{
  zero, suc, ◌≡◌, refl, ap, map, eq_iff, Bool-cases, inl, inr, ◌<>◌, join, ◌∙◌, sym, subst, Bool,
  true, ◌&&◌, not, ◌||◌, String, str_eq, Option, none, some, List, [], ◌∷◌, ◌++◌, ◌==◌, arith,
  get_elem?, all,
}
use jazzhands.Racks.Sites.{
  RackList, SitePage, rack_url, site_to_rack, remove_at, rack_answered, Event, chosen, answered,
  on_site, on_sites,
}
use jazzhands.Racks.Server.{
  or_undef, is_dev, or_empty, site_racks, is_plain, is_plain_field, field_text, field, known,
  ReadsFields,
}

-- The answers come in the order of the requests, and the sites are plain.
abbrev pub is_in_order : Event → Bool
is_in_order (chosen s) = is_plain s
is_in_order (answered n) = n == 0

-- The text of an identifier that the server does not take for a missing one.
abbrev pub is_given : String → Bool
is_given s = is_plain s && not (str_eq s "0" || str_eq s "__unknown__")

abbrev pub is_plain_option : Option String → Bool
is_plain_option none = true
is_plain_option (some s) = is_plain s

-- The list with the racks of a site and a location, and with the original value.
pub right_list :
    (Bool → Option String → Option String → String) → Option String → String → String → RackList
right_list racks locid o site = record {
  content = racks true (or_undef (known (some site))) (or_undef (known locid));
  original = some o;
}

-- The list after all the answers that are missing have come, in the order of the requests.
unfoldable pub latest : (String → RackList) → RackList → List String → RackList
latest server r [] = r
latest server r (a ∷ rest) = latest server (server a) rest

-- Each list that is still to come has the original value.
unfoldable pub AllKeep : (String → RackList) → String → List String → Type 0
AllKeep server o [] = Unit {0}
AllKeep server o (a ∷ rest) = ((server a).original ≡ some o) × AllKeep server o rest

-- The list has the original value, and so has each that is still to come; the one that comes last
-- is that of the site in the box.
unfoldable pub UpToDate : (String → RackList) → (String → RackList) → String → SitePage → Type 0
UpToDate server right o page =
    (page.racks.original ≡ some o)
    × AllKeep server o page.under_way
    × (latest server page.racks page.under_way ≡ right page.site)

latest-append :
    (server : String → RackList) (r : RackList) (us : List String) (a : String)
    → latest server r (us ++ (a ∷ [])) ≡ server a
unfolding latest
latest-append server r [] a = refl
latest-append server r (u ∷ us) a = latest-append server (server u) us a

append-AllKeep :
    (server : String → RackList) (o : String) (us : List String) (a : String)
    → AllKeep server o us
    → (server a).original ≡ some o
    → AllKeep server o (us ++ (a ∷ []))
unfolding AllKeep
append-AllKeep server o [] a h k = (k, tt)
append-AllKeep server o (u ∷ us) a (e, h) k = (e, append-AllKeep server o us a h k)

given_back : (o : String) → is_given o ≡ true → or_empty (or_undef (known (some o))) ≡ o
unfolding or_undef known
given_back o h = elim (Bool-cases (str_eq o "")) [
  | inl e ↦ rw e (sym ((eq_iff o "").0 e))
  | inr e ↦ ground (arith, e, h)
]

module _ (param : String → String → Option String)
    (racks : Bool → Option String → Option String → String) (o : String) (reads : ReadsFields param)
    (g : is_given o ≡ true) where
  fields_right :
      (a : String) (locid : Option String) (site : String)
      → param "type" a ≡ some "dev"
      → param "SITE_CODE" a ≡ known (some site)
      → param "RACK_LOCATION_ID" a ≡ known locid
      → param "ORIGINAL" a ≡ known (some o)
      → site_racks param racks a ≡ right_list racks locid o site
  unfolding site_racks right_list or_undef is_dev
  fields_right a locid site t s l k = rw (t, s, l, k) (rw (given_back o g) refl)

  read_address :
      (n : String) (f : String × String) (fs : List (String × String))
      → all is_plain_field (f ∷ fs) ≡ true
      → param n ("device-ajax.pl" <> "?" <> join ";" (map field_text (f ∷ fs)))
        ≡ known (field n (f ∷ fs))
  unfolding is_plain ReadsFields
  read_address n f fs h = reads "device-ajax.pl" n f fs refl h

  fields : Option String → String → List (String × String)
  fields none site = ("type", "dev") ∷ ("SITE_CODE", site) ∷ ("ORIGINAL", o) ∷ []
  fields (some l) site =
      ("type", "dev") ∷ ("SITE_CODE", site) ∷ ("RACK_LOCATION_ID", l) ∷ ("ORIGINAL", o) ∷ []

  fields-plain :
      (locid : Option String) (site : String)
      → is_plain_option locid ≡ true
      → is_plain site ≡ true
      → all is_plain_field (("what", "SiteRacks") ∷ fields locid site) ≡ true
  unfolding fields is_plain
  fields-plain none site l s = ground (arith, g, s)
  fields-plain (some t) site l s = ground (arith, g, s, l)

  -- The server answers an address with the racks of its site.
  site_racks-right :
      (locid : Option String) (site : String)
      → is_plain_option locid ≡ true
      → is_plain site ≡ true
      → site_racks param racks (rack_url "dev" locid site (some o)) ≡ right_list racks locid o site
  unfolding rack_url fields field known join
  site_racks-right none site l s =
      let read = λ (n : String).
        read_address n ("what", "SiteRacks") (fields none site) (fields-plain none site l s) in
      fields_right (rack_url "dev" none site (some o)) none site (read "type") (read "SITE_CODE")
        (read "RACK_LOCATION_ID") (read "ORIGINAL")
  site_racks-right (some t) site l s =
      let read = λ (n : String).
        read_address n ("what", "SiteRacks") (fields (some t) site)
          (fields-plain (some t) site l s) in
      fields_right (rack_url "dev" (some t) site (some o)) (some t) site (read "type")
        (read "SITE_CODE") (read "RACK_LOCATION_ID") (read "ORIGINAL")

module _ (server right : String → RackList) (locid : Option String) (o : String)
    (answers : (site : String)
      → is_plain site ≡ true
      → server (rack_url "dev" locid site (some o)) ≡ right site)
    (keeps : (site : String) → (right site).original ≡ some o) where
  answered-UpToDate :
      (site : String) (tracked : Bool) (r : RackList) (us : List String)
      → (r.original ≡ some o) × AllKeep server o us × (latest server r us ≡ right site)
      → UpToDate server right o (
          rack_answered server
            (get_elem? us 0)
            0
            (record { site = site; racks = r; under_way = us; tracked = tracked }))
  unfolding UpToDate AllKeep latest rack_answered remove_at
  answered-UpToDate site tracked r [] h = h
  answered-UpToDate site tracked r (u ∷ us) (e, (a, h), l) = (a, h, l)

  choice-UpToDate :
      (s : String) (page : SitePage)
      → is_plain s ≡ true
      → page.racks.original ≡ some o
      → AllKeep server o page.under_way
      → UpToDate server right o (on_site "dev" locid server (chosen s) page)
  unfolding UpToDate on_site site_to_rack
  choice-UpToDate s page c e h =
      let a : String = rack_url "dev" locid s page.racks.original in
      let asked : server a ≡ right s =
        ap (λ x. server (rack_url "dev" locid s x)) e ∙ answers s c in
      (
        e,
        append-AllKeep server o page.under_way a h (ap (λ x. x.original) asked ∙ keeps s),
        latest-append server page.racks page.under_way a ∙ asked,
      )

  event-UpToDate :
      (e : Event) (page : SitePage)
      → is_in_order e ≡ true
      → UpToDate server right o page
      → UpToDate server right o (on_site "dev" locid server e page)
  unfolding UpToDate on_site
  event-UpToDate (chosen s) page c (e, h, l) = choice-UpToDate s page c e h
  event-UpToDate (answered zero) page c h =
      answered-UpToDate page.site page.tracked page.racks page.under_way h
  event-UpToDate (answered (suc n)) page c h = absurd (ground (arith, c))

  events-UpToDate :
      (es : List Event) (page : SitePage)
      → all is_in_order es ≡ true
      → UpToDate server right o page
      → UpToDate server right o (on_sites "dev" locid server es page)
  unfolding on_sites
  events-UpToDate [] page c h = h
  events-UpToDate (e ∷ es) page c h =
      events-UpToDate es (on_site "dev" locid server e page) (ground (arith, c))
        (event-UpToDate e page (ground (arith, c)) h)

no_answer_missing :
    (server right : String → RackList) (o : String) (page : SitePage)
    → UpToDate server right o page
    → page.under_way ≡ []
    → page.racks ≡ right page.site
unfolding UpToDate latest
no_answer_missing server right o page (e, h, l) u =
    subst (λ us. latest server page.racks us ≡ right page.site) u l

-- On the page of a device, where the list of racks has an original value and no answer is missing,
-- the choice of a site and then any sequence of choices and of answers in the order of the
-- requests, after which no answer is missing, leads to the list of the racks of the site that is
-- then in the box and of the location, with the same original value. The sites, the location and
-- the original value are texts that an address has as they are, the original value is not one that
-- the server takes for a missing one, and the fields of an address are read.
pub on_sites-UpToDate :
    (param : String → String → Option String)
    (racks : Bool → Option String → Option String → String) (locid : Option String) (o s : String)
    (es : List Event) (page : SitePage)
    → ReadsFields param
    → is_plain_option locid ≡ true
    → is_given o ≡ true
    → all is_in_order (chosen s ∷ es) ≡ true
    → page.racks.original ≡ some o
    → page.under_way ≡ []
    → (on_sites "dev" locid (site_racks param racks) (chosen s ∷ es) page).under_way ≡ []
    → (on_sites "dev" locid (site_racks param racks) (chosen s ∷ es) page).racks
      ≡ right_list racks locid o
          (on_sites "dev" locid (site_racks param racks) (chosen s ∷ es) page).site
unfolding AllKeep right_list on_sites
on_sites-UpToDate param racks locid o s es page reads l g c r u n =
    let server : String → RackList = site_racks param racks in
    let right : String → RackList = right_list racks locid o in
    let answers : (site : String)
        → is_plain site ≡ true
        → server (rack_url "dev" locid site (some o)) ≡ right site =
      λ site p. site_racks-right param racks o reads g locid site l p in
    let next : SitePage = on_site "dev" locid server (chosen s) page in
    let first : UpToDate server right o next =
      choice-UpToDate server right locid o answers (λ site. refl) s page (ground (arith, c)) r
        (subst (λ us. AllKeep server o us) (sym u) tt) in
    no_answer_missing server right o (on_sites "dev" locid server es next)
      (events-UpToDate server right locid o answers (λ site. refl) es next (ground (arith, c))
        first)
      n
