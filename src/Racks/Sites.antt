-- ===== src/Racks/Sites.antt =====
-- The list of the racks of a site and the requests for it.
use jazzhands.Prelude.{
  ℕ, zero, suc, Bool, true, String, Option, none, some, List, [], ◌∷◌, ◌++◌, if◌then◌else◌, ◌<>◌,
  str_eq, get_elem?,
}

-- The list that the element for racks holds, with its attribute `original`.
pub record RackList : Type 0 where
  pub content : String
  pub original : Option String

-- The site in the box, the list, the addresses that were asked for and have no answer yet, and
-- whether the status of the list was updated since it came.
pub record SitePage : Type 0 where
  pub site : String
  pub racks : RackList
  pub under_way : List String
  pub tracked : Bool

abbrev null_text : Option String → String
null_text none = "null"
null_text (some s) = s

abbrev location_part : Option String → String
location_part none = ""
location_part (some s) = ";RACK_LOCATION_ID=" <> s

-- The address of a request, for the place that the function is called from, a site, a location and
-- the original value.
unfoldable pub rack_url : String → Option String → String → Option String → String
rack_url place locid site original =
    (if str_eq place "dev"
      then "device-ajax.pl?what=SiteRacks;type=" <> place
      else "../../device/device-ajax.pl?what=SiteRacks")
    <> ";SITE_CODE="
    <> site
    <> location_part locid
    <> ";ORIGINAL="
    <> null_text original

-- `site_to_rack`
unfoldable pub site_to_rack : String → Option String → SitePage → SitePage
unfolding rack_url
site_to_rack place locid page = record page {
  under_way = page.under_way ++ (rack_url place locid page.site page.racks.original ∷ []);
}

unfoldable pub remove_at : ℕ → List String → List String
remove_at n [] = []
remove_at zero (a ∷ rest) = rest
remove_at (suc n) (a ∷ rest) = a ∷ remove_at n rest

unfoldable pub rack_answered : (String → RackList) → Option String → ℕ → SitePage → SitePage
unfolding remove_at
rack_answered server none n page = page
rack_answered server (some a) n page = record page {
  racks = server a;
  under_way = remove_at n page.under_way;
  tracked = true;
}

-- A site is chosen in the box, or the answer to a request comes, the requests counted from the one
-- that was sent first.
pub data Event : Type 0 where
  chosen : String → Event
  answered : ℕ → Event

unfoldable pub on_site : String → Option String → (String → RackList) → Event → SitePage → SitePage
unfolding site_to_rack rack_answered
on_site place locid server (chosen s) page = site_to_rack place locid (record page { site = s })
on_site place locid server (answered n) page =
    rack_answered server (get_elem? page.under_way n) n page

unfoldable pub on_sites :
    String → Option String → (String → RackList) → List Event → SitePage → SitePage
unfolding on_site
on_sites place locid server [] page = page
on_sites place locid server (e ∷ es) page =
    on_sites place locid server es (on_site place locid server e page)
