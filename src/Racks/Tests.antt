-- ===== src/Racks/Tests.antt =====
-- The theorem on the racks of a site at a concrete page, and answers out of order.
use jazzhands.Prelude.{◌≡◌, refl, Bool, String, Option, none, some, [], ◌∷◌, false, ◌<>◌}
use jazzhands.Racks.Sites.{
  RackList, SitePage, rack_url, chosen, answered, on_sites, on_site, site_to_rack, rack_answered,
  remove_at,
}
use jazzhands.Racks.Server.{site_racks, or_empty, is_plain}
use jazzhands.Racks.Reader.{read_field, read_field-ReadsFields}
use jazzhands.Racks.Latest.{right_list, on_sites-UpToDate}

-- The racks of a site and a location, as a text.
abbrev racks : Bool → Option String → Option String → String
racks dev site locid = or_empty site <> "/" <> or_empty locid

abbrev at_site : SitePage
at_site = record {
  site = "DC1";
  racks = record { content = "DC1/7"; original = some "16" };
  under_way = [];
  tracked = false;
}

two_choices-answered :
    (on_sites "dev"
      (some "7")
      (site_racks read_field racks)
      (chosen "DC2" ∷ chosen "DC3" ∷ answered 0 ∷ answered 0 ∷ [])
      at_site).under_way
    ≡ []
unfolding on_sites on_site site_to_rack rack_answered remove_at
two_choices-answered = refl

on_sites-UpToDate_example :
    (on_sites "dev"
      (some "7")
      (site_racks read_field racks)
      (chosen "DC2" ∷ chosen "DC3" ∷ answered 0 ∷ answered 0 ∷ [])
      at_site).racks
    ≡ right_list racks
        (some "7")
        "16"
        (on_sites "dev"
          (some "7")
          (site_racks read_field racks)
          (chosen "DC2" ∷ chosen "DC3" ∷ answered 0 ∷ answered 0 ∷ [])
          at_site).site
unfolding is_plain
on_sites-UpToDate_example =
    on_sites-UpToDate read_field racks (some "7") "16" "DC2"
      (chosen "DC3" ∷ answered 0 ∷ answered 0 ∷ []) at_site read_field-ReadsFields refl refl refl
      refl refl two_choices-answered

abbrev echo : String → RackList
echo a = record { content = a; original = some "16" }

-- Where the second answer comes first, the racks of the earlier site stay in the list.
earlier_site_stays :
    (on_sites "dev" none echo
      (chosen "DC2" ∷ chosen "DC3" ∷ answered 1 ∷ answered 0 ∷ [])
      at_site).racks.content
    ≡ rack_url "dev" none "DC2" (some "16")
unfolding on_sites on_site site_to_rack rack_answered remove_at
earlier_site_stays = refl
