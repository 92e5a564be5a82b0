-- ===== src/Rows/LicenseTests.antt =====
-- The theorem on licences at a concrete table, and two clicks before an answer.
use jazzhands.Prelude.{◌≡◌, refl, [], ◌∷◌, show}
use jazzhands.Rows.Table.{free_offset}
use jazzhands.Rows.Licenses.{
  Licenses, added, removed, add_license, free_license, drop_ids, on_licenses,
}
use jazzhands.Rows.LicenseIds.{HasDistinctLists, on_licenses-HasDistinctLists}

abbrev no_licenses : Licenses
no_licenses = record { rows = []; next = 0; under_way = [] }

no_licenses-HasDistinctLists : HasDistinctLists no_licenses
unfolding HasDistinctLists drop_ids
no_licenses-HasDistinctLists = (refl, refl, refl, refl)

on_licenses-HasDistinctLists_example :
    HasDistinctLists (on_licenses "4" (added ∷ added ∷ removed 0 ∷ added ∷ []) no_licenses)
on_licenses-HasDistinctLists_example =
    on_licenses-HasDistinctLists "4" (added ∷ added ∷ removed 0 ∷ added ∷ []) no_licenses
      no_licenses-HasDistinctLists

-- Two clicks before an answer ask for lists with the same identifier.
asked_twice :
    (add_license "4" (add_license "4" no_licenses)).under_way
    ≡ (0, "add_license_4_0") ∷ (1, "add_license_4_0") ∷ []
unfolding add_license free_license free_offset drop_ids show
asked_twice = refl
