-- ===== src/Paging/Tests.antt =====
-- The paging theorems at concrete containers.
use jazzhands.Prelude.{◌+◌, ◌*◌, ◌≤◌, ◌≢◌, ◌≡◌, refl, true, false, some, [], ◌∷◌, arith, ◌==◌}
use jazzhands.Paging.Container.{
  Container, Mismatches, build_paging, current_page, current_offset, ceil_div,
}
use jazzhands.Paging.Pages.{page_records, LeadsRight, button_targets}

-- The third page of 45 records, 20 to a page.
abbrev third : Container
third = record { count = 45; limit = 20; page = 1; offset = some 41; has_cross_universe = true }

third_last : (build_paging third).1.last ≡ 45
unfolding build_paging current_page current_offset
third_last = refl

third_offset : third.offset ≡ some (2 * third.limit + 1)
third_offset = refl

page_records_example :
    ((build_paging third).0.page ≡ 3)
    × ((build_paging third).1.page_input ≡ 3)
    × ((build_paging third).1.first ≡ 41)
    × ((build_paging third).1.last ≡ 45)
    × ((build_paging third).1.next_button.off ≡ ((build_paging third).1.last == 45))
    × ((build_paging third).1.last_button.off ≡ ((build_paging third).1.last == 45))
page_records_example = page_records third 2 (omega arith) third_offset (omega arith)

third_page : 1 ≤ current_page third
unfolding current_page
third_page = omega arith

third_within : current_page third ≤ ceil_div third.count third.limit
unfolding current_page
third_within = omega arith

button_targets_example :
    LeadsRight (build_paging third) (build_paging third).1.first_button
    × LeadsRight (build_paging third) (build_paging third).1.previous_button
    × LeadsRight (build_paging third) (build_paging third).1.next_button
    × LeadsRight (build_paging third) (build_paging third).1.last_button
button_targets_example = button_targets third third_page third_within

abbrev mixed : Mismatches
mixed = record { rows = true ∷ false ∷ []; says_hide = true }

mixed_rows : mixed.rows ≢ []
mixed_rows e = cc
