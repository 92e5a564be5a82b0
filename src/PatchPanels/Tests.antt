-- ===== src/PatchPanels/Tests.antt =====
-- The theorems on patch panels at a concrete panel.
use jazzhands.Prelude.{◌≡◌, refl, true, none, some, [], ◌∷◌, if◌then◌else◌, arith, ℕ}
use jazzhands.PatchPanels.Popup.{
  asked, ports, dropped, closed, answered, AskedOnce, run_events, run_events-AskedOnce, Page,
}
use jazzhands.PatchPanels.Rows.{
  RowId, Table, Request, Answer, field_with, add_rows, append_row, request_of, answer_row,
  answer_row,
}
use jazzhands.PatchPanels.Numbered.{IsServer, IsNumbered, add_rows-IsNumbered, Numbered, field_of}
use jazzhands.PatchPanels.Overlap.{IsStuck, twice-IsStuck, rows_of}

abbrev no_popups : Page
no_popups = record { popups = []; sent = [] }

no_popups-AskedOnce : AskedOnce no_popups
unfolding AskedOnce asked ports
no_popups-AskedOnce = (refl, refl)

run_events-AskedOnce_example :
    AskedOnce
      (run_events "4" (dropped "7" ∷ dropped "8" ∷ answered "8" "<p>" ∷ closed "8" ∷ []) no_popups)
run_events-AskedOnce_example =
    run_events-AskedOnce "4" (dropped "7" ∷ dropped "8" ∷ answered "8" "<p>" ∷ closed "8" ∷ [])
      no_popups no_popups-AskedOnce

abbrev at_row : ℕ → RowId
at_row n = record { stem = "PhysPath_7"; number = n }

abbrev panel : Table
panel = record {
  rows =
      record { object = 0; id = some (at_row 0); field = none }
      ∷ record { object = 1; id = some (at_row 1); field = some (field_with (at_row 1)) }
      ∷ [];
  next = 2;
}

abbrev served : ℕ → Answer
served n = record { id = at_row n; field = some (field_with (at_row n)) }

served-IsServer : IsServer "PhysPath_7" served
unfolding IsServer
served-IsServer n = (refl, refl)

panel-IsNumbered : IsNumbered "PhysPath_7" panel
unfolding IsNumbered Numbered field_of
panel-IsNumbered = (refl, refl, omega arith, (refl, refl, omega arith, tt))

add_rows-IsNumbered_example :
    (after : Table) × (add_rows served (0 ∷ 1 ∷ 5 ∷ []) (some panel) ≡ some after)
    × IsNumbered "PhysPath_7" after
add_rows-IsNumbered_example =
    add_rows-IsNumbered "PhysPath_7" served (0 ∷ 1 ∷ 5 ∷ []) panel served-IsServer panel-IsNumbered

twice-IsStuck_example :
    (q : Request) × (r : Request) × (q
      ≡ (if true then request_of 0 (append_row 0 panel) else request_of 0 panel))
    × (r ≡ (if true then request_of 0 panel else request_of 0 (append_row 0 panel)))
    × IsStuck 0 q (served 1) (append_row 0 (append_row 0 panel)).rows
    × IsStuck 0 r
        (served 1)
        (rows_of (answer_row q (served 1) (append_row 0 (append_row 0 panel)).rows))
twice-IsStuck_example = twice-IsStuck 0 panel (served 1) (served 1) true (omega arith)
