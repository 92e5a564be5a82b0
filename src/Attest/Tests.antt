-- ===== src/Attest/Tests.antt =====
-- The theorems on the page of approvals at a concrete page.
use jazzhands.Prelude.{◌≡◌, refl, true, false, none, some, List, [], ◌∷◌, map, all, modify}
use jazzhands.Attest.Page.{
  Row, clear_values, attest_toggle, approve_all, focus_hint, blur_correction, is_missing,
  lacks_correction, mark_correction, check_corrections, check_approvals, submit_attest, Event,
  toggled, all_approved, focused, blurred, filled, submitted, handle_event, run_events,
}
use jazzhands.Attest.Complete.{
  is_complete, marked, submit-is_complete, is_answered, submitted-is_answered,
}

abbrev row : Row
row = record {
  approval =
      some (record { value = "approve"; approve_on = false; disapprove_on = false; error = false });
  correction = some (record {
    is_select = false;
    value = "enter correction";
    hint = true;
    preserved_hint = none;
    disabled = false;
    hidden = true;
    error = false;
  });
}

abbrev page : List (List Row)
page = clear_values ((row ∷ row ∷ []) ∷ [])

abbrev events : List Event
events =
    all_approved 0
    ∷ toggled 0 1 false
    ∷ submitted
    ∷ focused 0 1
    ∷ blurred 0 1
    ∷ focused 0 1
    ∷ filled 0 1 "Operations"
    ∷ blurred 0 1
    ∷ []

submit-is_complete_example :
    ((submit_attest page).0 ≡ all (all is_complete) page)
    × ((submit_attest page).1 ≡ map (map marked) page)
submit-is_complete_example = submit-is_complete page

submitted-is_answered_example : all (all is_answered) (run_events events page) ≡ true
unfolding clear_values run_events handle_event attest_toggle approve_all focus_hint blur_correction
    submit_attest check_corrections check_approvals lacks_correction mark_correction is_missing
    modify
submitted-is_answered_example = submitted-is_answered events page refl refl

blocked : (submit_attest page).0 ≡ false
unfolding clear_values submit_attest check_corrections check_approvals lacks_correction
    mark_correction is_missing
blocked = refl
