-- ===== src/SearchPopup.antt =====
-- The popup that completes a device's name in management/stab/web/src/web/javascript/ajaxsearch.js:
-- `keyprocess_Search`, `inputEvent_Search`, `create_search_popup`, `changePopup_Search`,
-- `updatePopUpSearchPage`, `hidePopup_Search`, `checkSelectKeypress_Search`,
-- `processSearchBox_Breakdown` and `closeAndFillIn_Search`, as steps on the fields of a page.
pub mod State
pub mod Close
pub mod Events
pub mod Answers
pub mod Source
pub mod Keeps
pub mod Steps
pub mod Newest
mod Tests
