-- ===== src/FormTracking.antt =====
-- management/stab/web/src/web/javascript/form-tracking.js: which form elements are changed, what is
-- submitted of them, and the reset of forms; and `hasPendingChanges` of paging.js.
pub mod Elements
pub mod Status
pub mod Pass
pub mod Submit
pub mod Reset
pub mod Tests
