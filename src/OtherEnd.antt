-- ===== src/OtherEnd.antt =====
-- The search for the device at the other end of a port in
-- management/stab/web/src/web/javascript/ajaxsearch.js: `showOtherEndDeviceSearchPopup`,
-- `hidePopup`, `delayedGetMatchingDevices`, `getMatchingDevices`,
-- `updateOtherEndDeviceSearchPopup` and `updateOtherEnd`, as steps on the fields of a page, the
-- timer and the requests under way.
pub mod State
pub mod Actions
pub mod Popups
pub mod Retype
mod Tests
