-- ===== src/Submission.antt =====
-- The checks before a form is submitted: `verify_device_submission` of
-- management/stab/web/src/web/javascript/device-utils.js and `verify_rack_submission` of racks.js
-- in the same folder.
pub mod Names
pub mod Device
pub mod Confirm
pub mod Stale
pub mod Rack
pub mod RackAsk
mod Tests
