-- ===== src/Tabs.antt =====
-- The tabs of the page of a device: `ShowDevTab` and `forcedevtabload` of
-- management/stab/web/src/web/javascript/device-utils.js.
pub mod Page
pub mod Spec
pub mod Refinement
pub mod Loading
mod Tests
