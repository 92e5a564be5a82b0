-- ===== src/Panels.antt =====
-- Panels of which one is shown: the tabs of stab-common.js, `enable_stab_tabs`, the popups of
-- table-manip.js, and `showhide` of device-utils.js, in
-- management/stab/web/src/web/javascript.
pub mod StabTabs
pub mod Hover
pub mod ShowHide
pub mod PartWay
pub mod OneShown
mod Tests
