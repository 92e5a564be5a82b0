-- ===== src/PatchPanels.antt =====
-- Patch panels in management/stab/web/src/web/javascript/device-utils.js: the popup of a port,
-- `PatchPanelDrop` and `close_patchpanel`, and the rows of its path, `AppendPatchPanelRow`.
pub mod Popup
pub mod Rows
pub mod Numbered
pub mod Overlap
mod Tests
