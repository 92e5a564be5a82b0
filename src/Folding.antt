-- ===== src/Folding.antt =====
-- What a click shows and hides: the arrows of management/stab/web/src/web/javascript/
-- stab-common.js, the rows for kids of ports and circuits in device-utils.js, and the tree of
-- applications in app-utils.js.
pub mod Arrow
pub mod Kids
pub mod KidSpec
pub mod AppTree
pub mod Balance
pub mod Clicks
pub mod Broken
pub mod Grandchildren
mod Tests
