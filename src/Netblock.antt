-- ===== src/Netblock.antt =====
-- The form for a new netblock, `submitAddNetblock`, and the branches of the tree of netblocks,
-- which are expanded and collapsed, in management/stab/web/src/web/javascript/netblock.js.
pub mod Form
pub mod Bits
pub mod Tree
mod Tests
