-- ===== src/Collections.antt =====
-- The pages of netblock collections, management/stab/web/src/web/javascript/netblock-collection.js:
-- the rows for new members, which are filled again after an update that failed, and the lists of
-- collections of a type.
pub mod Params
pub mod Members
pub mod Drop
pub mod Restore
mod Tests
