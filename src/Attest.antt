-- ===== src/Attest.antt =====
-- The page on which accounts are approved, management/stab/web/src/web/javascript/attest.js; its
-- elements are those that management/stab/web/src/web/approve/index.pl writes.
pub mod Page
pub mod Consistency
pub mod Complete
mod Tests
