-- ===== src/Rows.antt =====
-- Rows that the user adds to a table and takes away again: `add_new_dns_row` of
-- management/stab/web/src/web/javascript/dns-utils.js, `add_dns_ref_record_row` and the link
-- `purgerow` of dns-common.js, `add_account` of account-collection.js, and `add_License` of
-- device-utils.js.
pub mod Table
pub mod Fresh
pub mod Striped
pub mod Licenses
pub mod LicenseIds
mod Tests
mod LicenseTests
