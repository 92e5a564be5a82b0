-- ===== src/Dns.antt =====
-- The fields of a DNS record in management/stab/web/src/web/javascript/dns-utils.js: `QsToObj`,
-- `build_dns_drop` and `change_dns_record` with the answers that it waits for; and the lists of
-- domains of dns-common.js.
pub mod Drop
pub mod References
pub mod Editable
pub mod Defaults
pub mod Record
pub mod Relevant
pub mod Domains
pub mod Populated
mod Tests
mod DomainTests
mod ReferenceTests
