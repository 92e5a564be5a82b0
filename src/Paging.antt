-- ===== src/Paging.antt =====
-- The paging controls of management/stab/web/src/web/javascript/paging.js: `buildPagingContainer`
-- with the handlers of its buttons, and `changePage` with the address that it goes to.
pub mod Container
pub mod Pages
pub mod Address
pub mod Readdress
mod Tests
mod AddressTests
