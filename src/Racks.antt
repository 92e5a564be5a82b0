-- ===== src/Racks.antt =====
-- The racks of a site, `site_to_rack` of management/stab/web/src/web/javascript/racks.js, with the
-- answers to its requests by management/stab/web/src/web/device/device-ajax.pl.
pub mod Sites
pub mod Server
pub mod Latest
mod Reader
mod Tests
