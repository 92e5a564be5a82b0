-- ===== src/Directory.antt =====
-- The employee directory, management/directory/drops.js: the search (`process_search`), the uses
-- of the pictures of a person (`pic_manip`, `enforce_select_is_multivalue`), and the inputs of the
-- form for a telephone (`manip_phone`) with what ajax/manip_number.pl reads from them.
pub mod Search
pub mod Calm
pub mod Phones
pub mod Typed
pub mod Usages
pub mod Single
pub mod Once
mod Tests
mod PhoneTests
