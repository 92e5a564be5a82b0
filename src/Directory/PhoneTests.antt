-- ===== src/Directory/PhoneTests.antt =====
-- The theorem on the form for a telephone at a concrete contact.
use jazzhands.Prelude.{◌≡◌, some, none, [], ◌∷◌}
use jazzhands.Directory.Phones.{
  Contact, manip_phone, to_phone, to_extension, to_pin, visit_form, read_form,
}
use jazzhands.Directory.Typed.{meant, type_all, texts_of, visited_form-read}

abbrev office : Contact
office = record { phone_number = "555 0100"; phone_extension = none; phone_pin = some "12" }

visited_form-read_example :
    read_form (
      visit_form
        (to_extension (some "7") ∷ to_phone none ∷ to_pin (some "") ∷ [])
        (manip_phone (some office)))
    ≡ meant (
        type_all
          (to_extension (some "7") ∷ to_phone none ∷ to_pin (some "") ∷ [])
          (texts_of (some office)))
visited_form-read_example =
    visited_form-read (some office)
      (to_extension (some "7") ∷ to_phone none ∷ to_pin (some "") ∷ [])
