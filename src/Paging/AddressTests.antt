-- ===== src/Paging/AddressTests.antt =====
-- The theorem on the address of a page at a concrete address.
use jazzhands.Prelude.{◌≡◌, refl, String, free_of}
use jazzhands.Paging.Address.{
  all_digits, drop_digits, behind_digits, behind_param, remove_param, as_number, number_behind,
  universe_of, stripped, kept, page_address, is_absent,
}
use jazzhands.Paging.Readdress.{page_address_again}

abbrev link : String
link = "https://stab/dns/?DNS_DOMAIN_ID=7;dnssearch=1;paging-dns-0-page=3;paging-dns-0-limit=50"

third :
    page_address "paging-dns-0" "12" "50" link
    ≡ "https://stab/dns/?DNS_DOMAIN_ID=7;ip_universe_id=0;paging-dns-0-page=12;paging-dns-0-limit=50"
unfolding page_address kept stripped remove_param behind_param behind_digits drop_digits universe_of
    number_behind as_number all_digits
third = refl

page_address_again_example :
    page_address "paging-dns-0" "4" "50" (page_address "paging-dns-0" "12" "50" link)
    ≡ page_address "paging-dns-0" "4" "50" link
unfolding kept stripped remove_param behind_param behind_digits drop_digits universe_of
    number_behind as_number all_digits is_absent free_of
page_address_again_example =
    page_address_again "paging-dns-0" "12" "4" "50" link refl refl refl refl refl refl refl
