-- ===== src/Rows/Tests.antt =====
-- The theorems on added rows at a concrete table.
use jazzhands.Prelude.{ℕ, ◌≡◌, refl, false, none, List, [], ◌∷◌, show}
use jazzhands.Rows.Table.{
  Row, ids, field_ids, free_offset, new_offset, insert_after, insert_before, new_dns_row,
  new_ref_row, new_account_row, add_new_dns_row, add_dns_ref_record_row, add_account, ref_prefix,
}
use jazzhands.Rows.Fresh.{IsFirstFree, added-IsFirstFree}

abbrev button_row : Row
button_row = record {
  classes = "dnsbutton" ∷ [];
  added = false;
  even = false;
  odd = false;
  new_row_id = none;
  fields = [];
}

abbrev table : List Row
table = button_row ∷ new_dns_row [] [] 1 ∷ new_dns_row [] [] 3 ∷ []

second : new_offset "new_DNS_NAME_" 1 table ≡ 2
unfolding new_offset free_offset ids field_ids new_dns_row show
second = refl

added-IsFirstFree_example :
    ((o : ℕ) × IsFirstFree "new_DNS_NAME_" 1 table o
      × (add_new_dns_row 0 [] [] table ≡ insert_after 0 (new_dns_row [] [] o) table))
    × ((o : ℕ) × IsFirstFree (ref_prefix "7") 0 table o
        × (add_dns_ref_record_row 0 "7" [] table ≡ insert_before 0 (new_ref_row "7" [] o) table))
    × ((o : ℕ) × IsFirstFree "ACCOUNT_ID_new_" 0 table o
        × (add_account 0 table ≡ insert_before 0 (new_account_row o) table))
added-IsFirstFree_example = added-IsFirstFree 0 table "7" [] [] []
