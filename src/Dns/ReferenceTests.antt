-- ===== src/Dns/ReferenceTests.antt =====
-- The theorem on references at a concrete record, and clicks before the first answer.
use jazzhands.Prelude.{
  ◌≡◌, refl, true, false, String, Option, none, some, List, [], ◌∷◌, all, arith, any, inl, inr,
  Bool-cases, ap, sym, eq_iff, if◌then◌else◌,
}
use jazzhands.Dns.References.{
  DnsRecord, Choice, Cell, Response, ref_row, removal, editable, on_row_all, posted_row,
  build_dnsref_table, ref_answered, for_record, toggle_or_ask, build_dns_ref_table,
}
use jazzhands.Dns.Editable.{
  IsChooser, expected, removes, edits, unchanged_row-posted, is_selected, selects_only,
}

-- The value of the first option that is selected.
abbrev first_selected : List Choice → Option String
first_selected [] = none
first_selected (c ∷ cs) = if c.selected then some c.value else first_selected cs

first :
    (cs : List Choice) (v : String)
    → any is_selected cs ≡ true
    → all (selects_only v) cs ≡ true
    → first_selected cs ≡ some v
first [] v a b = absurd (ground arith)
first (c ∷ cs) v a b = elim (Bool-cases c.selected) [
  | inl t ↦ rw t (ap (λ s. some s) (sym ((eq_iff v c.value).0 (ground arith))))
  | inr t ↦ rw t (first cs v (ground arith) (ground arith))
]

first_selected-IsChooser : IsChooser first_selected
unfolding IsChooser
first_selected-IsChooser = (refl, first)

abbrev www : DnsRecord
www = record { id = "5"; type = "A"; name = "www"; domain_id = "7"; soa_name = "example.com" }

abbrev domains : List Choice
domains = record { value = "6"; selected = false } ∷ record { value = "7"; selected = true } ∷ []

unchanged_row-posted_example :
    posted_row first_selected
      (on_row_all (removal ∷ editable domains ∷ []) (ref_row "3" ("CNAME" ∷ "A" ∷ []) www))
    ≡ expected "3" www
        (removes (removal ∷ editable domains ∷ []) false)
        (edits (removal ∷ editable domains ∷ []) false)
unchanged_row-posted_example =
    unchanged_row-posted first_selected "3" ("CNAME" ∷ "A" ∷ []) www
      (removal ∷ editable domains ∷ []) first_selected-IsChooser refl refl

abbrev link_cell : Cell
link_cell = record {
  record_id = some "3";
  tables = [];
  under_way = 0;
  referring = false;
  alerted = false;
}

abbrev response : Response
response = record { records = www ∷ []; types = "A" ∷ [] }

-- Two clicks before the answers give two tables.
two_tables :
    (ref_answered "3" response
      (ref_answered "3" response (build_dnsref_table (build_dnsref_table link_cell)))).tables
    ≡ build_dns_ref_table "3" response ∷ build_dns_ref_table "3" response ∷ []
unfolding ref_answered build_dnsref_table for_record toggle_or_ask
two_tables = refl
