-- ===== src/Dns/Editable.antt =====
-- What a row of a table of references sends.
use jazzhands.Prelude.{
  ◌≡◌, refl, ap, ◌∙◌, Bool, true, false, not, ◌&&◌, ◌||◌, String, Option, none, some, List, [], ◌∷◌,
  ◌++◌, map, any, all, if◌then◌else◌, str_eq, eq_iff, includes, arith, ◌<>◌, inl, inr, Bool-cases,
}
use jazzhands.Dns.References.{
  DnsRecord, Choice, RefRow, suffix_of, type_choices, ref_row, make_dns_editable, toggle_removal,
  RowEvent, removal, editable, on_row, on_row_all, posted_row,
}

abbrev pub is_selected : Choice → Bool
is_selected c = c.selected

-- Only the value `v` is selected.
abbrev pub selects_only : String → Choice → Bool
selects_only v c = not c.selected || str_eq v c.value

-- A browser's select list without options has no value, and one where just the options of one
-- value are selected has this value.
unfoldable pub IsChooser : (List Choice → Option String) → Type 0
IsChooser chosen =
    (chosen [] ≡ none)
    × ((cs : List Choice) (v : String)
        → any is_selected cs ≡ true
        → all (selects_only v) cs ≡ true
        → chosen cs ≡ some v)

types-only :
    (ts : List String) (type : String) → all (selects_only type) (type_choices ts type) ≡ true
unfolding type_choices
types-only [] type = refl
types-only (t ∷ ts) type = ground (arith, types-only ts type)

types-any :
    (ts : List String) (type : String)
    → includes type ts ≡ true
    → any is_selected (type_choices ts type) ≡ true
unfolding type_choices
types-any [] type h = absurd (ground arith)
types-any (t ∷ ts) type h = ground (arith, types-any ts type, eq_iff t type, eq_iff type t)

-- The options of a response for the record: those of its domain, and no other, are selected.
abbrev pub selects_domain : DnsRecord → List Choice → Bool
selects_domain rec cs = any is_selected cs && all (selects_only rec.domain_id) cs

-- Each answer that makes the row editable is one for the record.
abbrev pub for_domain : DnsRecord → RowEvent → Bool
for_domain rec removal = true
for_domain rec (editable cs) = selects_domain rec cs

-- The row is removed after an odd number of clicks on its link.
unfoldable pub removes : List RowEvent → Bool → Bool
removes [] gone = gone
removes (removal ∷ es) gone = removes es (not gone)
removes (editable cs ∷ es) gone = removes es gone

unfoldable pub edits : List RowEvent → Bool → Bool
edits [] edited = edited
edits (removal ∷ es) edited = edits es edited
edits (editable cs ∷ es) edited = edits es true

-- The row as it was built, but removed or not, and editable or not.
IsBuilt : String → List String → DnsRecord → Bool → Bool → RefRow → Type 0
IsBuilt dnsrecid types rec gone edited r =
    (r.removed ≡ gone)
    × (r.pending ≡ gone ∷ gone ∷ [])
    × (r.remove_box.checked ≡ gone)
    × (r.remove_box.name ≡ "Del_" <> rec.id)
    × (r.type_select.name ≡ "dnsref_DNS_TYPE" <> suffix_of dnsrecid rec)
    × (r.type_select.choices ≡ type_choices types rec.type)
    × (r.name_input.disabled ≡ false)
    × (r.name_input.name ≡ "dnsref_DNS_NAME" <> suffix_of dnsrecid rec)
    × (r.name_input.value ≡ rec.name)
    × (r.domain_select.name ≡ "dnsref_DNS_DOMAIN_ID" <> suffix_of dnsrecid rec)
    × (edited ≡ false → r.domain_select.choices ≡ [])
    × (edited ≡ true → selects_domain rec r.domain_select.choices ≡ true)

module _ (dnsrecid : String) (types : List String) (rec : DnsRecord) where
  toggled :
      (gone edited : Bool) (r : RefRow)
      → IsBuilt dnsrecid types rec gone edited r
      → IsBuilt dnsrecid types rec (not gone) edited (toggle_removal r)
  unfolding IsBuilt toggle_removal
  toggled gone edited r b =
      (ap not b.0, ap (map not) b.1, ap not b.2, b.3, b.4, b.5, b.6, b.7, b.8, b.9, b.10, b.11)

  made :
      (cs : List Choice) (gone edited : Bool) (r : RefRow)
      → selects_domain rec cs ≡ true
      → IsBuilt dnsrecid types rec gone edited r
      → IsBuilt dnsrecid types rec gone true (make_dns_editable cs r)
  unfolding IsBuilt make_dns_editable
  made cs gone edited r h b =
      (b.0, b.1, b.2, b.3, b.4, b.5, refl, b.7, b.8, b.9, (λ e. absurd (ground arith)), λ e. h)

  first-IsBuilt : IsBuilt dnsrecid types rec false false (ref_row dnsrecid types rec)
  unfolding IsBuilt ref_row
  first-IsBuilt = (
    refl,
    refl,
    refl,
    refl,
    refl,
    refl,
    refl,
    refl,
    refl,
    refl,
    (λ e. refl),
    λ e. absurd (ground arith),
  )

  run-IsBuilt :
      (es : List RowEvent) (gone edited : Bool) (r : RefRow)
      → all (for_domain rec) es ≡ true
      → IsBuilt dnsrecid types rec gone edited r
      → IsBuilt dnsrecid types rec (removes es gone) (edits es edited) (on_row_all es r)
  unfolding removes edits on_row_all on_row
  run-IsBuilt [] gone edited r h b = b
  run-IsBuilt (removal ∷ es) gone edited r h b =
      run-IsBuilt es (not gone) edited (toggle_removal r) h (toggled gone edited r b)
  run-IsBuilt (editable cs ∷ es) gone edited r h b =
      run-IsBuilt es gone true (make_dns_editable cs r) (ground arith)
        (made cs gone edited r (ground arith) b)

-- What is sent for a row of the record.
abbrev pub expected : String → DnsRecord → Bool → Bool → List (String × String)
expected dnsrecid rec gone edited =
    (if gone then ("Del_" <> rec.id, "on") ∷ [] else [])
    ++ ("dnsref_DNS_TYPE" <> suffix_of dnsrecid rec, rec.type)
      ∷ ("dnsref_DNS_NAME" <> suffix_of dnsrecid rec, rec.name)
      ∷ (if edited
          then ("dnsref_DNS_DOMAIN_ID" <> suffix_of dnsrecid rec, rec.domain_id) ∷ []
          else [])

fields-posted :
    (chosen : List Choice → Option String) (r : RefRow) (gone edited : Bool)
    (box type_name type name_name name domain_name domain : String)
    → r.remove_box.checked ≡ gone
    → r.remove_box.name ≡ box
    → r.type_select.name ≡ type_name
    → chosen r.type_select.choices ≡ some type
    → r.name_input.disabled ≡ false
    → r.name_input.name ≡ name_name
    → r.name_input.value ≡ name
    → r.domain_select.name ≡ domain_name
    → (edited ≡ false → chosen r.domain_select.choices ≡ none)
    → (edited ≡ true → chosen r.domain_select.choices ≡ some domain)
    → posted_row chosen r
      ≡ (if gone then (box, "on") ∷ [] else [])
        ++ (type_name, type)
          ∷ (name_name, name)
          ∷ (if edited then (domain_name, domain) ∷ [] else [])
unfolding posted_row
fields-posted chosen r gone edited box type_name type name_name name domain_name domain a b c d e f
      g h i j =
    elim (Bool-cases edited) [
      | inl t ↦ rw (a, b, c, d, e, f, g, h, j t, t) refl
      | inr t ↦ rw (a, b, c, d, e, f, g, h, i t, t) refl
    ]

built-posted :
    (chosen : List Choice → Option String) (dnsrecid : String) (types : List String)
    (rec : DnsRecord) (gone edited : Bool) (r : RefRow)
    → IsChooser chosen
    → includes rec.type types ≡ true
    → IsBuilt dnsrecid types rec gone edited r
    → posted_row chosen r ≡ expected dnsrecid rec gone edited
unfolding IsChooser IsBuilt
built-posted chosen dnsrecid types rec gone edited r c t b =
    fields-posted chosen r gone edited ("Del_" <> rec.id)
      ("dnsref_DNS_TYPE" <> suffix_of dnsrecid rec) rec.type
      ("dnsref_DNS_NAME" <> suffix_of dnsrecid rec) rec.name
      ("dnsref_DNS_DOMAIN_ID" <> suffix_of dnsrecid rec) rec.domain_id b.2 b.3 b.4
      (ap chosen b.5
        ∙ c.1 (type_choices types rec.type) rec.type (types-any types rec.type t)
            (types-only types rec.type))
      b.6 b.7 b.8 b.9 (λ e. ap chosen (b.10 e) ∙ c.0)
      (λ e.
        let own = b.11 e in
        c.1 r.domain_select.choices rec.domain_id (ground (arith, own)) (ground (arith, own)))

-- After any sequence of clicks on the link of a row that marks it for removal, and of answers
-- that make it editable, the row sends the type, the name and, once it is editable, the domain of
-- its record, and its removal exactly if the number of clicks was odd: where the type of the
-- record is one of the types, each answer selects just the domain of the record, and a browser's
-- select list has the value of the options that are selected, and none without options.
pub unchanged_row-posted :
    (chosen : List Choice → Option String) (dnsrecid : String) (types : List String)
    (rec : DnsRecord) (es : List RowEvent)
    → IsChooser chosen
    → includes rec.type types ≡ true
    → all (for_domain rec) es ≡ true
    → posted_row chosen (on_row_all es (ref_row dnsrecid types rec))
      ≡ expected dnsrecid rec (removes es false) (edits es false)
unchanged_row-posted chosen dnsrecid types rec es c t h =
    built-posted chosen dnsrecid types rec (removes es false) (edits es false)
      (on_row_all es (ref_row dnsrecid types rec)) c t
      (run-IsBuilt dnsrecid types rec es false false (ref_row dnsrecid types rec) h
        (first-IsBuilt dnsrecid types rec))
