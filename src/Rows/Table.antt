-- ===== src/Rows/Table.antt =====
-- Tables as lists of rows with fields, the rows that are added, and the search for a free number.
use jazzhands.Prelude.{
  ℕ, zero, suc, ◌%◌, Bool, true, false, String, Option, none, some, List, [], ◌∷◌, ◌++◌,
  if◌then◌else◌, ◌==◌, ◌<>◌, show, includes, length,
}

pub data Kind : Type 0 where
  text_input : Kind
  hidden_input : Kind
  checkbox_input : Kind
  select_list : List (String × String) → Kind

-- A field with its class attribute; a select list has the values and texts of its options.
pub record Field : Type 0 where
  pub kind : Kind
  pub name : String
  pub id : Option String
  pub classes : String

-- A row of a table or a list. `added` is the class `dnsadd`, `even` and `odd` are the classes of
-- these names, and `classes` are the other classes.
pub record Row : Type 0 where
  pub classes : List String
  pub added : Bool
  pub even : Bool
  pub odd : Bool
  pub new_row_id : Option ℕ
  pub fields : List Field

-- The identifier that `$("input#...")` finds a field by.
abbrev input_id : Kind → Option String → List String
input_id (select_list os) o = []
input_id k none = []
input_id k (some s) = s ∷ []

unfoldable pub field_ids : List Field → List String
field_ids [] = []
field_ids (f ∷ fs) = input_id f.kind f.id ++ field_ids fs

-- The identifiers of the inputs of a page.
unfoldable pub ids : List Row → List String
unfolding field_ids
ids [] = []
ids (r ∷ rs) = field_ids r.fields ++ ids rs

-- The loop `while ( $("input#" + prefix + offset).length ) { offset += 1; }`, on fuel.
unfoldable pub free_offset : ℕ → String → List String → ℕ → ℕ
free_offset zero prefix taken offset = offset
free_offset (suc fuel) prefix taken offset =
    let rest = free_offset fuel prefix taken (suc offset) in
    if includes (prefix <> show offset) taken then rest else offset

-- As many rounds as there are identifiers are enough.
unfoldable pub new_offset : String → ℕ → List Row → ℕ
unfolding free_offset ids
new_offset prefix start page = free_offset (length (ids page)) prefix (ids page) start

-- `$(button).closest('tr').after( row )` where the button stands in the row at `k`.
unfoldable pub insert_after : ℕ → Row → List Row → List Row
insert_after k row [] = []
insert_after zero row (r ∷ rs) = r ∷ row ∷ rs
insert_after (suc k) row (r ∷ rs) = r ∷ insert_after k row rs

-- `$(button).closest('tr').before( row )`
unfoldable pub insert_before : ℕ → Row → List Row → List Row
insert_before k row [] = []
insert_before zero row (r ∷ rs) = row ∷ r ∷ rs
insert_before (suc k) row (r ∷ rs) = r ∷ insert_before k row rs

abbrev with_id : Kind → String → String → Field
with_id kind name classes = record { kind = kind; name = name; id = some name; classes = classes }

abbrev without_id : Kind → String → String → Field
without_id kind name classes = record { kind = kind; name = name; id = none; classes = classes }

-- The row that `add_new_dns_row` builds for a number.
unfoldable pub new_dns_row : List (String × String) → List (String × String) → ℕ → Row
new_dns_row types classes o = record {
  classes = "dnsrecord" ∷ [];
  added = true;
  even = if o % 2 == 0 then false else true;
  odd = o % 2 == 0;
  new_row_id = some o;
  fields =
      without_id checkbox_input ("new_IS_ENABLED_" <> show o) ""
      ∷ with_id text_input ("new_DNS_NAME_" <> show o) "dnsname"
      ∷ with_id text_input ("new_DNS_TTL" <> show o) "dnsttl off"
      ∷ with_id (select_list classes) ("new_DNS_CLASS_" <> show o) "dnsclass"
      ∷ with_id (select_list types) ("new_DNS_TYPE_" <> show o) "dnstype"
      ∷ without_id hidden_input ("new_DNS_VALUE_RECORD_ID_" <> show o) "valdnsrecid"
      ∷ with_id text_input ("new_DNS_VALUE_" <> show o) "dnsvalue"
      ∷ without_id checkbox_input ("new_SHOULD_GENERATE_PTR_" <> show o) "ptrbox irrelevant"
      ∷ [];
}

-- `add_new_dns_row`, with the types and classes of the response.
unfoldable pub add_new_dns_row :
    ℕ → List (String × String) → List (String × String) → List Row → List Row
unfolding new_offset new_dns_row insert_after
add_new_dns_row k types classes page =
    insert_after k (new_dns_row types classes (new_offset "new_DNS_NAME_" 1 page)) page

-- The prefix of the identifiers that `add_dns_ref_record_row` looks for.
abbrev pub ref_prefix : String → String
ref_prefix record_id = "dnsref_DNS_NAME_dnsref_" <> record_id <> "_new_"

abbrev ref_types : List (String × String)
ref_types = ("A", "A") ∷ ("AAAA", "AAAA") ∷ ("CNAME", "CNAME") ∷ []

abbrev plain_row : List String → List Field → Row
plain_row classes fields = record {
  classes = classes;
  added = false;
  even = false;
  odd = false;
  new_row_id = none;
  fields = fields;
}

unfoldable pub new_ref_row : String → List (String × String) → ℕ → Row
new_ref_row record_id domains o =
    let part = "dnsref_" <> record_id <> "_new_" <> show o in
    plain_row ("dnsrefadd" ∷ []) (
      with_id (select_list ref_types) ("dnsref_DNS_TYPE_" <> part) ""
      ∷ with_id text_input ("dnsref_DNS_NAME_" <> part) ""
      ∷ with_id (select_list domains) ("dnsref_DNS_DOMAIN_ID_" <> part) ""
      ∷ [])

-- `add_dns_ref_record_row`, with the domains of the response.
unfoldable pub add_dns_ref_record_row : ℕ → String → List (String × String) → List Row → List Row
unfolding new_offset new_ref_row insert_before
add_dns_ref_record_row k record_id domains page =
    insert_before k (new_ref_row record_id domains (new_offset (ref_prefix record_id) 0 page)) page

unfoldable pub new_account_row : ℕ → Row
new_account_row o = plain_row [] (
    without_id checkbox_input ("Del_ACCOUNT_ID_new_" <> show o) "irrelevant rmcollrow"
    ∷ with_id hidden_input ("ACCOUNT_ID_new_" <> show o) "acaccountid"
    ∷ without_id text_input ("LOGIN_new" <> show o) "acautocomplete"
    ∷ [])

-- `add_account`
unfoldable pub add_account : ℕ → List Row → List Row
unfolding new_offset new_account_row insert_before
add_account k page = insert_before k (new_account_row (new_offset "ACCOUNT_ID_new_" 0 page)) page

-- The row of the link is taken away.
unfoldable pub remove_row : ℕ → List Row → List Row
remove_row k [] = []
remove_row zero (r ∷ rs) = rs
remove_row (suc k) (r ∷ rs) = r ∷ remove_row k rs

-- The loop on the rows with the class `dnsadd`, where `i` is the number of the next of them.
unfoldable pub restripe : ℕ → List Row → List Row
restripe i [] = []
restripe i (r ∷ rs) =
    let here = restripe i rs in
    let next = restripe (suc i) rs in
    if r.added
    then record r { even = if i % 2 == 0 then false else true; odd = i % 2 == 0 } ∷ next
    else r ∷ here

-- The link `purgerow`.
unfoldable pub purge_row : ℕ → List Row → List Row
unfolding remove_row restripe
purge_row k page = restripe 0 (remove_row k page)
