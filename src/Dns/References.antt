-- ===== src/Dns/References.antt =====
-- Tables of the records that refer to a DNS record, in dns-common.js: the rows that
-- `build_dns_ref_table` builds, the links that mark a row for removal and make it editable.
use jazzhands.Prelude.{
  ℕ, suc, ◌-◌, Bool, true, false, not, String, Option, none, some, List, [], ◌∷◌, ◌++◌, map,
  if◌then◌else◌, ◌<>◌, str_eq,
}

pub record DnsRecord : Type 0 where
  pub id : String
  pub type : String
  pub name : String
  pub domain_id : String
  pub soa_name : String

-- An option with its value; one without a value attribute has its text for it.
pub record Choice : Type 0 where
  pub value : String
  pub selected : Bool

-- The checkbox of a row; `shown` tells that it has not the class `irrelevant`.
pub record Checkbox : Type 0 where
  pub name : String
  pub checked : Bool
  pub shown : Bool

-- `off` is the class of this name.
pub record Select : Type 0 where
  pub name : String
  pub choices : List Choice
  pub shown : Bool
  pub off : Bool

pub record TextInput : Type 0 where
  pub name : String
  pub value : String
  pub shown : Bool
  pub disabled : Bool

pub record Link : Type 0 where
  pub target : String
  pub href : String
  pub text : String
  pub shown : Bool

-- A row of such a table. `removed` is the class `rowrm`; `pending` tells for each cell behind the
-- first whether it has the class `pendingrm`. `domain_id` is the value of the hidden input, which
-- is disabled.
pub record RefRow : Type 0 where
  pub removed : Bool
  pub pending : List Bool
  pub remove_link_shown : Bool
  pub remove_box : Checkbox
  pub type_select : Select
  pub name_input : TextInput
  pub domain_select : Select
  pub domain_id : String
  pub link : Link
  pub edit_link_shown : Bool

abbrev pub suffix_of : String → DnsRecord → String
suffix_of dnsrecid rec = "_dnsref_" <> dnsrecid <> "_" <> rec.id

-- The options of the select list for the type.
unfoldable pub type_choices : List String → String → List Choice
type_choices [] type = []
type_choices (t ∷ ts) type = record { value = t; selected = str_eq type t } ∷ type_choices ts type

-- The loop's body of `build_dns_ref_table`.
unfoldable pub ref_row : String → List String → DnsRecord → RefRow
unfolding type_choices
ref_row dnsrecid types rec = record {
  removed = false;
  pending = false ∷ false ∷ [];
  remove_link_shown = true;
  remove_box = record { name = "Del_" <> rec.id; checked = false; shown = false };
  type_select = record {
    name = "dnsref_DNS_TYPE" <> suffix_of dnsrecid rec;
    choices = type_choices types rec.type;
    shown = true;
    off = true;
  };
  name_input = record {
    name = "dnsref_DNS_NAME" <> suffix_of dnsrecid rec;
    value = rec.name;
    shown = false;
    disabled = false;
  };
  domain_select = record {
    name = "dnsref_DNS_DOMAIN_ID" <> suffix_of dnsrecid rec;
    choices = [];
    shown = false;
    off = false;
  };
  domain_id = rec.domain_id;
  link = record {
    target = "DNS_RECORD_ID" <> rec.domain_id;
    href = "../dns/?DNS_RECORD_ID=" <> rec.id;
    text = rec.name <> "." <> rec.soa_name;
    shown = true;
  };
  edit_link_shown = true;
}

-- The rows of the table and the identifier that its link for a new reference holds.
pub record RefTable : Type 0 where
  pub rows : List RefRow
  pub add_record : String
  pub shown : Bool

-- The response with its records and types.
pub record Response : Type 0 where
  pub records : List DnsRecord
  pub types : List String

unfoldable pub build_dns_ref_table : String → Response → RefTable
unfolding ref_row
build_dns_ref_table dnsrecid resp = record {
  rows = map (ref_row dnsrecid resp.types) resp.records;
  add_record = dnsrecid;
  shown = true;
}

-- The cell of a record's link, with the input `dnsrecordid` in the link. `under_way` counts the
-- requests without an answer, and `alerted` tells that an alert was shown. `referring` is the
-- link's class `dnsref`.
pub record Cell : Type 0 where
  pub record_id : Option String
  pub tables : List RefTable
  pub under_way : ℕ
  pub referring : Bool
  pub alerted : Bool

abbrev toggle_table : RefTable → RefTable
toggle_table t = record t { shown = not t.shown }

unfoldable pub toggle_or_ask : List RefTable → Cell → Cell
toggle_or_ask [] c = record c { under_way = suc c.under_way }
toggle_or_ask (t ∷ ts) c = record c { tables = map toggle_table (t ∷ ts) }

unfoldable pub for_record : Option String → Cell → Cell
unfolding toggle_or_ask
for_record none c = record c { alerted = true }
for_record (some s) c = toggle_or_ask c.tables c

-- `build_dnsref_table`
unfoldable pub build_dnsref_table : Cell → Cell
unfolding for_record
build_dnsref_table c = for_record c.record_id c

-- The answer to a request that the cell made for a record.
unfoldable pub ref_answered : String → Response → Cell → Cell
unfolding build_dns_ref_table
ref_answered s resp c = record c {
  tables = c.tables ++ (build_dns_ref_table s resp ∷ []);
  under_way = c.under_way - 1;
  referring = true;
}

abbrev shown_select : Select → Select
shown_select s = record s { shown = true; off = false }

-- `make_dns_editable`, with the options of the response: every input of the row is shown, every
-- link is hidden.
unfoldable pub make_dns_editable : List Choice → RefRow → RefRow
make_dns_editable domains r = record r {
  remove_link_shown = false;
  remove_box = record (r.remove_box) { shown = true };
  type_select = shown_select r.type_select;
  name_input = record (r.name_input) { shown = true; disabled = false };
  domain_select = shown_select (record (r.domain_select) { choices = domains });
  link = record (r.link) { shown = false };
  edit_link_shown = false;
}

-- The link `rmrow`.
unfoldable pub toggle_removal : RefRow → RefRow
toggle_removal r = record r {
  removed = not r.removed;
  pending = map not r.pending;
  remove_box = record (r.remove_box) { checked = not r.remove_box.checked };
}

-- A click on the link `rmrow`, or the answer that makes the row editable.
pub data RowEvent : Type 0 where
  removal : RowEvent
  editable : List Choice → RowEvent

unfoldable pub on_row : RowEvent → RefRow → RefRow
unfolding toggle_removal make_dns_editable
on_row removal r = toggle_removal r
on_row (editable domains) r = make_dns_editable domains r

unfoldable pub on_row_all : List RowEvent → RefRow → RefRow
unfolding on_row
on_row_all [] r = r
on_row_all (e ∷ es) r = on_row_all es (on_row e r)

abbrev named_value : String → Option String → List (String × String)
named_value name none = []
named_value name (some v) = (name, v) ∷ []

-- What the form sends for a row, in the order of its fields, where `chosen` is the value that the
-- browser has for a select list with these options.
unfoldable pub posted_row : (List Choice → Option String) → RefRow → List (String × String)
posted_row chosen r =
    (if r.remove_box.checked then (r.remove_box.name, "on") ∷ [] else [])
    ++ (named_value r.type_select.name (chosen r.type_select.choices)
        ++ ((if r.name_input.disabled then [] else (r.name_input.name, r.name_input.value) ∷ [])
            ++ named_value r.domain_select.name (chosen r.domain_select.choices)))
