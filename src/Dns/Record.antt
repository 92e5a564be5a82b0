-- ===== src/Dns/Record.antt =====
-- A row of the table of DNS records, and the fields that it gets when its type is changed.
use jazzhands.Prelude.{
  ℕ, suc, Bool, true, false, ◌||◌, String, str_eq, Option, none, some, List, [], ◌∷◌, ◌++◌, map,
  if◌then◌else◌, ◌==◌, ◌<>◌, any,
}
use jazzhands.Dns.Drop.{Drop}

-- A field with the class `irrelevant`, which hides it, or without it.
pub record Box : Type 0 where
  pub name : String
  pub irrelevant : Bool

-- A select list with the number of the change that asked for it.
pub record Select : Type 0 where
  pub drop : Drop
  pub serial : ℕ
  pub hidden : Bool

-- The value: a link to a record, which can be edited, or an input with the class `dnsautocomplete`
-- or without it.
pub data Value : Type 0 where
  out_ref : String → Value
  value_input : Bool → String → Value

-- An answer that was asked for, with the number of its change.
pub data Answer : Type 0 where
  protocols : ℕ → Answer
  services : ℕ → Answer

-- `is_new` is the class `dnsadd`; `ptr_cell` tells that the row has a cell for the PTR box. The
-- select lists stand in the order in which they came.
pub record Row : Type 0 where
  pub is_new : Bool
  pub id : Option String
  pub new_row_id : Option String
  pub value : Value
  pub ptr_cell : Bool
  pub ptr : List Box
  pub priority : List Box
  pub weight : List Box
  pub port : List Box
  pub protocol : List Select
  pub service : List Select
  pub asked : List Answer
  pub changes : ℕ

-- `make_outref_editable` and the class `dnsautocomplete` of the value.
unfoldable pub change_value : Bool → Value → Value
change_value b (out_ref s) = value_input b s
change_value b (value_input c s) = value_input b s

abbrev pub show_box : Box → Box
show_box b = record b { irrelevant = false }

abbrev pub hide_box : Box → Box
hide_box b = record b { irrelevant = true }

abbrev pub show_select : Select → Select
show_select s = record s { hidden = false }

abbrev pub hide_select : Select → Select
hide_select s = record s { hidden = true }

-- `'_' + $(nametr).attr('id')`, where a missing attribute is written `undefined`.
abbrev id_text : Option String → String
id_text none = "undefined"
id_text (some s) = s

abbrev ptr_name : Row → String
ptr_name r =
    if r.is_new
    then "new_chk_SHOULD_GENERATE_PTR_" <> id_text r.id
    else "chk_SHOULD_GENERATE_PTR_" <> id_text r.id

-- `.first().removeClass( 'irrelevant' )`, and a box in the cell where there is none.
unfoldable pub show_ptr : Row → List Box → List Box
show_ptr r [] = if r.ptr_cell then record { name = ptr_name r; irrelevant = false } ∷ [] else []
show_ptr r (b ∷ bs) = show_box b ∷ bs

-- `plusprefix + field + "_" + recordId`
abbrev record_id : Row → String
record_id r = elim r.new_row_id [ some s ↦ s | none ↦ id_text r.id ]

abbrev pub field_name : Row → String → String
field_name r field = (if r.is_new then "new_" else "") <> field <> "_" <> record_id r

abbrev pub new_box : Row → String → Box
new_box r field = record { name = field_name r field; irrelevant = false }

-- The priority of an MX or SRV record.
unfoldable pub show_priority : Row → List Box → List Box
show_priority r [] = new_box r "DNS_PRIORITY" ∷ []
show_priority r (b ∷ bs) = map show_box (b ∷ bs)

-- The fields of an SRV record, which are shown where the list of services is on the page, and
-- made and asked for where it is not.
unfoldable pub show_srv : Row → List Select → Row
show_srv r (s ∷ ss) = record r {
  weight = map show_box r.weight;
  port = map show_box r.port;
  protocol = map show_select r.protocol;
  service = map show_select r.service;
}
show_srv r [] = record r {
  weight = r.weight ++ new_box r "DNS_SRV_WEIGHT" ∷ [];
  port = r.port ++ new_box r "DNS_SRV_PORT" ∷ [];
  asked = r.asked ++ protocols r.changes ∷ services r.changes ∷ [];
  changes = suc r.changes;
}

unfoldable pub hide_srv : Row → Row
hide_srv r = record r {
  weight = map hide_box r.weight;
  port = map hide_box r.port;
  protocol = map hide_select r.protocol;
  service = map hide_select r.service;
}

abbrev pub refers : String → Bool
refers t = str_eq t "CNAME" || str_eq t "A" || str_eq t "AAAA"

-- The first part: the value and the PTR box.
unfoldable pub change_head : String → Row → Row
unfolding change_value show_ptr
change_head t r = record r {
  value = change_value (refers t) r.value;
  ptr = if str_eq t "A" || str_eq t "AAAA" then show_ptr r r.ptr else map hide_box r.ptr;
}

abbrev pub with_priority : Row → Row
with_priority r = record r { priority = show_priority r r.priority }

-- The branches for the types SRV and MX, which the two tests tell, and for all others.
unfoldable pub change_tail : Bool → Bool → Row → Row
unfolding show_priority show_srv hide_srv
change_tail true mx r = show_srv (with_priority r) r.service
change_tail false true r = hide_srv (with_priority r)
change_tail false false r = hide_srv (record r { priority = map hide_box r.priority })

-- `change_dns_record` for the new type.
unfoldable pub change_dns_record : String → Row → Row
unfolding change_head change_tail
change_dns_record t r = change_tail (str_eq t "SRV") (str_eq t "MX") (change_head t r)

-- The types are chosen one after the other.
unfoldable pub change_all : List String → Row → Row
unfolding change_dns_record
change_all [] r = r
change_all (t ∷ ts) r = change_all ts (change_dns_record t r)

-- The select list that is built for an answer stands on the page: the list of protocols at the
-- front of the name's cell, and the list of services before that of its protocols, and nowhere
-- where that is not on the page.
unfoldable pub insert_service : ℕ → Drop → Row → Row
insert_service n d r =
    if any (λ s. s.serial == n) r.protocol
    then record r { service = r.service ++ record { drop = d; serial = n; hidden = false } ∷ [] }
    else r

unfoldable pub insert_protocol : ℕ → Drop → Row → Row
insert_protocol n d r = record r {
  protocol = r.protocol ++ record { drop = d; serial = n; hidden = false } ∷ [];
}

unfoldable pub receive_drop : Answer → Option Drop → Row → Row
unfolding insert_service insert_protocol
receive_drop w none r = r
receive_drop (protocols n) (some d) r = insert_protocol n d r
receive_drop (services n) (some d) r = insert_service n d r
