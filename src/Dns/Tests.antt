-- ===== src/Dns/Tests.antt =====
-- The theorems on DNS records at concrete rows.
use jazzhands.Prelude.{◌≡◌, refl, true, false, String, Option, none, some, List, [], ◌∷◌, split}
use jazzhands.Dns.Drop.{Drop, param, qs_to_obj, pairs, add_pair}
use jazzhands.Dns.Record.{
  Select, Row, value_input, change_dns_record, change_all, change_head, change_tail, show_srv,
  show_priority, receive_drop, protocols, services, insert_service, insert_protocol,
}
use jazzhands.Dns.Relevant.{Fits, KeepsFields, change_all-Fits}

abbrev plain : String → String
plain s = s

params_read : param "DNS_SRV_PROTOCOL" (qs_to_obj plain "a=1;DNS_SRV_PROTOCOL=tcp;b") ≡ some "tcp"
unfolding qs_to_obj pairs add_pair split param
params_read = refl

abbrev protocol_keys : List (String × Option String)
protocol_keys = ("_tcp", some "tcp") ∷ ("_udp", some "udp") ∷ []

abbrev page_params : List (String × String)
page_params = ("DNS_SRV_PROTOCOL", "sctp") ∷ []

abbrev fresh_row : Row
fresh_row = record {
  is_new = false;
  id = some "12";
  new_row_id = none;
  value = value_input true "www";
  ptr_cell = true;
  ptr = [];
  priority = [];
  weight = [];
  port = [];
  protocol = [];
  service = [];
  asked = [];
  changes = 0;
}

abbrev services_drop : Drop
services_drop = record { name = "DNS_SRV_SERVICE_12"; choices = [] }

abbrev services_list : Select
services_list = record { drop = services_drop; serial = 0; hidden = false }

abbrev srv_row : Row
srv_row = record fresh_row { service = services_list ∷ [] }

-- The list of services does not get on the page where its answer is the first.
services_first :
    (receive_drop
      (protocols 0)
      (some services_drop)
      (receive_drop (services 0) (some services_drop) (change_dns_record "SRV" fresh_row))).service
    ≡ []
unfolding receive_drop insert_service insert_protocol change_dns_record change_head change_tail
    show_srv show_priority
services_first = refl

change_all-Fits_example :
    Fits false true (change_dns_record "MX" (change_all ("A" ∷ "SRV" ∷ []) srv_row))
    × KeepsFields srv_row (change_dns_record "MX" (change_all ("A" ∷ "SRV" ∷ []) srv_row))
change_all-Fits_example = change_all-Fits ("A" ∷ "SRV" ∷ []) "MX" srv_row services_list [] refl
