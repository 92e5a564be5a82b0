-- ===== src/PhysicalPorts/Requests.antt =====
-- The page, the requests that were sent, and the handler of a request.
use jazzhands.Prelude.{
  ℕ, Bool, true, false, String, str_eq, Option, none, some, List, ◌∷◌, if◌then◌else◌, ◌==◌, ◌<>◌,
  get_elem?, modify,
}

-- The link to the device's page: its address, or an alert that there is no device.
pub data Link : Type 0 where
  opens : String → Link
  alerts : Link

-- A port: the fields with the identifier and the name of the device, the link where there is one,
-- the box with the list of ports and whether it is shown, and whether the link to the patch panel
-- and the popup of the physical connection are there.
pub record Port : Type 0 where
  pub device_id : String
  pub device_name : String
  pub link : Option Link
  pub box_html : String
  pub box_visible : Bool
  pub patch_panel_link : Bool
  pub connection_popup : Bool

-- A request with the port whose handler it has, its `readyState`, and whether the spinning wheel
-- that was made for it is on the page.
pub record Request : Type 0 where
  pub port : ℕ
  pub url : String
  pub ready_state : ℕ
  pub spinner : Bool

-- The requests, the last first: the global variable `request` is the first of them.
pub record Page : Type 0 where
  pub ports : List Port
  pub requests : List Request

abbrev is_empty : String → Bool
is_empty s = str_eq s ""

-- The empty name clears the identifier.
abbrev pub chosen_id : Port → String
chosen_id f = if is_empty f.device_name then "" else f.device_id

unfoldable pub link_to : String → Link
link_to id =
    if is_empty id
    then alerts
    else opens ("device.pl?devid=" <> id <> ";__default_tab__=Switchport")

abbrev type_part : Option String → String
type_part none = ""
type_part (some s) = if is_empty s then "" else ";type=" <> s

-- `side` is compared with the text 'undefined' and not with the value.
abbrev side_part : Option String → String
side_part none = ";side=undefined"
side_part (some s) = if str_eq s "undefined" then "" else ";side=" <> s

abbrev device_part : Port → String
device_part f = if is_empty f.device_name then "" else ";DEVICE_ID=" <> f.device_id

unfoldable pub ports_url : Option String → Option String → String → Port → String
ports_url type side port_id f =
    "device-ajax.pl?what=Ports"
    <> type_part type
    <> side_part side
    <> device_part f
    <> ";PHYSICAL_PORT_ID="
    <> port_id

-- `cleanup_patchpanel_links`
unfoldable pub cleanup : String → Port → Port
cleanup port_id f =
    if is_empty port_id then f else record f { patch_panel_link = false; connection_popup = false }

abbrev relinked : Option Link → String → Option Link
relinked none id = none
relinked (some l) id = some (link_to id)

-- The port while its list is updated.
unfoldable pub updating : String → Port → Port
unfolding cleanup link_to
updating port_id f = cleanup port_id (record f {
  device_id = chosen_id f;
  link = relinked f.link (chosen_id f);
  box_visible = false;
})

-- `showPhysical_ports` for the port at `i`, which does nothing where there is no box.
unfoldable pub show_physical_ports : ℕ → Option String → Option String → String → Page → Page
unfolding ports_url updating
show_physical_ports i type side port_id p = elim (get_elem? p.ports i) [
  | none ↦ p
  | some f ↦ record {
    ports = modify (updating port_id) i p.ports;
    requests =
        record { port = i; url = ports_url type side port_id f; ready_state = 1; spinner = true }
        ∷ p.requests;
  }
]

-- The port after an answer.
unfoldable pub filled : String → Port → Port
filled html f = record f { box_html = html; box_visible = true }

abbrev reach : ℕ → Request → Request
reach s r = record r { ready_state = s }

abbrev without_spinner : Request → Request
without_spinner r = record r { spinner = false }

-- `server` gives the text of the answer to an address.
module _ (server : String → String) where
  -- The handler of the request `r` at the position `k`, which reads the global variable `request`.
  unfoldable pub on_change : ℕ → Option Request → Option Request → Page → Page
  unfolding filled
  on_change k none global p = p
  on_change k (some r) none p = p
  on_change k (some r) (some g) p =
      if g.ready_state == 4
      then record {
        ports = modify (filled (server g.url)) r.port p.ports;
        requests = modify without_spinner k p.requests;
      }
      else p

  -- The request at the position `k` gets to the state `s`, and its handler is called.
  unfoldable pub change_state : ℕ → ℕ → Page → Page
  unfolding on_change
  change_state k s p =
      let requests = modify (reach s) k p.requests in
      on_change k (get_elem? requests k) (get_elem? requests 0) (record p { requests = requests })

  -- A request is answered: the browser takes it through the states up to 4.
  unfoldable pub answered : ℕ → Page → Page
  unfolding change_state
  answered k p = change_state k 4 (change_state k 3 (change_state k 2 p))
