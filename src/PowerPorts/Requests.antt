-- ===== src/PowerPorts/Requests.antt =====
-- The page, the requests that were sent, and their handler.
use jazzhands.Prelude.{
  ℕ, Bool, String, str_eq, Option, none, some, List, [], ◌∷◌, if◌then◌else◌, ◌==◌, ◌<>◌, get_elem?,
  modify,
}

-- A power port: the fields with the identifier and the name of the device, the address of the link
-- where there is one, and the content of the box with the list of ports.
pub record PowerPort : Type 0 where
  pub device_id : String
  pub device_name : String
  pub link : Option String
  pub box_html : String

-- A request with its `readyState`.
pub record PowerRequest : Type 0 where
  pub url : String
  pub ready_state : ℕ

-- `box` is the global variable `power_portboxname`, and the first of the requests, which stand the
-- last first, is the global variable `request`.
pub record PowerPage : Type 0 where
  pub ports : List PowerPort
  pub box : Option ℕ
  pub requests : List PowerRequest

abbrev is_empty : String → Bool
is_empty s = str_eq s ""

unfoldable pub power_link : String → String
power_link id =
    if is_empty id
    then "javascript:void(null);"
    else "./device.pl?devid=" <> id <> ";__default_tab__=Power"

abbrev relinked : Option String → String → Option String
relinked none id = none
relinked (some s) id = some (power_link id)

-- The link is set before the empty name clears the identifier.
unfoldable pub chosen : PowerPort → PowerPort
unfolding power_link
chosen f = record f {
  link = relinked f.link f.device_id;
  device_id = if is_empty f.device_name then "" else f.device_id;
}

unfoldable pub power_url : PowerPort → String → String
power_url f interface =
    "device-ajax.pl?what=PowerPorts"
    <> (if is_empty f.device_name then "" else ";DEVICE_ID=" <> f.device_id)
    <> ";POWER_INTERFACE_PORT="
    <> interface

-- `showPowerPorts` for the port at `i`.
unfoldable pub show_power_ports : ℕ → String → PowerPage → PowerPage
unfolding power_url chosen
show_power_ports i interface p = elim (get_elem? p.ports i) [
  | none ↦ p
  | some f ↦ record {
    ports = modify chosen i p.ports;
    box = some i;
    requests = record { url = power_url f interface; ready_state = 1 } ∷ p.requests;
  }
]

-- The box after an answer.
unfoldable pub with_html : String → PowerPort → PowerPort
with_html html f = record f { box_html = html }

abbrev reach : ℕ → PowerRequest → PowerRequest
reach s r = record r { ready_state = s }

-- `server` gives the text of the answer to an address.
module _ (server : String → String) where
  -- `updatePowerPort` where the request is finished; without a box it throws, and changes nothing.
  unfoldable pub fill_box : Option ℕ → String → PowerPage → PowerPage
  unfolding with_html
  fill_box none url p = p
  fill_box (some i) url p = record p {
    ports = modify (with_html (server url)) i p.ports;
    box = none;
  }

  -- `updatePowerPort`, which reads the global variable `request`.
  unfoldable pub update_power_port : Option PowerRequest → PowerPage → PowerPage
  unfolding fill_box
  update_power_port none p = p
  update_power_port (some g) p = if g.ready_state == 4 then fill_box p.box g.url p else p

  -- The request at the position `k` gets to the state `s`, and the handler is called.
  unfoldable pub change_power_state : ℕ → ℕ → PowerPage → PowerPage
  unfolding update_power_port
  change_power_state k s p =
      let requests = modify (reach s) k p.requests in
      update_power_port (get_elem? requests 0) (record p { requests = requests })

  -- A sequence of such changes, each with the position of its request and the state.
  unfoldable pub run_power : List (ℕ × ℕ) → PowerPage → PowerPage
  unfolding change_power_state
  run_power [] p = p
  run_power (e ∷ es) p = run_power es (change_power_state e.0 e.1 p)
