-- ===== src/Folding/Kids.antt =====
-- The row for the kids of a port, `showPhysPortKid_Groups`, and that of a circuit,
-- `showCircuitKids`: the link that opens it, the row and the request.
use jazzhands.Prelude.{
  Bool, true, false, String, Option, none, some, List, [], ◌∷◌, if◌then◌else◌, ◌<>◌, str_eq,
  includes,
}
use jazzhands.Folding.Arrow.{dance, down, up, swaparrows}

pub data Visibility : Type 0 where
  unset : Visibility
  visible : Visibility
  hidden : Visibility

-- The style of a row and what the answer put into its second cell; `displayed` is an empty
-- `display`, else it is `none`.
pub record Kid : Type 0 where
  pub visibility : Visibility
  pub displayed : Bool
  pub content : Option String

-- The names that a link is called with, and the address of its request.
pub record Link : Type 0 where
  pub parent_row : String
  pub kid_row : String
  pub address : String

-- The link of a port: its name, the device and the parent row.
unfoldable pub port_link : String → String → String → Link
port_link devid trid portname = record {
  parent_row = trid;
  kid_row = "kid_tr" <> portname;
  address = "device-ajax.pl?what=SwitchportKids;parent=" <> portname <> ";DEVICE_ID=" <> devid;
}

-- The link of a circuit.
unfoldable pub circuit_link : String → String → Link
circuit_link parent_tr_id interface_id = record {
  parent_row = parent_tr_id;
  kid_row = "kid_tr" <> interface_id;
  address = "device-ajax.pl?what=Circuit;parent=" <> interface_id;
}

-- The rows of the table by their identifiers, the kids' row where it was made, the arrow of the
-- link, and the addresses that were asked for and have no answer yet.
pub record Page : Type 0 where
  pub rows : List String
  pub kid : Option Kid
  pub arrow : Option Bool
  pub under_way : List String

unfoldable pub is_hidden : Visibility → Bool
is_hidden unset = false
is_hidden visible = false
is_hidden hidden = true

-- `insertRow` behind the row with an identifier.
unfoldable pub insert_behind : String → String → List String → List String
insert_behind s new [] = []
insert_behind s new (r ∷ rs) =
    let rest = insert_behind s new rs in if str_eq r s then r ∷ new ∷ rs else r ∷ rest

unfoldable pub toggle_kid : Kid → Page → Page
unfolding is_hidden swaparrows
toggle_kid k page =
    if is_hidden k.visibility
    then (record page {
      kid = some (record k { displayed = true; visibility = visible });
      arrow = swaparrows down page.arrow;
    })
    else (record page {
      kid = some (record k { visibility = hidden; displayed = false });
      arrow = swaparrows up page.arrow;
    })

unfoldable pub make_kid : Link → Page → Page
unfolding insert_behind swaparrows
make_kid l page =
    if includes l.parent_row page.rows
    then (record {
      rows = insert_behind l.parent_row l.kid_row page.rows;
      kid = some (record { visibility = unset; displayed = false; content = none });
      arrow = swaparrows dance page.arrow;
      under_way = l.address ∷ page.under_way;
    })
    else page

unfoldable pub toggle_or_make : Link → Option Kid → Page → Page
unfolding toggle_kid make_kid
toggle_or_make l none page = make_kid l page
toggle_or_make l (some k) page = toggle_kid k page

-- `showPhysPortKid_Groups` and `showCircuitKids`, for the link that they are called with.
unfoldable pub show_kids : Link → Page → Page
unfolding toggle_or_make
show_kids l page = toggle_or_make l page.kid page

unfoldable pub fill_kid : String → Option Kid → Option Kid
fill_kid html none = none
fill_kid html (some k) = some (record k { content = some html; displayed = true })

-- The answer to the request that was sent first.
unfoldable pub kids_answered : String → List String → Page → Page
unfolding fill_kid swaparrows
kids_answered html [] page = page
kids_answered html (a ∷ as_left) page = record page {
  arrow = swaparrows down page.arrow;
  kid = fill_kid html page.kid;
  under_way = as_left;
}

pub data Event : Type 0 where
  clicked : Event
  answered : String → Event

unfoldable pub on_event : Link → Event → Page → Page
unfolding show_kids kids_answered
on_event l clicked page = show_kids l page
on_event l (answered html) page = kids_answered html page.under_way page

unfoldable pub run_events : Link → List Event → Page → Page
unfolding on_event
run_events l [] page = page
run_events l (e ∷ es) page = run_events l es (on_event l e page)
