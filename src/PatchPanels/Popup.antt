-- ===== src/PatchPanels/Popup.antt =====
-- The popups for the paths of the ports: `PatchPanelDrop` and `close_patchpanel`.
use jazzhands.Prelude.{
  ◌≡◌, refl, ap, Bool, true, false, not, String, Option, none, some, List, [], ◌∷◌, if◌then◌else◌,
  ◌<>◌, str_eq, includes, distinct, arith, inl, inr, Bool-cases,
}

-- A popup with the key of its port. `content` is what the last answer put into it.
pub record Popup : Type 0 where
  pub port : String
  pub visible : Bool
  pub content : Option String

-- A request with the port whose popup it fills.
pub record Request : Type 0 where
  pub port : String
  pub address : String

pub record Page : Type 0 where
  pub popups : List Popup
  pub sent : List Request

unfoldable pub ports : List Popup → List String
ports [] = []
ports (p ∷ ps) = p.port ∷ ports ps

-- The popup of a port is changed.
unfoldable pub on_port : (Popup → Popup) → String → List Popup → List Popup
on_port f s [] = []
on_port f s (p ∷ ps) = if str_eq s p.port then f p ∷ ps else p ∷ on_port f s ps

abbrev toggle : Popup → Popup
toggle p = record p { visible = not p.visible }

-- `close_patchpanel`, which does nothing if there is no such popup.
unfoldable pub close_patchpanel : String → Page → Page
unfolding on_port
close_patchpanel s page = record page { popups = on_port toggle s page.popups }

abbrev address : String → String → String
address device s =
    "device-ajax.pl?what=PhysicalConnection;PHYSICAL_PORT_ID=" <> s <> ";DEVICE_ID=" <> device

-- `PatchPanelDrop`
unfoldable pub patch_panel_drop : String → String → Page → Page
unfolding on_port ports
patch_panel_drop device s page =
    if includes s (ports page.popups)
    then record page { popups = on_port toggle s page.popups }
    else (record {
      popups = record { port = s; visible = false; content = none } ∷ page.popups;
      sent = record { port = s; address = address device s } ∷ page.sent;
    })

abbrev fill : String → Popup → Popup
fill html p = record p { visible = true; content = some html }

pub data Event : Type 0 where
  dropped : String → Event
  closed : String → Event
  answered : String → String → Event

-- An answer comes for a port, with its text.
unfoldable pub step : String → Event → Page → Page
unfolding close_patchpanel patch_panel_drop on_port
step device (dropped s) page = patch_panel_drop device s page
step device (closed s) page = close_patchpanel s page
step device (answered s html) page = record page { popups = on_port (fill html) s page.popups }

unfoldable pub run_events : String → List Event → Page → Page
unfolding step
run_events device [] page = page
run_events device (e ∷ es) page = run_events device es (step device e page)

unfoldable pub asked : List Request → List String
asked [] = []
asked (r ∷ rs) = r.port ∷ asked rs

ports-on_port :
    (f : Popup → Popup) (s : String) (ps : List Popup)
    → ((p : Popup) → (f p).port ≡ p.port)
    → ports (on_port f s ps) ≡ ports ps
unfolding ports on_port
ports-on_port f s [] h = refl
ports-on_port f s (p ∷ ps) h = elim (Bool-cases (str_eq s p.port)) [
  | inl t ↦ rw (t, h p) refl
  | inr n ↦ rw (n, ports-on_port f s ps h) refl
]

-- Each port was asked for once, exactly the ports that have a popup, and no popup is there twice.
unfoldable pub AskedOnce : Page → Type 0
AskedOnce page = (asked page.sent ≡ ports page.popups) × (distinct (ports page.popups) ≡ true)

changed-AskedOnce :
    (f : Popup → Popup) (s : String) (page : Page)
    → ((p : Popup) → (f p).port ≡ p.port)
    → AskedOnce page
    → AskedOnce (record page { popups = on_port f s page.popups })
unfolding AskedOnce
changed-AskedOnce f s page h a = rw (ports-on_port f s page.popups h) a

drop-AskedOnce :
    (device s : String) (page : Page) → AskedOnce page → AskedOnce (patch_panel_drop device s page)
unfolding patch_panel_drop AskedOnce ports asked
drop-AskedOnce device s page a = elim (Bool-cases (includes s (ports page.popups))) [
  | inl t ↦ rw t (changed-AskedOnce toggle s page (λ p. refl) a)
  | inr n ↦ rw n (ap (λ xs. s ∷ xs) a.0, ground (arith, n, a.1))
]

step-AskedOnce :
    (device : String) (e : Event) (page : Page) → AskedOnce page → AskedOnce (step device e page)
unfolding step close_patchpanel
step-AskedOnce device (dropped s) page a = drop-AskedOnce device s page a
step-AskedOnce device (closed s) page a = changed-AskedOnce toggle s page (λ p. refl) a
step-AskedOnce device (answered s html) page a = changed-AskedOnce (fill html) s page (λ p. refl) a

-- From a page where each port with a popup was asked for exactly once, any sequence of clicks on
-- the links of ports, clicks on CLOSE and answers leads to such a page, so that no port is ever
-- asked for twice and none has two popups.
pub run_events-AskedOnce :
    (device : String) (es : List Event) (page : Page)
    → AskedOnce page
    → AskedOnce (run_events device es page)
unfolding run_events
run_events-AskedOnce device [] page a = a
run_events-AskedOnce device (e ∷ es) page a =
    run_events-AskedOnce device es (step device e page) (step-AskedOnce device e page a)
