-- ===== src/Tabs/Page.antt =====
-- The tabs, and the handlers.
use jazzhands.Prelude.{
  ℕ, Bool, true, false, String, str_eq, ◌<>◌, Option, none, some, List, [], ◌∷◌, ◌++◌, map, any,
  if◌then◌else◌, ◌==◌, get_elem?, modify,
}

-- A `div` of the class `tabcontent`. `content` is none while it says that the tab is loaded.
pub record TabDiv : Type 0 where
  pub id : String
  pub active : Bool
  pub content : Option String

-- A link of the class `tabgrouptab`.
pub record TabLink : Type 0 where
  pub id : String
  pub active : Bool

-- A request, with the element that gets its answer, which stays in the document.
pub record TabRequest : Type 0 where
  pub url : String
  pub target : String
  pub ready_state : ℕ

-- `requests` stand the last first. `has_group` tells that the element `tabgroup` is there, `rest`
-- is the rest of the document.
pub record Page (R : Type 0) : Type 0 where
  pub divs : List TabDiv
  pub links : List TabLink
  pub has_group : Bool
  pub requests : List TabRequest
  pub rest : R

-- The last argument of `ShowDevTab`: `true` and `"force"` reload; an argument that is left out does
-- not, but is not `=== false` either.
pub data Reload : Type 0 where
  forced : Reload
  unforced : Reload
  undefined : Reload

abbrev pub is_forced : Reload → Bool
is_forced forced = true
is_forced unforced = false
is_forced undefined = false

abbrev pub is_false : Reload → Bool
is_false forced = false
is_false unforced = true
is_false undefined = false

abbrev pub content_name : String → String
content_name what = what <> "_content"

-- `document.getElementById` on the tabs
abbrev pub has_div : String → List TabDiv → Bool
has_div name divs = any (λ d. str_eq d.id name) divs

abbrev pub show_div : String → Bool → TabDiv → TabDiv
show_div name reload d =
    if str_eq d.id name
    then record d { active = true; content = (if reload then none else d.content) }
    else d

abbrev pub hide_other : String → TabDiv → TabDiv
hide_other name d = if str_eq d.id name then d else record d { active = false }

abbrev pub mark_link : String → TabLink → TabLink
mark_link what l = record l { active = str_eq l.id what }

abbrev pub new_div : String → TabDiv
new_div name = record { id = name; active = true; content = none }

-- `address` is the encoded address of the page; all the replacements in it have no effect, since
-- their results are not used.
unfoldable pub tab_url : String → String → String → String
tab_url address devid what =
    "device-ajax.pl?what=" <> what <> ";passedin=" <> address <> ";DEVICE_ID=" <> devid

abbrev pub new_request : String → String → String → TabRequest
new_request address devid what = record {
  url = tab_url address devid what;
  target = content_name what;
  ready_state = 1;
}

-- The active classes of the tabs and the links.
abbrev pub activate : {R : Type 0} → String → Page R → Page R
activate what p = record p {
  divs = map (hide_other (content_name what)) p.divs;
  links = map (mark_link what) p.links;
}

abbrev pub send : {R : Type 0} → TabRequest → Page R → Page R
send r p = record p { requests = r ∷ p.requests }

-- `ShowDevTab`
unfoldable pub show_dev_tab :
    {R : Type 0} → String → String → Reload → Option String → Page R → Page R
unfolding tab_url
show_dev_tab address what reload none p = p
show_dev_tab address what reload (some devid) p =
    let name = content_name what in
    let request = new_request address devid what in
    if has_div name p.divs
    then (let shown =
          activate what (record p { divs = map (show_div name (is_forced reload)) p.divs }) in
        if is_false reload then shown else send request shown)
    else if p.has_group
    then send request (activate what (record p { divs = p.divs ++ new_div name ∷ [] }))
    else p

-- `forcedevtabload`, with the value of the field `tabname` where there is one.
unfoldable pub force_dev_tab_load :
    {R : Type 0} → String → Option String → Option String → Page R → Page R
unfolding show_dev_tab
force_dev_tab_load address none devid p = p
force_dev_tab_load address (some what) devid p =
    if str_eq what "" then p else show_dev_tab address what forced devid p

abbrev pub reach : ℕ → TabRequest → TabRequest
reach s r = record r { ready_state = s }

abbrev pub fill_div : String → String → TabDiv → TabDiv
fill_div name html d = if str_eq d.id name then record d { content = some html } else d

-- `server` answers an address; `refresh` is what the passes over the elements with the classes
-- `tracked` and `button_switch` do to the rest of the document.
module _ {R : Type 0} (server : String → String) (refresh : List TabDiv → R → R) where
  unfoldable pub on_ready_state : Option TabRequest → Page R → Page R
  on_ready_state none p = p
  on_ready_state (some r) p =
      let divs =
        if r.ready_state == 4 then map (fill_div r.target (server r.url)) p.divs else p.divs in
      record p { divs = divs; rest = refresh divs p.rest }

  -- The request at the position `k` gets to the state `s`.
  unfoldable pub change_state : ℕ → ℕ → Page R → Page R
  unfolding on_ready_state
  change_state k s p =
      let requests = modify (reach s) k p.requests in
      on_ready_state (get_elem? requests k) (record p { requests = requests })
