-- ===== src/Paging/Container.antt =====
-- What `buildPagingContainer` shows, where its buttons lead to, and `changePage` up to the address.
use jazzhands.Prelude.{
  ℕ, ◌+◌, ◌-◌, ◌*◌, ◌/◌, Bool, true, false, Option, none, some, if◌then◌else◌, ◌==◌, ltb, List, [],
  ◌∷◌, map,
}

-- The attributes of a paging container, the global variables `pagingOffset_` and
-- `hasCrossUniverse_` of it. A page that the server writes and a limit are at least 1.
pub record Container : Type 0 where
  pub count : ℕ
  pub limit : ℕ
  pub page : ℕ
  pub offset : Option ℕ
  pub has_cross_universe : Bool

-- `Math.ceil( n / d )` for a `d` that is not 0.
abbrev pub ceil_div : ℕ → ℕ → ℕ
ceil_div n d = (n + d - 1) / d

pub record Button : Type 0 where
  pub off : Bool
  pub target : ℕ

-- What is built: the buttons with the page that each leads to, the texts, and whether there is
-- the button for the records of other universes.
pub record Controls : Type 0 where
  pub first_button : Button
  pub previous_button : Button
  pub next_button : Button
  pub last_button : Button
  pub page_input : ℕ
  pub limit_input : ℕ
  pub pages : ℕ
  pub first : ℕ
  pub last : ℕ
  pub toggle_button : Bool

-- The page is computed from the offset of the server where there is one.
unfoldable pub current_page : Container → ℕ
current_page c = elim c.offset [ some o ↦ ceil_div o c.limit | none ↦ c.page ]

unfoldable pub current_offset : Container → ℕ
current_offset c = elim c.offset [ some o ↦ o | none ↦ (c.page - 1) * c.limit ]

abbrev last_record : ℕ → ℕ → ℕ → ℕ
last_record offset limit count =
    let last = offset + limit - 1 in if ltb count last then count else last

-- `buildPagingContainer`, with the attribute `data-page` that it sets and what it builds.
unfoldable pub build_paging : Container → Container × Controls
unfolding current_page current_offset
build_paging c =
    let page = current_page c in
    let pages = ceil_div c.count c.limit in
    (
      record c { page = page },
      record {
        first_button = record { off = page == 1; target = 1 };
        previous_button = record {
          off = page == 1;
          target = if ltb (page - 1) 1 then 1 else page - 1;
        };
        next_button = record {
          off = page == pages;
          target = if ltb pages (page + 1) then pages else page + 1;
        };
        last_button = record { off = page == pages; target = pages };
        page_input = page;
        limit_input = c.limit;
        pages = pages;
        first = current_offset c;
        last = last_record (current_offset c) c.limit c.count;
        toggle_button = c.has_cross_universe;
      },
    )

-- What a click does: an alert, nothing, or the address with the page and the limit.
pub data Outcome : Type 0 where
  pending_alert : Outcome
  stays : Outcome
  goes_to : ℕ → ℕ → Outcome

-- `changePage` for the page of a button, up to the text of the address.
unfoldable pub change_page : Bool → Container → ℕ → Outcome
change_page pending c page =
    if pending then pending_alert else if page == c.page then stays else goes_to page c.limit

-- The rows of other universes, each visible or not, and the text of the button: `says_hide` for
-- "Hide Others", and else "Show All".
pub record Mismatches : Type 0 where
  pub rows : List Bool
  pub says_hide : Bool

-- A click on the button.
unfoldable pub toggle_rows : Mismatches → List Bool → Mismatches
toggle_rows m [] = m
toggle_rows m (first ∷ others) =
    if first
    then record { rows = map (λ _. false) m.rows; says_hide = false }
    else record { rows = map (λ _. true) m.rows; says_hide = true }

unfoldable pub toggle : Mismatches → Mismatches
unfolding toggle_rows
toggle m = toggle_rows m m.rows
