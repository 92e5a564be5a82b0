-- ===== src/Panels/ShowHide.antt =====
-- `showhide` of device-utils.js: the controls and the contents of a group.
use jazzhands.Prelude.{
  ℕ, zero, suc, ◌≡◌, Bool, true, false, not, String, Option, none, some, List, [], ◌∷◌, map, all,
  any, length, get_elem?, modify, if◌then◌else◌, str_eq, includes,
}

-- The control `<group>_control_<key>` with its class `toggled`.
pub record Control : Type 0 where
  pub key : String
  pub toggled : Bool

-- A content element of the name `<group>_content_<key>`, with the class `irrelevant` if `hidden`.
-- A control may have several.
pub record Content : Type 0 where
  pub key : String
  pub hidden : Bool

pub record Group : Type 0 where
  pub controls : List Control
  pub contents : List Content

abbrev pub only_toggled : String → Control → Control
only_toggled k c = record c { toggled = str_eq c.key k }

abbrev pub untoggled : String → Control → Control
untoggled k c = if str_eq c.key k then record c { toggled = false } else c

abbrev pub hide_other : String → Content → Content
hide_other k c = if str_eq c.key k then c else record c { hidden = true }

abbrev pub set_hidden : Bool → Content → Content
set_hidden h c = record c { hidden = h }

-- The loop's body for the content at an index, which is hidden or shown.
unfoldable pub show_content : String → ℕ → Group → Group
unfolding modify
show_content k i g = record {
  controls = map (only_toggled k) g.controls;
  contents = modify (set_hidden false) i (map (hide_other k) g.contents);
}

unfoldable pub hide_content : String → ℕ → Group → Group
unfolding modify
hide_content k i g = record {
  controls = map (untoggled k) g.controls;
  contents = modify (set_hidden true) i g.contents;
}

unfoldable pub visit_content : Option Content → String → ℕ → Group → Group
unfolding show_content hide_content
visit_content none k i g = g
visit_content (some c) k i g =
    if str_eq c.key k then if c.hidden then show_content k i g else hide_content k i g else g

-- The loop on the contents of the control `k`, from the index `i` on, where `n` are left.
unfoldable pub visit_from : ℕ → ℕ → String → Group → Group
unfolding visit_content
visit_from zero i k g = g
visit_from (suc n) i k g = visit_from n (suc i) k (visit_content (get_elem? g.contents i) k i g)

abbrev pub is_of : String → Content → Bool
is_of k c = str_eq c.key k

-- `showhide` for the control `k`.
unfoldable pub show_hide : String → Group → Group
unfolding visit_from
show_hide k g = if any (is_of k) g.contents then visit_from (length g.contents) 0 k g else g

unfoldable pub show_hide_all : List String → Group → Group
unfolding show_hide
show_hide_all [] g = g
show_hide_all (k ∷ ks) g = show_hide_all ks (show_hide k g)

abbrev pub is_key : Option String → String → Bool
is_key none x = false
is_key (some k) x = str_eq x k

abbrev pub same : Bool → Bool → Bool
same a b = if a then b else not b

-- Just the control `shown` is toggled.
abbrev pub toggled_right : Option String → Control → Bool
toggled_right shown c = same c.toggled (is_key shown c.key)

-- Just the contents of the control `shown` are not hidden.
abbrev pub hidden_right : Option String → Content → Bool
hidden_right shown c = same c.hidden (not (is_key shown c.key))

-- At most one control's contents are shown, those of `shown`, all of them, and just this control
-- is toggled.
unfoldable pub ShowsOne : Option String → Group → Type 0
ShowsOne shown g =
    (all (toggled_right shown) g.controls ≡ true) × (all (hidden_right shown) g.contents ≡ true)

unfoldable pub content_keys : List Content → List String
content_keys [] = []
content_keys (c ∷ cs) = c.key ∷ content_keys cs

-- What a click on a control promises: it shows its contents, or hides them if they are shown, and
-- does nothing if there are none.
unfoldable pub next_shown : List String → String → Option String → Option String
next_shown keys k shown = if includes k keys then if is_key shown k then none else some k else shown

unfoldable pub shown_after : List String → List String → Option String → Option String
unfolding next_shown
shown_after keys [] shown = shown
shown_after keys (k ∷ ks) shown = shown_after keys ks (next_shown keys k shown)
