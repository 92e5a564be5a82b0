-- ===== src/Tabs/Spec.antt =====
-- What the tabs promise: one tab is shown, and those that were shown are loaded.
use jazzhands.Prelude.{
  ℕ, ◌≡◌, refl, Bool, true, false, ◌&&◌, String, str_eq, Option, none, some, List, [], ◌∷◌, ◌++◌,
  all, includes, includes-append, distinct, if◌then◌else◌, arith, eq_iff,
}
use jazzhands.Tabs.Page.{Reload, forced, is_false}

-- The tab that is shown, the tabs that have been shown, in the order of their first time, and the
-- tabs that were requested, the last first.
pub record Tabs : Type 0 where
  pub shown : Option String
  pub loaded : List String
  pub sent : List String

abbrev pub fresh : Tabs
fresh = record { shown = none; loaded = []; sent = [] }

pub data Event : Type 0 where
  selected : String → Reload → Event
  answered : ℕ → ℕ → Event
  opened : Option String → Event

-- A tab that is selected is shown, and requested the first time, or where that is asked for.
unfoldable pub select : String → Reload → Tabs → Tabs
select what reload s = record {
  shown = some what;
  loaded = (if includes what s.loaded then s.loaded else s.loaded ++ what ∷ []);
  sent = (if includes what s.loaded && is_false reload then s.sent else what ∷ s.sent);
}

-- The page opens, with the name of a tab or an empty one.
unfoldable pub start_with : Option String → Tabs → Tabs
start_with none s = s
start_with (some what) s = if str_eq what "" then s else select what forced s

unfoldable pub promised : List Event → Tabs → Tabs
unfolding select start_with
promised [] s = s
promised (selected what reload ∷ es) s = promised es (select what reload s)
promised (answered k n ∷ es) s = promised es s
promised (opened o ∷ es) s = promised es (start_with o s)

abbrev pub is_shown : Option String → String → Bool
is_shown none w = false
is_shown (some v) w = str_eq w v

-- A click on a link, or an answer.
abbrev pub is_click : Event → Bool
is_click (selected what reload) = is_false reload
is_click (answered k n) = true
is_click (opened o) = false

-- All tabs that were requested are loaded, and none was requested twice.
abbrev pub sent_once : Tabs → Bool
sent_once s = distinct s.sent && all (λ w. includes w s.loaded) s.sent

all-includes_append :
    (ws vs us : List String)
    → all (λ w. includes w vs) ws ≡ true
    → all (λ w. includes w (vs ++ us)) ws ≡ true
all-includes_append [] vs us h = refl
all-includes_append (w ∷ ws) vs us h =
    ground (arith, includes-append w vs us, all-includes_append ws vs us)

not_includes_of_all :
    (w : String) (ws vs : List String)
    → all (λ v. includes v vs) ws ≡ true
    → includes w vs ≡ false
    → includes w ws ≡ false
not_includes_of_all w [] vs h k = refl
not_includes_of_all w (v ∷ ws) vs h k = ground (arith, not_includes_of_all w ws vs, eq_iff v w)

select-once :
    (what : String) (reload : Reload) (s : Tabs)
    → is_false reload ≡ true
    → sent_once s ≡ true
    → sent_once (select what reload s) ≡ true
unfolding select
select-once what reload s h k = ground (
  arith,
  all-includes_append s.sent s.loaded (what ∷ []),
  includes-append what s.loaded (what ∷ []),
  not_includes_of_all what s.sent s.loaded,
  eq_iff what what,
)

pub promised-once :
    (es : List Event) (s : Tabs)
    → all is_click es ≡ true
    → sent_once s ≡ true
    → sent_once (promised es s) ≡ true
unfolding promised
promised-once [] s h k = k
promised-once (selected what reload ∷ es) s h k =
    promised-once es (select what reload s) (ground arith)
      (select-once what reload s (ground arith) k)
promised-once (answered i n ∷ es) s h k = promised-once es s h k
promised-once (opened o ∷ es) s h k = absurd (ground arith)
