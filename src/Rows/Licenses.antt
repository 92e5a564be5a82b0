-- ===== src/Rows/Licenses.antt =====
-- The rows for new licences of a device: `add_License` of device-utils.js.
use jazzhands.Prelude.{
  ℕ, suc, String, Option, none, some, List, [], ◌∷◌, ◌++◌, map, if◌then◌else◌, ◌==◌, ◌<>◌, show,
  length,
}
use jazzhands.Rows.Table.{free_offset}

-- A row with its identity in the browser and its number; `drop` is the identifier of the list that
-- the answer put into it. It is shown once the answer is there.
pub record LicenseRow : Type 0 where
  pub object : ℕ
  pub number : ℕ
  pub drop : Option String

-- The rows above the button, the identity of the next row, and the requests without an answer,
-- with the row that they fill and the identifier that they ask for.
pub record Licenses : Type 0 where
  pub rows : List LicenseRow
  pub next : ℕ
  pub under_way : List (ℕ × String)

abbrev pub id_list : Option String → List String
id_list none = []
id_list (some s) = s ∷ []

unfoldable pub drop_ids : List LicenseRow → List String
drop_ids [] = []
drop_ids (r ∷ rs) = id_list r.drop ++ drop_ids rs

-- The identifiers of lists begin with this text.
abbrev pub drop_prefix : String → String
drop_prefix devid = "add_license_" <> devid <> "_"

-- The loop `for(var i = 0; ; i++)`; as many rounds as there are lists are enough.
unfoldable pub free_license : String → List LicenseRow → ℕ
unfolding free_offset drop_ids
free_license devid rs = free_offset (length (drop_ids rs)) (drop_prefix devid) (drop_ids rs) 0

-- `add_License`
unfoldable pub add_license : String → Licenses → Licenses
unfolding free_license
add_license devid l =
    let i = free_license devid l.rows in
    record {
      rows = l.rows ++ (record { object = l.next; number = i; drop = none } ∷ []);
      next = suc l.next;
      under_way = l.under_way ++ ((l.next, drop_prefix devid <> show i) ∷ []);
    }

abbrev pub fill_license : ℕ → String → LicenseRow → LicenseRow
fill_license o s r = if r.object == o then record r { drop = some s } else r

-- The answer to the first request that is left, with a list of the identifier asked for.
unfoldable pub license_answered : List (ℕ × String) → Licenses → Licenses
license_answered [] l = l
license_answered (q ∷ qs) l = record l { rows = map (fill_license q.0 q.1) l.rows; under_way = qs }

-- The link REMOVE of a row.
unfoldable pub remove_license : ℕ → List LicenseRow → List LicenseRow
remove_license o [] = []
remove_license o (r ∷ rs) = let rest = remove_license o rs in if r.object == o then rs else r ∷ rest

pub data Event : Type 0 where
  added : Event
  removed : ℕ → Event

-- A click on the button with its answer, or one on the link REMOVE of a row.
unfoldable pub on_license : String → Event → Licenses → Licenses
unfolding add_license license_answered remove_license
on_license devid added l = let after = add_license devid l in license_answered after.under_way after
on_license devid (removed o) l = record l { rows = remove_license o l.rows }

unfoldable pub on_licenses : String → List Event → Licenses → Licenses
unfolding on_license
on_licenses devid [] l = l
on_licenses devid (e ∷ es) l = on_licenses devid es (on_license devid e l)
