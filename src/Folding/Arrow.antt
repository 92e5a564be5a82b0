-- ===== src/Folding/Arrow.antt =====
-- The pictures that `swaparrows` turns.
use jazzhands.Prelude.{Bool, true, false, Option, none, some}

pub data Turn : Type 0 where
  dance : Turn
  down : Turn
  up : Turn

-- A picture is `collapse.jpg`, for `true`, or `expand.jpg`, where there is one.
unfoldable pub swaparrows : Turn → Option Bool → Option Bool
swaparrows turn none = none
swaparrows dance (some b) = some b
swaparrows down (some b) = some true
swaparrows up (some b) = some false
