-- ===== src/Submission/Stale.antt =====
-- A form that is checked again after its toggle buttons changed.
use jazzhands.Prelude.{◌≡◌, Bool-cases, inl, inr, String, some, List, [], ◌∷◌, ◌++◌, arith}
use jazzhands.Submission.Device.{Form, lookup, verify_device}

lookup-append :
    (n v : String) (ps qs : List (String × String))
    → lookup n ps ≡ some v
    → lookup n (ps ++ qs) ≡ some v
unfolding lookup
lookup-append n v [] qs h = absurd (ground arith)
lookup-append n v (p ∷ ps) qs h = ground (arith, lookup-append n v ps qs)

-- A check keeps the first value under a name.
verify_device-lookup :
    (f : Form) (n v : String)
    → lookup n f.hidden ≡ some v
    → lookup n (verify_device f).0.hidden ≡ some v
unfolding verify_device
verify_device-lookup f n v h = elim (Bool-cases f.dont_submit) [
  | inl d ↦ rw d h
  | inr d ↦ rw d (lookup-append n v f.hidden f.toggles h)
]

-- Where a form was checked and a toggle button has its state in a hidden field, and then the
-- buttons change in any way and the form is checked again, the first hidden field with the
-- button's name still has the state that the button had at the first check.
pub stale_toggle :
    (f : Form) (toggles : List (String × String)) (n v : String)
    → lookup n (verify_device f).0.hidden ≡ some v
    → lookup n (verify_device (record (verify_device f).0 { toggles = toggles })).0.hidden ≡ some v
stale_toggle f toggles n v h =
    verify_device-lookup (record (verify_device f).0 { toggles = toggles }) n v h
