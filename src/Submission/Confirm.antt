-- ===== src/Submission/Confirm.antt =====
-- When a form is submitted at once.
use jazzhands.Prelude.{
  ◌≡◌, ◌↔◌, refl, Bool, true, false, not, ◌&&◌, String, none, some, List, [], ◌∷◌, any, arith,
}
use jazzhands.Submission.Names.{removal_of}
use jazzhands.Submission.Device.{
  Element, Form, close_box, removals, removal_message, is_checked, messages, refusals,
  conflict_text, box_for, verify_device,
}

-- A checked box whose name asks for the removal of an interface.
abbrev pub asks_removal : Element → Bool
asks_removal e =
    e.is_checkbox && e.checked && (elim (removal_of e.name) [ none ↦ false | some g ↦ true ])

abbrev is_nil : List String → Bool
is_nil [] = true
is_nil (x ∷ xs) = false

removals-nil :
    (names : List (String × String)) (es : List Element)
    → is_nil (removals names es) ≡ not (any asks_removal es)
unfolding removals removal_message
removals-nil names [] = refl
removals-nil names (e ∷ es) = ground (arith, removals-nil names es)

-- The form is submitted at once exactly if nothing has kept it from being submitted, no checked box
-- asks for the removal of an interface, and neither the reset of the ports nor the retirement of
-- the device is checked.
pub submits_iff :
    (f : Form)
    → ((verify_device f).1 ≡ true) ↔ (
        (f.dont_submit ≡ false)
        × (any asks_removal f.elements ≡ false)
        × (is_checked f.port_reset ≡ false)
        × (is_checked f.retire ≡ false))
unfolding verify_device messages refusals box_for
submits_iff f = ground (arith, removals-nil f.interface_names f.elements)

-- Where both the retirement and the reset of the ports are checked, and nothing has kept the form
-- from being submitted, it is not submitted, and the box has this refusal alone and no button that
-- submits the form, whatever else is checked.
pub conflict_blocks :
    (f : Form)
    → f.dont_submit ≡ false
    → is_checked f.retire ≡ true
    → is_checked f.port_reset ≡ true
    → ((verify_device f).1 ≡ false) × ((verify_device f).0.box ≡ close_box (conflict_text ∷ []))
unfolding verify_device refusals box_for
conflict_blocks f d r p = rw (d, r, p) (refl, refl)
