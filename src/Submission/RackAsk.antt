-- ===== src/Submission/RackAsk.antt =====
-- When the form of a rack is submitted at once, and what the box has when it is checked again.
use jazzhands.Prelude.{
  ◌≡◌, ◌↔◌, refl, ap, ◌∙◌, Bool, true, false, not, ◌&&◌, ◌||◌, String, str_eq, List, [], ◌∷◌, ◌++◌,
  any, arith,
}
use jazzhands.Submission.Rack.{
  ScaryBox, RackForm, values_of, change_text, data_points, changes, warnings, nogo, ask,
  verify_rack, answer_no,
}

-- The form has two values for a point, and they differ.
abbrev pub differ : List String → Bool
differ (v ∷ w ∷ []) = not (str_eq v w)
differ vs = false

abbrev pub is_changed : RackForm → String × String → Bool
is_changed f p = differ (values_of p.0 (f.original ++ f.submitted))

abbrev pub warns : ScaryBox → Bool
warns b = b.checked && (b.rmrack || b.demonitor)

abbrev is_nil : List String → Bool
is_nil [] = true
is_nil (x ∷ xs) = false

change_text-nil :
    (label : String) (vs : List String) → is_nil (change_text label vs) ≡ not (differ vs)
unfolding change_text
change_text-nil label [] = refl
change_text-nil label (v ∷ []) = refl
change_text-nil label (v ∷ w ∷ []) = ground arith
change_text-nil label (v ∷ w ∷ x ∷ vs) = refl

nil-append : (xs ys : List String) → is_nil (xs ++ ys) ≡ is_nil xs && is_nil ys
nil-append [] ys = refl
nil-append (x ∷ xs) ys = refl

changes-nil :
    (fields : List (String × String)) (ps : List (String × String))
    → is_nil (changes fields ps) ≡ not (any (λ p. differ (values_of p.0 fields)) ps)
unfolding changes
changes-nil fields [] = refl
changes-nil fields (p ∷ ps) =
    nil-append (change_text p.1 (values_of p.0 fields)) (changes fields ps)
    ∙ ground (arith, change_text-nil p.1 (values_of p.0 fields), changes-nil fields ps)

warnings-nil : (bs : List ScaryBox) → is_nil (warnings bs) ≡ not (any warns bs)
unfolding warnings
warnings-nil [] = refl
warnings-nil (b ∷ bs) = ground (arith, warnings-nil bs)

ask-nil : (ms : List String) (f : RackForm) → (ask ms f).1 ≡ is_nil ms
unfolding ask
ask-nil [] f = refl
ask-nil (m ∷ ms) f = refl

-- The form of a rack is submitted at once exactly if no point of the rack has two values that
-- differ, and no checked box retires the rack or takes it out of monitoring.
pub rack_submits_iff :
    (f : RackForm)
    → ((verify_rack f).1 ≡ true)
      ↔ ((any (is_changed f) data_points ≡ false) × (any warns f.boxes ≡ false))
unfolding verify_rack nogo
rack_submits_iff f =
    let all_points = changes (f.original ++ f.submitted) data_points in
    let e = ask-nil (all_points ++ warnings f.boxes) f ∙ nil-append all_points (warnings f.boxes) in
    ground (arith, e, changes-nil (f.original ++ f.submitted) data_points, warnings-nil f.boxes)

lines_again :
    (ms : List String) (f : RackForm)
    → (ask ms f).1 ≡ false
    → (ask ms (ask ms f).0).0.lines
      ≡ (f.lines ++ (ask ms (answer_no f)).0.lines) ++ (ask ms (answer_no f)).0.lines
unfolding ask answer_no
lines_again [] f h = absurd (ground arith)
lines_again (m ∷ ms) f h = refl

ask-nogo : (ms : List String) (f : RackForm) → nogo (ask ms f).0 ≡ nogo f
unfolding ask nogo
ask-nogo [] f = refl
ask-nogo (m ∷ ms) f = refl

-- Where a form is not submitted, and is checked again before the question is answered, the box
-- has the lines of the question twice; "No" takes all lines away.
pub rack_lines_again :
    (f : RackForm)
    → (verify_rack f).1 ≡ false
    → (verify_rack (verify_rack f).0).0.lines
      ≡ (f.lines ++ (verify_rack (answer_no f)).0.lines) ++ (verify_rack (answer_no f)).0.lines
unfolding verify_rack answer_no
rack_lines_again f h =
    ap (λ ms. (ask ms (ask (nogo f) f).0).0.lines) (ask-nogo (nogo f) f) ∙ lines_again (nogo f) f h
