-- ===== src/Interface/Group.antt =====
-- The elements of one level that share their identifiers: the toggle button and the fields, and the
-- part of `updateNetworkInterfaceUI` that sets them.
use jazzhands.Prelude.{
  ◌≡◌, refl, ap, Bool, true, false, ◌&&◌, ◌||◌, List, [], ◌∷◌, map, Option, none, some, arith, any,
  if◌then◌else◌, All,
}
use jazzhands.Interface.States.{
  Level, Mode, delete, mode_eq, requested, settle, rounds, mode_eq_iff,
}

-- The text of a button: `new` stays, and any other text shows the state.
pub data Label : Type 0 where
  new : Label
  shown : Mode → Label

-- `marks` are the classes `marked_for_*`.
pub record Button : Type 0 where
  pub state : Mode
  pub label : Label
  pub marks : List Mode

pub record Field : Type 0 where
  pub tracked : Bool
  pub changed : Bool
  pub disabled : Bool
  pub marks : List Mode

pub record Group : Type 0 where
  pub button : Button
  pub fields : List Field

abbrev pub state : Group → Mode
state g = g.button.state

-- `classList.contains`, `classList.remove` and `classList.add` on the marks
unfoldable pub marked : Mode → List Mode → Bool
marked m [] = false
marked m (n ∷ ns) = if mode_eq n m then true else marked m ns

unmark : Mode → List Mode → List Mode
unmark m [] = []
unmark m (n ∷ ns) = let rest = unmark m ns in if mode_eq n m then rest else n ∷ rest

mark : Mode → List Mode → List Mode
unfolding marked
mark m ns = if marked m ns then ns else m ∷ ns

unfoldable pub remark : Mode → Mode → List Mode → List Mode
unfolding unmark mark
remark old new_mode ns = mark new_mode (unmark old ns)

unfoldable pub set_label : Label → Mode → Label
set_label new m = new
set_label (shown _) m = shown m

unfoldable pub set_field : Mode → Mode → Field → Field
set_field old m f = record f { disabled = mode_eq m delete; marks = remark old m f.marks }

unfoldable pub set_button : Mode → Mode → Button → Button
set_button old m b = record { state = m; label = set_label b.label m; marks = remark old m b.marks }

-- The elements of the level after the change to the state `m`.
unfoldable pub set_group : Mode → Group → Group
unfolding set_button set_field
set_group m g = record {
  button = set_button (state g) m g.button;
  fields = map (set_field (state g) m) g.fields;
}

-- A tracked element of the parent's level has the class `changed`.
unfoldable pub has_change : Option Group → Bool
has_change none = false
has_change (some p) = any (λ f. f.tracked && f.changed) p.fields

abbrev pub parent_state : Option Group → Option Mode
parent_state none = none
parent_state (some p) = some (state p)

-- The new state of a button, from the override or the table, and made compatible with the parent.
unfoldable pub new_state : Level → Option Group → Option Mode → Group → Mode
new_state l parent override g =
    settle rounds l (parent_state parent) (has_change parent) (requested l override (state g))

unfoldable pub step : Level → Option Group → Option Mode → Group → Group
unfolding new_state set_group
step l parent override g = set_group (new_state l parent override g) g

marked-unmark :
    (m n : Mode) (ns : List Mode)
    → marked n (unmark m ns) ≡ (if mode_eq m n then false else marked n ns)
unfolding marked unmark
marked-unmark m n [] = ground arith
marked-unmark m n (k ∷ ns) =
    ground (arith, marked-unmark m n ns, mode_eq_iff k m, mode_eq_iff k n, mode_eq_iff m n)

marked-mark :
    (m n : Mode) (ns : List Mode)
    → marked n (mark m ns) ≡ (if mode_eq m n then true else marked n ns)
unfolding marked mark
marked-mark m n ns = ground (arith, mode_eq_iff m n)

-- After the change the new mark is there, and the old one is gone unless it is the same.
pub marked-remark :
    (old m n : Mode) (ns : List Mode)
    → marked n (remark old m ns)
      ≡ (if mode_eq m n then true else if mode_eq old n then false else marked n ns)
unfolding remark
marked-remark old m n ns = rw (marked-mark m n (unmark old ns), marked-unmark old n ns) refl

-- What a field shows of the state of its level.
pub record Shows (m : Mode) (f : Field) : Type 0 where
  pub disabled_lem : f.disabled ≡ mode_eq m delete
  pub marked_lem : marked m f.marks ≡ true

set_field-Shows : (old m : Mode) (f : Field) → Shows m (set_field old m f)
unfolding set_field
set_field-Shows old m f = record {
  disabled_lem = refl;
  marked_lem = ground (arith, marked-remark old m m f.marks, mode_eq_iff m m);
}

fields-Shows : (old m : Mode) (fs : List Field) → All (Shows m) (map (set_field old m) fs)
fields-Shows old m [] = tt
fields-Shows old m (f ∷ fs) = (set_field-Shows old m f, fields-Shows old m fs)

pub set_group-Shows : (m : Mode) (g : Group) → All (Shows m) (set_group m g).fields
unfolding set_group
set_group-Shows m g = fields-Shows (state g) m g.fields

-- Setting the state does not touch what the children look at: which fields are changed.
pub has_change-set_group :
    (m : Mode) (g : Group) → has_change (some (set_group m g)) ≡ has_change (some g)
unfolding set_group has_change set_field
has_change-set_group m g = go g.fields
  where
    go :
        (fs : List Field)
        → any (λ f. f.tracked && f.changed) (map (set_field (state g) m) fs)
          ≡ any (λ f. f.tracked && f.changed) fs
    go [] = refl
    go (f ∷ fs) = ap (λ b. f.tracked && f.changed || b) (go fs)
