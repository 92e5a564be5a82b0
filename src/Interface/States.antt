-- ===== src/Interface/States.antt =====
-- The object `states` and the loop of `updateNetworkInterfaceUI` that looks for a state that is
-- compatible with the parent's.
use jazzhands.Prelude.{
  ℕ, zero, suc, ◌≡◌, ◌↔◌, refl, Bool, true, false, not, ◌&&◌, ◌||◌, Option, none, some, arith, ◌==◌,
  if◌then◌else◌,
}

pub data Level : Type 0 where
  network_interface netblock dns_record : Level

-- The attribute `state`. `undefined` is what the table gives for a key that it does not have.
pub data Mode : Type 0 where
  update delete unlink lock undefined : Mode

abbrev pub rank : Mode → ℕ
rank update = 0
rank delete = 1
rank unlink = 2
rank lock = 3
rank undefined = 4

-- `===` on states
unfoldable pub mode_eq : Mode → Mode → Bool
mode_eq a b = rank a == rank b

-- `states[level][state]`
unfoldable pub next : Level → Mode → Mode
next network_interface update = delete
next network_interface delete = update
next netblock update = unlink
next netblock unlink = delete
next netblock delete = update
next dns_record update = lock
next dns_record lock = delete
next dns_record delete = update
next network_interface _ = undefined
next netblock _ = undefined
next dns_record _ = undefined

-- The state is a key of `states[level]`, which are also its values.
unfoldable pub is_state : Level → Mode → Bool
unfolding mode_eq
is_state network_interface m = mode_eq m update || mode_eq m delete
is_state netblock m = mode_eq m update || mode_eq m unlink || mode_eq m delete
is_state dns_record m = mode_eq m update || mode_eq m lock || mode_eq m delete

-- The new state before the check against the parent. The override `''` is `none`.
unfoldable pub requested : Level → Option Mode → Mode → Mode
unfolding next is_state
requested l none current = next l current
requested l (some override) current = if is_state l override then override else undefined

-- One round of the check. `parent` is `strParentState`, and `changed` tells whether an element of
-- the parent's level has the class `changed`.
unfoldable pub rejected : Option Mode → Bool → Mode → Bool
unfolding mode_eq
rejected none changed m = mode_eq m lock && not changed
rejected (some parent) changed m =
    if mode_eq parent delete && mode_eq m update
    then true
    else if mode_eq parent delete && mode_eq m lock
    then true
    else if mode_eq parent unlink && mode_eq m lock
    then true
    else mode_eq m lock && not changed

-- `while( ! bOk )`: the next state of the table is tried until one is compatible.
unfoldable pub settle : ℕ → Level → Option Mode → Bool → Mode → Mode
settle zero l parent changed m = m
settle (suc fuel) l parent changed m = elim (rejected parent changed m) [
  | true ↦ settle fuel l parent changed (next l m)
  | false ↦ m
]

-- The loop looks at three states at most, so this many rounds of fuel are enough.
abbrev pub rounds : ℕ
rounds = 3

-- From any state, at any level and under any parent, the loop ends: with more fuel than `rounds`
-- the result is the same, and the parent does not reject it.
pub settle_total :
    (fuel : ℕ) (l : Level) (parent : Option Mode) (changed : Bool) (m : Mode)
    → (settle (suc (suc (suc fuel))) l parent changed m ≡ settle rounds l parent changed m)
      × (rejected parent changed (settle rounds l parent changed m) ≡ false)
unfolding settle rejected next
settle_total fuel l parent changed m = ground arith

pub settle_state :
    (l : Level) (parent : Option Mode) (changed : Bool) (m : Mode)
    → is_state l m ≡ true
    → is_state l (settle rounds l parent changed m) ≡ true
unfolding settle rejected next is_state
settle_state l parent changed m h = ground arith

pub requested_state :
    (l : Level) (override : Option Mode) (m : Mode)
    → is_state l m ≡ true
    → ((o : Mode) → override ≡ some o → is_state l o ≡ true)
    → is_state l (requested l override m) ≡ true
unfolding requested
requested_state l none m h k = ground arith
requested_state l (some o) m h k = ground (arith, k o)

pub mode_eq_iff : (a b : Mode) → (mode_eq a b ≡ true) ↔ (a ≡ b)
unfolding mode_eq
mode_eq_iff a b = ground arith

-- A state that the parent does not reject is kept, and no parent rejects `delete`.
pub settle_allowed :
    (l : Level) (parent : Option Mode) (changed : Bool) (m : Mode)
    → rejected parent changed m ≡ false
    → settle rounds l parent changed m ≡ m
unfolding settle
settle_allowed l parent changed m h = rw (h, settle) refl

pub delete_allowed :
    (parent : Option Mode) (changed : Bool) → rejected parent changed delete ≡ false
unfolding rejected
delete_allowed parent changed = ground arith
