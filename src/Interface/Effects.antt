-- ===== src/Interface/Effects.antt =====
-- What a click and the loading of a tab do to the whole tree.
use jazzhands.Prelude.{
  ◌≡◌, refl, sym, ap₂, subst, true, false, List, [], ◌∷◌, Option, none, some, map, All,
}
use jazzhands.Interface.States.{
  Level, network_interface, netblock, dns_record, Mode, update, delete, next, is_state, requested,
  settle_allowed, delete_allowed,
}
use jazzhands.Interface.Group.{
  Group, Shows, state, parent_state, has_change, step, set_group, new_state, set_group-Shows,
  has_change-set_group,
}
use jazzhands.Interface.Tree.{
  Netblock, Interface, child_override, update_record, update_netblock, update_interface,
  load_record, load_netblock, load,
}
use jazzhands.Interface.Consistency.{rejected-compatible, Fits, FitsNetblock, IsConsistent, All-map}

-- The elements of a level are marked for deletion: the button has the state, and every field is
-- disabled and has the class.
pub record IsDeleted (g : Group) : Type 0 where
  pub deleted : state g ≡ delete
  pub shown : All (Shows delete) g.fields

pub record NetblockIsDeleted (b : Netblock) : Type 0 where
  pub own : IsDeleted b.group
  pub below : All IsDeleted b.records

pub record AllIsDeleted (i : Interface) : Type 0 where
  pub own : IsDeleted i.group
  pub below : All NetblockIsDeleted i.netblocks

set_group-IsDeleted : (m : Mode) (g : Group) → m ≡ delete → IsDeleted (set_group m g)
unfolding set_group
set_group-IsDeleted m g e = record {
  deleted = e;
  shown = subst (λ k. All (Shows k) (set_group m g).fields) e (set_group-Shows m g);
}

new_state_delete :
    (l : Level) (parent : Option Group) (g : Group)
    → is_state l delete ≡ true
    → new_state l parent (some delete) g ≡ delete
unfolding new_state requested
new_state_delete l parent g h =
    rw h (settle_allowed l (parent_state parent) (has_change parent) delete (delete_allowed _ _))

module _ (l : Level) (parent : Option Group) (g : Group) (h : is_state l delete ≡ true) where
  step-IsDeleted : IsDeleted (step l parent (some delete) g)
  unfolding step
  step-IsDeleted = set_group-IsDeleted _ g (new_state_delete l parent g h)

  -- A parent that was deleted passes `delete` on.
  step_passed-IsDeleted : (m : Mode) → m ≡ delete → IsDeleted (step l parent (child_override m) g)
  unfolding child_override
  step_passed-IsDeleted m e =
      subst (λ k. IsDeleted (step l parent (child_override k) g)) (sym e) step-IsDeleted

netblock_passed-IsDeleted :
    (parent : Group) (m : Mode) (b : Netblock)
    → m ≡ delete
    → NetblockIsDeleted (update_netblock parent (child_override m) true b)
unfolding update_netblock update_record is_state
netblock_passed-IsDeleted parent m b e =
    let g = step netblock (some parent) (child_override m) b.group in
    let own = step_passed-IsDeleted netblock (some parent) b.group refl m e in
    record {
      own = own;
      below =
          All-map _ (update_record g (child_override (state g)))
            (λ r. step_passed-IsDeleted dns_record (some g) r refl (state g) own.deleted) b.records;
    }

-- A click on an interface that is not marked for deletion, with its known state, marks the
-- interface and all that is below it for deletion: every button has the state `delete`, and every
-- field is disabled and has the class `marked_for_delete`.
pub click_update-AllIsDeleted :
    (i : Interface) → state i.group ≡ update → AllIsDeleted (update_interface none true i)
unfolding update_interface step new_state requested next is_state has_change
click_update-AllIsDeleted i e =
    let g = step network_interface none none i.group in
    let own =
      set_group-IsDeleted (new_state network_interface none none i.group) i.group
        (rw (e, next) (settle_allowed network_interface none false delete (delete_allowed _ _))) in
    record {
      own = own;
      below =
          All-map _ (update_netblock g (child_override (state g)) true)
            (λ b. netblock_passed-IsDeleted g (state g) b own.deleted) i.netblocks;
    }

-- The states of the buttons of a tree.
abbrev pub netblock_states : Netblock → Mode × List Mode
netblock_states b = (state b.group, map state b.records)

abbrev pub states : Interface → Mode × List (Mode × List Mode)
states i = (state i.group, map netblock_states i.netblocks)

new_state_own :
    (l : Level) (parent : Option Group) (g : Group)
    → Fits l parent g
    → new_state l parent (some (state g)) g ≡ state g
unfolding new_state requested
new_state_own l parent g h = rw h.known (
    settle_allowed l (parent_state parent) (has_change parent) (state g)
      ((rejected-compatible (parent_state parent) (has_change parent) (state g)).1 h.allowed))

-- The function with the button's own state for override keeps the state of a button that fits, and
-- what the children look at.
module _ (l : Level) (parent : Option Group) (g : Group) (h : Fits l parent g) where
  kept : Group
  kept = step l parent (some (state g)) g

  kept_state : state kept ≡ state g
  unfolding kept step
  kept_state = new_state_own l parent g h

  kept_change : has_change (some kept) ≡ has_change (some g)
  unfolding kept step
  kept_change = has_change-set_group (new_state l parent (some (state g)) g) g

Fits-same :
    (l : Level) (p q g : Group)
    → state p ≡ state q
    → has_change (some p) ≡ has_change (some q)
    → Fits l (some q) g
    → Fits l (some p) g
Fits-same l p q g e f h = record { known = h.known; allowed = rw (f, e) h.allowed }

load_records :
    (p q : Group)
    → state p ≡ state q
    → has_change (some p) ≡ has_change (some q)
    → (rs : List Group) → All (Fits dns_record (some q)) rs
    → map state (map (load_record p) rs) ≡ map state rs
load_records p q e f [] h = refl
load_records p q e f (r ∷ rs) h =
    ap₂ ◌∷◌
      (unfold load_record update_record kept in
        kept_state dns_record (some p) r (Fits-same dns_record p q r e f h.0))
      (load_records p q e f rs h.1)

load_netblock_states :
    (p q : Group) (b : Netblock)
    → state p ≡ state q
    → has_change (some p) ≡ has_change (some q)
    → FitsNetblock q b
    → netblock_states (load_netblock p b) ≡ netblock_states b
unfolding load_netblock update_netblock kept
load_netblock_states p q b e f h =
    let fits = Fits-same netblock p q b.group e f h.own in
    ap₂ (λ m ms. (m, ms)) (kept_state netblock (some p) b.group fits)
      (load_records _ b.group (kept_state netblock (some p) b.group fits)
        (kept_change netblock (some p) b.group fits) b.records h.below)

load_netblocks :
    (p q : Group)
    → state p ≡ state q
    → has_change (some p) ≡ has_change (some q)
    → (bs : List Netblock) → All (FitsNetblock q) bs
    → map netblock_states (map (load_netblock p) bs) ≡ map netblock_states bs
load_netblocks p q e f [] h = refl
load_netblocks p q e f (b ∷ bs) h =
    ap₂ ◌∷◌ (load_netblock_states p q b e f h.0) (load_netblocks p q e f bs h.1)

-- Loading a tab whose buttons are consistent keeps every state: what the last click left is what
-- the page shows again.
pub states-load : (i : Interface) → IsConsistent i → states (load i) ≡ states i
unfolding load update_interface kept
states-load i h =
    ap₂ (λ m ms. (m, ms)) (kept_state network_interface none i.group h.own)
      (load_netblocks _ i.group (kept_state network_interface none i.group h.own)
        (kept_change network_interface none i.group h.own) i.netblocks h.below)
