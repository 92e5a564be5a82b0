-- ===== src/Interface/Consistency.antt =====
-- After any click the states of the buttons fit together.
use jazzhands.Prelude.{
  Bool, ◌↔◌, modify, ℕ, zero, suc, ◌≡◌, true, false, List, [], ◌∷◌, Option, none, some, map, All,
  arith,
}
use jazzhands.Interface.States.{
  delete, update, lock, unlink, Level, network_interface, netblock, dns_record, Mode, is_state,
  rejected, requested, settle_total, settle_state, requested_state,
}
use jazzhands.Interface.Group.{Group, state, parent_state, has_change, step}
use jazzhands.Interface.Tree.{
  Netblock, Interface, child_override, update_record, update_netblock, update_interface, Click,
  on_interface, on_netblock, on_record, click,
}

-- The states that fit a parent with this state, where the elements of its level have a change or
-- not: under a deleted parent neither `update` nor `lock`, under an unlinked one not `lock`, and
-- `lock` only with a change.
abbrev pub compatible : Option Mode → Bool → Mode → Bool
compatible (some delete) changed update = false
compatible (some delete) changed lock = false
compatible (some unlink) changed lock = false
compatible parent changed lock = changed
compatible parent changed m = true

pub rejected-compatible :
    (parent : Option Mode) (changed : Bool) (m : Mode)
    → (rejected parent changed m ≡ false) ↔ (compatible parent changed m ≡ true)
unfolding rejected
rejected-compatible parent changed m = ground arith

-- The state is one of its level's, and it fits the parent.
pub record Fits (l : Level) (parent : Option Group) (g : Group) : Type 0 where
  pub known : is_state l (state g) ≡ true
  pub allowed : compatible (parent_state parent) (has_change parent) (state g) ≡ true

pub record FitsNetblock (parent : Group) (b : Netblock) : Type 0 where
  pub own : Fits netblock (some parent) b.group
  pub below : All (Fits dns_record (some b.group)) b.records

-- Every toggle of the tree of an interface fits its parent.
pub record IsConsistent (i : Interface) : Type 0 where
  pub own : Fits network_interface none i.group
  pub below : All (FitsNetblock i.group) i.netblocks

module _ {ℓ κ} {A : Type ℓ} (P : A → Type κ) (f : A → A) where
  pub All-map : ((x : A) → P (f x)) → (xs : List A) → All P (map f xs)
  All-map h [] = tt
  All-map h (x ∷ xs) = (h x, All-map h xs)

  All-modify : ((x : A) → P x → P (f x)) → (n : ℕ) (xs : List A) → All P xs → All P (modify f n xs)
  unfolding modify
  All-modify h n [] k = k
  All-modify h zero (x ∷ xs) k = (h x k.0, k.1)
  All-modify h (suc n) (x ∷ xs) k = (k.0, All-modify h n xs k.1)

step-Fits :
    (l : Level) (parent : Option Group) (override : Option Mode) (g : Group)
    → is_state l (requested l override (state g)) ≡ true
    → Fits l parent (step l parent override g)
unfolding step
step-Fits l parent override g h =
    let m = requested l override (state g) in
    record {
      known = settle_state l (parent_state parent) (has_change parent) m h;
      allowed =
          (rejected-compatible (parent_state parent) (has_change parent) _).0
            (settle_total 0 l (parent_state parent) (has_change parent) m).1;
    }

-- What a netblock passes on is a state of its DNS records, and so for an interface.
record_override :
    (m c : Mode)
    → is_state netblock m ≡ true
    → is_state dns_record (requested dns_record (child_override m) c) ≡ true
unfolding child_override requested
record_override m c h = ground arith

netblock_override :
    (m c : Mode)
    → is_state network_interface m ≡ true
    → is_state netblock (requested netblock (child_override m) c) ≡ true
unfolding child_override requested
netblock_override m c h = ground arith

update_netblock-Fits :
    (parent : Group) (override : Option Mode) (b : Netblock)
    → is_state netblock (requested netblock override (state b.group)) ≡ true
    → FitsNetblock parent (update_netblock parent override true b)
unfolding update_netblock update_record
update_netblock-Fits parent override b h =
    let own = step-Fits netblock (some parent) override b.group h in
    let g = step netblock (some parent) override b.group in
    record {
      own = own;
      below =
          All-map _ (update_record g (child_override (state g)))
            (λ r. step-Fits dns_record (some g) _ r (record_override (state g) (state r) own.known))
            b.records;
    }

pub update_interface-IsConsistent :
    (override : Option Mode) (i : Interface)
    → is_state network_interface (requested network_interface override (state i.group)) ≡ true
    → IsConsistent (update_interface override true i)
unfolding update_interface
update_interface-IsConsistent override i h =
    let own = step-Fits network_interface none override i.group h in
    let g = step network_interface none override i.group in
    record {
      own = own;
      below =
          All-map _ (update_netblock g (child_override (state g)) true)
            (λ b.
              update_netblock-Fits g _ b (netblock_override (state g) (state b.group) own.known))
            i.netblocks;
    }

click_known :
    (l : Level) (g : Group)
    → is_state l (state g) ≡ true
    → is_state l (requested l none (state g)) ≡ true
click_known l g h = requested_state l none (state g) h (λ o e. cc)

click_record-Fits :
    (parent : Group) (k : ℕ) (b : Netblock)
    → FitsNetblock parent b
    → FitsNetblock parent (record b { records = modify (update_record b.group none) k b.records })
unfolding update_record
click_record-Fits parent k b h = record {
  own = h.own;
  below =
      All-modify _ (update_record b.group none)
        (λ r fits. step-Fits dns_record (some b.group) none r (click_known dns_record r fits.known))
        k b.records h.below;
}

-- A click on any button of a consistent tree, with all the calls that it propagates, leaves a
-- consistent tree: every state is one of its level's, no child is `update` or `lock` under a
-- deleted parent nor `lock` under an unlinked one, and a locked child has a changed field in its
-- parent.
pub click-IsConsistent : (c : Click) (i : Interface) → IsConsistent i → IsConsistent (click c i)
unfolding click
click-IsConsistent on_interface i h =
    update_interface-IsConsistent none i (click_known network_interface i.group h.own.known)
click-IsConsistent (on_netblock n) i h = record {
  own = h.own;
  below =
      All-modify _ (update_netblock i.group none true)
        (λ b fits.
          update_netblock-Fits i.group none b (click_known netblock b.group fits.own.known))
        n i.netblocks h.below;
}
click-IsConsistent (on_record n k) i h = record {
  own = h.own;
  below = All-modify _ _ (click_record-Fits i.group k) n i.netblocks h.below;
}
