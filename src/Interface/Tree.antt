-- ===== src/Interface/Tree.antt =====
-- `updateNetworkInterfaceUI` on the elements of one network interface, with the calls for the child
-- toggles, and the clicks on the buttons of its tree.
use jazzhands.Prelude.{modify, ℕ, Bool, true, false, List, Option, none, some, map}
use jazzhands.Interface.States.{
  network_interface, netblock, dns_record, Mode, update, delete, unlink, lock, undefined,
}
use jazzhands.Interface.Group.{Group, state, step}

pub record Netblock : Type 0 where
  pub group : Group
  pub records : List Group

pub record Interface : Type 0 where
  pub group : Group
  pub netblocks : List Netblock

-- The override that the children get: `unlink` is passed on as `update`. The argument `undefined`
-- stands for a missing one, whose default is no override.
unfoldable pub child_override : Mode → Option Mode
child_override unlink = some update
child_override undefined = none
child_override update = some update
child_override delete = some delete
child_override lock = some lock

-- The function on the elements of a DNS record, which have no child toggles.
unfoldable pub update_record : Group → Option Mode → Group → Group
update_record parent override r = step dns_record (some parent) override r

-- The function on the elements of a netblock.
unfoldable pub update_netblock : Group → Option Mode → Bool → Netblock → Netblock
update_netblock parent override propagate b =
    let g = step netblock (some parent) override b.group in
    record {
      group = g;
      records = elim propagate [
        | true ↦ map (update_record g (child_override (state g))) b.records
        | false ↦ b.records
      ];
    }

-- The function on the elements of a network interface, which has no parent toggle.
unfoldable pub update_interface : Option Mode → Bool → Interface → Interface
update_interface override propagate i =
    let g = step network_interface none override i.group in
    record {
      group = g;
      netblocks = elim propagate [
        | true ↦ map (update_netblock g (child_override (state g)) true) i.netblocks
        | false ↦ i.netblocks
      ];
    }

-- A button of the tree, by the positions of its netblock and of its record.
pub data Click : Type 0 where
  on_interface : Click
  on_netblock : ℕ → Click
  on_record : ℕ → ℕ → Click

-- The handler of a click calls the function with no override, and with propagation.
unfoldable pub click : Click → Interface → Interface
click on_interface i = update_interface none true i
click (on_netblock n) i = record i {
  netblocks = modify (update_netblock i.group none true) n i.netblocks;
}
click (on_record n k) i = record i {
  netblocks =
      modify (λ b. record b { records = modify (update_record b.group none) k b.records }) n
        i.netblocks;
}

-- When a tab is loaded, the function is called for every button with its own state for override,
-- and without propagation.
unfoldable pub load_record : Group → Group → Group
load_record parent r = update_record parent (some (state r)) r

unfoldable pub load_netblock : Group → Netblock → Netblock
load_netblock parent b =
    let b' = update_netblock parent (some (state b.group)) false b in
    record b' { records = map (load_record b'.group) b'.records }

unfoldable pub load : Interface → Interface
load i =
    let i' = update_interface (some (state i.group)) false i in
    record i' { netblocks = map (load_netblock i'.group) i'.netblocks }
