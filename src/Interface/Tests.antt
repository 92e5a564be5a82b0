-- ===== src/Interface/Tests.antt =====
-- Runs of the toggle buttons, and the theorems at concrete trees.
use jazzhands.Prelude.{modify, ◌≡◌, refl, true, false, [], ◌∷◌, none, some, suc}
use jazzhands.Interface.States.{
  dns_record, Mode, update, delete, unlink, lock, is_state, rejected, settle, rounds, settle_total,
  requested, next,
}
use jazzhands.Interface.Group.{Group, Field, shown, new, step, new_state, set_group, has_change}
use jazzhands.Interface.Tree.{
  Interface, on_interface, on_netblock, on_record, click, load, update_interface, update_netblock,
  update_record, child_override,
}
use jazzhands.Interface.Consistency.{IsConsistent, click-IsConsistent}
use jazzhands.Interface.Effects.{AllIsDeleted, click_update-AllIsDeleted, states, states-load}

abbrev plain : Field
plain = record { tracked = true; changed = false; disabled = false; marks = [] }

abbrev group_in : Mode → Group
group_in m = record {
  button = record { state = m; label = shown m; marks = [] };
  fields = plain ∷ [];
}

abbrev edited : Mode → Group
edited m = record {
  button = record { state = m; label = new; marks = [] };
  fields = record plain { changed = true } ∷ [];
}

abbrev sample : Interface
sample = record {
  group = group_in update;
  netblocks =
      record { group = edited update; records = group_in update ∷ [] }
      ∷ record { group = group_in unlink; records = group_in delete ∷ group_in update ∷ [] }
      ∷ [];
}

sample-IsConsistent : IsConsistent sample
unfolding is_state rejected
sample-IsConsistent = record {
  own = record { known = refl; allowed = refl };
  below = (
    record {
      own = record { known = refl; allowed = refl };
      below = (record { known = refl; allowed = refl }, tt);
    },
    (
      record {
        own = record { known = refl; allowed = refl };
        below = (
          record { known = refl; allowed = refl },
          (record { known = refl; allowed = refl }, tt),
        );
      },
      tt,
    ),
  );
}

-- A netblock under a deleted interface goes from `delete` to `unlink`, and its records are updated.
click_below_deleted :
    states (click (on_netblock 0) (click on_interface sample))
    ≡ (delete, (unlink, update ∷ []) ∷ (delete, delete ∷ delete ∷ []) ∷ [])
unfolding click update_interface update_netblock update_record modify step new_state set_group
    settle requested next rejected is_state has_change child_override
click_below_deleted = refl

settle_total_example :
    (settle (suc (suc (suc 4))) dns_record (some update) false lock
      ≡ settle rounds dns_record (some update) false lock)
    × (rejected (some update) false (settle rounds dns_record (some update) false lock) ≡ false)
settle_total_example = settle_total 4 dns_record (some update) false lock

click-IsConsistent_example : IsConsistent (click (on_record 0 0) sample)
click-IsConsistent_example = click-IsConsistent (on_record 0 0) sample sample-IsConsistent

click_update-AllIsDeleted_example : AllIsDeleted (update_interface none true sample)
click_update-AllIsDeleted_example = click_update-AllIsDeleted sample refl

states-load_example : states (load sample) ≡ states sample
states-load_example = states-load sample sample-IsConsistent
