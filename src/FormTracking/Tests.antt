-- ===== src/FormTracking/Tests.antt =====
-- Runs of the change tracking, and the theorems at concrete pages.
use jazzhands.Prelude.{
  subst, some_inj, last_part, ℕ, zero, suc, ◌≡◌, refl, Bool, true, false, not, none, some, List, [],
  ◌∷◌, map, get_elem?, split,
}
use jazzhands.FormTracking.Elements.{Control, select, radio, checkbox, input, Element, update_all}
use jazzhands.FormTracking.Status.{IsGrouped}
use jazzhands.FormTracking.Pass.{update_all_visited}
use jazzhands.FormTracking.Submit.{Hidden, collect}
use jazzhands.FormTracking.Reset.{
  Page, ResetsControls, default_choice, reset_form, has_pending_changes,
}
use jazzhands.FormTracking.Reset.Clean.{IsPlain, reset_form_clean}

abbrev text_field : Element
text_field = record {
  name = "DNS_NAME_12";
  original = some "www";
  tracked = true;
  changed = true;
  control = input "mail" "mail";
  form = 1;
  row = some 0;
}

abbrev type_choice : Bool → Element
type_choice moved = record {
  name = "DNS_TYPE_12";
  original = none;
  tracked = true;
  changed = moved;
  control = select (
      record { value = "A"; selected = not moved; default_selected = true }
      ∷ record { value = "CNAME"; selected = moved; default_selected = false }
      ∷ []);
  form = 1;
  row = some 0;
}

abbrev ptr_box : Element
ptr_box = record {
  name = "PTR_12";
  original = none;
  tracked = true;
  changed = true;
  control = checkbox true false;
  form = 1;
  row = some 0;
}

abbrev page : List Element
page = text_field ∷ type_choice true ∷ ptr_box ∷ []

submitted : (collect [] [] page) ≡ ("DNS_NAME_12" ∷ "DNS_TYPE_12" ∷ "PTR_12" ∷ [], "12" ∷ [])
unfolding collect split last_part
submitted = refl

page_groups : (j : ℕ) (a : Element) → get_elem? page j ≡ some a → IsGrouped (λ _. false) a
unfolding IsGrouped
page_groups zero a h = subst (IsGrouped (λ _. false)) (some_inj _ a h) (λ e. cc)
page_groups (suc zero) a h = subst (IsGrouped (λ _. false)) (some_inj _ a h) (λ e. cc)
page_groups (suc (suc zero)) a h = subst (IsGrouped (λ _. false)) (some_inj _ a h) (λ e. cc)
page_groups (suc (suc (suc j))) a h = cc

update_all_visited_example : get_elem? (update_all (some 1) page) 1 ≡ some (type_choice true)
update_all_visited_example =
    update_all_visited (λ _. false) (some 1) page 1 (type_choice true) page_groups refl refl refl

abbrev earlier_input : Hidden
earlier_input = record { name = "CHANGED_ELEMENTS"; class_name = "changedElements"; value = "X" }

abbrev to_default : Control → Control
to_default (select cs) = select (map default_choice cs)
to_default (radio c d) = radio d d
to_default (checkbox c d) = checkbox d d
to_default (input v d) = input d d

to_default_laws : ResetsControls to_default
to_default_laws = record {
  reset_radio = λ c d. refl;
  reset_checkbox = λ c d. refl;
  reset_input = λ v d. refl;
  reset_select = λ cs h. refl;
}

abbrev edited : Page
edited = record {
  elements = type_choice true ∷ ptr_box ∷ [];
  rows =
      record { id = 0; form = 1; dnsadd = true; dnsrefadd = false; rowrm = false; pendingrm = [] }
      ∷ record {
        id = 1;
        form = 1;
        dnsadd = false;
        dnsrefadd = false;
        rowrm = true;
        pendingrm = true ∷ true ∷ [];
      }
      ∷ [];
}

edited_pending : has_pending_changes edited ≡ true
unfolding has_pending_changes
edited_pending = refl

choice-IsPlain : IsPlain 1 (type_choice true)
choice-IsPlain = record { in_form = refl; no_original = refl; one_default = refl }

box-IsPlain : IsPlain 1 ptr_box
box-IsPlain = record { in_form = refl; no_original = refl; one_default = tt }

reset_form_clean_example :
    has_pending_changes (reset_form to_default true (some 1) [] edited) ≡ false
reset_form_clean_example =
    reset_form_clean to_default to_default_laws 1 [] edited (choice-IsPlain, (box-IsPlain, tt))
      (refl, (refl, tt))
