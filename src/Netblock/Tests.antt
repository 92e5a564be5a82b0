-- ===== src/Netblock/Tests.antt =====
-- The theorem on the form for a netblock at a concrete form.
use jazzhands.Prelude.{true, false, [], ◌∷◌, all, ◌≡◌, refl, none, str_eq, if◌then◌else◌}
use jazzhands.Netblock.Form.{
  Form, posts, trim, embedded_bits, trimmed, submit_add_netblock, submit_trimmed, with_embedded,
  post_bits, trim_start, trim_end,
}
use jazzhands.Netblock.Tree.{
  Branch, on_branch, collapse_all, is_right, run_clicks, run_clicks-right,
}
use jazzhands.Netblock.Bits.{posted, given, agreed, with_bits, submit-agreed}

abbrev subnet : Form
subnet = record { ip = " 10.0.0.0/24"; bits = ""; description = "lab " }

subnet_posted :
    submit_add_netblock subnet
    ≡ posts (record { ip = "10.0.0.0/24"; bits = "24"; description = "lab" })
unfolding submit_add_netblock submit_trimmed trimmed trim trim_start trim_end with_embedded
    embedded_bits post_bits
subnet_posted = refl

submit-agreed_example : posted (submit_add_netblock subnet) ≡ (
    if str_eq (trim subnet.ip) ""
    then none
    else with_bits
        (trimmed subnet)
        (agreed (given (trim subnet.bits) (embedded_bits (trim subnet.ip)))))
submit-agreed_example = submit-agreed subnet

abbrev open_branch : Branch
open_branch = record {
  hierarchy = true;
  children = record { is_item = true; irrelevant = false } ∷ [];
  arrow_down = true;
}

run_clicks-right_example :
    all is_right (run_clicks (on_branch 0 ∷ collapse_all ∷ on_branch 0 ∷ []) (open_branch ∷ []))
    ≡ true
run_clicks-right_example =
    run_clicks-right (on_branch 0 ∷ collapse_all ∷ on_branch 0 ∷ []) (open_branch ∷ []) refl
