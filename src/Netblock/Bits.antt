-- ===== src/Netblock/Bits.antt =====
-- The bits that are posted.
use jazzhands.Prelude.{
  ◌≡◌, refl, Bool, true, not, String, str_eq, Option, none, some, List, [], ◌∷◌, ◌++◌, all,
  if◌then◌else◌, arith,
}
use jazzhands.Netblock.Form.{
  Form, Result, fails, posts, trim, embedded_bits, post_bits, with_embedded, trimmed,
  submit_trimmed, submit_add_netblock,
}

-- What is posted, where something is.
abbrev pub posted : Result → Option Form
posted (fails s) = none
posted (posts f) = some f

-- The bits that the user gave, in the field for them and in the address.
abbrev pub given : String → Option String → List String
given bits e =
    (if str_eq bits "" then [] else bits ∷ []) ++ (elim e [ none ↦ [] | some s ↦ s ∷ [] ])

-- The one text of a list whose texts are all the same.
abbrev pub agreed : List String → Option String
agreed [] = none
agreed (x ∷ xs) = if all (λ y. str_eq x y) xs then some x else none

abbrev pub with_bits : Form → Option String → Option Form
with_bits f none = none
with_bits f (some b) = some (record f { bits = b })

abbrev pub is_filled : Option String → Bool
is_filled none = true
is_filled (some e) = not (str_eq e "")

embedded-filled : (s : String) → is_filled (embedded_bits s) ≡ true
unfolding embedded_bits
embedded-filled String.[] = refl
embedded-filled (String.◌∷◌ c s) = ground (arith, embedded-filled s)

with_embedded-agreed :
    (f : Form) (e : Option String)
    → is_filled e ≡ true
    → posted (with_embedded f e) ≡ with_bits f (agreed (given f.bits e))
unfolding with_embedded post_bits
with_embedded-agreed f none h = ground arith
with_embedded-agreed f (some e) h = ground arith

-- Something is posted exactly if there is an address, the user gave bits in the field for them or
-- behind the address, and where in both the same; and then what is posted are the values without
-- the spaces around them, with those bits.
pub submit-agreed :
    (f : Form)
    → posted (submit_add_netblock f) ≡ (
        if str_eq (trim f.ip) ""
        then none
        else with_bits (trimmed f) (agreed (given (trim f.bits) (embedded_bits (trim f.ip)))))
unfolding submit_add_netblock submit_trimmed trimmed
submit-agreed f = ground (
  arith,
  with_embedded-agreed (trimmed f) (embedded_bits (trim f.ip)) (embedded-filled (trim f.ip)),
)
