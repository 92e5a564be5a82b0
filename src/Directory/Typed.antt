-- ===== src/Directory/Typed.antt =====
-- The script reads from the form for a telephone what the user typed.
use jazzhands.Prelude.{
  ◌≡◌, refl, ap, Bool, true, not, ◌&&◌, ◌||◌, String, Option, none, some, List, [], ◌∷◌,
  if◌then◌else◌, str_eq, eq_iff, eq_refl, arith, inl, inr, Bool-cases,
}
use jazzhands.Directory.Phones.{
  Hinted, phone_input, optional_input, Contact, PhoneForm, manip_phone, focused, restore_hint,
  blurred, typed, visit, Visit, to_phone, to_extension, to_pin, visit_form, read_param, read_form,
}

abbrev is_hint : String → Option String → Bool
is_hint hint none = true
is_hint hint (some s) = str_eq s hint || str_eq s ""

-- The input holds the text, or it is empty and may show its hint.
abbrev holds : String → String → Hinted → Bool
holds hint text f =
    is_hint hint f.preserved
    && (if f.has_hint
        then str_eq text "" && (str_eq f.value hint || str_eq f.value "")
        else str_eq f.value text)

-- The texts of the inputs after visits.
pub record Texts : Type 0 where
  pub phone : String
  pub extension : String
  pub pin : String

abbrev retyped : Option String → String → String
retyped none text = text
retyped (some s) text = s

unfoldable pub type_all : List Visit → Texts → Texts
type_all [] t = t
type_all (to_phone o ∷ vs) t = type_all vs (record t { phone = retyped o t.phone })
type_all (to_extension o ∷ vs) t = type_all vs (record t { extension = retyped o t.extension })
type_all (to_pin o ∷ vs) t = type_all vs (record t { pin = retyped o t.pin })

focused-holds :
    (hint text : String) (f : Hinted)
    → holds hint text f ≡ true
    → (str_eq (focused f).value text
        && is_hint hint (focused f).preserved
        && not (focused f).has_hint)
      ≡ true
unfolding focused
focused-holds hint text f h = ground (arith, h, eq_iff text "", eq_iff "" text)

blurred-holds :
    (hint text v : String) (b : Bool) (p : Option String)
    → (str_eq v text && is_hint hint p && not b) ≡ true
    → holds hint text (blurred (record { value = v; has_hint = b; preserved = p })) ≡ true
unfolding blurred restore_hint
blurred-holds hint text v b none h = ground (arith, h)
blurred-holds hint text v b (some s) h =
    ground (arith, h, eq_iff v text, eq_iff v "", eq_iff text "", eq_iff s hint)

visit-holds :
    (hint text : String) (o : Option String) (f : Hinted)
    → holds hint text f ≡ true
    → holds hint (retyped o text) (visit o f) ≡ true
unfolding visit typed
visit-holds hint text none f h =
    let g = focused f in
    blurred-holds hint text g.value g.has_hint g.preserved (focused-holds hint text f h)
visit-holds hint text (some s) f h =
    let g = focused f in
    blurred-holds hint s s g.has_hint g.preserved
      (ground (arith, focused-holds hint text f h, eq_refl s))

read-holds :
    (hint text : String) (f : Hinted)
    → holds hint text f ≡ true
    → read_param hint f.value ≡ read_param hint text
unfolding read_param
read-holds hint text f h = elim (Bool-cases f.has_hint) [
  | inl t ↦
      let empty : text ≡ "" = (eq_iff text "").0 (ground (arith, h, t)) in
      let v : (str_eq f.value "" || str_eq f.value hint) ≡ true = ground (arith, h, t) in
      rw (v, empty) refl
  | inr t ↦ ap (read_param hint) ((eq_iff f.value text).0 (ground (arith, h, t)))
]

FormHolds : Texts → PhoneForm → Type 0
FormHolds t f =
    (holds "phone" t.phone f.phone ≡ true)
    × (holds "ext" t.extension f.extension ≡ true)
    × (holds "pin" t.pin f.pin ≡ true)

visits-FormHolds :
    (vs : List Visit) (t : Texts) (f : PhoneForm)
    → FormHolds t f
    → FormHolds (type_all vs t) (visit_form vs f)
unfolding type_all visit_form FormHolds
visits-FormHolds [] t f h = h
visits-FormHolds (to_phone o ∷ vs) t f h =
    visits-FormHolds vs (record t { phone = retyped o t.phone })
      (record f { phone = visit o f.phone }) (visit-holds "phone" t.phone o f.phone h.0, h.1, h.2)
visits-FormHolds (to_extension o ∷ vs) t f h =
    visits-FormHolds vs (record t { extension = retyped o t.extension })
      (record f { extension = visit o f.extension })
      (h.0, visit-holds "ext" t.extension o f.extension h.1, h.2)
visits-FormHolds (to_pin o ∷ vs) t f h =
    visits-FormHolds vs (record t { pin = retyped o t.pin }) (record f { pin = visit o f.pin })
      (h.0, h.1, visit-holds "pin" t.pin o f.pin h.2)

abbrev text_of : Option String → String
text_of none = ""
text_of (some s) = s

-- The texts of a contact, empty ones for a new telephone.
unfoldable pub texts_of : Option Contact → Texts
texts_of none = record { phone = ""; extension = ""; pin = "" }
texts_of (some c) = record {
  phone = c.phone_number;
  extension = text_of c.phone_extension;
  pin = text_of c.phone_pin;
}

optional-holds :
    (hint : String) (o : Option String) → holds hint (text_of o) (optional_input hint o) ≡ true
unfolding optional_input
optional-holds hint none = ground (arith, eq_refl hint)
optional-holds hint (some s) = ground (arith, eq_refl hint, eq_refl s)

phone-holds : (o : Option String) → holds "phone" (text_of o) (phone_input o) ≡ true
unfolding phone_input
phone-holds none = refl
phone-holds (some s) = elim (Bool-cases (str_eq s "")) [
  | inl t ↦ rw t refl
  | inr t ↦ rw t (eq_refl s)
]

made-FormHolds : (o : Option Contact) → FormHolds (texts_of o) (manip_phone o)
unfolding FormHolds texts_of manip_phone
made-FormHolds none = (phone-holds none, optional-holds "ext" none, optional-holds "pin" none)
made-FormHolds (some c) = (
  phone-holds (some c.phone_number),
  optional-holds "ext" c.phone_extension,
  optional-holds "pin" c.phone_pin,
)

-- What the script is meant to take: each text, and none for an empty one or for the word that is
-- the hint of its input.
abbrev pub meant : Texts → Option String × Option String × Option String
meant t = (read_param "phone" t.phone, read_param "ext" t.extension, read_param "pin" t.pin)

-- The form for a new telephone, or for a contact, after any sequence of visits to its inputs, in
-- each of which the user typed a text or nothing, gives the script the texts that were typed last,
-- or those of the contact where nothing was typed, and none where a text is empty or is the hint.
pub visited_form-read :
    (o : Option Contact) (vs : List Visit)
    → read_form (visit_form vs (manip_phone o)) ≡ meant (type_all vs (texts_of o))
unfolding read_form FormHolds
visited_form-read o vs =
    let t = type_all vs (texts_of o) in
    let f = visit_form vs (manip_phone o) in
    let h = visits-FormHolds vs (texts_of o) (manip_phone o) (made-FormHolds o) in
    rw
      (
        read-holds "phone" t.phone f.phone h.0,
        read-holds "ext" t.extension f.extension h.1,
        read-holds "pin" t.pin f.pin h.2,
      )
      refl
