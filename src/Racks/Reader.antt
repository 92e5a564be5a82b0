-- ===== src/Racks/Reader.antt =====
-- A reader of addresses, for runs of the server at concrete addresses.
use Prim.Native.Char.{code}
use Prim.Native.Char
use jazzhands.Prelude.{
  ◌≡◌, refl, true, false, ◌==◌, String, Option, List, [], ◌∷◌, map, all, if◌then◌else◌, ◌<>◌, arith,
  split, join, free_of, split-append, split_free, split-join, all_free,
}
use jazzhands.Racks.Server.{
  is_plain, is_plain_code, is_plain_field, field_text, field, known, ReadsFields,
}

-- What is behind the first question mark.
unfoldable after_mark : String → String
after_mark String.[] = ""
after_mark (String.◌∷◌ c s) = let rest = after_mark s in if code c == 63 then s else rest

unfoldable field_of : List String → String × String
field_of [] = ("", "")
field_of (n ∷ []) = (n, "")
field_of (n ∷ v ∷ r) = (n, v)

unfoldable pub read_field : String → String → Option String
unfolding after_mark field_of
read_field n a = known (field n (map (λ p. field_of (split "=" p)) (split ";" (after_mark a))))

after_mark-plain : (base s : String) → is_plain base ≡ true → after_mark (base <> "?" <> s) ≡ s
unfolding after_mark is_plain
after_mark-plain String.[] s h = refl
after_mark-plain (String.◌∷◌ c b) s h = ground (arith, h, after_mark-plain b s (ground (arith, h)))

plain-free :
    (sep : Prim.Native.Char.Char) (s : String)
    → is_plain_code (code sep) ≡ false
    → is_plain s ≡ true
    → free_of sep s ≡ true
unfolding is_plain free_of
plain-free sep String.[] n h = refl
plain-free sep (String.◌∷◌ c s) n h = ground (arith, n, h, plain-free sep s n (ground (arith, h)))

free_of-append :
    (sep : Prim.Native.Char.Char) (s t : String)
    → free_of sep s ≡ true
    → free_of sep t ≡ true
    → free_of sep (s <> t) ≡ true
unfolding free_of
free_of-append sep String.[] t h k = k
free_of-append sep (String.◌∷◌ c s) t h k =
    ground (arith, h, free_of-append sep s t (ground (arith, h)) k)

field_text-free :
    (f : String × String) → is_plain_field f ≡ true → free_of ";" (field_text f) ≡ true
unfolding free_of
field_text-free (n, v) h =
    free_of-append ";" n ("=" <> v) (plain-free ";" n refl (ground (arith, h)))
      (plain-free ";" v refl (ground (arith, h)))

texts-free :
    (fs : List (String × String))
    → all is_plain_field fs ≡ true
    → all_free ";" (map field_text fs) ≡ true
texts-free [] h = refl
texts-free (f ∷ fs) h =
    ground (arith, h, field_text-free f (ground (arith, h)), texts-free fs (ground (arith, h)))

field_of-text :
    (f : String × String) → is_plain_field f ≡ true → field_of (split "=" (field_text f)) ≡ f
unfolding field_of
field_of-text (n, v) h =
    rw
      (
        split-append "=" n v (plain-free "=" n refl (ground (arith, h))),
        split_free "=" v (plain-free "=" v refl (ground (arith, h))),
      )
      refl

fields-read :
    (fs : List (String × String))
    → all is_plain_field fs ≡ true
    → map (λ p. field_of (split "=" p)) (map field_text fs) ≡ fs
fields-read [] h = refl
fields-read (f ∷ fs) h =
    rw (field_of-text f (ground (arith, h)), fields-read fs (ground (arith, h))) refl

pub read_field-ReadsFields : ReadsFields read_field
unfolding ReadsFields read_field
read_field-ReadsFields base n f fs b h =
    rw
      (
        after_mark-plain base (join ";" (map field_text (f ∷ fs))) b,
        split-join ";" (field_text f) (map field_text fs) (texts-free (f ∷ fs) h),
        fields-read (f ∷ fs) h,
      )
      refl
