-- ===== src/Prelude/Text.antt =====
-- Texts as the program builds them: concatenation, `split`, `join`, and numbers in decimal.
use Prim.Native.Nat.{ℕ, zero, suc, ◌+◌, ◌-◌, ◌*◌, ◌/◌, ◌%◌, ◌<◌}
use Prim.Native.Char.{Char, code}
use Prim.Native.String.{String, ◌++◌}
use mathlib.Core.Path.{◌≡◌, refl, ap, ◌∙◌, sym}
use mathlib.Core.Bool.{Bool, true, false}
use mathlib.Core.Logic.{inl, inr}
use mathlib.Core.List.{List, [], ◌∷◌}
use native.Mathlib.Omega.{arith}
use text.Mathlib.TextLemmas.{
  tail-eq_of_cons-eq, nil-append, cons-append, append_cancel_right as cancel_right,
}
use jazzhands.Prelude.Tests.{ltb, if◌then◌else◌, ◌==◌, Bool-cases, str_eq}
use text.Mathlib.TextEquality.{eq_iff}

infixr 65 ◌<>◌
abbrev pub ◌<>◌ : String → String → String
String.[] <> t = t
String.◌∷◌ c s <> t = String.◌∷◌ c (s <> t)

abbrev digit : ℕ → Char
digit zero = "0"
digit (suc zero) = "1"
digit (suc (suc zero)) = "2"
digit (suc (suc (suc zero))) = "3"
digit (suc (suc (suc (suc zero)))) = "4"
digit (suc (suc (suc (suc (suc zero))))) = "5"
digit (suc (suc (suc (suc (suc (suc zero)))))) = "6"
digit (suc (suc (suc (suc (suc (suc (suc zero))))))) = "7"
digit (suc (suc (suc (suc (suc (suc (suc (suc zero)))))))) = "8"
digit (suc (suc (suc (suc (suc (suc (suc (suc (suc n))))))))) = "9"

decimal : ℕ → ℕ → String
decimal zero n = ""
decimal (suc f) n =
    let rest = decimal f (n / 10) in
    if ltb n 10 then (String.◌∷◌ (digit n) "") else (rest <> String.◌∷◌ (digit (n % 10)) "")

-- A number in a text, as `'' + n` writes it.
unfoldable pub show : ℕ → String
unfolding decimal
show n = decimal (suc n) n

-- The number that a decimal numeral stands for.
value_from : ℕ → String → ℕ
value_from acc String.[] = acc
value_from acc (String.◌∷◌ c s) = value_from (acc * 10 + (code c - 48)) s

value_from-append :
    (acc : ℕ) (s t : String) → value_from acc (s <> t) ≡ value_from (value_from acc s) t
unfolding value_from
value_from-append acc String.[] t = refl
value_from-append acc (String.◌∷◌ c s) t = value_from-append (acc * 10 + (code c - 48)) s t

code-digit : (n : ℕ) → n < 10 → code (digit n) - 48 ≡ n
code-digit zero h = refl
code-digit (suc zero) h = refl
code-digit (suc (suc zero)) h = refl
code-digit (suc (suc (suc zero))) h = refl
code-digit (suc (suc (suc (suc zero)))) h = refl
code-digit (suc (suc (suc (suc (suc zero))))) h = refl
code-digit (suc (suc (suc (suc (suc (suc zero)))))) h = refl
code-digit (suc (suc (suc (suc (suc (suc (suc zero))))))) h = refl
code-digit (suc (suc (suc (suc (suc (suc (suc (suc zero)))))))) h = refl
code-digit (suc (suc (suc (suc (suc (suc (suc (suc (suc zero))))))))) h = refl
code-digit (suc (suc (suc (suc (suc (suc (suc (suc (suc (suc n)))))))))) h = absurd (omega arith)

value-decimal : (f n : ℕ) → n < f → value_from 0 (decimal f n) ≡ n
unfolding value_from decimal
value-decimal zero n h = elim h [ ]
value-decimal (suc f) n h = elim (Bool-cases (ltb n 10)) [
  | inl small ↦ rw small (omega (arith, code-digit n (ground arith)))
  | inr large ↦
      rw (large, value_from-append 0 (decimal f (n / 10)) (String.◌∷◌ (digit (n % 10)) ""))
        (omega (arith, value-decimal f (n / 10) (ground arith), code-digit (n % 10) (omega arith)))
]

pub show_inj : (m n : ℕ) → show m ≡ show n → m ≡ n
unfolding show
show_inj m n h =
    sym (value-decimal (suc m) m (omega arith))
    ∙ ap (value_from 0) h
    ∙ value-decimal (suc n) n (omega arith)

-- A prefix and a number determine the text.
pub append_cancel_left : (p s t : String) → p <> s ≡ p <> t → s ≡ t
append_cancel_left String.[] s t h = h
append_cancel_left (String.◌∷◌ c p) s t h = append_cancel_left p s t (tail-eq_of_cons-eq h)

append-library : (s t : String) → s <> t ≡ s ++ t
append-library String.[] t = sym (nil-append t)
append-library (String.◌∷◌ c s) t = ap (String.◌∷◌ c) (append-library s t) ∙ sym (cons-append c s t)

pub append_cancel_right : (s t u : String) → s <> u ≡ t <> u → s ≡ t
append_cancel_right s t u h = cancel_right s t u (sym (append-library s u) ∙ h ∙ append-library t u)

-- Texts with the same ending are compared without it.
pub str_eq-append_right : (s t u : String) → str_eq (s <> u) (t <> u) ≡ str_eq s t
str_eq-append_right s t u =
    let same : s ≡ t → s <> u ≡ t <> u = λ e. ap (λ x. x <> u) e in
    ground (arith, eq_iff (s <> u) (t <> u), eq_iff s t, append_cancel_right s t u, same)

pub append-show_inj : (p : String) (m n : ℕ) → p <> show m ≡ p <> show n → m ≡ n
append-show_inj p m n h = show_inj m n (append_cancel_left p (show m) (show n) h)

push_front : Char → List String → List String
push_front c [] = String.◌∷◌ c "" ∷ []
push_front c (w ∷ ws) = String.◌∷◌ c w ∷ ws

-- `s.split( sep )`
unfoldable pub split : Char → String → List String
unfolding push_front
split sep String.[] = "" ∷ []
split sep (String.◌∷◌ c s) =
    let rest = split sep s in if code c == code sep then "" ∷ rest else push_front c rest

-- `xs.join( sep )`
unfoldable pub join : Char → List String → String
join sep [] = ""
join sep (x ∷ []) = x
join sep (x ∷ y ∷ r) = x <> String.◌∷◌ sep (join sep (y ∷ r))

-- The separator does not stand in the text.
unfoldable pub free_of : Char → String → Bool
free_of sep String.[] = true
free_of sep (String.◌∷◌ c s) = if code c == code sep then false else free_of sep s

pub split-append :
    (sep : Char) (w s : String)
    → free_of sep w ≡ true
    → split sep (w <> String.◌∷◌ sep s) ≡ w ∷ split sep s
unfolding split free_of
split-append sep String.[] s h = ground arith
split-append sep (String.◌∷◌ c w) s h = ground (arith, split-append sep w s (ground arith))

pub split_free : (sep : Char) (w : String) → free_of sep w ≡ true → split sep w ≡ w ∷ []
unfolding split free_of
split_free sep String.[] h = refl
split_free sep (String.◌∷◌ c w) h = ground (arith, split_free sep w (ground arith))

abbrev pub all_free : Char → List String → Bool
all_free sep [] = true
all_free sep (x ∷ xs) = if free_of sep x then all_free sep xs else false

-- Splitting undoes joining where no part holds the separator.
pub split-join :
    (sep : Char) (x : String) (xs : List String)
    → all_free sep (x ∷ xs) ≡ true
    → split sep (join sep (x ∷ xs)) ≡ x ∷ xs
unfolding join
split-join sep x [] h = split_free sep x (ground arith)
split-join sep x (y ∷ r) h =
    split-append sep x (join sep (y ∷ r)) (ground arith)
    ∙ ap (x ∷◌) (split-join sep y r (ground arith))

-- `s.split( sep ).pop()`
unfoldable pub last_part : List String → String
last_part [] = ""
last_part (x ∷ []) = x
last_part (x ∷ y ∷ r) = last_part (y ∷ r)
