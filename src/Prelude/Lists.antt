-- ===== src/Prelude/Lists.antt =====
-- Lists measured by native numbers, membership of texts, and predicates by recursion.
use Prim.Native.Nat.{ℕ, zero, suc, ◌+◌, ◌<◌}
use Prim.Native.String.{String}
use mathlib.Core.Path.{◌≡◌, refl, ap}
use mathlib.Core.Logic.{◌≢◌}
use mathlib.Core.Bool.{Bool, true, false, ◌&&◌, ◌||◌}
use mathlib.Core.Option.{Option, none, some}
use mathlib.Core.List.{List, [], ◌∷◌, ◌++◌, map}
use native.Mathlib.Omega.{arith}
use jazzhands.Prelude.Tests.{str_eq, if◌then◌else◌}

module _ {ℓ} {A : Type ℓ} where
  abbrev pub length : List A → ℕ
  length [] = 0
  length (x ∷ xs) = suc (length xs)

  abbrev pub get_elem? : List A → ℕ → Option A
  get_elem? [] i = none
  get_elem? (x ∷ xs) zero = some x
  get_elem? (x ∷ xs) (suc i) = get_elem? xs i

  -- The element at a position is replaced by its image.
  unfoldable pub modify : (A → A) → ℕ → List A → List A
  modify f n [] = []
  modify f zero (x ∷ xs) = f x ∷ xs
  modify f (suc n) (x ∷ xs) = x ∷ modify f n xs

  pub get_elem?-modify_self :
      (f : A → A) (n : ℕ) (xs : List A) {x : A}
      → get_elem? xs n ≡ some x
      → get_elem? (modify f n xs) n ≡ some (f x)
  unfolding modify
  get_elem?-modify_self f n [] h = cc
  get_elem?-modify_self f zero (x ∷ xs) h = cc
  get_elem?-modify_self f (suc n) (x ∷ xs) h = get_elem?-modify_self f n xs h

  pub get_elem?-modify_ne :
      (f : A → A) (n m : ℕ) (xs : List A) → n ≢ m → get_elem? (modify f n xs) m ≡ get_elem? xs m
  unfolding modify
  get_elem?-modify_ne f n m [] h = refl
  get_elem?-modify_ne f zero zero (x ∷ xs) h = absurd (h refl)
  get_elem?-modify_ne f zero (suc m) (x ∷ xs) h = refl
  get_elem?-modify_ne f (suc n) zero (x ∷ xs) h = refl
  get_elem?-modify_ne f (suc n) (suc m) (x ∷ xs) h =
      get_elem?-modify_ne f n m xs (λ e. h (ap suc e))

  pub length-modify : (f : A → A) (n : ℕ) (xs : List A) → length (modify f n xs) ≡ length xs
  unfolding modify
  length-modify f n [] = refl
  length-modify f zero (x ∷ xs) = refl
  length-modify f (suc n) (x ∷ xs) = ap suc (length-modify f n xs)

  pub lt-length_of_get_elem? :
      (xs : List A) (i : ℕ) {x : A} → get_elem? xs i ≡ some x → i < length xs
  lt-length_of_get_elem? [] i h = cc
  lt-length_of_get_elem? (y ∷ xs) zero h = omega arith
  lt-length_of_get_elem? (y ∷ xs) (suc i) h = omega (arith, lt-length_of_get_elem? xs i h)

  pub get_elem?_of_lt : (xs : List A) (i : ℕ) → i < length xs → (x : A) × (get_elem? xs i ≡ some x)
  get_elem?_of_lt [] i h = elim h [ ]
  get_elem?_of_lt (x ∷ xs) zero h = (x, refl)
  get_elem?_of_lt (x ∷ xs) (suc i) h = get_elem?_of_lt xs i (omega arith)

  pub length-append : (xs ys : List A) → length (xs ++ ys) ≡ length xs + length ys
  length-append [] ys = omega arith
  length-append (x ∷ xs) ys = omega (arith, length-append xs ys)

  -- Whether every element passes a test.
  abbrev pub all : (A → Bool) → List A → Bool
  all p [] = true
  all p (x ∷ xs) = p x && all p xs

  abbrev pub any : (A → Bool) → List A → Bool
  any p [] = false
  any p (x ∷ xs) = p x || any p xs

pub all-modify {ℓ} :
    {A : Type ℓ} (p : A → Bool) (g : A → A) (n : ℕ) (xs : List A)
    → ((x : A) → p x ≡ true → p (g x) ≡ true)
    → all p xs ≡ true
    → all p (modify g n xs) ≡ true
unfolding modify
all-modify p g n [] k h = h
all-modify p g zero (x ∷ xs) k h = ground (arith, k x)
all-modify p g (suc n) (x ∷ xs) k h = ground (arith, all-modify p g n xs k)

pub all_mono {ℓ} :
    {A : Type ℓ} (p q : A → Bool) (xs : List A)
    → ((x : A) → p x ≡ true → q x ≡ true)
    → all p xs ≡ true
    → all q xs ≡ true
all_mono p q [] k h = h
all_mono p q (x ∷ xs) k h = ground (arith, k x, all_mono p q xs k)

pub all-map {ℓ} :
    {A : Type ℓ} (p q : A → Bool) (g : A → A) (xs : List A)
    → ((x : A) → p x ≡ true → q (g x) ≡ true)
    → all p xs ≡ true
    → all q (map g xs) ≡ true
all-map p q g [] k h = h
all-map p q g (x ∷ xs) k h = ground (arith, k x, all-map p q g xs k)

-- `Array.prototype.includes` on strings
abbrev pub includes : String → List String → Bool
includes s [] = false
includes s (t ∷ ts) = if str_eq t s then true else includes s ts

pub includes-append :
    (s : String) (xs ys : List String)
    → includes s (xs ++ ys) ≡ (if includes s xs then true else includes s ys)
includes-append s [] ys = refl
includes-append s (x ∷ xs) ys = ground (arith, includes-append s xs ys)

-- No text stands in the list twice.
abbrev pub distinct : List String → Bool
distinct [] = true
distinct (x ∷ xs) = if includes x xs then false else distinct xs

module _ {ℓ κ} {A : Type ℓ} where
  abbrev pub All : (A → Type κ) → List A → Type κ
  All P [] = Unit
  All P (x ∷ xs) = P x × All P xs

  pub All-append : (P : A → Type κ) (xs ys : List A) → All P xs → All P ys → All P (xs ++ ys)
  All-append P [] ys h k = k
  All-append P (x ∷ xs) ys h k = (h.0, All-append P xs ys h.1 k)

module _ {ℓ κ} {A : Type ℓ} {B : Type κ} where
  pub get_elem?-map :
      (f : A → B) (xs : List A) (n : ℕ) {x : A}
      → get_elem? xs n ≡ some x
      → get_elem? (map f xs) n ≡ some (f x)
  get_elem?-map f [] n h = cc
  get_elem?-map f (x ∷ xs) zero h = cc
  get_elem?-map f (x ∷ xs) (suc n) h = get_elem?-map f xs n h

  pub length-map : (f : A → B) (xs : List A) → length (map f xs) ≡ length xs
  length-map f [] = refl
  length-map f (x ∷ xs) = ap suc (length-map f xs)
