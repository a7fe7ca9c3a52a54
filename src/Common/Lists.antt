-- ===== src/Common/Lists.antt =====
-- Lists measured and indexed by native numbers, under the library's names.
use Prim.Native.Nat.{ℕ, zero, suc, ◌+◌, ◌<◌}
use mathlib.Core.Path.{◌≡◌, refl, ap}
use mathlib.Core.Logic.{◌≢◌, ◌⊎◌, inl, inr}
use mathlib.Core.List.{List, [], ◌∷◌, ◌++◌, map}
use mathlib.Core.Option.{Option, none, some, some-injective}
use mathlib.Core.Bool.{Bool, true, false}
use native.Mathlib.Omega.{arith}
use hor_net_nsdi.Common.Tests.{◌==◌, if◌then◌else◌, Bool-cases, Option-cases}

module _ {ℓ} {A : Type ℓ} where
  abbrev pub is_empty : List A → Bool
  is_empty [] = true
  is_empty (x ∷ xs) = false

  abbrev pub length : List A → ℕ
  length [] = 0
  length (x ∷ xs) = suc (length xs)

  abbrev pub get_elem? : List A → ℕ → Option A
  get_elem? [] i = none
  get_elem? (x ∷ xs) zero = some x
  get_elem? (x ∷ xs) (suc i) = get_elem? xs i

  abbrev pub get_or : List A → ℕ → A → A
  get_or [] i d = d
  get_or (x ∷ xs) zero d = x
  get_or (x ∷ xs) (suc i) d = get_or xs i d

  -- A write out of bounds changes nothing.
  abbrev pub set : List A → ℕ → A → List A
  set [] i v = []
  set (x ∷ xs) zero v = v ∷ xs
  set (x ∷ xs) (suc i) v = x ∷ set xs i v

  abbrev pub take : ℕ → List A → List A
  take zero xs = []
  take (suc n) [] = []
  take (suc n) (x ∷ xs) = x ∷ take n xs

  abbrev pub drop : ℕ → List A → List A
  drop zero xs = xs
  drop (suc n) [] = []
  drop (suc n) (x ∷ xs) = drop n xs

  abbrev pub replicate : ℕ → A → List A
  replicate zero a = []
  replicate (suc n) a = a ∷ replicate n a

  pub length-append : (xs ys : List A) → length (xs ++ ys) ≡ length xs + length ys
  length-append [] ys = omega arith
  length-append (x ∷ xs) ys = omega (arith, length-append xs ys)

  pub length-set : (xs : List A) (i : ℕ) (v : A) → length (set xs i v) ≡ length xs
  length-set [] i v = refl
  length-set (x ∷ xs) zero v = refl
  length-set (x ∷ xs) (suc i) v = ap suc (length-set xs i v)

  pub get_elem?-lt : (xs : List A) (i : ℕ) {a : A} → get_elem? xs i ≡ some a → i < length xs
  get_elem?-lt [] i h = cc
  get_elem?-lt (x ∷ xs) zero h = omega arith
  get_elem?-lt (x ∷ xs) (suc i) h = omega (arith, get_elem?-lt xs i h)

  pub get_elem?-of_lt : (xs : List A) (i : ℕ) → i < length xs → (a : A) × (get_elem? xs i ≡ some a)
  get_elem?-of_lt [] i h = absurd (omega arith)
  get_elem?-of_lt (x ∷ xs) zero h = (x, refl)
  get_elem?-of_lt (x ∷ xs) (suc i) h = get_elem?-of_lt xs i (omega arith)

  pub get_elem?-set_self :
      (xs : List A) (i : ℕ) (v : A) → i < length xs → get_elem? (set xs i v) i ≡ some v
  get_elem?-set_self [] i v h = absurd (omega arith)
  get_elem?-set_self (x ∷ xs) zero v h = refl
  get_elem?-set_self (x ∷ xs) (suc i) v h = get_elem?-set_self xs i v (omega arith)

  pub get_elem?-set_ne :
      (xs : List A) (i j : ℕ) (v : A) → i ≢ j → get_elem? (set xs i v) j ≡ get_elem? xs j
  get_elem?-set_ne [] i j v h = refl
  get_elem?-set_ne (x ∷ xs) zero zero v h = absurd (h refl)
  get_elem?-set_ne (x ∷ xs) zero (suc j) v h = refl
  get_elem?-set_ne (x ∷ xs) (suc i) zero v h = refl
  get_elem?-set_ne (x ∷ xs) (suc i) (suc j) v h = get_elem?-set_ne xs i j v (λ e. h (ap suc e))

  pub List-cases : (xs : List A) → (xs ≡ []) ⊎ ((x : A) × (rest : List A) × (xs ≡ x ∷ rest))
  List-cases [] = inl refl
  List-cases (x ∷ xs) = inr (x, xs, refl)

module _ {ℓ} {A : Type ℓ} where
  -- An item that is mutated in place; an index out of range changes nothing.
  abbrev pub modify_at : List A → ℕ → (A → A) → List A
  modify_at [] i f = []
  modify_at (x ∷ xs) zero f = f x ∷ xs
  modify_at (x ∷ xs) (suc i) f = x ∷ modify_at xs i f

  -- `[x for x in xs if p(x)]`
  abbrev pub filter_b : (A → Bool) → List A → List A
  filter_b p [] = []
  filter_b p (x ∷ xs) = if p x then x ∷ filter_b p xs else filter_b p xs

  abbrev pub any_b : (A → Bool) → List A → Bool
  any_b p [] = false
  any_b p (x ∷ xs) = if p x then true else any_b p xs

  abbrev pub all_b : (A → Bool) → List A → Bool
  all_b p [] = true
  all_b p (x ∷ xs) = if p x then all_b p xs else false

  pub length-modify_at : (xs : List A) (i : ℕ) (f : A → A) → length (modify_at xs i f) ≡ length xs
  length-modify_at [] i f = refl
  length-modify_at (x ∷ xs) zero f = refl
  length-modify_at (x ∷ xs) (suc i) f = ap suc (length-modify_at xs i f)

  pub get_elem?-modify_at_self :
      (xs : List A) (i : ℕ) (f : A → A) {a : A}
      → get_elem? xs i ≡ some a
      → get_elem? (modify_at xs i f) i ≡ some (f a)
  get_elem?-modify_at_self [] i f h = cc
  get_elem?-modify_at_self (x ∷ xs) zero f h = cc
  get_elem?-modify_at_self (x ∷ xs) (suc i) f h = get_elem?-modify_at_self xs i f h

  pub get_elem?-modify_at_ne :
      (xs : List A) (i j : ℕ) (f : A → A) → i ≢ j → get_elem? (modify_at xs i f) j ≡ get_elem? xs j
  get_elem?-modify_at_ne [] i j f h = refl
  get_elem?-modify_at_ne (x ∷ xs) zero zero f h = absurd (h refl)
  get_elem?-modify_at_ne (x ∷ xs) zero (suc j) f h = refl
  get_elem?-modify_at_ne (x ∷ xs) (suc i) zero f h = refl
  get_elem?-modify_at_ne (x ∷ xs) (suc i) (suc j) f h =
      get_elem?-modify_at_ne xs i j f (λ e. h (ap suc e))

-- The position of a number in a list.
abbrev pub index_of : ℕ → List ℕ → Option ℕ
index_of x [] = none
index_of x (y ∷ ys) =
    if x == y then some 0 else elim (index_of x ys) [ none ↦ none | some i ↦ some (suc i) ]

pub index_of-lt : (x : ℕ) (ys : List ℕ) (i : ℕ) → index_of x ys ≡ some i → i < length ys
index_of-lt x [] i h = cc
index_of-lt x (y ∷ ys) i h = elim (Bool-cases (x == y)) [
  | inl e ↦ ground arith
  | inr e ↦ elim (Option-cases (index_of x ys)) [
    | inl n ↦ ground arith
    | inr (j, s) ↦ ground (arith, index_of-lt x ys j s)
  ]
]

-- range(i, i + n)
abbrev pub range_from : ℕ → ℕ → List ℕ
range_from i zero = []
range_from i (suc n) = i ∷ range_from (suc i) n

pub length-map {ℓ κ} :
    {A : Type ℓ} {B : Type κ} (f : A → B) (xs : List A) → length (map f xs) ≡ length xs
length-map f [] = refl
length-map f (x ∷ xs) = ap suc (length-map f xs)

pub get_elem?-append {ℓ} :
    {A : Type ℓ} (xs ys : List A) (n k : ℕ)
    → k ≡ length xs + n
    → get_elem? (xs ++ ys) k ≡ get_elem? ys n
get_elem?-append [] ys n k e = ap (get_elem? ys) (omega (arith, e))
get_elem?-append (x ∷ xs) ys n zero e = absurd (omega (arith, e))
get_elem?-append (x ∷ xs) ys n (suc k) e = get_elem?-append xs ys n k (omega (arith, e))

pub get_elem?-append_left {ℓ} :
    {A : Type ℓ} (xs ys : List A) (n : ℕ) {a : A}
    → get_elem? xs n ≡ some a
    → get_elem? (xs ++ ys) n ≡ some a
get_elem?-append_left [] ys n h = cc
get_elem?-append_left (x ∷ xs) ys zero h = h
get_elem?-append_left (x ∷ xs) ys (suc n) h = get_elem?-append_left xs ys n h

pub get_elem?-map {ℓ κ} :
    {A : Type ℓ} {B : Type κ} (f : A → B) (xs : List A) (n : ℕ) {a : A}
    → get_elem? xs n ≡ some a
    → get_elem? (map f xs) n ≡ some (f a)
get_elem?-map f [] n h = cc
get_elem?-map f (x ∷ xs) zero h = ap (λ o. some (f o)) (some-injective _ _ h)
get_elem?-map f (x ∷ xs) (suc n) h = get_elem?-map f xs n h

pub map-append {ℓ κ} :
    {A : Type ℓ} {B : Type κ} (f : A → B) (xs ys : List A) → map f (xs ++ ys) ≡ map f xs ++ map f ys
map-append f [] ys = refl
map-append f (x ∷ xs) ys = ap (λ l. f x ∷ l) (map-append f xs ys)
