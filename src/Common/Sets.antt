-- ===== src/Common/Sets.antt =====
-- Python's sets of numbers, as lists with a Boolean membership test.
use Prim.Native.Nat.{ℕ, ◌≤◌, ◌<◌}
use mathlib.Core.Path.{◌≡◌, refl, ap}
use mathlib.Core.Logic.{inl, inr}
use mathlib.Core.Bool.{Bool, true, false, ◌||◌, ◌&&◌, not}
use mathlib.Core.List.{List, [], ◌∷◌, ◌++◌}
use native.Mathlib.Omega.{arith}
use hor_net_nsdi.Common.Tests.{◌==◌, ==→≡, Bool-cases}
use hor_net_nsdi.Common.Lists.{filter_b, length}

unfoldable pub mem : ℕ → List ℕ → Bool
mem x [] = false
mem x (y ∷ ys) = x == y || mem x ys

pub mem-cons : (x y : ℕ) (ys : List ℕ) → mem x (y ∷ ys) ≡ (x == y || mem x ys)
unfolding mem
mem-cons x y ys = refl

pub mem-append : (x : ℕ) (xs ys : List ℕ) → mem x (xs ++ ys) ≡ (mem x xs || mem x ys)
unfolding mem
mem-append x [] ys = refl
mem-append x (y ∷ xs) ys = ground (arith, mem-append x xs ys)

-- `xs.discard(x)`
abbrev pub discard : ℕ → List ℕ → List ℕ
discard x xs = filter_b (λ y. not (y == x)) xs

pub mem-discard : (t y : ℕ) (xs : List ℕ) → mem y (discard t xs) ≡ (mem y xs && not (y == t))
unfolding mem
mem-discard t y [] = refl
mem-discard t y (x ∷ xs) = ground (arith, mem-discard t y xs)

pub length-discard : (t : ℕ) (xs : List ℕ) → length (discard t xs) ≤ length xs
length-discard t [] = omega arith
length-discard t (x ∷ xs) = ground (arith, length-discard t xs)

pub length-discard-mem : (t : ℕ) (xs : List ℕ) → mem t xs ≡ true → length (discard t xs) < length xs
unfolding mem
length-discard-mem t [] m = cc
length-discard-mem t (x ∷ xs) m = ground (arith, length-discard t xs, length-discard-mem t xs)

-- No number occurs twice.
abbrev pub IsSetlike : List ℕ → Type 0
IsSetlike [] = Unit
IsSetlike (x ∷ xs) = (mem x xs ≡ false) × IsSetlike xs

-- A list without repetition is no longer than one that holds all its items.
pub length-mem-le :
    (xs ys : List ℕ)
    → IsSetlike xs
    → ((x : ℕ) → mem x xs ≡ true → mem x ys ≡ true)
    → length xs ≤ length ys
unfolding mem
length-mem-le [] ys s h = omega arith
length-mem-le (x ∷ xs) ys (fresh, s) h = omega (
  arith,
  length-discard-mem x ys (h x (ground arith)),
  length-mem-le xs (discard x ys) s (still x xs ys fresh h),
)
  where
    still :
        (a : ℕ) (ws bs : List ℕ)
        → mem a ws ≡ false
        → ((y : ℕ) → mem y (a ∷ ws) ≡ true → mem y bs ≡ true)
        → (y : ℕ) → mem y ws ≡ true
        → mem y (discard a bs) ≡ true
    still a ws bs fresh h y m = elim (Bool-cases (y == a)) [
      | inl e ↦ let same = ==→≡ y a e in cc (ap (λ k. mem k ws) same, m, fresh)
      | inr e ↦ ground (arith, mem-discard a y bs, h y, e)
    ]

-- When it is as long, it holds all of them.
pub mem-of_length :
    (xs ys : List ℕ) (y : ℕ)
    → IsSetlike xs
    → ((x : ℕ) → mem x xs ≡ true → mem x ys ≡ true)
    → length xs ≡ length ys
    → mem y ys ≡ true
    → mem y xs ≡ true
mem-of_length xs ys y s h e m = elim (Bool-cases (mem y xs)) [
  | inl found ↦ found
  | inr missing ↦ absurd (
      omega (arith, length-discard-mem y ys m, length-mem-le xs (discard y ys) s (without missing)))
]
  where
    without : mem y xs ≡ false → (x : ℕ) → mem x xs ≡ true → mem x (discard y ys) ≡ true
    without missing x at = elim (Bool-cases (x == y)) [
      | inl same ↦ cc (ap (λ k. mem k xs) (==→≡ x y same), at, missing)
      | inr other ↦ ground (arith, mem-discard y x ys, h x, other)
    ]
