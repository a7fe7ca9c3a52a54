-- ===== src/Verify/Worklist.antt =====
-- The worklist loop that hornet/verify/prune.py, hornet/track/dce.py and hornet/verify/cost.py share:
--   while stack: x = stack.pop(); if <skip x> or x in seen: continue
--                seen.add(x); stack.extend(<next x>)
-- The stack is a list with its top first; it takes fuel, and `none` means that the fuel ran out.
pub mod Reach
pub mod Fuel
use hor_net_nsdi.Common.{
  ℕ, zero, suc, ◌+◌, Bool, true, false, ◌||◌, if◌then◌else◌, List, [], ◌∷◌, Option, some, none,
  length, ◌≡◌, ◌≤◌,
}
use hor_net_nsdi.Common.Sets.{mem}

-- `stack.extend(xs)`: the last item of `xs` comes to the top.
unfoldable pub extend : List ℕ → List ℕ → List ℕ
extend [] stack = stack
extend (x ∷ xs) stack = extend xs (x ∷ stack)

unfoldable pub search : (ℕ → Bool) → (List ℕ → ℕ → List ℕ) → ℕ → List ℕ → List ℕ → Option (List ℕ)
unfolding mem extend
search skip next fuel [] seen = some seen
search skip next zero (x ∷ stack) seen = none
search skip next (suc fuel) (x ∷ stack) seen = elim (mem x seen || skip x) [
  | true ↦ search skip next fuel stack seen
  | false ↦ search skip next fuel (extend (next (x ∷ seen) x) stack) (x ∷ seen)
]

-- The items reached from the roots over `children`, through items that are not skipped.
pub data Walk (skip : ℕ → Bool) (children : ℕ → List ℕ) (roots : List ℕ) : ℕ → Type 0 where
  root : {x : ℕ} → mem x roots ≡ true → skip x ≡ false → Walk skip children roots x
  step :
      {x y : ℕ}
      → Walk skip children roots x
      → mem y (children x) ≡ true
      → skip y ≡ false
      → Walk skip children roots y

-- How the pushed items relate to the children: nothing else is pushed, and a child that is not
-- pushed has been seen.
pub record Expands (children : ℕ → List ℕ) (next : List ℕ → ℕ → List ℕ) : Type 0 where
  pub only : (seen : List ℕ) (x y : ℕ) → mem y (next seen x) ≡ true → mem y (children x) ≡ true
  pub all_new :
      (seen : List ℕ) (x y : ℕ)
      → mem y (children x) ≡ true
      → (mem y seen || mem y (next seen x)) ≡ true
  pub few : (seen : List ℕ) (x : ℕ) → length (next seen x) ≤ length (children x)

-- The rounds that suffice for the items below `n`: one for each child of an item not yet seen.
unfoldable pub work : (ℕ → List ℕ) → ℕ → List ℕ → ℕ
work children zero seen = 0
work children (suc k) seen = (if mem k seen then 0 else length (children k)) + work children k seen
