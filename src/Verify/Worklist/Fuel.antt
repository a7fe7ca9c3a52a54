-- ===== src/Verify/Worklist/Fuel.antt =====
-- The worklist loop ends: every round pops an item, and an item is expanded once.
use hor_net_nsdi.Common.{
  ==→≡, subst, ℕ, zero, suc, ◌+◌, ◌≤◌, ◌<◌, ◌≡◌, refl, Bool, true, false, ◌||◌, ◌==◌, List, [], ◌∷◌,
  some, length, arith, Bool-cases, inl, inr,
}
use hor_net_nsdi.Common.Sets.{mem}
use hor_net_nsdi.Verify.Worklist.{extend, search, Expands, work}

pub mem-extend : (y : ℕ) (xs stack : List ℕ) → mem y (extend xs stack) ≡ (mem y xs || mem y stack)
unfolding extend mem
mem-extend y [] stack = refl
mem-extend y (x ∷ xs) stack = ground (arith, mem-extend y xs (x ∷ stack))

length-extend : (xs stack : List ℕ) → length (extend xs stack) ≡ length xs + length stack
unfolding extend
length-extend [] stack = omega arith
length-extend (x ∷ xs) stack = omega (arith, length-extend xs (x ∷ stack))

work-cons_ge :
    (children : ℕ → List ℕ) (k x : ℕ) (seen : List ℕ)
    → k ≤ x
    → work children k (x ∷ seen) ≡ work children k seen
unfolding work mem
work-cons_ge children zero x seen h = refl
work-cons_ge children (suc k) x seen h = ground (arith, work-cons_ge children k x seen)

work-cons_top :
    (children : ℕ → List ℕ) (k : ℕ) (seen : List ℕ)
    → mem k seen ≡ false
    → work children (suc k) (k ∷ seen) + length (children k) ≡ work children (suc k) seen
unfolding work mem
work-cons_top children k seen m = ground (arith, work-cons_ge children k k seen)

work-cons :
    (children : ℕ → List ℕ) (n x : ℕ) (seen : List ℕ)
    → x < n
    → mem x seen ≡ false
    → work children n (x ∷ seen) + length (children x) ≡ work children n seen
unfolding work mem
work-cons children zero x seen h m = absurd (omega arith)
work-cons children (suc k) x seen h m = elim (Bool-cases (k == x)) [
  | inl e ↦
      subst
        (λ z. work children (suc k) (z ∷ seen) + length (children z) ≡ work children (suc k) seen)
        (==→≡ k x e) (work-cons_top children k seen (rw (==→≡ k x e) m))
  | inr e ↦ ground (arith, work-cons children k x seen)
]

-- Every item of the stack is skipped or below `n`.
abbrev pub Fits : (ℕ → Bool) → ℕ → List ℕ → Type 0
Fits skip n stack = (x : ℕ) → mem x stack ≡ true → skip x ≡ false → x < n

module _ (skip : ℕ → Bool) (children : ℕ → List ℕ) (next : List ℕ → ℕ → List ℕ)
    (expands : Expands children next) (n : ℕ) (fits : (x : ℕ) → Fits skip n (children x)) where
  open expands use {only, few}

  Fits-extend :
      (x : ℕ) (seen stack : List ℕ)
      → Fits skip n (x ∷ stack)
      → Fits skip n (extend (next seen x) stack)
  unfolding mem
  Fits-extend x seen stack f y m s =
      ground (arith, mem-extend y (next seen x) stack, only seen x y, fits x y, f y)

  -- With this fuel the loop returns.
  pub search_returns :
      (fuel : ℕ) (stack seen : List ℕ)
      → Fits skip n stack
      → length stack + work children n seen ≤ fuel
      → (found : List ℕ) × (search skip next fuel stack seen ≡ some found)
  unfolding search mem
  search_returns fuel [] seen f h = (seen, refl)
  search_returns zero (x ∷ stack) seen f h = absurd (omega arith)
  search_returns (suc fuel) (x ∷ stack) seen f h = elim (Bool-cases (mem x seen || skip x)) [
    | inl old ↦
        rw (old, search) (search_returns fuel stack seen (λ y m. f y (ground arith)) (omega arith))
    | inr new ↦
        let pushed = next (x ∷ seen) x in
        let old = work-cons children n x seen (f x (ground arith) (ground arith)) (ground arith) in
        rw (new, search)
          (search_returns fuel (extend pushed stack) (x ∷ seen) (Fits-extend x (x ∷ seen) stack f)
            (omega (arith, length-extend pushed stack, few (x ∷ seen) x)))
  ]
