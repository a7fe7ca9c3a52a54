-- ===== src/Verify/Worklist/Reach.antt =====
-- What the worklist loop returns: exactly the items reached from the first stack.
use mathlib.Core.Option.{some-injective}
use hor_net_nsdi.Common.{
  ℕ, zero, suc, ◌≡◌, ◌↔◌, Bool, true, false, ◌||◌, ◌==◌, ==→≡, List, [], ◌∷◌, some, arith,
  Bool-cases, inl, inr, subst,
}
use hor_net_nsdi.Common.Sets.{mem}
use hor_net_nsdi.Verify.Worklist.{extend, search, Expands, Walk, root, step}
use hor_net_nsdi.Verify.Worklist.Fuel.{mem-extend}

module _ (skip : ℕ → Bool) (children : ℕ → List ℕ) (next : List ℕ → ℕ → List ℕ)
    (expands : Expands children next) (roots : List ℕ) where
  open expands use {only, all_new}

  -- A stacked item is reached as soon as it is not skipped; a seen one is reached.
  record Inv (stack seen : List ℕ) : Type 0 where
    stacked : (x : ℕ) → mem x stack ≡ true → skip x ≡ false → Walk skip children roots x
    reached : (x : ℕ) → mem x seen ≡ true → Walk skip children roots x
    from_roots : (x : ℕ) → mem x roots ≡ true → skip x ≡ false → (mem x seen || mem x stack) ≡ true
    closed :
        (x y : ℕ)
        → mem x seen ≡ true
        → mem y (children x) ≡ true
        → skip y ≡ false
        → (mem y seen || mem y stack) ≡ true

  Inv-drop :
      (x : ℕ) (stack seen : List ℕ)
      → (mem x seen || skip x) ≡ true
      → Inv (x ∷ stack) seen
      → Inv stack seen
  unfolding mem
  Inv-drop x stack seen old i = record {
    stacked = λ y m. i.stacked y (ground arith);
    reached = i.reached;
    from_roots = λ y m s. drop y s (i.from_roots y m s);
    closed = λ z y m c s. drop y s (i.closed z y m c s);
  }
    where
      drop :
          (y : ℕ)
          → skip y ≡ false
          → (mem y seen || mem y (x ∷ stack)) ≡ true
          → (mem y seen || mem y stack) ≡ true
      drop y s h = elim (Bool-cases (y == x)) [
        | inl e ↦ let e' = ==→≡ y x e in ground (arith, rw (← e') at old)
        | inr e ↦ ground arith
      ]

  Inv-expand :
      (x : ℕ) (stack seen : List ℕ)
      → (mem x seen || skip x) ≡ false
      → Inv (x ∷ stack) seen
      → Inv (extend (next (x ∷ seen) x) stack) (x ∷ seen)
  unfolding mem
  Inv-expand x stack seen new i = record {
    stacked = λ y m s. elim (Bool-cases (mem y (next (x ∷ seen) x))) [
      | inl pushed ↦ step at_x (only (x ∷ seen) x y pushed) s
      | inr old ↦ i.stacked y (ground (arith, in_stack y)) s
    ];
    reached = λ y m. elim (Bool-cases (y == x)) [
      | inl e ↦ rw (==→≡ y x e) at_x
      | inr e ↦ i.reached y (ground arith)
    ];
    from_roots = λ y m s. ground (arith, i.from_roots y m s, in_stack y);
    closed = λ z y m c s. elim (Bool-cases (z == x)) [
      | inl e ↦
          let child = all_new (x ∷ seen) x y (rw (==→≡ z x e) at c) in ground (arith, in_stack y)
      | inr e ↦ ground (arith, i.closed z y (ground arith) c s, in_stack y)
    ];
  }
    where
      at_x : Walk skip children roots x
      at_x = i.stacked x (ground arith) (ground arith)

      in_stack :
          (y : ℕ)
          → mem y (extend (next (x ∷ seen) x) stack) ≡ (mem y (next (x ∷ seen) x) || mem y stack)
      in_stack y = mem-extend y (next (x ∷ seen) x) stack

  search-Inv :
      (fuel : ℕ) (stack seen found : List ℕ)
      → Inv stack seen
      → search skip next fuel stack seen ≡ some found
      → Inv [] found
  unfolding search
  search-Inv fuel [] seen found i h = subst (Inv []) (some-injective _ _ h) i
  search-Inv zero (x ∷ stack) seen found i h = cc
  search-Inv (suc fuel) (x ∷ stack) seen found i h = elim (Bool-cases (mem x seen || skip x)) [
    | inl old ↦
        search-Inv fuel stack seen found (Inv-drop x stack seen old i) (rw (old, search) at h)
    | inr new ↦
        search-Inv fuel (extend (next (x ∷ seen) x) stack) (x ∷ seen) found
          (Inv-expand x stack seen new i) (rw (new, search) at h)
  ]

  Inv-start : Inv roots []
  unfolding mem
  Inv-start = record {
    stacked = λ x m s. root m s;
    reached = λ x m. cc;
    from_roots = λ x m s. m;
    closed = λ x y m c s. cc;
  }

  Walk-found :
      {x : ℕ} (found : List ℕ) → Inv [] found → Walk skip children roots x → mem x found ≡ true
  unfolding mem
  Walk-found found i (root {x} m s) = ground (arith, i.from_roots x m s)
  Walk-found found i (step {x} {y} p c s) =
      let at_x = Walk-found found i p in ground (arith, i.closed x y at_x c s)

  -- The loop returns exactly the items that a path leads to.
  pub search_iff :
      (fuel : ℕ) (found : List ℕ) (x : ℕ)
      → search skip next fuel roots [] ≡ some found
      → (mem x found ≡ true) ↔ Walk skip children roots x
  search_iff fuel found x h =
      let i = search-Inv fuel roots [] found Inv-start h in (i.reached x, Walk-found found i)
