-- ===== src/Verify/Prune/Reach.antt =====
-- `forward_reachable` and `_slice_to` return, and return the blocks that a path leads to.
use hor_net_nsdi.Common.{
  ap, ==→≡, ℕ, zero, suc, ◌+◌, ◌≤◌, ◌<◌, ◌≡◌, ◌↔◌, refl, Bool, true, false, ◌&&◌, ◌==◌, not, List,
  [], ◌∷◌, some, length, arith, filter_b, Bool-cases, inl, inr,
}
use hor_net_nsdi.Common.Sets.{mem}
use hor_net_nsdi.Bpf.Cfg.{Block}
use hor_net_nsdi.Verify.Worklist.{work, Walk, Expands}
use hor_net_nsdi.Verify.Worklist.Fuel.{search_returns}
use hor_net_nsdi.Verify.Worklist.Reach.{search_iff}
use hor_net_nsdi.Verify.Prune.{succs_at, preds_of, outside, forward_reachable, slice_to}

all_pushed : (children : ℕ → List ℕ) → Expands children (λ seen b. children b)
all_pushed children = record {
  only = λ seen x y m. m;
  all_new = λ seen x y m. ground arith;
  few = λ seen x. omega arith;
}

-- The blocks on a path from block 0 through blocks of the program.
abbrev pub Forward : List Block → ℕ → Type 0
Forward blocks = Walk (outside blocks) (succs_at blocks) (0 ∷ [])

-- `forward_reachable` returns the set of the blocks on a path from block 0.
pub forward_reachable_lem :
    (blocks : List Block)
    → (live : List ℕ) × (forward_reachable blocks ≡ some live)
      × ((b : ℕ) → (mem b live ≡ true) ↔ Forward blocks b)
unfolding forward_reachable
forward_reachable_lem blocks =
    let fits = λ (stack : List ℕ) (x : ℕ) (m : mem x stack ≡ true) (s : outside blocks x ≡ false).
      in_range x s in
    let (live, e) =
      search_returns (outside blocks) (succs_at blocks) (λ seen b. succs_at blocks b)
        (all_pushed (succs_at blocks)) (length blocks) (λ x. fits (succs_at blocks x))
        (1 + work (succs_at blocks) (length blocks) []) (0 ∷ []) [] (fits (0 ∷ [])) (omega arith) in
    (
      live,
      e,
      λ b.
          search_iff (outside blocks) (succs_at blocks) _ (all_pushed (succs_at blocks)) (0 ∷ []) _
            live b e,
    )
  where
    in_range : (x : ℕ) → outside blocks x ≡ false → x < length blocks
    in_range x s = ground arith

pub mem-filter_b : (p : ℕ → Bool) (y : ℕ) (xs : List ℕ) → mem y (filter_b p xs) ≡ (mem y xs && p y)
unfolding mem
mem-filter_b p y [] = refl
mem-filter_b p y (x ∷ xs) = elim (Bool-cases (y == x)) [
  | inl e ↦ let q : p y ≡ p x = ap p (==→≡ y x e) in ground (arith, mem-filter_b p y xs)
  | inr e ↦ ground (arith, mem-filter_b p y xs)
]

length-filter_b-le :
    (p q : ℕ → Bool)
    → ((x : ℕ) → p x ≡ true → q x ≡ true)
    → (xs : List ℕ) → length (filter_b p xs) ≤ length (filter_b q xs)
length-filter_b-le p q h [] = omega arith
length-filter_b-le p q h (x ∷ xs) = ground (arith, h x, length-filter_b-le p q h xs)

length-filter_b : (p : ℕ → Bool) (xs : List ℕ) → length (filter_b p xs) ≤ length xs
length-filter_b p [] = omega arith
length-filter_b p (x ∷ xs) = ground (arith, length-filter_b p xs)

work-le :
    (c d : ℕ → List ℕ)
    → ((x : ℕ) → length (c x) ≤ length (d x))
    → (n : ℕ) (seen : List ℕ) → work c n seen ≤ work d n seen
unfolding work
work-le c d h zero seen = omega arith
work-le c d h (suc k) seen = ground (arith, h k, work-le c d h k seen)

module _ (blocks : List Block) (live : List ℕ) where
  abbrev pub live_preds : ℕ → List ℕ
  live_preds b = filter_b (λ p. mem p live) (preds_of blocks b)

  -- The blocks from which a path through live blocks leads to the target.
  abbrev pub Backward : ℕ → ℕ → Type 0
  Backward target = Walk (λ b. false) live_preds (target ∷ [])

  new_pushed :
      Expands live_preds
        (λ bwd b. filter_b (λ p. mem p live && not (mem p bwd)) (preds_of blocks b))
  new_pushed = record {
    only = λ seen x y m. ground (
      arith,
      mem-filter_b (λ p. mem p live && not (mem p seen)) y (preds_of blocks x),
      mem-filter_b (λ p. mem p live) y (preds_of blocks x),
    );
    all_new = λ seen x y m. ground (
      arith,
      mem-filter_b (λ p. mem p live && not (mem p seen)) y (preds_of blocks x),
      mem-filter_b (λ p. mem p live) y (preds_of blocks x),
    );
    few = λ seen x.
        length-filter_b-le (λ p. mem p live && not (mem p seen)) (λ p. mem p live)
          (λ y e. ground arith) (preds_of blocks x);
  }

  -- For live blocks and a target of the program, `_slice_to` returns the set of the blocks from
  -- which a path through live blocks leads to the target.
  pub slice_to_lem :
      (target : ℕ)
      → ((b : ℕ) → mem b live ≡ true → b < length blocks)
      → target < length blocks
      → (bwd : List ℕ) × (slice_to blocks live target ≡ some bwd)
        × ((b : ℕ) → (mem b bwd ≡ true) ↔ Backward target b)
  unfolding slice_to mem
  slice_to_lem target inside t_lt =
      let fuel = 1 + work (preds_of blocks) (length blocks) [] in
      let small =
        work-le live_preds (preds_of blocks)
          (λ x. length-filter_b (λ p. mem p live) (preds_of blocks x)) (length blocks) [] in
      let (bwd, e) =
        search_returns (λ b. false) live_preds _ new_pushed (length blocks)
          (λ x y m _.
            inside y (ground (arith, mem-filter_b (λ p. mem p live) y (preds_of blocks x))))
          fuel (target ∷ []) [] (λ y m _. ground arith) (omega arith) in
      (bwd, e, λ b. search_iff (λ b. false) live_preds _ new_pushed (target ∷ []) fuel bwd b e)
