-- ===== src/Track/Order/Ready.antt =====
-- In an acyclic graph the tracker always finds a block that is ready, and tracks each block after
-- all its predecessors.
use hor_net_nsdi.Common.{
  ℕ, zero, suc, ◌≤◌, ◌<◌, ◌≡◌, refl, sym, ◌∙◌, ap, subst, true, false, ◌||◌, not, ◌==◌, ==→≡, List,
  [], ◌∷◌, some, all_b, length, arith, Bool-cases, inl, inr,
}
use hor_net_nsdi.Common.Sets.{mem, discard, mem-discard, length-discard-mem}
use hor_net_nsdi.Bpf.Cfg.{Block}
use hor_net_nsdi.Verify.Prune.{preds_of}
use hor_net_nsdi.Track.Order.{is_ready, next_from, next_block_no, track_all}

not-all_b :
    (untraced ps : List ℕ)
    → all_b (λ p. not (mem p untraced)) ps ≡ false
    → (p : ℕ) × (mem p ps ≡ true) × (mem p untraced ≡ true)
unfolding mem
not-all_b untraced [] h = cc
not-all_b untraced (p ∷ ps) h = elim (Bool-cases (mem p untraced)) [
  | inl e ↦ (p, ground arith, e)
  | inr e ↦
      let (q, m, u) = not-all_b untraced ps (ground (arith, h, e)) in (q, ground (arith, m), u)
]

all_b-at :
    (untraced ps : List ℕ) (p : ℕ)
    → all_b (λ p. not (mem p untraced)) ps ≡ true
    → mem p ps ≡ true
    → mem p untraced ≡ false
unfolding mem
all_b-at untraced [] p h m = cc
all_b-at untraced (q ∷ ps) p h m = elim (Bool-cases (p == q)) [
  | inl e ↦ subst (λ x. mem x untraced ≡ false) (sym (==→≡ p q e)) (ground arith)
  | inr e ↦ all_b-at untraced ps p (ground arith) (ground arith)
]

next_from-some :
    (blocks : List Block) (untraced items : List ℕ) (t : ℕ)
    → mem t items ≡ true
    → is_ready blocks untraced t ≡ true
    → (y : ℕ) × (next_from blocks untraced items ≡ some y)
      × (is_ready blocks untraced y ≡ true)
      × (mem y items ≡ true)
unfolding next_from mem
next_from-some blocks untraced [] t m r = cc
next_from-some blocks untraced (x ∷ items) t m r = elim (Bool-cases (is_ready blocks untraced x)) [
  | inl e ↦ (x, rw e refl, e, ground arith)
  | inr e ↦ elim (Bool-cases (t == x)) [
    | inl same ↦ absurd (true_false (sym r ∙ ap (is_ready blocks untraced) (==→≡ t x same) ∙ e))
    | inr other ↦
        let (y, f, ry, my) = next_from-some blocks untraced items t (ground (arith, m, other)) r in
        (y, rw e f, ry, ground (arith, my))
  ]
]
  where
    true_false : true ≡ false → ⊥
    true_false h = cc

mem-front :
    (t b : ℕ) (rest untraced : List ℕ)
    → mem t untraced ≡ true
    → mem b rest ≡ mem b (discard t untraced)
    → mem b (t ∷ rest) ≡ mem b untraced
unfolding mem
mem-front t b rest untraced m h = elim (Bool-cases (b == t)) [
  | inl e ↦
      subst (λ x. (x == t || mem x rest) ≡ mem x untraced) (sym (==→≡ b t e)) (rw (m, self t) refl)
  | inr e ↦ ground (arith, h, e, mem-discard t b untraced)
]
  where
    self : (n : ℕ) → (n == n) ≡ true
    self n = ground arith

track_all-next :
    (blocks : List Block) (fuel x t : ℕ) (xs rest : List ℕ)
    → next_block_no blocks (x ∷ xs) ≡ some t
    → track_all blocks fuel (discard t (x ∷ xs)) ≡ some rest
    → track_all blocks (suc fuel) (x ∷ xs) ≡ some (t ∷ rest)
unfolding track_all
track_all-next blocks fuel x t xs rest e r = rw (e, track_all, r) refl

-- Each block of the order comes after all its predecessors in it.
abbrev pub IsOrdered : List Block → List ℕ → Type 0
IsOrdered blocks [] = Unit
IsOrdered blocks (t ∷ rest) =
    ((p : ℕ) → mem p (preds_of blocks t) ≡ true → mem p (t ∷ rest) ≡ false) × IsOrdered blocks rest

module _ (blocks : List Block) (rank : ℕ → ℕ)
    (acyclic : (b p : ℕ) → mem p (preds_of blocks b) ≡ true → rank p < rank b) where
  -- Below each untraced block there is one that is ready.
  some_ready :
      (untraced : List ℕ) (n x : ℕ)
      → mem x untraced ≡ true
      → rank x < n
      → (t : ℕ) × (mem t untraced ≡ true) × (is_ready blocks untraced t ≡ true)
  unfolding is_ready
  some_ready untraced zero x m h = absurd (omega arith)
  some_ready untraced (suc n) x m h = elim (Bool-cases (is_ready blocks untraced x)) [
    | inl e ↦ (x, m, e)
    | inr e ↦
        let (p, pred, waits) = not-all_b untraced (preds_of blocks x) e in
        some_ready untraced n p waits (omega (arith, acyclic x p pred))
  ]

  next_block_no-some :
      (b : ℕ) (untraced : List ℕ)
      → (t : ℕ) × (next_block_no blocks (b ∷ untraced) ≡ some t)
        × (is_ready blocks (b ∷ untraced) t ≡ true)
        × (mem t (b ∷ untraced) ≡ true)
  unfolding mem
  next_block_no-some b untraced =
      let (t, m, ready) = some_ready (b ∷ untraced) (suc (rank b)) b (ground arith) (omega arith) in
      next_from-some blocks (b ∷ untraced) (b ∷ untraced) t m ready

  all_tracked :
      (fuel : ℕ) (untraced : List ℕ)
      → length untraced ≤ fuel
      → (order : List ℕ) × (track_all blocks fuel untraced ≡ some order)
        × ((b : ℕ) → mem b order ≡ mem b untraced)
        × IsOrdered blocks order
  unfolding track_all is_ready
  all_tracked fuel [] h = ([], refl, (λ b. refl), tt)
  all_tracked zero (x ∷ xs) h = absurd (omega arith)
  all_tracked (suc fuel) (x ∷ xs) h =
      let (t, e, ready, m) = next_block_no-some x xs in
      let (rest, r, same, ordered) =
        all_tracked fuel (discard t (x ∷ xs)) (omega (arith, length-discard-mem t (x ∷ xs) m)) in
      let all = λ (b : ℕ). mem-front t b rest (x ∷ xs) m (same b) in
      (
        t ∷ rest,
        track_all-next blocks fuel x t xs rest e r,
        all,
        ((λ p pred. all p ∙ all_b-at (x ∷ xs) (preds_of blocks t) p ready pred), ordered),
      )

-- Along every edge of the graph a rank goes up, so it has no cycle. Then the loop of `track` never
-- fails to find a block: from any set of untraced blocks it tracks exactly these, and each after all
-- its predecessors.
pub track_all-IsOrdered :
    (blocks : List Block) (rank : ℕ → ℕ) (untraced : List ℕ)
    → ((b p : ℕ) → mem p (preds_of blocks b) ≡ true → rank p < rank b)
    → (order : List ℕ) × (track_all blocks (length untraced) untraced ≡ some order)
      × ((b : ℕ) → mem b order ≡ mem b untraced)
      × IsOrdered blocks order
track_all-IsOrdered blocks rank untraced acyclic =
    all_tracked blocks rank acyclic (length untraced) untraced (omega arith)
