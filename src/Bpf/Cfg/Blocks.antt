-- ===== src/Bpf/Cfg/Blocks.antt =====
-- The blocks tile the instructions, and only the last instruction of a block can leave it.
use hor_net_nsdi.Common.{
  ℕ, zero, suc, ◌-◌, ◌≤◌, ◌<◌, ◌≡◌, refl, ◌∙◌, subst, true, false, List, [], ◌∷◌, map, some,
  get_elem?, length, replicate, arith, false-of-ne-true,
}
use hor_net_nsdi.Common.Result.{ok, Ensures, done, Ensures-bind, Ensures-elim}
use hor_net_nsdi.Common.Sets.{mem}
use hor_net_nsdi.Bpf.Instr.{Instr}
use hor_net_nsdi.Bpf.Region.{ProgRegion}
use hor_net_nsdi.Bpf.Cfg.{Graph, Built, make_blocks, leaders_of, sorted_set, build_cfg}
use hor_net_nsdi.Bpf.Cfg.Spans.{Span, span, spans, connect_all-Same, enter_regions-Same}
use hor_net_nsdi.Bpf.Cfg.Leaders.{
  Ascends-le, ends_block, Ascends, AllBelow, mem-sorted_set, sorted_set-Ascends,
  sorted_set-AllBelow, leaders_of-zero, leaders_of-next, leaders_of-AllBelow,
}

-- The spans are numbered from `k` and cover the instructions from `s` up to `n`, with no gap and
-- no overlap.
abbrev pub Tiles : ℕ → ℕ → ℕ → List Span → Type 0
Tiles n k s [] = s ≡ n
Tiles n k s (b ∷ bs) = (b.num ≡ k) × (b.start ≡ s) × (s ≤ b.end) × Tiles n (suc k) (suc b.end) bs

make_blocks-Tiles :
    (n k s lo : ℕ) (rest : List ℕ)
    → Ascends lo (s ∷ rest)
    → AllBelow n (s ∷ rest)
    → Tiles n k s (map span (make_blocks n k (s ∷ rest)))
unfolding make_blocks
make_blocks-Tiles n k s lo [] a b = (refl, refl, omega arith, omega arith)
make_blocks-Tiles n k s lo (t ∷ rest) a b =
    let e : t ≡ suc (t - 1) = omega arith in
    (
      refl,
      refl,
      omega arith,
      subst (λ u. Tiles n (suc k) u (map span (make_blocks n (suc k) (t ∷ rest)))) e
          (make_blocks-Tiles n (suc k) t (suc s) rest a.1 b.1),
    )

-- An ascending list that holds 0 begins with it.
first_zero : (xs : List ℕ) → Ascends 0 xs → mem 0 xs ≡ true → (rest : List ℕ) × (xs ≡ 0 ∷ rest)
unfolding mem
first_zero [] a m = cc
first_zero (x ∷ xs) a m = (xs, ground (arith, Ascends-le (suc x) 0 xs))

make_blocks-start :
    (n k lo : ℕ) (starts : List ℕ) (j : ℕ) (b : Span)
    → Ascends lo starts
    → get_elem? (map span (make_blocks n k starts)) j ≡ some b
    → lo ≤ b.start
unfolding make_blocks
make_blocks-start n k lo [] j b a g = cc
make_blocks-start n k lo (s ∷ []) zero b a g = ground arith
make_blocks-start n k lo (s ∷ []) (suc j) b a g = cc
make_blocks-start n k lo (s ∷ t ∷ rest) zero b a g = ground arith
make_blocks-start n k lo (s ∷ t ∷ rest) (suc j) b a g =
    omega (arith, make_blocks-start n (suc k) (suc s) (t ∷ rest) j b a.1 g)

-- No start lies inside a block.
make_blocks-inside :
    (n k lo : ℕ) (starts : List ℕ) (j : ℕ) (b : Span) (y : ℕ)
    → Ascends lo starts
    → get_elem? (map span (make_blocks n k starts)) j ≡ some b
    → mem y starts ≡ true
    → b.start < y
    → ¬ (y ≤ b.end)
unfolding make_blocks mem
make_blocks-inside n k lo [] j b y a g m h le = cc
make_blocks-inside n k lo (s ∷ []) zero b y a g m h le = ground arith
make_blocks-inside n k lo (s ∷ []) (suc j) b y a g m h le = cc
make_blocks-inside n k lo (s ∷ t ∷ rest) zero b y a g m h le =
    ground (arith, Ascends-le t y (t ∷ rest))
make_blocks-inside n k lo (s ∷ t ∷ rest) (suc j) b y a g m h le = ground (
  arith,
  make_blocks-inside n (suc k) (suc s) (t ∷ rest) j b y,
  make_blocks-start n (suc k) (suc s) (t ∷ rest) j b,
)

built :
    (instrs : List Instr) (progs : List ProgRegion)
    → Ensures
        (λ (q : Built).
          spans q.graph
          ≡ map span (make_blocks (length instrs) 0 (sorted_set (leaders_of instrs progs))))
        (build_cfg instrs progs)
unfolding build_cfg
built instrs progs =
    let starts = sorted_set (leaders_of instrs progs) in
    let blocks = make_blocks (length instrs) 0 starts in
    let first : Graph = record { blocks = blocks; cfg = replicate (length blocks) [] } in
    Ensures-bind _ (λ (g : Graph). spans g ≡ spans first) _ _
      (connect_all-Same instrs progs starts blocks first)
      λ g same.
        Ensures-bind _ (λ (q : List ProgRegion × Graph). spans q.1 ≡ spans g) _ _
          (enter_regions-Same instrs progs starts progs g) λ q next. done (next ∙ same)

-- The spans of the finished graph are those that the leaders gave.
build_cfg-spans :
    (instrs : List Instr) (progs : List ProgRegion) (r : Built)
    → build_cfg instrs progs ≡ ok r
    → spans r.graph
      ≡ map span (make_blocks (length instrs) 0 (sorted_set (leaders_of instrs progs)))
build_cfg-spans instrs progs r e = Ensures-elim _ _ r (built instrs progs) e

module _ (instrs : List Instr) (progs : List ProgRegion) (r : Built)
    (returned : build_cfg instrs progs ≡ ok r) (some_instr : 0 < length instrs)
    (inside : AllBelow (length instrs) (map (λ p. p.start) progs)) where
  abbrev starts : List ℕ
  starts = sorted_set (leaders_of instrs progs)

  -- For a program with an instruction and regions that begin inside it, the blocks of the graph that
  -- `build_cfg` returns are numbered from 0 and tile the instructions: the first begins at instruction
  -- 0, each next one right behind the end of the one before, and the last ends with the program.
  pub build_cfg-Tiles : Tiles (length instrs) 0 0 (spans r.graph)
  build_cfg-Tiles =
      let ascending = sorted_set-Ascends (leaders_of instrs progs) in
      let below = sorted_set-AllBelow _ _ (leaders_of-AllBelow instrs progs some_instr inside) in
      let (rest, e) =
        first_zero starts ascending
          (mem-sorted_set 0 (leaders_of instrs progs) ∙ leaders_of-zero instrs progs) in
      rw (build_cfg-spans instrs progs r returned)
        (rw e (make_blocks-Tiles (length instrs) 0 0 0 rest (rw e at ascending) (rw e at below)))

-- Inside a block of the graph that `build_cfg` returns, when its end lies in the program, no
-- instruction before the last one ends a block: none jumps, exits or makes a tail call.
pub build_cfg-straight :
    (instrs : List Instr) (progs : List ProgRegion) (r : Built) (k i : ℕ) (b : Span) (x : Instr)
    → build_cfg instrs progs ≡ ok r
    → get_elem? (spans r.graph) k ≡ some b
    → get_elem? instrs i ≡ some x
    → b.start ≤ i
    → i < b.end
    → b.end < length instrs
    → ends_block x ≡ false
build_cfg-straight instrs progs r k i b x returned at_k at_i lo hi fits =
    let starts = sorted_set (leaders_of instrs progs) in
    false-of-ne-true (ends_block x) λ ends.
      make_blocks-inside (length instrs) 0 0 starts k b (suc i)
        (sorted_set-Ascends (leaders_of instrs progs))
        (rw (build_cfg-spans instrs progs r returned) at at_k)
        (mem-sorted_set (suc i) (leaders_of instrs progs)
          ∙ leaders_of-next instrs progs i x at_i ends (omega arith))
        (omega arith) (omega arith)
