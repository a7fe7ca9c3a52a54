-- ===== src/Bpf/Cfg/Edges.antt =====
-- The edges of the control-flow graph: `preds` mirrors `succ_t` and `succ_f`.
use hor_net_nsdi.Common.{
  ℕ, zero, suc, ◌+◌, ◌≤◌, ◌<◌, ◌≡◌, refl, ◌==◌, if◌then◌else◌, List, [], ◌∷◌, some, none, length,
  arith, ap, inl, inr, Bool-cases, subst, ◌-◌,
}
use hor_net_nsdi.Common.Result.{ok, Ensures, Ensures-bind, Ensures-or_err, Ensures-elim, done}
use hor_net_nsdi.Bpf.Instr.{Instr}
use hor_net_nsdi.Bpf.Region.{ProgRegion}
use hor_net_nsdi.Bpf.Cfg.{
  new_block, leaders_of, sorted_set, Block, Graph, update, connect_all, enter_regions, build_cfg,
  make_blocks, Built,
}
use hor_net_nsdi.Bpf.Cfg.View.{field_at, succ_t_at, succ_f_at}
use hor_net_nsdi.Bpf.Cfg.Mirror.{Mirrors}
use hor_net_nsdi.Bpf.Cfg.Wired.{Wired, Wired-update, connect-Wired}

-- The blocks `bs` are numbered from `k` up to the number of starts.
abbrev Numbered : ℕ → ℕ → List Block → Type 0
Numbered m k [] = k ≡ m
Numbered m k (b ∷ bs) = (b.num ≡ k) × Numbered m (suc k) bs

Numbered-le : (m k : ℕ) (bs : List Block) → Numbered m k bs → k ≤ m
Numbered-le m k [] h = omega arith
Numbered-le m k (b ∷ bs) h = omega (arith, Numbered-le m (suc k) bs h.1)

module _ (instrs : List Instr) (progs : List ProgRegion) (starts : List ℕ) where
  connect_all-Wired :
      (k : ℕ) (bs : List Block) (g : Graph)
      → Numbered (length starts) k bs
      → Wired (length starts) k k g
      → Ensures
          (Wired (length starts) (length starts) (length starts))
          (connect_all instrs progs starts bs g)
  unfolding connect_all
  connect_all-Wired k [] g h w = done (subst (λ j. Wired (length starts) j j g) h w)
  connect_all-Wired k (b ∷ bs) g (e, h) w =
      let below : b.num < length starts = omega (arith, Numbered-le (length starts) (suc k) bs h) in
      let w' : Wired (length starts) b.num b.num g = rw e w in
      Ensures-bind _ (Wired (length starts) (suc b.num) (suc b.num)) _ _
        (connect-Wired instrs progs starts b g below w')
        λ g' next. connect_all-Wired (suc k) bs g' h (rw e at next)

  enter_regions-Wired :
      (m : ℕ) (rs : List ProgRegion) (g : Graph)
      → Wired m m m g
      → Ensures (λ r. Wired m m m r.1) (enter_regions instrs progs starts rs g)
  unfolding enter_regions
  enter_regions-Wired m [] g w = done w
  enter_regions-Wired m (r ∷ rs) g w = Ensures-or_err _ _ _ _ λ k _.
      let region = record r { entry_block = some k } in
      let w' : Wired m m m
          (if k == 0 then g else update g k (λ c. record c { prog_entry = some region })) =
        elim (Bool-cases (k == 0)) [
          | inl e ↦ rw e w
          | inr e ↦ rw e (Wired-update _ _ _ g k _ (λ x. refl) (λ x. refl) (λ x. refl) w)
        ] in
      Ensures-bind _ (λ (q : List ProgRegion × Graph). Wired m m m q.1) _ _
        (enter_regions-Wired m rs _ w') λ q next. done next

-- The blocks before the edges are drawn.
make_blocks-Numbered :
    (n k : ℕ) (starts : List ℕ) → Numbered (k + length starts) k (make_blocks n k starts)
unfolding make_blocks
make_blocks-Numbered n k [] = omega arith
make_blocks-Numbered n k (s ∷ []) = (refl, omega arith)
make_blocks-Numbered n k (s ∷ t ∷ rest) =
    let e : suc k + length (t ∷ rest) ≡ k + length (s ∷ t ∷ rest) = omega arith in
    (
      refl,
      subst (λ m. Numbered m (suc k) (make_blocks n (suc k) (t ∷ rest))) e
          (make_blocks-Numbered n (suc k) (t ∷ rest)),
    )

make_blocks-fresh {ℓ} :
    {A : Type ℓ} (f : Block → A) (d : A)
    → ((num start end : ℕ) → f (new_block num start end) ≡ d)
    → (n k : ℕ) (starts : List ℕ) (j : ℕ) → field_at f d (make_blocks n k starts) j ≡ d
unfolding make_blocks
make_blocks-fresh f d same n k [] j = refl
make_blocks-fresh f d same n k (s ∷ []) zero = same k s (n - 1)
make_blocks-fresh f d same n k (s ∷ []) (suc j) = refl
make_blocks-fresh f d same n k (s ∷ t ∷ rest) zero = same k s (t - 1)
make_blocks-fresh f d same n k (s ∷ t ∷ rest) (suc j) =
    make_blocks-fresh f d same n (suc k) (t ∷ rest) j

length-make_blocks : (n k : ℕ) (starts : List ℕ) → length (make_blocks n k starts) ≡ length starts
unfolding make_blocks
length-make_blocks n k [] = refl
length-make_blocks n k (s ∷ []) = refl
length-make_blocks n k (s ∷ t ∷ rest) = ap suc (length-make_blocks n (suc k) (t ∷ rest))

make_blocks-Wired :
    (n : ℕ) (starts : List ℕ) (cfg : List (List ℕ))
    → Wired (length starts) 0 0 (record { blocks = make_blocks n 0 starts; cfg = cfg })
make_blocks-Wired n starts cfg =
    let no_t = make_blocks-fresh (λ x. x.succ_t) none (λ _ _ _. refl) n 0 starts in
    let no_f = make_blocks-fresh (λ x. x.succ_f) none (λ _ _ _. refl) n 0 starts in
    let no_p = make_blocks-fresh (λ x. x.preds) [] (λ _ _ _. refl) n 0 starts in
    record {
      size = length-make_blocks n 0 starts;
      mirrors = λ p b. rw (no_p b, no_t p, no_f p) refl;
      bound_t = λ p s e. ground (arith, no_t p);
      bound_f = λ p s e. ground (arith, no_f p);
      free_t = λ j _. no_t j;
      free_f = λ j _. no_f j;
    }

-- What the edges of a finished graph satisfy.
pub record HasEdges (g : Graph) : Type 0 where
  pub mirrored : Mirrors g
  pub taken_lt : (p s : ℕ) → succ_t_at g p ≡ some s → s < length g.blocks
  pub fall_lt : (p s : ℕ) → succ_f_at g p ≡ some s → s < length g.blocks

build_cfg-Ensures :
    (instrs : List Instr) (progs : List ProgRegion)
    → Ensures (λ (q : Built). HasEdges q.graph) (build_cfg instrs progs)
unfolding build_cfg
build_cfg-Ensures instrs progs =
    let starts = sorted_set (leaders_of instrs progs) in
    let m = length starts in
    let numbered = make_blocks-Numbered (length instrs) 0 starts in
    Ensures-bind _ (Wired m m m) _ _
      (connect_all-Wired instrs progs starts 0 _ _
        (subst (λ k. Numbered k 0 (make_blocks (length instrs) 0 starts)) (omega arith) numbered)
        (make_blocks-Wired (length instrs) starts _))
      λ g w.
        Ensures-bind _ (λ (q : List ProgRegion × Graph). Wired m m m q.1) _ _
          (enter_regions-Wired instrs progs starts m progs g w)
          λ q w'. done (record {
            mirrored = w'.mirrors;
            taken_lt = λ p s h. rw w'.size (w'.bound_t p s h);
            fall_lt = λ p s h. rw w'.size (w'.bound_f p s h);
          })

-- When `build_cfg` returns, every edge leads to a block of the graph, and each block lists as its
-- predecessors exactly the blocks with an edge to it, once for each edge.
pub build_cfg-HasEdges :
    (instrs : List Instr) (progs : List ProgRegion) (r : Built)
    → build_cfg instrs progs ≡ ok r
    → HasEdges r.graph
build_cfg-HasEdges instrs progs r e = Ensures-elim _ _ r (build_cfg-Ensures instrs progs) e
