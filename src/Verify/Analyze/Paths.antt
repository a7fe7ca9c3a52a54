-- ===== src/Verify/Analyze/Paths.antt =====
-- The path conditions of `analyze` over the graph that `build_cfg` makes: an execution reaches a
-- block exactly when the condition of its entry is true.
use hor_net_nsdi.Common.{
  ℕ, ◌<◌, ◌≡◌, ◌≢◌, ◌↔◌, refl, sym, ◌∙◌, ap, true, ◌||◌, ◌==◌, ==→≡, ≡→==, List, [], ◌∷◌, Option,
  some, none, get_elem?, length, arith, Bool-cases, inl, inr,
}
use hor_net_nsdi.Common.Sets.{mem, mem-of_length}
use hor_net_nsdi.Common.Result.{ok, ◌>>=◌, or_err, >>=-eq-ok, done, Ensures-elim}
use hor_net_nsdi.Bpf.Instr.{Instr}
use hor_net_nsdi.Bpf.Region.{ProgRegion}
use hor_net_nsdi.Bpf.Cfg.{Built, Graph, build_cfg}
use hor_net_nsdi.Bpf.Cfg.View.{succ_t_at, succ_f_at, preds_at}
use hor_net_nsdi.Bpf.Cfg.Mirror.{count, hits}
use hor_net_nsdi.Bpf.Cfg.Edges.{HasEdges, build_cfg-HasEdges}
use hor_net_nsdi.Verify.Worklist.{root, step}
use hor_net_nsdi.Verify.Prune.{preds_of, succs_at, topo_order}
use hor_net_nsdi.Verify.Prune.Reach.{Forward, forward_reachable_lem}
use hor_net_nsdi.Verify.Prune.Topo.{IsLinear, topo_order-IsLinear}
use hor_net_nsdi.Verify.Guard.{Logic, Guard, value}
use hor_net_nsdi.Verify.Analyze.{BlockInfo, info_of, leads_to, analyze_from, analyze}
use hor_net_nsdi.Verify.Analyze.Keep.{IsKept, asked, kept-IsKept}
use hor_net_nsdi.Verify.Analyze.Exact.{
  goes, goes-mem, mem-successors, Runs, start, step as run_step, analyze_from-IsExact,
}

not_in_nil : (b : ℕ) → mem b [] ≡ true → ⊥
unfolding mem
not_in_nil b h = cc

hits-leads_to : (o : Option ℕ) (b : ℕ) → leads_to o b ≡ true → hits o b ≡ 1
hits-leads_to none b h = cc
hits-leads_to (some s) b h = ground arith

leads_to-some : (o : Option ℕ) (b : ℕ) → leads_to o b ≡ true → o ≡ some b
leads_to-some none b h = cc
leads_to-some (some s) b h = ap some (==→≡ s b h)

count-mem : (p : ℕ) (xs : List ℕ) → 0 < count p xs → mem p xs ≡ true
unfolding mem
count-mem p [] h = absurd (omega arith)
count-mem p (x ∷ xs) h = elim (Bool-cases (p == x)) [
  | inl e ↦ ground arith
  | inr e ↦ ground (arith, count-mem p xs)
]

module _ (g : Graph) (edges : HasEdges g) where
  edge-leads_to :
      (p b : ℕ)
      → mem b (succs_at g.blocks p) ≡ true
      → (leads_to (succ_t_at g p) b || leads_to (succ_f_at g p) b) ≡ true
  edge-leads_to p b h = sym (mem-successors (get_elem? g.blocks p) b) ∙ h

  pub edge-preds :
      (p b : ℕ) → mem b (succs_at g.blocks p) ≡ true → mem p (preds_of g.blocks b) ≡ true
  edge-preds p b h = count-mem p (preds_at g b) (elim (Bool-cases (leads_to (succ_t_at g p) b)) [
    | inl e ↦ omega (arith, edges.mirrored p b, hits-leads_to (succ_t_at g p) b e)
    | inr e ↦ omega (
      arith,
      edges.mirrored p b,
      hits-leads_to (succ_f_at g p) b (ground (arith, edge-leads_to p b h)),
    )
  ])

  pub edge-lt : (p b : ℕ) → mem b (succs_at g.blocks p) ≡ true → b < length g.blocks
  edge-lt p b h = elim (Bool-cases (leads_to (succ_t_at g p) b)) [
    | inl e ↦ edges.taken_lt p b (leads_to-some _ b e)
    | inr e ↦
        edges.fall_lt p b (leads_to-some (succ_f_at g p) b (ground (arith, edge-leads_to p b h)))
  ]

  pub Forward-lt : 0 < length g.blocks → (b : ℕ) → Forward g.blocks b → b < length g.blocks
  Forward-lt pos b (root h o) = ground arith
  Forward-lt pos b (step w h o) = ground arith

module _ (z : Logic) (m : z.Model) (g : Graph) (edges : HasEdges g)
    (cond : ℕ → Option (Guard z.Term)) where
  open z use {Term}

  -- The execution that the model describes reaches the block.
  pub data Reaches : ℕ → Type 0 where
    begin : {b : ℕ} → b ≡ 0 → Reaches b
    follow : {p b : ℕ} → Reaches p → goes z m g.blocks cond p b ≡ true → Reaches b

  pub Reaches-Forward : 0 < length g.blocks → (b : ℕ) → Reaches b → Forward g.blocks b
  unfolding mem
  Reaches-Forward pos b (begin e) = root (ground (arith, e)) (ground (arith, e))
  Reaches-Forward pos b (follow {p = p} r h) =
      let edge = goes-mem z m g.blocks cond p b h in
      step (Reaches-Forward pos p r) edge (ground (arith, edge-lt g edges p b edge))

  Runs-Reaches : {order : List ℕ} {b : ℕ} → Runs z m g.blocks cond order b → Reaches b
  Runs-Reaches (start e h) = begin e
  Runs-Reaches (run_step r h at) = follow (Runs-Reaches r) h

  module _ (live keep order : List ℕ) (alive : (b : ℕ) → Reaches b → mem b live ≡ true)
      (k : IsKept g.blocks live keep) (all : (b : ℕ) → mem b keep ≡ true → mem b order ≡ true) where
    Reaches-Runs : (b : ℕ) → Reaches b → mem b keep ≡ true → Runs z m g.blocks cond order b
    Reaches-Runs b (begin e) at = start e (all b at)
    Reaches-Runs b (follow {p = p} r h) at = elim (Bool-cases (b == 0)) [
      | inl e ↦ start (==→≡ b 0 e) (all b at)
      | inr e ↦
          let edge = edge-preds g edges p b (goes-mem z m g.blocks cond p b h) in
          let kept_p = k.closed p b at (λ same. cc (sym e ∙ ≡→== b 0 same)) edge (alive p r) in
          run_step (Reaches-Runs p r kept_p) h (all b at)
    ]

  -- Every entry is exact, and what was asked for and is reached has one.
  pub record IsPathExact (targets : Option (List ℕ)) (info : List (BlockInfo Term)) : Type 0 where
    pub exact :
        (b : ℕ) (i : BlockInfo Term)
        → info_of info b ≡ some i
        → (value z m i.reach ≡ true) ↔ Reaches b
    pub complete : (b : ℕ) → asked targets b ≡ true → Reaches b → info_of info b ≢ none

  ordered-IsPathExact :
      (targets : Option (List ℕ)) (live keep order : List ℕ)
      → ((b : ℕ) → Reaches b → mem b live ≡ true)
      → IsKept g.blocks live keep
      → ((b : ℕ) → asked targets b ≡ true → mem b live ≡ true → mem b keep ≡ true)
      → IsLinear g.blocks keep order
      → IsPathExact targets (analyze_from z g.blocks cond [] order)
  ordered-IsPathExact targets live keep order alive k wanted l =
      let all = λ (b : ℕ) (h : mem b keep ≡ true).
        mem-of_length order keep b l.distinct l.live_only l.size h in
      let done_ =
        analyze_from-IsExact z m g.blocks cond keep order l.live_only (edge-preds g edges) order []
          (λ b h. h) l.forwards l.distinct
          (record {
            guards = λ p i h. cc;
            exact = λ p i h. cc;
            within = λ p i h. cc;
            to_come = λ p h e. h;
          }) in
      record {
        exact = λ b i h. (
          λ v. Runs-Reaches ((done_.exact b i h).0 v),
          λ r.
              (done_.exact b i h).1
                (Reaches-Runs live keep order alive k all b r (l.live_only b (done_.within b i h))),
        );
        complete = λ b a r missing.
            not_in_nil b (done_.to_come b (all b (wanted b a (alive b r))) missing);
      }

-- When `build_cfg` returns a graph of one block or more and `analyze` returns on it, then in every
-- model of the solver's variables the condition of an entry is true exactly when the execution that
-- the model describes reaches the entry's block, and every block that is reached has an entry if it
-- is asked for (all are, where no targets are given).
pub analyze-IsPathExact :
    (z : Logic) (m : z.Model) (instrs : List Instr) (progs : List ProgRegion) (r : Built)
    (cond : ℕ → Option (Guard z.Term)) (targets : Option (List ℕ)) (info : List (BlockInfo z.Term))
    (e : build_cfg instrs progs ≡ ok r)
    → 0 < length r.graph.blocks
    → analyze z r.graph.blocks cond targets ≡ ok info
    → IsPathExact z m r.graph (build_cfg-HasEdges instrs progs r e) cond targets info
unfolding analyze ◌>>=◌ or_err
analyze-IsPathExact z m instrs progs r cond targets info e pos h =
    let edges = build_cfg-HasEdges instrs progs r e in
    let (live, found, is_live) = forward_reachable_lem r.graph.blocks in
    let alive = λ (b : ℕ) (p : Reaches z m r.graph edges cond b).
      (is_live b).1 (Reaches-Forward z m r.graph edges cond pos b p) in
    let in_range =
      λ (b : ℕ) (l : mem b live ≡ true). Forward-lt r.graph edges pos b ((is_live b).0 l) in
    let (keep, eq, k, wanted) =
      kept-IsKept r.graph.blocks live in_range targets (alive 0 (begin refl)) in
    let (order, ordered, same) =
      >>=-eq-ok (topo_order r.graph.blocks keep) (λ o. ok (analyze_from z r.graph.blocks cond [] o))
        (rw (found, eq) at h) in
    Ensures-elim (IsPathExact z m r.graph edges cond targets) _ info
      (done (
        ordered-IsPathExact z m r.graph edges cond targets live keep order alive k wanted
          (topo_order-IsLinear r.graph.blocks keep order k.entry ordered)))
      same
