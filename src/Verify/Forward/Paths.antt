-- ===== src/Verify/Forward/Paths.antt =====
-- The path conditions of a `ForwardContext` are exact.
use hor_net_nsdi.Common.{
  ℕ, ◌<◌, ◌≡◌, ◌≢◌, ◌↔◌, refl, sym, ◌∙◌, ap, subst, true, List, [], Option, some, none, length,
}
use mathlib.Core.Option.{some-injective}
use hor_net_nsdi.Common.Sets.{mem}
use hor_net_nsdi.Common.Result.{ok, ◌>>=◌, or_err, >>=-eq-ok, done, Ensures-elim}
use hor_net_nsdi.Bpf.Instr.{Instr}
use hor_net_nsdi.Bpf.Region.{ProgRegion}
use hor_net_nsdi.Bpf.Cfg.{Block, Built, Graph, build_cfg}
use hor_net_nsdi.Bpf.Cfg.Edges.{HasEdges, build_cfg-HasEdges}
use hor_net_nsdi.Verify.Prune.{forward_reachable, topo_order}
use hor_net_nsdi.Verify.Prune.Reach.{forward_reachable_lem}
use hor_net_nsdi.Verify.Prune.Topo.{topo_order-IsLinear}
use hor_net_nsdi.Verify.Guard.{Logic, Guard, value}
use hor_net_nsdi.Verify.Analyze.{BlockInfo, info_of, kept, analyze, analyze_from}
use hor_net_nsdi.Verify.Analyze.Keep.{asked, kept-IsKept}
use hor_net_nsdi.Verify.Analyze.Paths.{
  Reaches, begin, analyze-IsPathExact, Reaches-Forward, Forward-lt,
}
use hor_net_nsdi.Verify.Forward.{Memory, ForwardInfo, forward_of, walk, forward_context}
use hor_net_nsdi.Verify.Forward.Agrees.{Agrees, neither, both, walk-Agrees}

module _ (z : Logic) (memory : Memory z) where
  open z use {Term, Model}
  open memory use {State, cond_at}

  -- The condition of each branch, at the memory that the walk ends the block with.
  abbrev pub cond_in : List (ForwardInfo Term State) → ℕ → Option (Guard Term)
  cond_in info b = elim (forward_of info b) [ none ↦ none | some w ↦ cond_at b w.sigma ]

  cond_in_lem :
      (info : List (ForwardInfo Term State)) (b : ℕ) (w : ForwardInfo Term State)
      → forward_of info b ≡ some w
      → cond_in info b ≡ cond_at b w.sigma
  cond_in_lem info b w e = rw (cond_in, e) refl

  -- Every entry is exact, and what was asked for and is reached has one.
  pub record IsForwardExact (m : Model) (g : Graph) (edges : HasEdges g) (targets : Option (List ℕ))
      (info : List (ForwardInfo Term State)) : Type 0 where
    pub exact :
        (b : ℕ) (w : ForwardInfo Term State)
        → forward_of info b ≡ some w
        → (value z m w.reach ≡ true) ↔ Reaches z m g edges (cond_in info) b
    pub complete :
        (b : ℕ)
        → asked targets b ≡ true
        → Reaches z m g edges (cond_in info) b
        → forward_of info b ≢ none

  agreed :
      (m : Model) {oi : Option (BlockInfo Term)} {ow : Option (ForwardInfo Term State)} {P : Type 0}
      (w : ForwardInfo Term State)
      → Agrees z memory oi ow
      → ow ≡ some w
      → ((i : BlockInfo Term) → oi ≡ some i → (value z m i.reach ≡ true) ↔ P)
      → (value z m w.reach ≡ true) ↔ P
  agreed m w neither e h = cc
  agreed m {P = P} w (both {i = i} {w = v} r t f) e h =
      let same = ap (λ (x : ForwardInfo Term State). x.reach) (sym (some-injective _ _ e)) in
      subst (λ (x : Guard Term). (value z m x ≡ true) ↔ P) (sym (same ∙ r)) (h i refl)

  missing :
      {oi : Option (BlockInfo Term)} {ow : Option (ForwardInfo Term State)}
      → Agrees z memory oi ow
      → ow ≡ none
      → oi ≡ none
  missing neither e = refl
  missing (both r t f) e = cc

  -- What `forward_context` returned is the walk of an order that `analyze` goes by too.
  forward_context-walk :
      (blocks : List Block) (targets : Option (List ℕ)) (info : List (ForwardInfo Term State))
      (live keep : List ℕ)
      → forward_reachable blocks ≡ some live
      → kept blocks targets live ≡ ok keep
      → forward_context z memory blocks targets ≡ ok info
      → (order : List ℕ) × (topo_order blocks keep ≡ ok order)
        × (info ≡ walk z memory blocks [] order)
        × ((cond : ℕ → Option (Guard Term))
            → analyze z blocks cond targets ≡ ok (analyze_from z blocks cond [] order))
  unfolding forward_context analyze ◌>>=◌ or_err
  forward_context-walk blocks targets info live keep found kept_lem e =
      let (order, ordered, same) =
        >>=-eq-ok (topo_order blocks keep) (λ o. ok (walk z memory blocks [] o))
          (rw (found, kept_lem) at e) in
      (
        order,
        ordered,
        Ensures-elim (λ i. i ≡ walk z memory blocks [] order) _ info (done refl) same,
        λ cond. rw (found, kept_lem, ordered) refl,
      )

  module _ (m : Model) (instrs : List Instr) (progs : List ProgRegion) (r : Built)
      (e : build_cfg instrs progs ≡ ok r) (pos : 0 < length r.graph.blocks)
      (targets : Option (List ℕ)) (info : List (ForwardInfo Term State))
      (h : forward_context z memory r.graph.blocks targets ≡ ok info) where
    abbrev edges : HasEdges r.graph
    edges = build_cfg-HasEdges instrs progs r e

    -- An analysis at the memories of the walk, which agrees with the walk.
    analyzed :
        (found : List (BlockInfo Term)) × (analyze z r.graph.blocks (cond_in info) targets
          ≡ ok found)
        × ((b : ℕ) → Agrees z memory (info_of found b) (forward_of info b))
    analyzed =
        let (live, found, is_live) = forward_reachable_lem r.graph.blocks in
        let entry =
          (is_live 0).1 (Reaches-Forward z m r.graph edges (cond_in info) pos 0 (begin refl)) in
        let in_range =
          λ (b : ℕ) (l : mem b live ≡ true). Forward-lt r.graph edges pos b ((is_live b).0 l) in
        let (keep, kept_lem, k, wanted) = kept-IsKept r.graph.blocks live in_range targets entry in
        let (order, ordered, same, analysis) =
          forward_context-walk r.graph.blocks targets info live keep found kept_lem h in
        let l = topo_order-IsLinear r.graph.blocks keep order k.entry ordered in
        (
          analyze_from z r.graph.blocks (cond_in info) [] order,
          analysis (cond_in info),
          λ b.
              subst
                (λ i.
                  Agrees z memory
                    (info_of (analyze_from z r.graph.blocks (cond_in info) [] order) b)
                    (forward_of i b))
                (sym same)
                (walk-Agrees z memory r.graph.blocks (cond_in info) keep order [] [] l.distinct
                  (λ c w at. cond_in_lem info c w (ap (λ i. forward_of i c) same ∙ at))
                  (λ p. neither) b),
        )

    -- When `build_cfg` returns a graph of one block or more and a `ForwardContext` is made of it,
    -- then in every model of the solver's variables the path condition of an entry is true exactly
    -- when the execution that the model describes reaches the entry's block, and every block that is
    -- reached has an entry if it is asked for (all are, where no targets are given). A branch of the
    -- execution goes by its condition at the memory that the walk ends the block with.
    pub forward_context-IsForwardExact : IsForwardExact m r.graph edges targets info
    forward_context-IsForwardExact =
        let (found, returned, agree) = analyzed in
        let all =
          analyze-IsPathExact z m instrs progs r (cond_in info) targets found e pos returned in
        record {
          exact = λ b w at. agreed m w (agree b) at (λ i at'. all.exact b i at');
          complete = λ b a reached none_at. all.complete b a reached (missing (agree b) none_at);
        }
