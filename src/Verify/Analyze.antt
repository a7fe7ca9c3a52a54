-- ===== src/Verify/Analyze.antt =====
-- hornet/verify/prune.py, `analyze`: the condition under which each block is reached. `cond b` is the
-- encoded condition of block b at its state (`b.cond.to_z3(state_at(b))`), and `none` where none was
-- recorded; the dictionary `info` is a list with the newest entry first.
pub mod Exact
pub mod Keep
pub mod Paths
use hor_net_nsdi.Common.{
  ℕ, Bool, true, false, not, ◌==◌, if◌then◌else◌, List, [], ◌∷◌, ◌++◌, map, Option, some, none,
  get_elem?, filter_b,
}
use hor_net_nsdi.Common.Sets.{mem}
use hor_net_nsdi.Common.Result.{Result, ok, err, ◌>>=◌, or_err}
use hor_net_nsdi.Bpf.Cfg.{Block, sorted_set}
use hor_net_nsdi.Verify.Prune.{
  preds_of, forward_reachable, slice_to, topo_order, TopoError, out_of_fuel,
}
use hor_net_nsdi.Verify.Guard.{
  Logic, Guard, known, term, is_known, and_guard, not_guard, or_all, literal,
}

pub data EdgeKind : Type 0 where
  taken fall : EdgeKind

pub record InEdge (T : Type 0) : Type 0 where
  pub pred : ℕ
  pub kind : EdgeKind
  pub guard : Guard T

pub record BlockInfo (T : Type 0) : Type 0 where
  pub num : ℕ
  pub reach : Guard T
  pub edge_taken : Guard T
  pub edge_fall : Guard T
  pub in_edges : List (InEdge T)
  pub imprecise : Bool

-- `info.get(b)`
abbrev pub info_of : {T : Type 0} → List (BlockInfo T) → ℕ → Option (BlockInfo T)
info_of [] b = none
info_of (i ∷ info) b = if i.num == b then some i else info_of info b

abbrev pub leads_to : Option ℕ → ℕ → Bool
leads_to none b = false
leads_to (some s) b = s == b

abbrev pub succ_t_of : List Block → ℕ → Option ℕ
succ_t_of blocks p = elim (get_elem? blocks p) [ none ↦ none | some s ↦ s.succ_t ]

abbrev pub succ_f_of : List Block → ℕ → Option ℕ
succ_f_of blocks p = elim (get_elem? blocks p) [ none ↦ none | some s ↦ s.succ_f ]

-- `s.kind == 'branch'`
abbrev pub is_branching : List Block → ℕ → Bool
is_branching blocks b = elim (get_elem? blocks b) [ none ↦ false | some s ↦ s.branch ]

-- `keep |= bwd`
abbrev pub union : List ℕ → List ℕ → List ℕ
union bwd keep = filter_b (λ b. not (mem b keep)) bwd ++ keep

module _ (blocks : List Block) where
  -- the loop over the targets
  unfoldable pub keep_of : List ℕ → List ℕ → List ℕ → Result TopoError (List ℕ)
  unfolding slice_to mem ◌>>=◌ or_err
  keep_of live [] keep = ok keep
  keep_of live (t ∷ targets) keep =
      if mem t live
      then or_err (slice_to blocks live t) out_of_fuel
        >>= (λ bwd. keep_of live targets (union bwd keep))
      else keep_of live targets keep

  -- what is kept: everything that is live, unless targets are given
  abbrev pub kept : Option (List ℕ) → List ℕ → Result TopoError (List ℕ)
  kept none live = ok live
  kept (some targets) live = keep_of live targets (0 ∷ [])

module _ (z : Logic) where
  open z use {Term, branch_taken}

  -- `_branch_guards`: the guards of the two edges, and whether they are imprecise
  unfoldable pub branch_guards : ℕ → Option (Guard Term) → Guard Term × Guard Term × Bool
  unfolding not_guard literal
  branch_guards b none = (term (branch_taken b), not_guard z (term (branch_taken b)), true)
  branch_guards b (some c) = (literal z c, not_guard z (literal z c), false)

  -- an edge, unless its guard is False
  abbrev pub edge_if : Bool → ℕ → EdgeKind → Guard Term → List (InEdge Term)
  edge_if here p kind g =
      if here
      then if is_known false g then [] else record { pred = p; kind = kind; guard = g } ∷ []
      else []

  -- the body of the loop over the predecessors
  unfoldable pub edges_from : List Block → ℕ → ℕ → Option (BlockInfo Term) → List (InEdge Term)
  unfolding and_guard
  edges_from blocks b p none = []
  edges_from blocks b p (some pi) =
      if is_known false pi.reach
      then []
      else edge_if (leads_to (succ_t_of blocks p) b) p taken (and_guard z pi.reach pi.edge_taken)
        ++ edge_if (leads_to (succ_f_of blocks p) b) p fall (and_guard z pi.reach pi.edge_fall)

  unfoldable pub edges_into : List Block → List (BlockInfo Term) → ℕ → List ℕ → List (InEdge Term)
  unfolding edges_from
  edges_into blocks info b [] = []
  edges_into blocks info b (p ∷ ps) =
      edges_from blocks b p (info_of info p) ++ edges_into blocks info b ps

  module _ (blocks : List Block) (cond : ℕ → Option (Guard Term)) where
    abbrev pub guards_of : ℕ → Guard Term × Guard Term × Bool
    guards_of b =
        if is_branching blocks b then branch_guards b (cond b) else (known true, known true, false)

    -- the body of the loop over the order
    unfoldable pub info_for : List (BlockInfo Term) → ℕ → BlockInfo Term
    unfolding edges_into branch_guards or_all sorted_set
    info_for info b =
        let edges =
          if b == 0 then [] else edges_into blocks info b (sorted_set (preds_of blocks b)) in
        record {
          num = b;
          reach = if b == 0 then known true else or_all z (map (λ e. e.guard) edges);
          edge_taken = (guards_of b).0;
          edge_fall = (guards_of b).1;
          in_edges = edges;
          imprecise = (guards_of b).2;
        }

    unfoldable pub analyze_from : List (BlockInfo Term) → List ℕ → List (BlockInfo Term)
    unfolding info_for
    analyze_from info [] = info
    analyze_from info (b ∷ order) = analyze_from (info_for info b ∷ info) order

    unfoldable pub analyze : Option (List ℕ) → Result TopoError (List (BlockInfo Term))
    unfolding analyze_from keep_of forward_reachable topo_order ◌>>=◌ or_err
    analyze targets = do
      live ← or_err (forward_reachable blocks) out_of_fuel
      keep ← kept blocks targets live
      order ← topo_order blocks keep
      ok (analyze_from [] order)
