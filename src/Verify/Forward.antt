-- ===== src/Verify/Forward.antt =====
-- hornet/verify/forward.py, `ForwardContext._walk`: one pass over the blocks in topological order that
-- computes each block's path condition, symbolic memory and edge guards. What the memory is, how
-- two memories merge (`_merge_sigma`) and what a block does to its memory are an interface.
pub mod Agrees
pub mod Paths
use hor_net_nsdi.Common.{
  ℕ, Bool, true, false, not, ◌==◌, if◌then◌else◌, List, [], ◌∷◌, ◌++◌, map, Option, some, none,
}
use hor_net_nsdi.Common.Result.{Result, ok, err, ◌>>=◌, or_err}
use hor_net_nsdi.Bpf.Cfg.{Block, sorted_set}
use hor_net_nsdi.Verify.Prune.{preds_of, forward_reachable, topo_order, TopoError, out_of_fuel}
use hor_net_nsdi.Verify.Guard.{Logic, Guard, known, is_known, and_guard, or_all}
use hor_net_nsdi.Verify.Analyze.{leads_to, succ_t_of, succ_f_of, is_branching, branch_guards, kept}

-- The symbolic memory of hornet/track/encode.py, as the walk uses it.
pub record Memory (z : Logic) : Type 1 where
  pub State : Type 0
  pub init_st : State
  -- `_merge_sigma(contribs, init_st)`, for one contribution or more
  pub merge_sigma : List (Guard z.Term × State) → State → State
  -- what the reads and the actions of block b do to the memory it is entered with
  pub run_items : ℕ → State → State
  -- `block.cond.to_z3(state)`, and `none` where no condition was recorded
  pub cond_at : ℕ → State → Option (Guard z.Term)

pub record ForwardInfo (T S : Type 0) : Type 0 where
  pub num : ℕ
  pub reach : Guard T
  pub edge_taken : Guard T
  pub edge_fall : Guard T
  pub sigma : S
  pub imprecise : Bool

-- `info.get(b)`
abbrev pub forward_of : {T S : Type 0} → List (ForwardInfo T S) → ℕ → Option (ForwardInfo T S)
forward_of [] b = none
forward_of (i ∷ info) b = if i.num == b then some i else forward_of info b

module _ (z : Logic) (memory : Memory z) where
  open z use {Term}
  open memory use {State, init_st, merge_sigma, run_items, cond_at}

  -- one contribution, unless its guard is False
  abbrev pub contrib_if : Bool → Guard Term → State → List (Guard Term × State)
  contrib_if here g sigma = if here then if is_known false g then [] else (g, sigma) ∷ [] else []

  -- the body of the loop over the predecessors
  unfoldable pub contribs_from :
      List Block → ℕ → ℕ → Option (ForwardInfo Term State) → List (Guard Term × State)
  unfolding and_guard
  contribs_from blocks b p none = []
  contribs_from blocks b p (some pi) =
      if is_known false pi.reach
      then []
      else contrib_if (leads_to (succ_t_of blocks p) b) (and_guard z pi.reach pi.edge_taken)
          pi.sigma
        ++ contrib_if (leads_to (succ_f_of blocks p) b) (and_guard z pi.reach pi.edge_fall) pi.sigma

  unfoldable pub contribs_into :
      List Block → List (ForwardInfo Term State) → ℕ → List ℕ → List (Guard Term × State)
  unfolding contribs_from
  contribs_into blocks info b [] = []
  contribs_into blocks info b (p ∷ ps) =
      contribs_from blocks b p (forward_of info p) ++ contribs_into blocks info b ps

  -- the memory a block is entered with
  abbrev pub merged : List (Guard Term × State) → State
  merged [] = init_st
  merged (c ∷ contribs) = merge_sigma (c ∷ contribs) init_st

  module _ (blocks : List Block) where
    abbrev pub contribs_at : List (ForwardInfo Term State) → ℕ → List (Guard Term × State)
    contribs_at info b = contribs_into blocks info b (sorted_set (preds_of blocks b))

    -- the memory at the end of block b
    abbrev pub sigma_for : List (ForwardInfo Term State) → ℕ → State
    sigma_for info b = run_items b (if b == 0 then init_st else merged (contribs_at info b))

    abbrev pub guards_at : ℕ → State → Guard Term × Guard Term × Bool
    guards_at b sigma =
        if is_branching blocks b
        then branch_guards z b (cond_at b sigma)
        else (known true, known true, false)

    -- the body of the loop over the order
    unfoldable pub forward_info : List (ForwardInfo Term State) → ℕ → ForwardInfo Term State
    unfolding contribs_into branch_guards or_all sorted_set
    forward_info info b = record {
      num = b;
      reach = if b == 0 then known true else or_all z (map (λ c. c.0) (contribs_at info b));
      edge_taken = (guards_at b (sigma_for info b)).0;
      edge_fall = (guards_at b (sigma_for info b)).1;
      sigma = sigma_for info b;
      imprecise = (guards_at b (sigma_for info b)).2;
    }

    unfoldable pub walk : List (ForwardInfo Term State) → List ℕ → List (ForwardInfo Term State)
    unfolding forward_info
    walk info [] = info
    walk info (b ∷ order) = walk (forward_info info b ∷ info) order

    -- what `ForwardContext(blocks, maps, targets=targets)` leaves in `info`
    unfoldable pub forward_context :
        Option (List ℕ) → Result TopoError (List (ForwardInfo Term State))
    unfolding walk forward_reachable topo_order ◌>>=◌ or_err
    forward_context targets = do
      live ← or_err (forward_reachable blocks) out_of_fuel
      keep ← kept blocks targets live
      order ← topo_order blocks keep
      ok (walk [] order)
