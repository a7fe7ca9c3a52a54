-- ===== src/Verify/Regions/Slice.antt =====
-- hornet/verify/forward.py, `relevant_regions`: what it takes from the blocks of a slice, and the
-- whole of it. A set of blocks is a list.
use hor_net_nsdi.Common.{
  ℕ, ◌+◌, Bool, true, false, if◌then◌else◌, List, [], ◌∷◌, ◌++◌, map, Option, some, none, length,
  get_elem?,
}
use hor_net_nsdi.Track.Expr.{MaybeExpr, Exprs, nil, cons}
use hor_net_nsdi.Track.Facts.{Cond}
use hor_net_nsdi.Verify.Regions.{
  Region, Action, Trees, action_regions, all_regions, cond_regions, trees_regions, close_over,
}

-- What `relevant_regions` reads of a block; `returned` is `regs[0]`, and a flag that is None is
-- false.
pub record TracedBlock : Type 0 where
  pub exit : Bool
  pub jump : Bool
  pub branch : Bool
  pub returned : MaybeExpr
  pub cond : Option Cond
  pub actions : List Action

pub data BlockKind : Type 0 where
  branch_kind jump_kind exit_kind fall_kind : BlockKind

unfoldable pub kind : TracedBlock → BlockKind
kind b =
    if b.branch
    then branch_kind
    else if b.jump
    then jump_kind
    else if b.exit
    then exit_kind
    else fall_kind

-- `blk.kind == 'exit'`
unfoldable pub is_exit_kind : TracedBlock → Bool
unfolding kind
is_exit_kind b = elim (kind b) [
  | branch_kind ↦ false
  | jump_kind ↦ false
  | exit_kind ↦ true
  | fall_kind ↦ false
]

abbrev pub and_rest : Option TracedBlock → Option (List TracedBlock) → Option (List TracedBlock)
and_rest (some block) (some found) = some (block ∷ found)
and_rest _ _ = none

-- `blocks[b]` for the blocks of the slice; `none` is the IndexError.
unfoldable pub blocks_at : List TracedBlock → List ℕ → Option (List TracedBlock)
blocks_at blocks [] = some []
blocks_at blocks (b ∷ slice) = and_rest (get_elem? blocks b) (blocks_at blocks slice)

-- the return values of the exits
unfoldable pub exit_values : List TracedBlock → Exprs
unfolding is_exit_kind
exit_values [] = nil
exit_values (b ∷ blocks) =
    let rest = exit_values blocks in if is_exit_kind b then cons b.returned rest else rest

unfoldable pub actions_of : List TracedBlock → List Action
actions_of [] = []
actions_of (b ∷ blocks) = b.actions ++ actions_of blocks

-- what the loop starts with: the condition trees, the values that the exits of the slice return, and
-- its branch conditions
unfoldable pub given_regions : Trees → List TracedBlock → List Region
unfolding all_regions cond_regions trees_regions exit_values
given_regions trees blocks =
    cond_regions (map (λ b. b.cond) blocks)
      (all_regions (exit_values blocks) (trees_regions trees []))

-- Every region that a value of an action reads, with `out`: as many rounds of the loop are enough.
unfoldable pub action_reads : List Action → List Region → List Region
unfolding all_regions
action_reads [] out = out
action_reads (a ∷ actions) out = action_reads actions (action_regions a out)

-- the loop, with its fuel
unfoldable pub closure_of : Trees → Option (List TracedBlock) → Option (List Region)
unfolding given_regions actions_of action_reads close_over
closure_of trees none = none
closure_of trees (some blocks) =
    let given = given_regions trees blocks in
    let actions = actions_of blocks in
    close_over actions (1 + length (action_reads actions given)) given

unfoldable pub relevant_regions : List TracedBlock → List ℕ → Trees → Option (List Region)
unfolding blocks_at closure_of
relevant_regions blocks slice trees = closure_of trees (blocks_at blocks slice)
