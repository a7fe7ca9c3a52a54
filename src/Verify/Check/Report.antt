-- ===== src/Verify/Check/Report.antt =====
-- hornet/verify/checker.py: `reach_report`, `reachable_return_values`, the targets of `context_for`, and
-- `check`. The entries of the report are kept apart from the results of the conditions, which
-- they follow in the list that the source returns; an entry is the block, whether it is live, and
-- whether its predecessors alone decided that.
pub mod Dead
pub mod Executions
use hor_net_nsdi.Common.{
  ℕ, Bool, true, false, ◌&&◌, ◌||◌, not, ◌==◌, if◌then◌else◌, List, [], ◌∷◌, ◌++◌, map, Option,
  some, none, any_b, all_b, filter_b, is_empty,
}
use hor_net_nsdi.Common.Sets.{mem}
use hor_net_nsdi.Bpf.Cfg.{sorted_set}
use hor_net_nsdi.Verify.Prune.{preds_of}
use hor_net_nsdi.Verify.Guard.{Logic, Guard, known, is_known}
use hor_net_nsdi.Verify.Forward.{ForwardInfo, forward_of}
use hor_net_nsdi.Verify.Check.{
  Solver, BlockCondition, ExitCondition, CheckResult, Context, reach, decide, check_block_condition,
}
use hor_net_nsdi.Verify.Check.Exits.{live_exits, check_exit_condition}

pub record ReachEntry : Type 0 where
  pub block : ℕ
  pub live : Bool
  pub by_preds : Bool

abbrev pub has_info : {T S : Type 0} → List (ForwardInfo T S) → ℕ → Bool
has_info info b = elim (forward_of info b) [ none ↦ false | some i ↦ true ]

abbrev pub is_head : ℕ → List ℕ → Bool
is_head b [] = false
is_head b (x ∷ xs) = b == x

-- A `Policy`: the conditions in the order of its dictionaries.
pub record Policy (z : Logic) (S : Type 0) : Type 0 where
  pub block_conditions : List (BlockCondition z S)
  pub exit_conditions : List (ExitCondition z S)

abbrev pub blocks_asked : {z : Logic} {S : Type 0} → List (Policy z S) → List ℕ
blocks_asked [] = []
blocks_asked (p ∷ policies) = map (λ c. c.block) p.block_conditions ++ blocks_asked policies

-- the targets of `context_for`
unfoldable pub targets_for : {z : Logic} {S : Type 0} → List (Policy z S) → Bool → Option (List ℕ)
unfolding sorted_set
targets_for policies reach_all =
    if is_empty policies || (reach_all || any_b (λ p. not (is_empty p.exit_conditions)) policies)
    then none
    else some (sorted_set (blocks_asked policies))

module _ {z : Logic} {S : Type 0} (solver : Solver z) (ctx : Context z S) where
  open z use {Model}

  -- `sorted(ctx.info)`
  abbrev pub report_order : List ℕ
  report_order = sorted_set (map (λ i. i.num) ctx.info)

  -- every predecessor is dead, or has no entry
  abbrev pub preds_dead : List ℕ → ℕ → Bool
  preds_dead dead b = all_b (λ p. mem p dead || not (has_info ctx.info p)) (preds_of ctx.blocks b)

  abbrev pub dead_by_preds : ℕ → List ℕ → Bool
  dead_by_preds b dead =
      not (is_head b report_order) && (not (is_empty (preds_of ctx.blocks b)) && preds_dead dead b)

  -- the loop over the order
  unfoldable pub report_from : List ℕ → List ℕ → List ReachEntry
  unfolding decide mem sorted_set
  report_from dead [] = []
  report_from dead (b ∷ order) =
      let skipped =
        record { block = b; live = false; by_preds = true } ∷ report_from (b ∷ dead) order in
      let live = (decide solver ctx (reach solver ctx b) (known true)).0 in
      let asked =
        record { block = b; live = live; by_preds = false }
        ∷ report_from (if live then dead else b ∷ dead) order in
      if dead_by_preds b dead then skipped else asked

  unfoldable pub reach_report : List ReachEntry
  unfolding report_from sorted_set
  reach_report = report_from [] report_order

  -- `reachable_return_values`: `returns b v` is the term `ctx.ret_state(b).r0 == v`
  unfoldable pub reachable_return_values : (ℕ → ℕ → Guard z.Term) → List ℕ → List ℕ
  unfolding decide live_exits
  reachable_return_values returns values =
      let exits =
        filter_b (λ b. elim (ctx.ret_state b) [ none ↦ false | some st ↦ true ])
          (live_exits solver ctx) in
      filter_b (λ v. any_b (λ b. (decide solver ctx (reach solver ctx b) (returns b v)).0) exits)
        values

  -- the results of the block conditions, with the cache passed on
  unfoldable pub check_blocks :
      List (BlockCondition z S) → List (ℕ × Bool) → List (CheckResult Model)
  unfolding check_block_condition
  check_blocks [] cache = []
  check_blocks (bc ∷ conditions) cache =
      let (result, cache') = check_block_condition solver ctx bc cache in
      result ∷ check_blocks conditions cache'

  unfoldable pub check : Policy z S → Bool → List (CheckResult Model) × List ReachEntry
  unfolding check_blocks check_exit_condition reach_report
  check policy reach_all = (
    check_blocks policy.block_conditions []
        ++ map (check_exit_condition solver ctx) policy.exit_conditions,
    if reach_all then reach_report else [],
  )
