-- ===== src/Verify/Check/Report/Dead.antt =====
-- The entries of `reach_report`: a block that is reported dead is reached by no execution, even where
-- only its predecessors were looked at.
use hor_net_nsdi.Common.{ℕ, ◌<◌, ◌≡◌, true, false, List, [], ◌∷◌, Option, length}
use hor_net_nsdi.Common.Sets.{mem}
use hor_net_nsdi.Common.Result.{ok}
use hor_net_nsdi.Bpf.Instr.{Instr}
use hor_net_nsdi.Bpf.Region.{ProgRegion}
use hor_net_nsdi.Bpf.Cfg.{Built, build_cfg}
use hor_net_nsdi.Verify.Guard.{Logic, known}
use hor_net_nsdi.Verify.Forward.{Memory, forward_context}
use hor_net_nsdi.Verify.Check.{Solver, Context, reach}
use hor_net_nsdi.Verify.Check.Verdicts.{IsDecisive, Defines}
use hor_net_nsdi.Verify.Check.Report.{Policy, ReachEntry, targets_for}
use hor_net_nsdi.Verify.Check.Report.Executions.{Executes}

module _ {z : Logic} (memory : Memory z) (solver : Solver z) (instrs : List Instr)
    (progs : List ProgRegion) (r : Built) (e : build_cfg instrs progs ≡ ok r)
    (pos : 0 < length r.graph.blocks) (ctx : Context z memory.State)
    (policy : Policy z memory.State) (same_blocks : ctx.blocks ≡ r.graph.blocks)
    (made : forward_context z memory r.graph.blocks (targets_for (policy ∷ []) true)
      ≡ ok ctx.info) where
  open z use {Model}

  abbrev Runs : Model → ℕ → Type 0
  Runs = Executes memory solver instrs progs r e pos ctx policy true

  -- What an entry of the report says of the executions.
  pub record IsRightEntry (entry : ReachEntry) : Type 0 where
    pub when_live : entry.live ≡ true → (m : Model) × Runs m entry.block
    pub when_dead :
        entry.live ≡ false
        → IsDecisive solver ctx
        → (m : Model) → ((b : ℕ) → Defines solver ctx m (reach solver ctx b) (known true))
        → Runs m entry.block
        → ⊥

  -- The blocks are reached by no execution.
  AllGone : List ℕ → Type 0
  AllGone dead =
      IsDecisive solver ctx
      → (m : Model) → ((b : ℕ) → Defines solver ctx m (reach solver ctx b) (known true))
      → (p : ℕ) → mem p dead ≡ true
      → Runs m p
      → ⊥
