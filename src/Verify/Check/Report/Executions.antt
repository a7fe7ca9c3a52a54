-- ===== src/Verify/Check/Report/Executions.antt =====
-- What `check` says of the executions of a program.
use hor_net_nsdi.Common.{
  ℕ, zero, suc, ◌<◌, ◌≡◌, ◌≢◌, refl, sym, ◌∙◌, ap, subst, Bool, true, false, ◌||◌, not,
  if◌then◌else◌, List, [], ◌∷◌, map, Option, some, none, get_elem?, is_empty, get_elem?-append_left,
  length, arith, any_b,
}
use mathlib.Core.Option.{some-injective}
use hor_net_nsdi.Common.Sets.{mem, mem-append}
use hor_net_nsdi.Common.Result.{ok}
use hor_net_nsdi.Bpf.Instr.{Instr}
use hor_net_nsdi.Bpf.Region.{ProgRegion}
use hor_net_nsdi.Bpf.Cfg.{Built, build_cfg, sorted_set}
use hor_net_nsdi.Bpf.Cfg.Leaders.{mem-sorted_set}
use hor_net_nsdi.Bpf.Cfg.Edges.{build_cfg-HasEdges}
use hor_net_nsdi.Verify.Guard.{Logic, known, value}
use hor_net_nsdi.Verify.Analyze.Keep.{asked}
use hor_net_nsdi.Verify.Analyze.Paths.{Reaches}
use hor_net_nsdi.Verify.Forward.{Memory, ForwardInfo, forward_of, forward_context}
use hor_net_nsdi.Verify.Forward.Paths.{cond_in, IsForwardExact, forward_context-IsForwardExact}
use hor_net_nsdi.Verify.Check.{
  Solver, BlockCondition, CheckResult, Context, violated, holds, reach, asked_body,
  check_block_condition,
}
use hor_net_nsdi.Verify.Check.Verdicts.{Says, IsDecisive, Defines, check_block_condition-Says}
use hor_net_nsdi.Verify.Check.Report.{Policy, blocks_asked, targets_for, check_blocks, check}

mem-map :
    {z : Logic} {S : Type 0} (conditions : List (BlockCondition z S)) (i : ℕ)
    (bc : BlockCondition z S)
    → get_elem? conditions i ≡ some bc
    → mem bc.block (map (λ c. c.block) conditions) ≡ true
unfolding mem
mem-map [] i bc h = cc
mem-map (c ∷ conditions) zero bc h =
    let same = ap (λ (x : BlockCondition _ _). x.block) (sym (some-injective _ _ h)) in
    ground (arith, same)
mem-map (c ∷ conditions) (suc i) bc h = ground (arith, mem-map conditions i bc h)

-- The block of a condition is among the targets.
targets_for-asked :
    {z : Logic} {S : Type 0} (policy : Policy z S) (reach_all : Bool) (i : ℕ)
    (bc : BlockCondition z S)
    → get_elem? policy.block_conditions i ≡ some bc
    → asked (targets_for (policy ∷ []) reach_all) bc.block ≡ true
unfolding targets_for
targets_for-asked policy reach_all i bc h = by (
    is_empty (policy ∷ [])
    || (reach_all || any_b (λ p. not (is_empty p.exit_conditions)) (policy ∷ [])))
  where
    by :
        (t : Bool)
        → asked (if t then none else some (sorted_set (blocks_asked (policy ∷ [])))) bc.block ≡ true
    by true = refl
    by false =
        mem-sorted_set bc.block (blocks_asked (policy ∷ []))
        ∙ mem-append bc.block (map (λ c. c.block) policy.block_conditions) []
        ∙ ap (λ t. t || mem bc.block []) (mem-map policy.block_conditions i bc h)

module _ {z : Logic} {S : Type 0} (solver : Solver z) (ctx : Context z S) where
  open z use {Model}

  check_blocks-get_elem? :
      (conditions : List (BlockCondition z S)) (cache : List (ℕ × Bool)) (i : ℕ)
      (bc : BlockCondition z S)
      → get_elem? conditions i ≡ some bc
      → (cache' : List (ℕ × Bool)) × (get_elem? (check_blocks solver ctx conditions cache) i
          ≡ some (check_block_condition solver ctx bc cache').0)
  unfolding check_blocks
  check_blocks-get_elem? [] cache i bc h = cc
  check_blocks-get_elem? (c ∷ conditions) cache zero bc h =
      (cache, ap (λ x. some (check_block_condition solver ctx x cache).0) (some-injective _ _ h))
  check_blocks-get_elem? (c ∷ conditions) cache (suc i) bc h =
      check_blocks-get_elem? conditions (check_block_condition solver ctx c cache).1 i bc h

module _ {z : Logic} (memory : Memory z) (solver : Solver z) (instrs : List Instr)
    (progs : List ProgRegion) (r : Built) (e : build_cfg instrs progs ≡ ok r)
    (pos : 0 < length r.graph.blocks) (ctx : Context z memory.State)
    (policy : Policy z memory.State) (reach_all : Bool) where
  open z use {Model}

  -- The executions that models of the solver describe.
  abbrev pub Executes : Model → ℕ → Type 0
  Executes m = Reaches z m r.graph (build_cfg-HasEdges instrs progs r e) (cond_in z memory ctx.info)

  -- What a result says of the executions.
  pub record IsRight (bc : BlockCondition z memory.State) (c : CheckResult Model) : Type 0 where
    pub when_violated :
        c.verdict ≡ violated
        → (m : Model) × (c.witness ≡ some m)
          × Executes m bc.block
          × (value z m (bc.to_z3 (ctx.state_at bc.block)) ≡ false)
    pub when_holds :
        c.verdict ≡ holds
        → IsDecisive solver ctx
        → (m : Model)
        → Defines solver ctx m
            (reach solver ctx bc.block)
            (asked_body solver ctx bc.assert_mode (bc.to_z3 (ctx.state_at bc.block)))
        → Executes m bc.block
        → value z m (bc.to_z3 (ctx.state_at bc.block)) ≡ true

  module _
      (made : forward_context z memory r.graph.blocks (targets_for (policy ∷ []) reach_all)
        ≡ ok ctx.info) where
    pub exact :
        (m : Model)
        → IsForwardExact z memory m r.graph
            (build_cfg-HasEdges instrs progs r e)
            (targets_for (policy ∷ []) reach_all)
            ctx.info
    exact m =
        forward_context-IsForwardExact z memory m instrs progs r e pos
          (targets_for (policy ∷ []) reach_all) ctx.info made

    pub reach-Executes : (m : Model) (b : ℕ) → value z m (reach solver ctx b) ≡ true → Executes m b
    reach-Executes m b h = found (forward_of ctx.info b) (λ w at. ((exact m).exact b w at).0) h
      where
        found :
            (o : Option (ForwardInfo z.Term memory.State))
            → ((w : ForwardInfo z.Term memory.State)
                → o ≡ some w
                → value z m w.reach ≡ true
                → Executes m b)
            → value z m (elim o [ none ↦ known false | some i ↦ i.reach ]) ≡ true
            → Executes m b
        found none all h = cc
        found (some w) all h = all w refl h

    pub Executes-reach :
        (m : Model) (b : ℕ)
        → asked (targets_for (policy ∷ []) reach_all) b ≡ true
        → Executes m b
        → value z m (reach solver ctx b) ≡ true
    Executes-reach m b a x =
        found (forward_of ctx.info b) (λ w at. ((exact m).exact b w at).1 x)
          ((exact m).complete b a x)
      where
        found :
            (o : Option (ForwardInfo z.Term memory.State))
            → ((w : ForwardInfo z.Term memory.State) → o ≡ some w → value z m w.reach ≡ true)
            → o ≢ none
            → value z m (elim o [ none ↦ known false | some i ↦ i.reach ]) ≡ true
        found none all n = absurd (n refl)
        found (some w) all n = all w refl

    condition-IsRight :
        (bc : BlockCondition z memory.State) (c : CheckResult Model)
        → asked (targets_for (policy ∷ []) reach_all) bc.block ≡ true
        → Says solver ctx
            (reach solver ctx bc.block)
            (bc.to_z3 (ctx.state_at bc.block))
            bc.assert_mode
            c.verdict
            c.witness
        → IsRight bc c
    condition-IsRight bc c a says =
        let path = reach solver ctx bc.block in
        let body = bc.to_z3 (ctx.state_at bc.block) in
        record {
          when_violated = λ v.
              let (m, w, g, b) =
                subst (λ v. Says solver ctx path body bc.assert_mode v c.witness) v says in
              (m, w, reach-Executes m bc.block g, b);
          when_holds = λ v decisive m defs x.
              subst (λ v. Says solver ctx path body bc.assert_mode v c.witness) v says decisive m
                defs (Executes-reach m bc.block a x);
        }

    -- `check` on a program: the graph is what `build_cfg` returned, of one block or more, and the
    -- context is what a `ForwardContext` with the policy's targets computed. The result of the i-th
    -- block condition stands at place i. If it is "violated", its witness is a model whose execution
    -- reaches the block, where the condition is false. If it is "holds" and the solver never
    -- answers "unknown", then in every model of the definitions whose execution reaches the
    -- block the condition is true there.
    pub check-IsRight :
        (i : ℕ) (bc : BlockCondition z memory.State)
        → get_elem? policy.block_conditions i ≡ some bc
        → (c : CheckResult Model) × (get_elem? (check solver ctx policy reach_all).0 i ≡ some c)
          × IsRight bc c
    unfolding check
    check-IsRight i bc h =
        let (cache, at) = check_blocks-get_elem? solver ctx policy.block_conditions [] i bc h in
        (
          (check_block_condition solver ctx bc cache).0,
          get_elem?-append_left (check_blocks solver ctx policy.block_conditions []) _ i at,
          condition-IsRight bc (check_block_condition solver ctx bc cache).0
              (targets_for-asked policy reach_all i bc h)
              (check_block_condition-Says solver ctx bc cache),
        )
