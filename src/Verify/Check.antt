-- ===== src/Verify/Check.antt =====
-- hornet/verify/checker.py: the queries to the solver, and the verdicts on block conditions, exit
-- conditions and reachability. The solver is a parameter with its documented answers; the texts of a
-- result's detail are a list of notes, and a witness is the model it is built from.
pub mod Verdicts
pub mod Exits
pub mod Report
mod Witness
use hor_net_nsdi.Common.{
  ℕ, ◌≡◌, ◌≢◌, Bool, true, false, ◌&&◌, ◌||◌, not, ◌==◌, if◌then◌else◌, List, [], ◌∷◌, ◌++◌, map,
  Option, some, none, String, get_elem?, any_b, all_b, filter_b,
}
use hor_net_nsdi.Common.Sets.{mem}
use hor_net_nsdi.Bpf.Cfg.{Block}
use hor_net_nsdi.Verify.Prune.{preds_of}
use hor_net_nsdi.Verify.Guard.{Logic, Guard, known, term, is_known, and_guard, not_guard}
use hor_net_nsdi.Verify.Forward.{ForwardInfo, forward_of}

pub data Answer (M : Type 0) : Type 0 where
  sat : M → Answer M
  unsat unknown : Answer M

-- z3's `SolverFor('QF_ABV')`: `check ts` is the answer to the assertions `ts`.
pub record Solver (z : Logic) : Type 0 where
  pub check : List z.Term → Answer z.Model
  -- And(*terms)
  pub and_all : List z.Term → z.Term
  pub and_all_lem : (m : z.Model) (ts : List z.Term) → z.truth m (and_all ts) ≡ all_b (z.truth m) ts
  pub sat_lem : (ts : List z.Term) (m : z.Model) → check ts ≡ sat m → all_b (z.truth m) ts ≡ true
  pub unsat_lem :
      (ts : List z.Term) → check ts ≡ unsat → (m : z.Model) → all_b (z.truth m) ts ≡ false

pub data Mode : Type 0 where
  exists_mode always_mode : Mode

pub data Verdict : Type 0 where
  violated holds satisfiable unsatisfiable : Verdict

pub data Note : Type 0 where
  unreachable at_block : ℕ → Note
  imprecise vacuous no_reachable_exit : Note
  unmodelled : String → Note
  exits : List (ℕ × Bool) → Note
  witness_at : ℕ → Note

-- A `BlockCondition`; its tree of atoms is the function `to_z3` of the state.
pub record BlockCondition (z : Logic) (S : Type 0) : Type 0 where
  pub name : String
  pub block : ℕ
  pub assert_mode : Mode
  pub to_z3 : S → Guard z.Term

pub record ExitCondition (z : Logic) (S : Type 0) : Type 0 where
  pub name : String
  pub assert_mode : Mode
  pub to_z3 : S → Guard z.Term

pub record CheckResult (M : Type 0) : Type 0 where
  pub name : String
  pub verdict : Verdict
  pub detail : List Note
  pub witness : Option M

-- What the checker reads of a `ForwardContext` whose memories are of type S.
pub record Context (z : Logic) (S : Type 0) : Type 0 where
  pub blocks : List Block
  pub info : List (ForwardInfo z.Term S)
  pub definitions : Guard z.Term → Guard z.Term → List z.Term
  pub state_at : ℕ → S
  pub ret_state : ℕ → Option S
  pub dropped_effects : ℕ → List String

-- `vac_cache.get(block)`
abbrev pub cached : List (ℕ × Bool) → ℕ → Option Bool
cached [] b = none
cached ((k, v) ∷ cache) b = if k == b then some v else cached cache b

module _ {z : Logic} {S : Type 0} (solver : Solver z) (ctx : Context z S) where
  open z use {Term, Model, and_t, simplify}
  open solver use {check, and_all}

  -- `ctx.reach(block)`, once the walk is over
  abbrev pub reach : ℕ → Guard Term
  reach b = elim (forward_of ctx.info b) [ none ↦ known false | some i ↦ i.reach ]

  -- `And(combined, *defs) if defs else combined`
  abbrev pub with_definitions : Term → List Term → Term
  with_definitions t [] = t
  with_definitions t (d ∷ defs) = and_all (t ∷ d ∷ defs)

  abbrev pub define : Guard Term → List Term → Guard Term
  define (known b) defs = known b
  define (term t) defs = term (with_definitions t defs)

  unfoldable pub query : Guard Term → Guard Term → Guard Term
  unfolding and_guard
  query guard body = define (and_guard z guard body) (ctx.definitions guard body)

  abbrev pub answered : Answer Model → Bool × Option Model
  answered (sat m) = (true, some m)
  answered unsat = (false, none)
  answered unknown = (false, none)

  -- `_decide` behind `_query`
  abbrev pub decide_query : Guard Term → Bool × Option Model
  decide_query (known false) = (false, none)
  decide_query (known true) = answered (check [])
  decide_query (term t) = answered (check (simplify t ∷ []))

  unfoldable pub decide : Guard Term → Guard Term → Bool × Option Model
  unfolding query
  decide guard body = decide_query (query guard body)

  -- `_vacuous` on a path condition that is a term, with what the cache has
  abbrev pub ask_vacuous : ℕ → Term → List (ℕ × Bool) → Option Bool → Bool × List (ℕ × Bool)
  ask_vacuous b t cache (some v) = (v, cache)
  ask_vacuous b t cache none = let v = not (decide (term t) (known true)).0 in (v, (b, v) ∷ cache)

  unfoldable pub is_vacuous : ℕ → Guard Term → List (ℕ × Bool) → Bool × List (ℕ × Bool)
  unfolding decide
  is_vacuous b (known true) cache = (false, cache)
  is_vacuous b (known false) cache = (true, cache)
  is_vacuous b (term t) cache = ask_vacuous b t cache (cached cache b)

  -- the two readings of an answer
  abbrev pub verdict_of : Mode → Bool → Verdict
  verdict_of exists_mode ok = if ok then satisfiable else unsatisfiable
  verdict_of always_mode ok = if ok then violated else holds

  -- what is asked: the condition, or its negation
  abbrev pub asked_body : Mode → Guard Term → Guard Term
  asked_body exists_mode body = body
  asked_body always_mode body = not_guard z body

  abbrev pub needs_vacuous : Verdict → Bool
  needs_vacuous holds = true
  needs_vacuous unsatisfiable = true
  needs_vacuous v = false

  abbrev pub imprecise_at : ℕ → List Note
  imprecise_at b = elim (forward_of ctx.info b) [
    | none ↦ []
    | some i ↦ if i.imprecise then imprecise ∷ [] else []
  ]

  -- the rest of `check_block_condition`
  unfoldable pub result_for :
      BlockCondition z S
      → Bool × Option Model
      → List (ℕ × Bool)
      → CheckResult Model × List (ℕ × Bool)
  unfolding is_vacuous
  result_for bc (ok, model) cache =
      let v = verdict_of bc.assert_mode ok in
      let notes =
        at_block bc.block ∷ imprecise_at bc.block
        ++ map unmodelled (ctx.dropped_effects bc.block) in
      let (empty, cache') =
        if needs_vacuous v then is_vacuous bc.block (reach bc.block) cache else (false, cache) in
      (
        record {
          name = bc.name;
          verdict = v;
          detail = notes ++ (if empty then vacuous ∷ [] else []);
          witness = model;
        },
        cache',
      )

  unfoldable pub check_block_condition :
      BlockCondition z S → List (ℕ × Bool) → CheckResult Model × List (ℕ × Bool)
  unfolding decide not_guard result_for
  check_block_condition bc cache =
      if is_known false (reach bc.block)
      then (
        record {
          name = bc.name;
          verdict = verdict_of bc.assert_mode false;
          detail = unreachable bc.block ∷ [];
          witness = none;
        },
        cache,
      )
      else result_for bc
          (decide (reach bc.block) (asked_body bc.assert_mode (bc.to_z3 (ctx.state_at bc.block))))
          cache
