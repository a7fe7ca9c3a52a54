-- ===== src/Verify/Check/Verdicts.antt =====
-- What the verdict on a block condition says of the models.
use hor_net_nsdi.Common.{
  ℕ, ◌≡◌, ◌≢◌, refl, sym, ◌∙◌, subst, Bool, true, false, ◌&&◌, List, [], ◌∷◌, Option, some, none,
  arith, Bool-cases, inl, inr, all_b,
}
use hor_net_nsdi.Verify.Guard.{
  Logic, Guard, known, term, is_known, and_guard, value, value-and_guard, value-not_guard,
  is_known-value,
}
use hor_net_nsdi.Verify.Check.{
  Answer, sat, unsat, unknown, Solver, Mode, exists_mode, always_mode, Verdict, violated, holds,
  satisfiable, unsatisfiable, BlockCondition, Context, reach, define, query, answered, decide_query,
  decide, verdict_of, asked_body, result_for, check_block_condition,
}

module _ {z : Logic} {S : Type 0} (solver : Solver z) (ctx : Context z S) where
  open z use {Term, Model, truth, simplify, simplify_lem}
  open solver use {check, and_all_lem, sat_lem, unsat_lem}

  -- The model gives the auxiliary variables of the query their definitions.
  abbrev pub Defines : Model → Guard Term → Guard Term → Type 0
  Defines m guard body = all_b (truth m) (ctx.definitions guard body) ≡ true

  value-define :
      (m : Model) (g : Guard Term) (defs : List Term)
      → all_b (truth m) defs ≡ true
      → value z m (define solver ctx g defs) ≡ value z m g
  value-define m (known b) defs h = refl
  value-define m (term t) [] h = refl
  value-define m (term t) (d ∷ defs) h = ground (arith, and_all_lem m (t ∷ d ∷ defs), h)

  value-define_le :
      (m : Model) (g : Guard Term) (defs : List Term)
      → value z m (define solver ctx g defs) ≡ true
      → value z m g ≡ true
  value-define_le m (known b) defs h = h
  value-define_le m (term t) [] h = h
  value-define_le m (term t) (d ∷ defs) h = ground (arith, and_all_lem m (t ∷ d ∷ defs), h)

  -- What an answer says of a query.
  abbrev pub Finds : Guard Term → Bool × Option Model → Type 0
  Finds q (true, found) = (m : Model) × (found ≡ some m) × (value z m q ≡ true)
  Finds q (false, found) =
      (found ≡ none) × (((ts : List Term) → check ts ≢ unknown) → (m : Model) → value z m q ≡ false)

  answered-Finds :
      (q : Guard Term) (ts : List Term) (a : Answer Model)
      → check ts ≡ a
      → ((m : Model) → all_b (truth m) ts ≡ value z m q)
      → Finds q (answered solver ctx a)
  answered-Finds q ts (sat m) e same = (m, refl, sym (same m) ∙ sat_lem ts m e)
  answered-Finds q ts unsat e same = (refl, λ _ m. sym (same m) ∙ unsat_lem ts e m)
  answered-Finds q ts unknown e same = (refl, λ decisive m. absurd (decisive ts e))

  decide_query-Finds : (q : Guard Term) → Finds q (decide_query solver ctx q)
  decide_query-Finds (known false) = (refl, λ _ m. refl)
  decide_query-Finds (known true) = answered-Finds (known true) [] (check []) refl (λ m. refl)
  decide_query-Finds (term t) =
      answered-Finds (term t) (simplify t ∷ []) (check (simplify t ∷ [])) refl
        (λ m. ground (arith, simplify_lem m t))

  -- What `_decide` finds: a model of both conditions, or that there is none if the solver never
  -- answers "unknown".
  pub data Decided (guard body : Guard Term) : Bool × Option Model → Type 0 where
    found :
        (m : Model)
        → value z m guard ≡ true
        → value z m body ≡ true
        → Decided guard body (true, some m)
    not_found :
        (((ts : List Term) → check ts ≢ unknown)
          → (m : Model) → Defines m guard body
          → (value z m guard && value z m body) ≡ false)
        → Decided guard body (false, none)

  Finds-Decided :
      (guard body : Guard Term) (d : Bool × Option Model)
      → Finds (query solver ctx guard body) d
      → Decided guard body d
  unfolding query
  Finds-Decided guard body (true, w) (m, e, h) =
      let both =
        sym (value-and_guard z m guard body)
        ∙ value-define_le m (and_guard z guard body) (ctx.definitions guard body) h in
      subst (λ o. Decided guard body (true, o)) (sym e)
        (found m (ground (arith, both)) (ground (arith, both)))
  Finds-Decided guard body (false, w) (e, h) =
      subst (λ o. Decided guard body (false, o)) (sym e)
        (not_found λ decisive m defs.
          sym (value-and_guard z m guard body)
          ∙ sym (value-define m (and_guard z guard body) (ctx.definitions guard body) defs)
          ∙ h decisive m)

  pub decide-Decided : (guard body : Guard Term) → Decided guard body (decide solver ctx guard body)
  unfolding decide
  decide-Decided guard body =
      Finds-Decided guard body _ (decide_query-Finds (query solver ctx guard body))

  abbrev pub IsDecisive : Type 0
  IsDecisive = (ts : List Term) → check ts ≢ unknown

  -- What a verdict on a condition says of the models, with the witness that comes with it.
  abbrev pub Says : Guard Term → Guard Term → Mode → Verdict → Option Model → Type 0
  Says path body mode violated w =
      (m : Model) × (w ≡ some m) × (value z m path ≡ true) × (value z m body ≡ false)
  Says path body mode satisfiable w =
      (m : Model) × (w ≡ some m) × (value z m path ≡ true) × (value z m body ≡ true)
  Says path body mode holds w =
      IsDecisive
      → (m : Model) → Defines m path (asked_body solver ctx mode body)
      → value z m path ≡ true
      → value z m body ≡ true
  Says path body mode unsatisfiable w =
      IsDecisive
      → (m : Model) → Defines m path (asked_body solver ctx mode body)
      → value z m path ≡ true
      → value z m body ≡ false

  Decided-Says :
      (path body : Guard Term) (mode : Mode) (d : Bool × Option Model)
      → Decided path (asked_body solver ctx mode body) d
      → Says path body mode (verdict_of solver ctx mode d.0) d.1
  Decided-Says path body exists_mode d (found m g b) = (m, refl, g, b)
  Decided-Says path body exists_mode d (not_found h) =
      λ decisive m defs g. ground (arith, h decisive m defs, g)
  Decided-Says path body always_mode d (found m g b) =
      (m, refl, g, ground (arith, value-not_guard z m body, b))
  Decided-Says path body always_mode d (not_found h) =
      λ decisive m defs g. ground (arith, h decisive m defs, g, value-not_guard z m body)

  never-Says :
      (path body : Guard Term) (mode : Mode)
      → ((m : Model) → value z m path ≡ false)
      → Says path body mode (verdict_of solver ctx mode false) none
  never-Says path body exists_mode h = λ decisive m defs g. cc (h m, g)
  never-Says path body always_mode h = λ decisive m defs g. cc (h m, g)

  result_for_lem :
      (bc : BlockCondition z S) (d : Bool × Option Model) (cache : List (ℕ × Bool))
      → ((result_for solver ctx bc d cache).0.verdict ≡ verdict_of solver ctx bc.assert_mode d.0)
        × ((result_for solver ctx bc d cache).0.witness ≡ d.1)
  unfolding result_for
  result_for_lem bc (ok, w) cache = (refl, refl)

  -- The verdict of `check_block_condition` is right. "violated" and "sat" come with a model in which
  -- the block's path condition is true and the condition is false, or true. If the solver never
  -- answers "unknown", then "holds" means that the condition is true, and "unsat" that it is
  -- false, in every model of the definitions in which the path condition is true.
  pub check_block_condition-Says :
      (bc : BlockCondition z S) (cache : List (ℕ × Bool))
      → Says
          (reach solver ctx bc.block)
          (bc.to_z3 (ctx.state_at bc.block))
          bc.assert_mode
          (check_block_condition solver ctx bc cache).0.verdict
          (check_block_condition solver ctx bc cache).0.witness
  unfolding check_block_condition
  check_block_condition-Says bc cache =
      let path = reach solver ctx bc.block in
      let body = bc.to_z3 (ctx.state_at bc.block) in
      elim (Bool-cases (is_known false path)) [
        | inl e ↦ rw e (never-Says path body bc.assert_mode (λ m. is_known-value z m path e))
        | inr e ↦
            let d = decide solver ctx path (asked_body solver ctx bc.assert_mode body) in
            let (v, w) = result_for_lem bc d cache in
            rw e (
              subst
                (λ v. Says path body bc.assert_mode v (result_for solver ctx bc d cache).0.witness)
                (sym v)
                (subst (Says path body bc.assert_mode (verdict_of solver ctx bc.assert_mode d.0))
                  (sym w)
                  (Decided-Says path body bc.assert_mode d
                    (decide-Decided path (asked_body solver ctx bc.assert_mode body)))))
      ]
