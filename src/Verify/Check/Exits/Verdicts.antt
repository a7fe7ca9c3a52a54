-- ===== src/Verify/Check/Exits/Verdicts.antt =====
-- What the verdict on an exit condition says of the models.
use hor_net_nsdi.Common.{
  ℕ, ◌≡◌, refl, sym, ◌∙◌, ap, subst, Bool, true, false, ◌||◌, not, ◌==◌, ==→≡, if◌then◌else◌, List,
  [], ◌∷◌, ◌++◌, Option, some, none, arith, Bool-cases, inl, inr, any_b, all_b,
}
use hor_net_nsdi.Common.Sets.{mem}
use hor_net_nsdi.Verify.Prune.Reach.{mem-filter_b}
use hor_net_nsdi.Verify.Guard.{Logic, Guard, is_known, value, value-not_guard, is_known-value}
use hor_net_nsdi.Verify.Check.{
  Solver, Mode, exists_mode, always_mode, Verdict, violated, holds, satisfiable, unsatisfiable,
  ExitCondition, Context, reach, decide, verdict_of, asked_body,
}
use hor_net_nsdi.Verify.Check.Verdicts.{
  Decided, found, not_found, decide-Decided, IsDecisive, Defines,
}
use hor_net_nsdi.Verify.Check.Exits.{
  Exits, is_good, first_hit, model_of, exits_verdict, exit_blocks, live_exits, check_exit,
  check_exits, exit_condition_on, check_exit_condition,
}

-- Did the solver find a model for an exit that is kept as e?
abbrev answer_in : Mode → ℕ × Bool → Bool
answer_in mode e = is_good mode e.1

any_b-append :
    (p : ℕ × Bool → Bool) (xs : List (ℕ × Bool)) (e : ℕ × Bool)
    → any_b p (xs ++ e ∷ []) ≡ (any_b p xs || p e)
any_b-append p [] e = ground arith
any_b-append p (x ∷ xs) e = ground (arith, any_b-append p xs e)

exits_verdict-verdict_of :
    {z : Logic} {S : Type 0} (solver : Solver z) (ctx : Context z S) (mode : Mode)
    (per_exit : List (ℕ × Bool))
    → exits_verdict mode per_exit
      ≡ verdict_of solver ctx mode (any_b (λ e. is_good mode e.1) per_exit)
exits_verdict-verdict_of solver ctx exists_mode per_exit = refl
exits_verdict-verdict_of solver ctx always_mode per_exit =
    ap (λ t. if t then holds else violated) (all_any per_exit) ∙ swap _
  where
    all_any : (xs : List (ℕ × Bool)) → all_b (λ e. e.1) xs ≡ not (any_b (λ e. not e.1) xs)
    all_any [] = refl
    all_any ((b, v) ∷ xs) = ground (arith, all_any xs)

    swap : (t : Bool) → (if not t then holds else violated) ≡ (if t then violated else holds)
    swap true = refl
    swap false = refl

module _ {z : Logic} {S : Type 0} (solver : Solver z) (ctx : Context z S)
    (ec : ExitCondition z S) where
  open z use {Model}

  abbrev question : S → Guard z.Term
  question st = asked_body solver ctx ec.assert_mode (ec.to_z3 st)

  abbrev asks_in : ℕ → Option S → Bool
  asks_in b none = false
  asks_in b (some st) = (decide solver ctx (reach solver ctx b) (question st)).0

  -- Is there a model for the question at exit b?
  abbrev asks : ℕ → Bool
  asks b = asks_in b (ctx.ret_state b)

  abbrev any_answer : Exits Model → Bool
  any_answer x = any_b (λ e. is_good ec.assert_mode e.1) x.per_exit

  -- A hit is a model that reaches an exit and answers the question there.
  IsHit : Option (ℕ × Model) → Type 0
  IsHit hit =
      (b : ℕ) × (m : Model) × (st : S) × (hit ≡ some (b, m))
      × (ctx.ret_state b ≡ some st)
      × (value z m (reach solver ctx b) ≡ true)
      × (value z m (question st) ≡ true)

  twice : (mode : Mode) (t : Bool) → is_good mode (is_good mode t) ≡ t
  twice exists_mode t = refl
  twice always_mode true = refl
  twice always_mode false = refl

  check_exit-any_answer :
      (b : ℕ) (o : Option S) (x : Exits Model)
      → any_answer (check_exit solver ctx ec b o x) ≡ (any_answer x || asks_in b o)
  unfolding check_exit
  check_exit-any_answer b none x = ground arith
  check_exit-any_answer b (some st) x =
      let d = decide solver ctx (reach solver ctx b) (question st) in
      any_b-append (λ e. is_good ec.assert_mode e.1) x.per_exit (b, is_good ec.assert_mode d.0)
      ∙ ap (λ t. any_answer x || t) (twice ec.assert_mode d.0)

  check_exits-any_answer :
      (live : List ℕ) (x : Exits Model)
      → any_answer (check_exits solver ctx ec live x) ≡ (any_answer x || any_b asks live)
  unfolding check_exits
  check_exits-any_answer [] x = ground arith
  check_exits-any_answer (b ∷ live) x =
      let rest = check_exits-any_answer live (check_exit solver ctx ec b (ctx.ret_state b) x) in
      rest
      ∙ ap (λ t. t || any_b asks live) (check_exit-any_answer b (ctx.ret_state b) x)
      ∙ assoc (any_answer x) (asks b) (any_b asks live)
    where
      assoc : (s t u : Bool) → ((s || t) || u) ≡ (s || (if t then true else u))
      assoc s t u = ground arith

  -- Where there is no hit, nothing was found.
  HitInv : Option (ℕ × Model) → Bool → Type 0
  HitInv none t = t ≡ false
  HitInv (some h) t = IsHit (some h)

  first_hit-HitInv :
      (b : ℕ) (st : S) (hit : Option (ℕ × Model)) (t : Bool) (d : Bool × Option Model)
      → ctx.ret_state b ≡ some st
      → Decided solver ctx (reach solver ctx b) (question st) d
      → HitInv hit t
      → HitInv (first_hit hit b d.1) (t || d.0)
  unfolding HitInv IsHit
  first_hit-HitInv b st (some h) t d e q i = i
  first_hit-HitInv b st none t d e (found m g q) i = (b, m, st, refl, e, g, q)
  first_hit-HitInv b st none t d e (not_found n) i = ground arith

  check_exit-HitInv :
      (b : ℕ) (o : Option S) (x : Exits Model)
      → ctx.ret_state b ≡ o
      → HitInv x.hit (any_answer x)
      → HitInv (check_exit solver ctx ec b o x).hit (any_answer x || asks_in b o)
  unfolding check_exit HitInv
  check_exit-HitInv b none x e i = subst (HitInv x.hit) (or_false (any_answer x)) i
    where
      or_false : (t : Bool) → t ≡ (t || false)
      or_false t = ground arith
  check_exit-HitInv b (some st) x e i =
      first_hit-HitInv b st x.hit (any_answer x) _ e
        (decide-Decided solver ctx (reach solver ctx b) (question st)) i

  check_exits-HitInv :
      (live : List ℕ) (x : Exits Model)
      → HitInv x.hit (any_answer x)
      → HitInv
          (check_exits solver ctx ec live x).hit
          (any_answer (check_exits solver ctx ec live x))
  unfolding check_exits
  check_exits-HitInv [] x i = i
  check_exits-HitInv (b ∷ live) x i =
      let x' = check_exit solver ctx ec b (ctx.ret_state b) x in
      check_exits-HitInv live x' (
        subst (HitInv x'.hit) (sym (check_exit-any_answer b (ctx.ret_state b) x))
          (check_exit-HitInv b (ctx.ret_state b) x refl i))

  HitInv-IsHit : (hit : Option (ℕ × Model)) (t : Bool) → HitInv hit t → t ≡ true → IsHit hit
  unfolding HitInv
  HitInv-IsHit none t i h = cc
  HitInv-IsHit (some a) t i h = i

  -- No model answers the question at exit b, unless the solver gave up.
  unasked :
      (b : ℕ) (st : S)
      → ctx.ret_state b ≡ some st
      → asks b ≡ false
      → IsDecisive solver ctx
      → (m : Model) → Defines solver ctx m (reach solver ctx b) (question st)
      → value z m (reach solver ctx b) ≡ true
      → value z m (question st) ≡ false
  unasked b st e h decisive m defs g =
      fails _ (decide-Decided solver ctx (reach solver ctx b) (question st))
        (sym (ap (asks_in b) e) ∙ h)
    where
      fails :
          (d : Bool × Option Model)
          → Decided solver ctx (reach solver ctx b) (question st) d
          → d.0 ≡ false
          → value z m (question st) ≡ false
      fails d (found m' g' q) h = cc
      fails d (not_found n) h = ground (arith, n decisive m defs, g)

  -- What a verdict on an exit condition says of the models, with its witness.
  abbrev pub SaysExits : Verdict → Option Model → Type 0
  SaysExits violated w =
      (b : ℕ) × (m : Model) × (st : S) × (w ≡ some m)
      × (ctx.ret_state b ≡ some st)
      × (value z m (reach solver ctx b) ≡ true)
      × (value z m (ec.to_z3 st) ≡ false)
  SaysExits satisfiable w =
      (b : ℕ) × (m : Model) × (st : S) × (w ≡ some m)
      × (ctx.ret_state b ≡ some st)
      × (value z m (reach solver ctx b) ≡ true)
      × (value z m (ec.to_z3 st) ≡ true)
  SaysExits holds w =
      IsDecisive solver ctx
      → (b : ℕ) (m : Model) (st : S) → mem b (exit_blocks ctx.blocks) ≡ true
      → ctx.ret_state b ≡ some st
      → Defines solver ctx m (reach solver ctx b) (question st)
      → value z m (reach solver ctx b) ≡ true
      → value z m (ec.to_z3 st) ≡ true
  SaysExits unsatisfiable w =
      IsDecisive solver ctx
      → (b : ℕ) (m : Model) (st : S) → mem b (exit_blocks ctx.blocks) ≡ true
      → ctx.ret_state b ≡ some st
      → Defines solver ctx m (reach solver ctx b) (question st)
      → value z m (reach solver ctx b) ≡ true
      → value z m (ec.to_z3 st) ≡ false

  abbrev reads : Mode → Bool → Bool
  reads exists_mode t = t
  reads always_mode t = not t

  question-reads :
      (mode : Mode) (m : Model) (st : S)
      → ec.assert_mode ≡ mode
      → value z m (question st) ≡ reads mode (value z m (ec.to_z3 st))
  question-reads exists_mode m st e = ap (λ a. value z m (asked_body solver ctx a (ec.to_z3 st))) e
  question-reads always_mode m st e =
      ap (λ a. value z m (asked_body solver ctx a (ec.to_z3 st))) e
      ∙ value-not_guard z m (ec.to_z3 st)

  any_b-mem :
      (p : ℕ → Bool) (xs : List ℕ) (b : ℕ) → any_b p xs ≡ false → mem b xs ≡ true → p b ≡ false
  unfolding mem
  any_b-mem p [] b h m = cc
  any_b-mem p (x ∷ xs) b h m = elim (Bool-cases (b == x)) [
    | inl e ↦ let same : p b ≡ p x = ap p (==→≡ b x e) in ground (arith, h, same)
    | inr e ↦ ground (arith, any_b-mem p xs b, h, m, e)
  ]

  unanswered :
      (b : ℕ) (m : Model) (st : S)
      → any_b asks (live_exits solver ctx) ≡ false
      → IsDecisive solver ctx
      → mem b (exit_blocks ctx.blocks) ≡ true
      → ctx.ret_state b ≡ some st
      → Defines solver ctx m (reach solver ctx b) (question st)
      → value z m (reach solver ctx b) ≡ true
      → value z m (question st) ≡ false
  unfolding live_exits
  unanswered b m st h decisive at ret defs g =
      elim (Bool-cases (is_known false (reach solver ctx b))) [
        | inl e ↦ cc (is_known-value z m (reach solver ctx b) e, g)
        | inr e ↦
            let live =
              mem-filter_b (λ x. not (is_known false (reach solver ctx x))) b
                (exit_blocks ctx.blocks)
              ∙ rw (at, e) refl in
            unasked b st ret (any_b-mem asks (live_exits solver ctx) b h live) decisive m defs g
      ]

  hit-SaysExits :
      (mode : Mode) (hit : Option (ℕ × Model))
      → ec.assert_mode ≡ mode
      → IsHit hit
      → SaysExits (verdict_of solver ctx mode true) (model_of hit)
  unfolding IsHit
  hit-SaysExits exists_mode hit e (b, m, st, h, at, g, q) =
      (b, m, st, ap model_of h, at, g, sym (question-reads exists_mode m st e) ∙ q)
  hit-SaysExits always_mode hit e (b, m, st, h, at, g, q) =
      (b, m, st, ap model_of h, at, g, ground (arith, question-reads always_mode m st e, q))

  none-SaysExits :
      (mode : Mode) (w : Option Model)
      → ec.assert_mode ≡ mode
      → any_b asks (live_exits solver ctx) ≡ false
      → SaysExits (verdict_of solver ctx mode false) w
  none-SaysExits exists_mode w e h = λ decisive b m st at ret defs g.
      sym (question-reads exists_mode m st e) ∙ unanswered b m st h decisive at ret defs g
  none-SaysExits always_mode w e h = λ decisive b m st at ret defs g.
      ground (arith, question-reads always_mode m st e, unanswered b m st h decisive at ret defs g)

  start_lem : HitInv none (any_answer (record { per_exit = []; hit = none }))
  unfolding HitInv
  start_lem = refl

  on-SaysExits :
      (live : List ℕ)
      → live_exits solver ctx ≡ live
      → SaysExits
          (exit_condition_on solver ctx ec live).verdict
          (exit_condition_on solver ctx ec live).witness
  on-SaysExits [] e = none-SaysExits ec.assert_mode none refl (ap (any_b asks) e)
  on-SaysExits (b ∷ live) e =
      let start : Exits Model = record { per_exit = []; hit = none } in
      let x = check_exits solver ctx ec (b ∷ live) start in
      let total = check_exits-any_answer (b ∷ live) start in
      subst (λ v. SaysExits v (model_of x.hit))
        (sym (exits_verdict-verdict_of solver ctx ec.assert_mode x.per_exit))
        (elim (Bool-cases (any_answer x)) [
          | inl t ↦ rw t (
              hit-SaysExits ec.assert_mode x.hit refl (
                HitInv-IsHit x.hit (any_answer x) (check_exits-HitInv (b ∷ live) start start_lem)
                  t))
          | inr t ↦ rw t (
              none-SaysExits ec.assert_mode (model_of x.hit) refl
                (ap (any_b asks) e ∙ sym total ∙ t))
        ])

  -- The verdict of `check_exit_condition` is right. "violated" and "sat" come with a model in which an
  -- exit's path condition is true and the condition on its return state is false, or true. If the
  -- solver never answers "unknown", then "holds" means that the condition is true, and "unsat" that it
  -- is false, at every exit that has a return state, in every model of the definitions in
  -- which the exit's path condition is true.
  pub check_exit_condition-SaysExits :
      SaysExits
        (check_exit_condition solver ctx ec).verdict
        (check_exit_condition solver ctx ec).witness
  unfolding check_exit_condition
  check_exit_condition-SaysExits = on-SaysExits (live_exits solver ctx) refl
