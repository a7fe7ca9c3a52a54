-- ===== src/Verify/Check/Witness.antt =====
-- The checker on a program of three blocks, with a solver for terms over one Boolean variable.
use hor_net_nsdi.Common.{
  ℕ, ◌+◌, ◌<◌, ◌≡◌, refl, Bool, true, false, ◌&&◌, not, ◌==◌, if◌then◌else◌, List, [], ◌∷◌, some,
  none, get_elem?, length, map, any_b, all_b, arith,
}
use hor_net_nsdi.Common.Result.{Result, ok, err, ◌>>=◌, or_err}
use hor_net_nsdi.Bpf.Witness.{program, built, returned}
use hor_net_nsdi.Bpf.Cfg.{build_cfg}
use hor_net_nsdi.Bpf.Cfg.Edges.{build_cfg-HasEdges}
use hor_net_nsdi.Verify.Prune.{TopoError}
use hor_net_nsdi.Verify.Guard.{Logic, term}
use hor_net_nsdi.Verify.Forward.{Memory, ForwardInfo, forward_context}
use hor_net_nsdi.Verify.Forward.Paths.{IsForwardExact, forward_context-IsForwardExact}
use hor_net_nsdi.Verify.Check.{
  Answer, sat, unsat, Solver, exists_mode, always_mode, violated, satisfiable, BlockCondition,
  ExitCondition, CheckResult, Context, reach, check_block_condition,
}
use hor_net_nsdi.Verify.Check.Verdicts.{Says, check_block_condition-Says}
use hor_net_nsdi.Verify.Check.Exits.{check_exit_condition}
use hor_net_nsdi.Verify.Check.Exits.Verdicts.{SaysExits, check_exit_condition-SaysExits}
use hor_net_nsdi.Verify.Check.Report.{Policy, ReachEntry, targets_for, check}
use hor_net_nsdi.Verify.Check.Report.Executions.{IsRight, check-IsRight}

-- Terms as functions of the one variable; each branch without a condition goes by it.
abbrev bit : Logic
bit = record {
  Term = Bool → Bool;
  Model = Bool;
  truth = λ m t. t m;
  and_t = λ a b m. a m && b m;
  or_t = λ ts m. any_b (λ t. t m) ts;
  not_t = λ a m. not (a m);
  branch_taken = λ n m. m;
  simplify = λ a. a;
  is_true = λ a. false;
  is_false = λ a. false;
  and_lem = λ m a b. refl;
  or_lem = λ m ts. refl;
  not_lem = λ m a. refl;
  simplify_lem = λ m a. refl;
  is_true_lem = λ m a e. cc;
  is_false_lem = λ m a e. cc;
}

abbrev answer_of : Bool → Bool → Answer Bool
answer_of true f = sat true
answer_of false true = sat false
answer_of false false = unsat

answer_of-sat : (p : Bool → Bool) (m : Bool) → answer_of (p true) (p false) ≡ sat m → p m ≡ true
answer_of-sat p true h = ground arith
answer_of-sat p false h = ground arith

answer_of-unsat :
    (p : Bool → Bool) → answer_of (p true) (p false) ≡ unsat → (m : Bool) → p m ≡ false
answer_of-unsat p h true = ground arith
answer_of-unsat p h false = ground arith

abbrev holds_all : List bit.Term → Bool → Bool
holds_all ts m = all_b (λ t. t m) ts

-- the solver that tries both values
abbrev both_values : Solver bit
both_values = record {
  check = λ ts. answer_of (holds_all ts true) (holds_all ts false);
  and_all = λ ts m. holds_all ts m;
  and_all_lem = λ m ts. refl;
  sat_lem = λ ts m h. answer_of-sat (holds_all ts) m h;
  unsat_lem = λ ts h m. answer_of-unsat (holds_all ts) h m;
}

-- The memory counts; block 0 branches on the variable.
abbrev counter : Memory bit
counter = record {
  State = ℕ;
  init_st = 0;
  merge_sigma = λ contribs s. s;
  run_items = λ b s. s + b;
  cond_at = λ b s. if b == 0 then some (term (λ m. m)) else none;
}

abbrev at_one : BlockCondition bit ℕ
at_one = record { name = "low"; block = 1; assert_mode = always_mode; to_z3 = λ s. term (λ m. m) }

abbrev at_exit : ExitCondition bit ℕ
at_exit = record { name = "any"; assert_mode = exists_mode; to_z3 = λ s. term (λ m. m) }

abbrev policy : Policy bit ℕ
policy = record { block_conditions = at_one ∷ []; exit_conditions = at_exit ∷ [] }

abbrev infos_of : Result TopoError (List (ForwardInfo bit.Term ℕ)) → List (ForwardInfo bit.Term ℕ)
infos_of (ok info) = info
infos_of (err e) = []

abbrev infos : List (ForwardInfo bit.Term ℕ)
infos = infos_of (forward_context bit counter built.graph.blocks (targets_for (policy ∷ []) true))

abbrev ctx : Context bit ℕ
ctx = record {
  blocks = built.graph.blocks;
  info = infos;
  definitions = λ g b. [];
  state_at = λ b. b;
  ret_state = λ b. some b;
  dropped_effects = λ b. [];
}

made : forward_context bit counter built.graph.blocks (targets_for (policy ∷ []) true) ≡ ok infos
unfolding forward_context targets_for ◌>>=◌ or_err build_cfg
made = refl

built_blocks : 0 < length built.graph.blocks
unfolding build_cfg or_err ◌>>=◌
built_blocks = omega arith

check-runs : map (λ e. e.live) (check both_values ctx policy true).1 ≡ true ∷ true ∷ true ∷ []
unfolding forward_context targets_for ◌>>=◌ or_err build_cfg check
check-runs = refl

check-verdicts :
    map (λ c. c.verdict) (check both_values ctx policy true).0 ≡ violated ∷ satisfiable ∷ []
unfolding forward_context targets_for ◌>>=◌ or_err build_cfg check
check-verdicts = refl

forward_context-IsForwardExact_example :
    IsForwardExact bit counter true built.graph
      (build_cfg-HasEdges program [] built returned)
      (targets_for (policy ∷ []) true)
      infos
forward_context-IsForwardExact_example =
    forward_context-IsForwardExact bit counter true program [] built returned built_blocks
      (targets_for (policy ∷ []) true) infos made

check_block_condition-Says_example :
    Says both_values ctx
      (reach both_values ctx 1)
      (term (λ m. m))
      always_mode
      (check_block_condition both_values ctx at_one []).0.verdict
      (check_block_condition both_values ctx at_one []).0.witness
check_block_condition-Says_example = check_block_condition-Says both_values ctx at_one []

check_exit_condition-SaysExits_example :
    SaysExits both_values ctx at_exit
      (check_exit_condition both_values ctx at_exit).verdict
      (check_exit_condition both_values ctx at_exit).witness
check_exit_condition-SaysExits_example = check_exit_condition-SaysExits both_values ctx at_exit

check-IsRight_example :
    (c : CheckResult Bool) × (get_elem? (check both_values ctx policy true).0 0 ≡ some c)
    × IsRight counter both_values program [] built returned built_blocks ctx policy true at_one c
check-IsRight_example =
    check-IsRight counter both_values program [] built returned built_blocks ctx policy true made 0
      at_one refl

abbrev entry_of : List ReachEntry → ReachEntry
entry_of [] = record { block = 0; live = false; by_preds = false }
entry_of (e ∷ entries) = e
