-- ===== src/Verify/Check/Exits.antt =====
-- hornet/verify/checker.py: `check_exit_condition`, over the exits that may be reached. The notes on
-- effects that have no state are left out of its detail.
pub mod Verdicts
use hor_net_nsdi.Common.{
  ℕ, Bool, true, false, not, if◌then◌else◌, List, [], ◌∷◌, ◌++◌, map, Option, some, none, any_b,
  all_b, filter_b,
}
use hor_net_nsdi.Bpf.Cfg.{Block, sorted_set}
use hor_net_nsdi.Verify.Guard.{Logic, Guard, is_known}
use hor_net_nsdi.Verify.Check.{
  Solver, Mode, exists_mode, always_mode, Verdict, ExitCondition, CheckResult, Context, Note, exits,
  witness_at, no_reachable_exit, reach, decide, verdict_of, asked_body,
}

-- `kind == 'exit'`
abbrev pub is_exit_kind : Block → Bool
is_exit_kind b = if b.branch then false else if b.jump then false else b.exit

-- `exit_blocks` of hornet/verify/prune.py
unfoldable pub exit_blocks : List Block → List ℕ
exit_blocks blocks = map (λ b. b.num) (filter_b is_exit_kind blocks)

-- `per_exit`, oldest first, and the first witness with its exit
pub record Exits (M : Type 0) : Type 0 where
  pub per_exit : List (ℕ × Bool)
  pub hit : Option (ℕ × M)

-- what `per_exit` keeps of an answer
abbrev pub is_good : Mode → Bool → Bool
is_good exists_mode ok = ok
is_good always_mode ok = not ok

abbrev pub first_hit {ℓ} : {M : Type ℓ} → Option (ℕ × M) → ℕ → Option M → Option (ℕ × M)
first_hit (some h) b w = some h
first_hit none b none = none
first_hit none b (some m) = some (b, m)

abbrev pub model_of {ℓ} : {M : Type ℓ} → Option (ℕ × M) → Option M
model_of none = none
model_of (some (b, m)) = some m

abbrev pub hit_notes {ℓ} : {M : Type ℓ} → Option (ℕ × M) → List Note
hit_notes none = []
hit_notes (some (b, m)) = witness_at b ∷ []

-- the verdict over all exits
abbrev pub exits_verdict : Mode → List (ℕ × Bool) → Verdict
exits_verdict exists_mode per_exit =
    if any_b (λ e. e.1) per_exit then Verdict.satisfiable else Verdict.unsatisfiable
exits_verdict always_mode per_exit =
    if all_b (λ e. e.1) per_exit then Verdict.holds else Verdict.violated

module _ {z : Logic} {S : Type 0} (solver : Solver z) (ctx : Context z S) where
  open z use {Model}

  unfoldable pub live_exits : List ℕ
  unfolding exit_blocks
  live_exits = filter_b (λ b. not (is_known false (reach solver ctx b))) (exit_blocks ctx.blocks)

  -- the body of the loop over the live exits, with the state behind the return
  unfoldable pub check_exit : ExitCondition z S → ℕ → Option S → Exits Model → Exits Model
  unfolding decide
  check_exit ec b none x = x
  check_exit ec b (some st) x =
      let d =
        decide solver ctx (reach solver ctx b)
          (asked_body solver ctx ec.assert_mode (ec.to_z3 st)) in
      record {
        per_exit = x.per_exit ++ (b, is_good ec.assert_mode d.0) ∷ [];
        hit = first_hit x.hit b d.1;
      }

  unfoldable pub check_exits : ExitCondition z S → List ℕ → Exits Model → Exits Model
  unfolding check_exit
  check_exits ec [] x = x
  check_exits ec (b ∷ live) x = check_exits ec live (check_exit ec b (ctx.ret_state b) x)

  abbrev pub exits_result : ExitCondition z S → List ℕ → Exits Model → CheckResult Model
  exits_result ec live x = record {
    name = ec.name;
    verdict = exits_verdict ec.assert_mode x.per_exit;
    detail = exits x.per_exit ∷ hit_notes x.hit;
    witness = model_of x.hit;
  }

  abbrev pub exit_condition_on : ExitCondition z S → List ℕ → CheckResult Model
  exit_condition_on ec [] = record {
    name = ec.name;
    verdict = verdict_of solver ctx ec.assert_mode false;
    detail = no_reachable_exit ∷ [];
    witness = none;
  }
  exit_condition_on ec (b ∷ live) =
      exits_result ec (b ∷ live) (check_exits ec (b ∷ live) (record { per_exit = []; hit = none }))

  unfoldable pub check_exit_condition : ExitCondition z S → CheckResult Model
  unfolding check_exits live_exits
  check_exit_condition ec = exit_condition_on ec live_exits
