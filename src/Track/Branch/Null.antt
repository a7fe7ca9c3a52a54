-- ===== src/Track/Branch/Null.antt =====
-- hornet/track/tracker.py, `track_branch`: a helper's pointer against zero. `v` is the pointer at
-- run time, 0 when the helper found nothing.
use hor_net_nsdi.Common.{
  ℕ, ◌^◌, ◌<◌, ◌≡◌, refl, sym, ◌∙◌, ap, Bool, true, false, not, ◌==◌, subst, not-not, and_false,
  Option, some, arith,
}
use mathlib.Core.Option.{some-injective}
use hor_net_nsdi.Common.Int.{ℤ, pos}
use hor_net_nsdi.Common.Result.{Result, ok, ◌>>=◌, or_err}
use hor_net_nsdi.Bpf.Codes.{jeq, jne, jset, jmp32, swap_jmp_code}
use hor_net_nsdi.Bpf.Instr.{Instr, class_in}
use hor_net_nsdi.Track.Expr.{MaybeExpr, present, PtrInfo, ptr, num}
use hor_net_nsdi.Track.Facts.{Marks, EdgeFact, ptr_facts, edge_fact, null_fact_id}
use hor_net_nsdi.Track.Adjust.{BranchError, adjust_call, adjust_ret_in}
use hor_net_nsdi.Track.Jump.{jmp_taken, compare_masked, jmp_taken-wide}
use hor_net_nsdi.Track.Branch.{
  track_branch, branch_adjusted, exchange, branch_on, null_check, null_marks, unchecked, branch_src,
  has_negation,
}

-- a test for equality
pub data IsEquality : ℕ → Type 0 where
  eq : IsEquality jeq
  ne : IsEquality jne

-- The fact says of this pointer whether it is null.
abbrev pub SaysNull : PtrInfo → Bool → Option EdgeFact → Type 0
SaysNull p null (some (ptr_facts base_id q (some b))) = (base_id ≡ null_fact_id p) × (b ≡ null)
SaysNull p null _ = ⊥

abbrev Says : PtrInfo → Bool → Bool → Result BranchError Marks → Type 0
Says p null taken r = (m : Marks) × (r ≡ ok m) × SaysNull p null (edge_fact taken m)

IsEquality-has_negation : {code : ℕ} → IsEquality code → has_negation code ≡ true
unfolding swap_jmp_code
IsEquality-has_negation eq = refl
IsEquality-has_negation ne = refl

Says-cast :
    {s t : Bool} (p : PtrInfo) (taken : Bool) (r : Result BranchError Marks)
    → s ≡ t
    → Says p s taken r
    → Says p t taken r
Says-cast p taken r e = subst (λ k. Says p k taken r) e

zero_first : (v : ℕ) → (0 == v) ≡ (v == 0)
zero_first v = ground arith

-- the two null checks: which edge says null
null_check-eq :
    (brief : Bool) (p : PtrInfo) (vo mk np : MaybeExpr) (size : ℕ) (idx : ℤ) (m : Marks)
    (taken : Bool)
    → Says p taken taken (null_check brief jeq p vo mk np (present (num (pos 0) size idx)) m)
unfolding null_check null_marks
null_check-eq brief p vo mk np size idx m true = (_, refl, (refl, refl))
null_check-eq brief p vo mk np size idx m false = (_, refl, (refl, refl))

null_check-ne :
    (brief : Bool) (p : PtrInfo) (vo mk np : MaybeExpr) (size : ℕ) (idx : ℤ) (m : Marks)
    (taken : Bool)
    → Says p (not taken) taken (null_check brief jne p vo mk np (present (num (pos 0) size idx)) m)
unfolding null_check null_marks
null_check-ne brief p vo mk np size idx m true = (_, refl, (refl, refl))
null_check-ne brief p vo mk np size idx m false = (_, refl, (refl, refl))

null_check-Says :
    {code : ℕ} (brief : Bool) (p : PtrInfo) (vo mk np : MaybeExpr) (size : ℕ) (idx : ℤ) (m : Marks)
    (v : ℕ) (taken : Bool)
    → IsEquality code
    → compare_masked code 64 v 0 ≡ some taken
    → Says p (v == 0) taken (null_check brief code p vo mk np (present (num (pos 0) size idx)) m)
unfolding compare_masked
null_check-Says brief p vo mk np size idx m v taken eq h =
    Says-cast p taken (null_check brief jeq p vo mk np (present (num (pos 0) size idx)) m)
      (sym (some-injective _ _ h)) (null_check-eq brief p vo mk np size idx m taken)
null_check-Says brief p vo mk np size idx m v taken ne h =
    Says-cast p taken _ (ap not (sym (some-injective _ _ h)) ∙ sym (not-not (v == 0)))
      (null_check-ne brief p vo mk np size idx m taken)

track_branch-null_check :
    (brief : Bool) (pending : Option (ℕ × Option ℤ)) (i : Instr) (p : PtrInfo)
    (vo mk np src_reg : MaybeExpr) (size : ℕ) (idx : ℤ) (m : Marks)
    → IsEquality i.opcode_code
    → branch_src i src_reg ≡ present (num (pos 0) size idx)
    → unchecked p ≡ true
    → track_branch brief pending i (present (ptr p vo mk np)) src_reg m
      ≡ null_check brief i.opcode_code p vo mk np (present (num (pos 0) size idx)) m
unfolding track_branch adjust_call adjust_ret_in branch_adjusted exchange branch_on
track_branch-null_check brief pending i p vo mk np src_reg size idx m o s c =
    rw (IsEquality-has_negation o, s, c, and_false (not (i.opcode_code == jset)))

-- A 64-bit jump on equality, not one of class JMP32, compares a pointer that is not known to be valid
-- with the constant zero. Then `track_branch` succeeds in both passes, and the edge that the machine
-- takes carries a fact on this pointer that says null exactly when the pointer is 0.
pub track_branch-SaysNull :
    (brief : Bool) (pending : Option (ℕ × Option ℤ)) (i : Instr) (p : PtrInfo)
    (vo mk np src_reg : MaybeExpr) (size : ℕ) (idx : ℤ) (m : Marks) (v : ℕ) (taken : Bool)
    → IsEquality i.opcode_code
    → branch_src i src_reg ≡ present (num (pos 0) size idx)
    → class_in i jmp32 jmp32 ≡ false
    → unchecked p ≡ true
    → v < 2 ^ 64
    → jmp_taken i.opcode_code (pos v) (pos 0) (class_in i jmp32 jmp32) ≡ some taken
    → (r : Marks) × (track_branch brief pending i (present (ptr p vo mk np)) src_reg m ≡ ok r)
      × SaysNull p (v == 0) (edge_fact taken r)
track_branch-SaysNull brief pending i p vo mk np src_reg size idx m v taken o s w c hv h =
    subst (Says p (v == 0) taken)
      (sym (track_branch-null_check brief pending i p vo mk np src_reg size idx m o s c))
      (null_check-Says brief p vo mk np size idx m v taken o
        (sym (jmp_taken-wide i.opcode_code v 0 (class_in i jmp32 jmp32) w hv (ground arith)) ∙ h))

-- With the zero as the first operand, the null check is that of the negated code.
exchange-Says :
    {code : ℕ} (brief jmp32 : Bool) (p : PtrInfo) (vo mk np : MaybeExpr) (size : ℕ) (idx : ℤ)
    (m : Marks) (v : ℕ) (taken : Bool)
    → IsEquality code
    → unchecked p ≡ true
    → compare_masked code 64 0 v ≡ some taken
    → Says p
        (not (v == 0))
        taken
        (exchange brief jmp32 code (present (num (pos 0) size idx)) (present (ptr p vo mk np)) m)
unfolding exchange compare_masked swap_jmp_code or_err ◌>>=◌ branch_on
exchange-Says brief jmp32 p vo mk np size idx m v taken eq c h = rw (c) (
    Says-cast p taken _ (ap not (sym (some-injective _ _ h) ∙ zero_first v))
      (null_check-ne brief p vo mk np size idx m taken))
exchange-Says brief jmp32 p vo mk np size idx m v taken ne c h = rw (c) (
    Says-cast p taken _ (sym (some-injective _ _ h) ∙ ap not (zero_first v))
      (null_check-eq brief p vo mk np size idx m taken))

track_branch-exchange :
    (brief : Bool) (pending : Option (ℕ × Option ℤ)) (i : Instr) (size : ℕ) (idx : ℤ) (p : PtrInfo)
    (vo mk np src_reg : MaybeExpr) (m : Marks)
    → IsEquality i.opcode_code
    → branch_src i src_reg ≡ present (ptr p vo mk np)
    → track_branch brief pending i (present (num (pos 0) size idx)) src_reg m
      ≡ exchange brief
          (class_in i jmp32 jmp32)
          i.opcode_code
          (present (num (pos 0) size idx))
          (present (ptr p vo mk np))
          m
unfolding track_branch adjust_call adjust_ret_in branch_adjusted
track_branch-exchange brief pending i size idx p vo mk np src_reg m o s =
    rw (IsEquality-has_negation o, s)

-- A 64-bit jump on equality, not one of class JMP32, compares a register that holds the constant zero
-- with a pointer that is not known to be valid. Here the source takes the negation of the code for
-- the code of the exchanged operands: `track_branch` succeeds in both passes, and the edge that the
-- machine takes carries a fact on this pointer that says null exactly when the pointer is not 0.
pub track_branch-exchanged :
    (brief : Bool) (pending : Option (ℕ × Option ℤ)) (i : Instr) (p : PtrInfo)
    (vo mk np src_reg : MaybeExpr) (size : ℕ) (idx : ℤ) (m : Marks) (v : ℕ) (taken : Bool)
    → IsEquality i.opcode_code
    → branch_src i src_reg ≡ present (ptr p vo mk np)
    → class_in i jmp32 jmp32 ≡ false
    → unchecked p ≡ true
    → v < 2 ^ 64
    → jmp_taken i.opcode_code (pos 0) (pos v) (class_in i jmp32 jmp32) ≡ some taken
    → (r : Marks) × (track_branch brief pending i (present (num (pos 0) size idx)) src_reg m ≡ ok r)
      × SaysNull p (not (v == 0)) (edge_fact taken r)
track_branch-exchanged brief pending i p vo mk np src_reg size idx m v taken o s w c hv h =
    subst (Says p (not (v == 0)) taken)
      (sym (track_branch-exchange brief pending i size idx p vo mk np src_reg m o s))
      (exchange-Says brief (class_in i jmp32 jmp32) p vo mk np size idx m v taken o c
        (sym (jmp_taken-wide i.opcode_code 0 v (class_in i jmp32 jmp32) w (ground arith) hv) ∙ h))
