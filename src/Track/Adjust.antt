-- ===== src/Track/Adjust.antt =====
-- hornet/track/tracker.py, `_adjust_ret_in` and `_eval_at`: the part of `track_branch` for a test on
-- the result of bpf_xdp_adjust_head, bpf_xdp_adjust_meta or bpf_xdp_adjust_tail.
-- Two `func_retval` are equal when their instruction and their helper are, whatever the other fields
-- hold.
use hor_net_nsdi.Common.{
  ℕ, ◌*◌, ◌%◌, ◌^◌, Bool, true, ◌&&◌, not, ◌==◌, if◌then◌else◌, Option, some, none,
}
use hor_net_nsdi.Common.Int.{ℤ, pos, negsuc, mask_ℤ, ◌==ℤ◌}
use hor_net_nsdi.Common.Result.{Result, ok, ◌>>=◌, or_err}
use hor_net_nsdi.Bpf.Codes.{mov}
use hor_net_nsdi.Bpf.Arith.{arith_op, to_signed}
use hor_net_nsdi.Track.Expr.{
  Expr, MaybeExpr, absent, present, func_retval, num, alu_binary, alu_unary, is_num,
}
use hor_net_nsdi.Track.Facts.{Marks, adjust_facts, adjust_head_check}
use hor_net_nsdi.Track.Jump.{jmp_taken}

pub data BranchError : Type 0 where
  no_negation unknown_jump not_against_null unidentified_comparison : BranchError

-- the call: its size, its instruction and its helper
pub record Call : Type 0 where
  pub size : ℕ
  pub idx : ℕ
  pub func : ℕ

abbrev is_adjust : ℕ → Bool
is_adjust func = if func == 44 then true else if func == 54 then true else func == 65

unfoldable pub adjust_ret_in : Expr → Option Call
adjust_ret_in (func_retval size idx func map_id map_key redirects) =
    if is_adjust func then some (record { size = size; idx = idx; func = func }) else none
adjust_ret_in (alu_binary op dst src offset size idx) =
    let of_dst = adjust_ret_in dst in
    let of_src = adjust_ret_in src in
    if is_num src then of_dst else if is_num dst then of_src else none
adjust_ret_in (alu_unary op dst s imm size alu64) =
    let of_dst = adjust_ret_in dst in if op == mov then of_dst else none
adjust_ret_in _ = none

abbrev ret_in : MaybeExpr → Option Call
ret_in (present v) = adjust_ret_in v
ret_in absent = none

-- `_adjust_ret_in(dst_value) or _adjust_ret_in(src_value)`
abbrev first_of : Option Call → Option Call → Option Call
first_of (some r) b = some r
first_of none b = b

unfoldable pub adjust_call : MaybeExpr → MaybeExpr → Option Call
unfolding adjust_ret_in
adjust_call dst src = first_of (ret_in dst) (ret_in src)

-- `func_retval.__eq__`
abbrev same_call : Call → ℕ → ℕ → Bool
same_call rv idx func = (idx == rv.idx) && (func == rv.func)

-- the branch of `_eval_at` for an ALUbinary, on the two values
unfoldable pub eval_binary : ℕ → Option ℕ → Option ℕ → ℕ → ℤ → Option ℕ
unfolding arith_op mask_ℤ
eval_binary op (some a) (some b) size offset =
    some (mask_ℤ 64 (arith_op op (pos a) (pos b) (8 * size) (offset ==ℤ pos 1)))
eval_binary op _ _ size offset = none

-- the branch for a sign extension from `bits` bits (8, 16 or 32)
unfoldable pub eval_sext : ℕ → ℕ → Option ℕ → Option ℕ
unfolding to_signed mask_ℤ
eval_sext bits size (some a) = some (mask_ℤ (8 * size) (to_signed bits (a % 2 ^ bits)))
eval_sext bits size none = none

unfoldable pub eval_at : Expr → Call → ℤ → Option ℕ
unfolding eval_binary eval_sext mask_ℤ
eval_at (func_retval size idx func map_id map_key redirects) rv ret =
    if same_call rv idx func then some (mask_ℤ 64 ret) else none
eval_at (num n size idx) rv ret = some (mask_ℤ 64 n)
eval_at (alu_binary op dst src offset size idx) rv ret =
    eval_binary op (eval_at dst rv ret) (eval_at src rv ret) size offset
eval_at (alu_unary op dst s imm size alu64) rv ret =
    let value = eval_sext imm size (eval_at dst rv ret) in if op == mov then value else none
eval_at _ rv ret = none

unfoldable pub eval_operand : MaybeExpr → Call → ℤ → Option ℕ
unfolding eval_at
eval_operand (present v) rv ret = eval_at v rv ret
eval_operand absent rv ret = none

-- -EINVAL
abbrev pub einval : ℤ
einval = negsuc 21

-- The operands of the test when the call returns `ret`.
unfoldable pub ends_at : MaybeExpr → MaybeExpr → Call → ℤ → Option (ℕ × ℕ)
unfolding eval_operand
ends_at dst src rv ret = elim (eval_operand dst rv ret) [
  | some a ↦ elim (eval_operand src rv ret) [ some b ↦ some (a, b) | none ↦ none ]
  | none ↦ none
]

-- the facts for a call that this block has pending, with the view before the call
unfoldable pub adjust_edges : Bool → Call → Option (ℕ × Option ℤ) → Marks → Marks
adjust_edges ok_taken rv none m = m
adjust_edges ok_taken rv (some (idx, before)) m =
    if idx == rv.idx
    then record {
      cond_t = some (adjust_facts rv.idx (if ok_taken then some (pos rv.idx) else before));
      cond_f = some (adjust_facts rv.idx (if ok_taken then before else some (pos rv.idx)));
      cond = m.cond;
    }
    else m

unfoldable pub adjust_marks : Bool → Bool → Call → Option (ℕ × Option ℤ) → Marks → Marks
unfolding adjust_edges
adjust_marks brief ok_taken rv pending m =
    let facts = adjust_edges ok_taken rv pending m in
    if brief then facts else record {
      cond_t = facts.cond_t;
      cond_f = facts.cond_f;
      cond = some (adjust_head_check ok_taken rv.idx);
    }

abbrev same_bool : Bool → Bool → Bool
same_bool a b = if a then b else not b

-- The test on the two runs of a call; `none` where it does not tell them apart.
unfoldable pub adjust_test :
    ℕ → Bool → Option (ℕ × ℕ) → Option (ℕ × ℕ) → Result BranchError (Option Bool)
unfolding jmp_taken ◌>>=◌ or_err
adjust_test code jmp32 (some (a, b)) (some (a', b')) = do
  ok_taken ← or_err (jmp_taken code (pos a) (pos b) jmp32) unknown_jump
  failed_taken ← or_err (jmp_taken code (pos a') (pos b') jmp32) unknown_jump
  ok (if same_bool ok_taken failed_taken then none else some ok_taken)
adjust_test code jmp32 _ _ = ok none
