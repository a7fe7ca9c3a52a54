-- ===== src/Track/Witness.antt =====
-- The theorems on hornet/track at concrete inputs. Branches: a packet of 60 bytes at address 4096, a
-- map value against zero. Two accesses of one entry of a map, the order of the blocks of a diamond, and
-- the merge of two predecessors.
use hor_net_nsdi.Common.{
  ℕ, ◌≡◌, refl, sym, ap, subst, ◌^◌, ◌-◌, ◌*◌, ◌%◌, leb, Bool, true, false, Option, some, none,
  arith,
}
use mathlib.Core.Option.{some-injective}
use hor_net_nsdi.Common.Int.{ℤ, pos, negsuc, mask_ℤ, ◌+ℤ◌, ◌≤ℤ◌, ◌<ℤ◌}
use hor_net_nsdi.Common.Result.{ok, ◌>>=◌, or_err}
use hor_net_nsdi.Bpf.Codes.{jeq, jgt, jle, jmp, s_imm, s_reg, swap_jmp_code}
use hor_net_nsdi.Bpf.Instr.{Instr, nop_instr}
use hor_net_nsdi.Track.Expr.{
  Expr, MaybeExpr, absent, present, func_retval, PtrInfo, ptr, num, ptr_to_pkt, ptr_to_pkt_end,
  ptr_to_map_value,
}
use hor_net_nsdi.Track.Facts.{Marks, EdgeFact, pkt_facts, edge_fact}
use hor_net_nsdi.Track.Jump.{jmp_taken, not_taken, swap_jmp_code-negates}
use hor_net_nsdi.Common.{zero, suc, List, [], ◌∷◌, length, ◌<◌}
use hor_net_nsdi.Common.Sets.{mem}
use hor_net_nsdi.Bpf.Cfg.{Block, new_block}
use hor_net_nsdi.Verify.Prune.{preds_of}
use hor_net_nsdi.Track.Order.{track_all}
use hor_net_nsdi.Track.Symbols.{is_decided, branch_op_to_str-codes}
use hor_net_nsdi.Bpf.Names.{has_name, branch_op_to_str}
use hor_net_nsdi.Track.Order.Ready.{IsOrdered, track_all-IsOrdered}
use hor_net_nsdi.Track.Record.{Access, symbolic, const_of, extent, may_alias}
use hor_net_nsdi.Track.Record.Meets.{Cell, Touches, HasWidth, may_alias-Touches}
use hor_net_nsdi.Bpf.Arith.{to_signed}
use hor_net_nsdi.Track.Adjust.{Call, eval_at}
use hor_net_nsdi.Track.Width.{size_of, sext}
use hor_net_nsdi.Track.Width.Folds.{byte, four, sext-eval_at}
use hor_net_nsdi.Track.Stack.{stk_store, stk_load}
use hor_net_nsdi.Track.Stack.Slots.{stk_load-stk_store, stk_load-other}
use hor_net_nsdi.Track.Merge.{PktFact, FactBlock, fact_at, pred_cond, merge_facts}
use hor_net_nsdi.Track.Merge.Sound.{EdgeBounds, IsKept}
use hor_net_nsdi.Track.Merge.Joined.{merge_facts-IsKept}
use hor_net_nsdi.Track.Branch.{track_branch, branch_src, has_negation, pkt_size_check}
use hor_net_nsdi.Track.Branch.Packet.{HasLength, gt, track_branch-HasLength}
use hor_net_nsdi.Track.Branch.Null.{SaysNull, eq, track_branch-SaysNull, track_branch-exchanged}

swap_jmp_code-negates_example :
    jmp_taken jle (negsuc 0) (pos 4) true ≡ not_taken (jmp_taken jgt (negsuc 0) (pos 4) true)
unfolding swap_jmp_code
swap_jmp_code-negates_example = swap_jmp_code-negates jgt jle (negsuc 0) (pos 4) true refl

abbrev no_marks : Marks
no_marks = record { cond_t = none; cond_f = none; cond = none }

abbrev jump : ℕ → ℕ → Instr
jump code s = record (nop_instr 7 56) {
  nop = false;
  opcode_class = some jmp;
  opcode_s = s;
  opcode_code = code;
}

abbrev pointer : ℕ → ℤ → Option Bool → PtrInfo
pointer ptr_type off checked_null = record {
  ptr_type = ptr_type;
  off = off;
  id = negsuc 0;
  base_id = some (negsuc 0);
  map_id = none;
  map_key_id = none;
  bss_idx = none;
  rodata_offset = none;
  checked_null = checked_null;
}

abbrev at_14 : PtrInfo
at_14 = pointer ptr_to_pkt (pos 14) (some false)

abbrev at_end : PtrInfo
at_end = pointer ptr_to_pkt_end (pos 0) (some false)

one_is_end : pkt_size_check at_14 at_end ≡ true
unfolding pkt_size_check
one_is_end = refl

at_14-address : pos 4096 +ℤ pos 14 ≡ pos 4110
unfolding ◌+ℤ◌
at_14-address = refl

below_end : jmp_taken jgt (pos 4110) (pos 4156) false ≡ some false
unfolding jmp_taken
below_end = refl

track_branch-HasLength_example :
    (r : Marks) × (track_branch false none
        (jump jgt s_reg)
        (present (ptr at_14 absent absent absent))
        (present (ptr at_end absent absent absent))
        no_marks
      ≡ ok r)
    × HasLength at_14 60 (edge_fact false r)
track_branch-HasLength_example =
    track_branch-HasLength none (jump jgt s_reg) at_14 at_end absent absent absent absent no_marks
      4096 60 4110 4156 false gt refl refl refl one_is_end at_14-address refl (omega arith)
      (omega arith) below_end

-- what bpf_map_lookup_elem returned
abbrev value : PtrInfo
value = pointer ptr_to_map_value (pos 0) none

zero_operand : branch_src (jump jeq s_imm) absent ≡ present (num (pos 0) 4 (negsuc 0))
unfolding branch_src
zero_operand = refl

is_zero : jmp_taken jeq (pos 0) (pos 0) false ≡ some true
unfolding jmp_taken
is_zero = refl

track_branch-SaysNull_example :
    (r : Marks) × (track_branch true none
        (jump jeq s_imm)
        (present (ptr value absent absent absent))
        absent
        no_marks
      ≡ ok r)
    × SaysNull value true (edge_fact true r)
track_branch-SaysNull_example =
    track_branch-SaysNull true none (jump jeq s_imm) value absent absent absent absent 4 (negsuc 0)
      no_marks 0 true eq zero_operand refl refl (omega arith) is_zero

pointer_operand :
    branch_src (jump jeq s_reg) (present (ptr value absent absent absent))
    ≡ present (ptr value absent absent absent)
unfolding branch_src
pointer_operand = refl

track_branch-exchanged_example :
    (r : Marks) × (track_branch true none
        (jump jeq s_reg)
        (present (num (pos 0) 8 (negsuc 0)))
        (present (ptr value absent absent absent))
        no_marks
      ≡ ok r)
    × SaysNull value false (edge_fact true r)
track_branch-exchanged_example =
    track_branch-exchanged true none (jump jeq s_reg) value absent absent absent
      (present (ptr value absent absent absent)) 8 (negsuc 0) no_marks 0 true eq pointer_operand
      refl refl (omega arith) is_zero

abbrev pkt_access : ℤ → ℕ → Access
pkt_access off size = record {
  region = some 0;
  map_id = none;
  map_key = symbolic absent;
  bss_key = none;
  var_off = absent;
  off = off;
  size = size;
}

-- the entry 3 of map 1, by an index of 32 bits
abbrev entry_access : ℤ → ℕ → Access
entry_access off size = record (pkt_access off size) {
  region = some 1;
  map_id = some 1;
  map_key = symbolic (present (num (pos 3) 4 (negsuc 0)));
}

abbrev byte_5 : Cell
byte_5 = record { region = 1; map_id = some 1; key = 3; object = ""; off = pos 5 }

entry_touches :
    (off : ℤ) (size : ℕ)
    → off ≤ℤ pos 5
    → pos 5 <ℤ off +ℤ extent (entry_access off size)
    → Touches 32 (entry_access off size) byte_5
unfolding const_of mask_ℤ
entry_touches off size from below = record {
  in_region = refl;
  in_map = λ m. refl;
  at_key = λ k m e. ap (mask_ℤ 32) (some-injective _ _ (sym e));
  in_object = λ s m e. cc;
  from_off = λ e. from;
  below_end = λ e. below;
}

fourth_entry : (off : ℤ) (size : ℕ) → HasWidth 32 (entry_access off size)
unfolding const_of
fourth_entry off size k e =
    subst (λ n. (pos 0 ≤ℤ n) × (n <ℤ pos (2 ^ 32))) (some-injective _ _ e)
      (omega arith, omega arith)

may_alias-Touches_example : may_alias (entry_access (pos 4) 4) (entry_access (pos 0) 8) ≡ true
unfolding ◌+ℤ◌
may_alias-Touches_example =
    may_alias-Touches 32 (entry_access (pos 4) 4) (entry_access (pos 0) 8) byte_5
      (fourth_entry (pos 4) 4) (fourth_entry (pos 0) 8)
      (entry_touches (pos 4) 4 (omega arith) (omega arith))
      (entry_touches (pos 0) 8 (omega arith) (omega arith))

-- Block 0 branches to 1 and 2, and both fall through to 3.
abbrev diamond : List Block
diamond =
    new_block 0 0 0
    ∷ record (new_block 1 1 1) { preds = 0 ∷ [] }
    ∷ record (new_block 2 2 2) { preds = 0 ∷ [] }
    ∷ record (new_block 3 3 3) { preds = 1 ∷ 2 ∷ [] }
    ∷ []

abbrev later : List ℕ
later = 3 ∷ 1 ∷ 2 ∷ []

upwards : (b p : ℕ) → mem p (preds_of diamond b) ≡ true → p < b
unfolding mem
upwards zero p m = cc
upwards (suc zero) p m = ground arith
upwards (suc (suc zero)) p m = ground arith
upwards (suc (suc (suc zero))) p m = ground arith
upwards (suc (suc (suc (suc b)))) p m = cc

track_all-diamond : track_all diamond 3 later ≡ some (1 ∷ 2 ∷ 3 ∷ [])
unfolding track_all
track_all-diamond = refl

track_all-IsOrdered_example :
    (order : List ℕ) × (track_all diamond (length later) later ≡ some order)
    × ((b : ℕ) → mem b order ≡ mem b later)
    × IsOrdered diamond order
track_all-IsOrdered_example = track_all-IsOrdered diamond (λ b. b) later upwards

-- Blocks 1 and 2 fall through to block 3. Both know the pointer 7; block 1 knows 20 bytes of the
-- packet, and the test that ends block 2 shows 14.
abbrev about_7 : Option ℤ → PktFact
about_7 min_len = record {
  id = some (pos 7);
  base_id = some (negsuc 0);
  ptr = absent;
  min_len = min_len;
  max_len = none;
}

abbrev side : ℕ → Option EdgeFact → Option ℤ → FactBlock
side n cond_f min_len = record {
  num = n;
  preds = 0 ∷ [];
  succ_f = some 3;
  cond_f = cond_f;
  cond_t = none;
  ptrs = [];
  pkts = (some (pos 7), about_7 min_len) ∷ [];
  pkt_base_id = some (negsuc 0);
}

abbrev bottom : List (Option ℤ × PktFact) → Option ℤ → FactBlock
bottom pkts view = record {
  num = 3;
  preds = 1 ∷ 2 ∷ [];
  succ_f = none;
  cond_f = none;
  cond_t = none;
  ptrs = [];
  pkts = pkts;
  pkt_base_id = view;
}

abbrev second_side : FactBlock
second_side = side 2 (some (pkt_facts (pos 7) (some (negsuc 0)) (some (pos 14)) none)) none

abbrev sides : List FactBlock
sides = side 0 none none ∷ side 1 none (some (pos 20)) ∷ second_side ∷ []

abbrev merged : FactBlock
merged = bottom ((some (pos 7), about_7 (some (pos 14))) ∷ []) (some (negsuc 0))

merge_facts-sides : merge_facts sides (bottom [] (some (negsuc 0))) ≡ ok merged
unfolding merge_facts ◌>>=◌ or_err
merge_facts-sides = refl

in_test : EdgeBounds 60 (pred_cond 3 second_side)
unfolding pred_cond
in_test = (omega arith, tt)

knows_7 : fact_at (some (pos 7)) second_side.pkts ≡ some (about_7 none)
unfolding fact_at
knows_7 = refl

merge_facts-IsKept_example : IsKept 60 (some (pos 7)) merged.pkts
merge_facts-IsKept_example =
    merge_facts-IsKept sides (bottom [] (some (negsuc 0))) merged 1 2 second_side 60 (some (pos 7))
      (about_7 none) merge_facts-sides (λ e. cc) refl refl ((tt, tt), tt) in_test knows_7

branch_op_to_str-codes_example :
    (has_name branch_op_to_str jgt ≡ has_negation jgt)
    × (has_name branch_op_to_str jgt ≡ is_decided (jmp_taken jgt (negsuc 0) (pos 4) true))
branch_op_to_str-codes_example = branch_op_to_str-codes jgt (negsuc 0) (pos 4) true

-- The result of a call of bpf_xdp_adjust_head that failed: -EINVAL, with the low byte 0xEA.
abbrev adjust_head : Call
adjust_head = record { size = 8; idx = 5; func = 44 }

abbrev head_result : Expr
head_result = func_retval 8 5 44 none absent false

is_einval : eval_at head_result adjust_head (negsuc 21) ≡ some (2 ^ 64 - 22)
unfolding eval_at
is_einval = refl

sext-eval_at_example :
    (w : Expr) × (sext (present head_result) 8 4 (pos 9) ≡ ok (present w))
    × (eval_at w adjust_head (negsuc 21)
        ≡ some (mask_ℤ (8 * 4) (to_signed 8 ((2 ^ 64 - 22) % 2 ^ 8))))
sext-eval_at_example =
    sext-eval_at head_result 8 4 (2 ^ 64 - 22) (pos 9) adjust_head (negsuc 21) byte four is_einval

-- The slot at -8, and a word in the slot at -16.
abbrev one_slot : List MaybeExpr
one_slot = present (num (pos 7) 8 (negsuc 0)) ∷ []

fits_slot : leb (size_of head_result) 8 ≡ true
unfolding size_of
fits_slot = refl

stk_load-stk_store_example :
    stk_load 15 8 (pos 4) (stk_store 15 8 head_result (pos 3) one_slot) ≡ ok head_result
stk_load-stk_store_example =
    stk_load-stk_store 15 head_result (pos 3) (pos 4) one_slot refl fits_slot

stk_load-other_example :
    stk_load 3 4 (pos 4) (stk_store 15 8 head_result (pos 3) one_slot)
    ≡ stk_load 3 4 (pos 4) one_slot
stk_load-other_example =
    stk_load-other 15 8 head_result (pos 3) one_slot 3 4 (pos 4) (λ e. omega (arith, e))
      (omega arith) (omega arith)
