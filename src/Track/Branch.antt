-- ===== src/Track/Branch.antt =====
-- hornet/track/tracker.py, `track_branch`, and hornet/track/encode.py, `pkt_size_check`. What the
-- function prints under `verbose` is left out; a raised exception is an `err`.
pub mod Null
pub mod Packet
use hor_net_nsdi.Common.{
  ℕ, ◌*◌, ◌-◌, ◌^◌, Bool, true, false, ◌&&◌, not, ◌==◌, if◌then◌else◌, Option, some, none,
}
use hor_net_nsdi.Common.Int.{ℤ, pos, ◌+ℤ◌, ◌-ℤ◌, ◌==ℤ◌, mask_ℤ}
use hor_net_nsdi.Common.Result.{Result, ok, err, ◌>>=◌, or_err}
use hor_net_nsdi.Bpf.Codes.{s_imm, jmp, jmp32, jeq, jne, jset, jgt, jge, jlt, jle, swap_jmp_code}
use hor_net_nsdi.Bpf.Instr.{Instr, class_in}
use hor_net_nsdi.Track.Expr.{
  Expr, MaybeExpr, absent, present, PtrInfo, ptr, pkt_len, num_of, imm64, is_zero_num, ptr_to_pkt,
  ptr_to_pkt_end, ptr_to_map_value, total_offset,
}
use hor_net_nsdi.Track.Facts.{
  Marks, Cond, condition, contain_map_value, EdgeFact, ptr_facts, pkt_facts, null_fact_id,
}
use hor_net_nsdi.Track.Adjust.{
  BranchError, no_negation, unknown_jump, not_against_null, unidentified_comparison, Call,
  adjust_call, adjust_test, adjust_marks, ends_at, einval,
}

-- the value of the second operand
unfoldable pub branch_src : Instr → MaybeExpr → MaybeExpr
unfolding imm64 mask_ℤ
branch_src i reg =
    if i.opcode_s == s_imm
    then present (if class_in i jmp jmp then imm64 i.imm else num_of (pos (mask_ℤ 32 i.imm)) 4)
    else reg

abbrev pub unchecked : PtrInfo → Bool
unchecked p = elim p.checked_null [ none ↦ true | some b ↦ false ]

abbrev is_unchecked : MaybeExpr → Bool
is_unchecked (present (ptr p vo mk np)) = unchecked p
is_unchecked _ = false

abbrev pub is_null : MaybeExpr → Bool
is_null (present v) = is_zero_num v
is_null absent = false

-- `block.cond` of a null check
unfoldable pub null_cond : ℕ → PtrInfo → MaybeExpr → MaybeExpr → Option Cond → Option Cond
null_cond code p map_key (present phi) old =
    some (condition code (present phi) (present (num_of (pos 0) 1)) false)
null_cond code p map_key absent old =
    if p.ptr_type == ptr_to_map_value
    then some (contain_map_value p.map_id map_key p.map_key_id (not (code == jeq)))
    else old

-- the facts and the condition of `p == 0` or `p != 0`
unfoldable pub null_marks : Bool → ℕ → PtrInfo → MaybeExpr → MaybeExpr → MaybeExpr → Marks → Marks
unfolding null_cond null_fact_id
null_marks brief code p vo mk np m =
    let null = ptr_facts (null_fact_id p) (ptr p vo mk np) (some true) in
    let valid = ptr_facts (null_fact_id p) (ptr p vo mk np) (some false) in
    record {
      cond_t = some (if code == jne then valid else null);
      cond_f = some (if code == jne then null else valid);
      cond = if brief then m.cond else null_cond code p mk np m.cond;
    }

-- the branch for a pointer that is not known to be valid
unfoldable pub null_check :
    Bool
    → ℕ
    → PtrInfo
    → MaybeExpr
    → MaybeExpr
    → MaybeExpr
    → MaybeExpr
    → Marks
    → Result BranchError Marks
unfolding null_marks
null_check brief code p vo mk np src m =
    if not (is_null src)
    then err not_against_null
    else if not (if code == jeq then true else code == jne)
    then ok m
    else ok (null_marks brief code p vo mk np m)

abbrev same_base : Option ℤ → Option ℤ → Bool
same_base none none = true
same_base (some a) (some b) = a ==ℤ b
same_base _ _ = false

unfoldable pub pkt_size_check : PtrInfo → PtrInfo → Bool
pkt_size_check p q =
    (if (p.ptr_type == ptr_to_pkt) && (q.ptr_type == ptr_to_pkt_end)
      then true
      else (p.ptr_type == ptr_to_pkt_end) && (q.ptr_type == ptr_to_pkt))
    && same_base p.base_id q.base_id

-- `{JGT: JLT, JGE: JLE, JLT: JGT, JLE: JGE}[code]`
unfoldable pub mirror_code : ℕ → Option ℕ
mirror_code code =
    if code == jgt
    then some jlt
    else if code == jge
    then some jle
    else if code == jlt
    then some jgt
    else if code == jle
    then some jge
    else none

abbrev pkt_marks : ℕ → PtrInfo → MaybeExpr → Option ℤ → Option ℤ → Option ℤ → Option ℤ → Marks
pkt_marks code p vo min_t max_t min_f max_f = record {
  cond_t = some (pkt_facts p.id p.base_id min_t max_t);
  cond_f = some (pkt_facts p.id p.base_id min_f max_f);
  cond = some (condition code (present (total_offset p vo)) (present (pkt_len 4 p.base_id)) false);
}

-- the bounds on the packet's length, with the packet pointer as the first operand
unfoldable pub pkt_compare : ℕ → PtrInfo → MaybeExpr → Result BranchError Marks
unfolding ◌+ℤ◌ ◌-ℤ◌ total_offset
pkt_compare code p vo =
    if code == jgt
    then ok (pkt_marks code p vo none (some (p.off -ℤ pos 1)) (some p.off) none)
    else if code == jge
    then ok (pkt_marks code p vo none (some p.off) (some (p.off +ℤ pos 1)) none)
    else if code == jlt
    then ok (pkt_marks code p vo (some (p.off +ℤ pos 1)) none none (some p.off))
    else if code == jle
    then ok (pkt_marks code p vo (some p.off) none none (some (p.off +ℤ pos 1)))
    else err unidentified_comparison

-- the branch for a packet pointer against the packet's end
unfoldable pub pkt_check : ℕ → PtrInfo → MaybeExpr → PtrInfo → MaybeExpr → Result BranchError Marks
unfolding pkt_compare mirror_code ◌>>=◌ or_err
pkt_check code p vo q wo =
    if q.ptr_type == ptr_to_pkt
    then or_err (mirror_code code) unknown_jump >>= (λ mirrored. pkt_compare mirrored q wo)
    else pkt_compare code p vo

-- the last two branches
unfoldable pub compare_values : Bool → ℕ → MaybeExpr → MaybeExpr → Marks → Result BranchError Marks
unfolding pkt_check pkt_size_check
compare_values jmp32 code (present (ptr p vo mk np)) (present (ptr q wo mk' np')) m =
    if pkt_size_check p q
    then pkt_check code p vo q wo
    else ok (record m {
      cond = some (condition code (present (ptr p vo mk np)) (present (ptr q wo mk' np')) jmp32);
    })
compare_values jmp32 code dst src m = ok (record m { cond = some (condition code dst src jmp32) })

-- what follows the exchange of `0 == ptr`
unfoldable pub branch_on :
    Bool → Bool → ℕ → MaybeExpr → MaybeExpr → Marks → Result BranchError Marks
unfolding null_check compare_values
branch_on brief jmp32 code (present (ptr p vo mk np)) src m =
    if unchecked p
    then null_check brief code p vo mk np src m
    else if brief
    then ok m
    else compare_values jmp32 code (present (ptr p vo mk np)) src m
branch_on brief jmp32 code dst src m = if brief then ok m else compare_values jmp32 code dst src m

-- The exchange: the operands change places, and the code becomes `swapped_code`.
unfoldable pub exchange : Bool → Bool → ℕ → MaybeExpr → MaybeExpr → Marks → Result BranchError Marks
unfolding branch_on swap_jmp_code ◌>>=◌ or_err
exchange brief jmp32 code dst src m =
    if not (code == jset) && (is_null dst && is_unchecked src)
    then or_err (swap_jmp_code code) no_negation
      >>= (λ swapped. branch_on brief jmp32 swapped src dst m)
    else branch_on brief jmp32 code dst src m

-- the two runs of the call, when an operand holds the result of one
unfoldable pub branch_adjusted :
    Bool
    → Option (ℕ × Option ℤ)
    → Bool
    → ℕ
    → MaybeExpr
    → MaybeExpr
    → Option Call
    → Marks
    → Result BranchError Marks
unfolding exchange adjust_test adjust_marks ends_at ◌>>=◌ or_err
branch_adjusted brief pending jmp32 code dst src none m = exchange brief jmp32 code dst src m
branch_adjusted brief pending jmp32 code dst src (some rv) m =
    adjust_test code jmp32 (ends_at dst src rv (pos 0)) (ends_at dst src rv einval) >>= (λ told.
      elim told [
        | some ok_taken ↦ ok (adjust_marks brief ok_taken rv pending m)
        | none ↦ exchange brief jmp32 code dst src m
      ])

abbrev pub has_negation : ℕ → Bool
has_negation code = elim (swap_jmp_code code) [ some negated ↦ true | none ↦ code == jset ]

-- `track_branch`, on the values of the two registers.
unfoldable pub track_branch :
    Bool → Option (ℕ × Option ℤ) → Instr → MaybeExpr → MaybeExpr → Marks → Result BranchError Marks
unfolding branch_src swap_jmp_code adjust_call branch_adjusted
track_branch brief pending i dst_reg src_reg m =
    let src = branch_src i src_reg in
    if not (has_negation i.opcode_code)
    then err no_negation
    else branch_adjusted brief pending (class_in i jmp32 jmp32) i.opcode_code dst_reg src
        (adjust_call dst_reg src) m
