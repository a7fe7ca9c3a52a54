-- ===== src/Track/Width.antt =====
-- hornet/track/expr.py: the size of a value, `trunc32` and `sext`. The `opcode_s` that `sext` leaves
-- None is 0 here; it is read of a byte swap only.
pub mod Folds
use hor_net_nsdi.Common.{ℕ, ◌*◌, Bool, true, false, ◌==◌, leb, if◌then◌else◌, Option, some, none}
use hor_net_nsdi.Common.Int.{ℤ, pos, negsuc, mask_ℤ}
use hor_net_nsdi.Common.Result.{Result, ok, err}
use hor_net_nsdi.Bpf.Codes.{and_op, mov}
use hor_net_nsdi.Bpf.Arith.{to_signed}
use hor_net_nsdi.Track.Expr.{
  Expr, MaybeExpr, absent, present, scalar, join_value, ingress_ifindex, rx_queue_index,
  egress_ifindex, pkt_len, func_retval, pkt_val, map_val, bss_val, rodata_val, lookup_hit, num,
  num_of, byte_seq, alu_unary, alu_binary, ptr,
}

-- `value.size`
unfoldable pub size_of : Expr → ℕ
size_of (scalar size idx) = size
size_of (join_value block_idx reg_num values) = 8
size_of ingress_ifindex = 4
size_of rx_queue_index = 4
size_of egress_ifindex = 4
size_of (pkt_len size base_id) = size
size_of (func_retval size idx func map_id map_key redirects) = size
size_of (pkt_val read var_off) = read.size
size_of (map_val read map_id map_key var_off) = read.size
size_of (bss_val read bss_key var_off) = read.size
size_of (rodata_val off size var_off) = size
size_of (lookup_hit map_id map_key map_key_id) = 1
size_of (num n size idx) = size
size_of (byte_seq chunks size off) = size
size_of (alu_unary op dst s imm size alu64) = size
size_of (alu_binary op dst src offset size idx) = size
size_of (ptr p var_off map_key null_phi) = 4

unfoldable pub trunc32 : MaybeExpr → ℤ → MaybeExpr
unfolding size_of mask_ℤ
trunc32 absent idx = absent
trunc32 (present (ptr p var_off map_key null_phi)) idx = present (ptr p var_off map_key null_phi)
trunc32 (present (num n size i)) idx = present (num (pos (mask_ℤ 32 n)) 4 idx)
trunc32 (present value) idx =
    if leb (size_of value) 4
    then present value
    else present (alu_binary and_op value (num_of (pos 0xFFFFFFFF) 4) (pos 0) 4 idx)

-- the exception for a pointer
pub data SextError : Type 0 where
  of_pointer : SextError

-- the branch of `sext` for a constant
unfoldable pub sext_num : ℤ → ℕ → ℕ → ℤ → Expr
unfolding to_signed mask_ℤ
sext_num n bits size idx =
    let v = to_signed bits (mask_ℤ bits n) in
    if size == 4 then num (pos (mask_ℤ 32 v)) 4 idx else num v 8 idx

unfoldable pub sext : MaybeExpr → ℕ → ℕ → ℤ → Result SextError MaybeExpr
unfolding sext_num
sext absent bits size idx = ok absent
sext (present (ptr p var_off map_key null_phi)) bits size idx = err of_pointer
sext (present (num n size' i)) bits size idx = ok (present (sext_num n bits size idx))
sext (present value) bits size idx = ok (present (alu_unary mov value 0 bits size (size == 8)))
