-- ===== src/Track/Expr.antt =====
-- hornet/track/expr.py: symbolic values, and the arithmetic that builds them.
-- Left out are the fields that no function here reads: the block and the fallback of a `func_retval`,
-- the edges of a `JoinValue`, the bytes of .rodata, and the cached hashes and texts.
use hor_net_nsdi.Common.{ℕ, Bool, true, false, ◌&&◌, ◌==◌, if◌then◌else◌, Option, String}
use hor_net_nsdi.Common.Int.{ℤ, pos, negsuc, leb_ℤ, ◌==ℤ◌}
use hor_net_nsdi.Bpf.Codes.{add, sub, div, mod_op}
use hor_net_nsdi.Bpf.Arith.{arith_op}

-- The fields of a `PTR` that hold no value. An id is an integer, and `none` is Python's None.
pub record PtrInfo : Type 0 where
  pub ptr_type : ℕ
  pub off : ℤ
  pub id : ℤ
  pub base_id : Option ℤ
  pub map_id : Option ℕ
  pub map_key_id : Option ℤ
  pub bss_idx : Option String
  pub rodata_offset : Option ℤ
  pub checked_null : Option Bool

-- The place that a `pkt_val`, a `map_val` or a `bss_val` was read from.
pub record Read : Type 0 where
  pub block : ℕ
  pub idx : ℕ
  pub off : ℤ
  pub size : ℕ

mutual
  pub data Expr : Type 0 where
    scalar : (size : ℕ) (idx : ℤ) → Expr
    join_value : (block_idx : ℕ) (reg_num : ℤ) (values : Exprs) → Expr
    ingress_ifindex rx_queue_index egress_ifindex : Expr
    pkt_len : (size : ℕ) (base_id : Option ℤ) → Expr
    func_retval :
        (size idx func : ℕ) (map_id : Option ℕ) (map_key : MaybeExpr) (redirects : Bool) → Expr
    pkt_val : Read → (var_off : MaybeExpr) → Expr
    map_val : Read → (map_id : ℕ) (map_key var_off : MaybeExpr) → Expr
    bss_val : Read → (bss_key : Option String) (var_off : MaybeExpr) → Expr
    rodata_val : (off : ℤ) (size : ℕ) (var_off : MaybeExpr) → Expr
    lookup_hit : (map_id : Option ℕ) (map_key : MaybeExpr) (map_key_id : Option ℤ) → Expr
    num : (num : ℤ) (size : ℕ) (idx : ℤ) → Expr
    byte_seq : (chunks : Exprs) (size off : ℕ) → Expr
    alu_unary : (op : ℕ) (dst : Expr) (opcode_s : ℕ) (imm : ℕ) (size : ℕ) (alu64 : Bool) → Expr
    alu_binary : (op : ℕ) (dst src : Expr) (offset : ℤ) (size : ℕ) (idx : ℤ) → Expr
    ptr : PtrInfo → (var_off map_key null_phi : MaybeExpr) → Expr

  pub data MaybeExpr : Type 0 where
    absent : MaybeExpr
    present : Expr → MaybeExpr

  pub data Exprs : Type 0 where
    nil : Exprs
    cons : MaybeExpr → Exprs → Exprs

abbrev pub ptr_to_ctx : ℕ
ptr_to_ctx = 0x00

abbrev pub ptr_to_pkt : ℕ
ptr_to_pkt = 0x01

abbrev pub ptr_to_pkt_end : ℕ
ptr_to_pkt_end = 0x02

abbrev pub ptr_to_map_value : ℕ
ptr_to_map_value = 0x07

-- `num(num=n, size=s)`
abbrev pub num_of : ℤ → ℕ → Expr
num_of n s = num n s (negsuc 0)

unfoldable pub imm64 : ℤ → Expr
imm64 imm = num_of imm (if leb_ℤ (pos 0) imm then 4 else 8)

abbrev pub is_zero_num : Expr → Bool
is_zero_num (num n s i) = n ==ℤ pos 0
is_zero_num _ = false

abbrev pub is_num : Expr → Bool
is_num (num n s i) = true
is_num _ = false

-- the branch of `expr_alu` for two constants
unfoldable pub fold_alu : ℤ → ℤ → ℕ → ℕ → ℤ → ℤ → Expr
unfolding arith_op
fold_alu a b code size idx offset =
    let signed = (offset ==ℤ pos 1) && (if code == div then true else code == mod_op) in
    if size == 4
    then num (arith_op code a b 32 signed) 4 idx
    else num (arith_op code a b 64 signed) 8 idx

-- the rest of `expr_alu`
unfoldable pub build_alu : Expr → Expr → ℕ → ℕ → Bool → ℤ → ℤ → Expr
build_alu dst src code size brief idx offset =
    if (if code == add then true else code == sub) && is_zero_num src
    then dst
    else if brief
    then scalar 8 idx
    else alu_binary code dst src offset size idx

unfoldable pub expr_alu : Expr → Expr → ℕ → ℕ → Bool → ℤ → ℤ → Expr
unfolding fold_alu build_alu
expr_alu (num a s i) (num b s' i') code size brief idx offset = fold_alu a b code size idx offset
expr_alu dst src code size brief idx offset = build_alu dst src code size brief idx offset

-- `PTR.total_offset`
unfoldable pub total_offset : PtrInfo → MaybeExpr → Expr
unfolding expr_alu
total_offset p absent = num_of p.off 8
total_offset p (present v) = expr_alu v (num_of p.off 8) add 4 false (negsuc 0) (pos 0)
