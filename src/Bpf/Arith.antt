-- ===== src/Bpf/Arith.antt =====
-- hornet/bpf/constants.py, `arith`: the arithmetic of the eBPF machine on Python's integers. The
-- function keeps the source's recursion for 32 bits as a call of the 64-bit part.
pub mod Bounds
use hor_net_nsdi.Common.{
  ℕ, ◌+◌, ◌-◌, ◌*◌, ◌/◌, ◌%◌, ◌^◌, Bool, true, false, ◌&&◌, ◌==◌, if◌then◌else◌, not,
}
use hor_net_nsdi.Common.Int.{
  ℤ, pos, negsuc, pos_part, sub_ℕ, neg_ℤ, abs, ltb_ℤ, mask_ℤ, and_ℤ, or_ℤ, xor_ℤ, shr_ℤ, ◌+ℤ◌, ◌-ℤ◌,
  ◌*ℤ◌,
}
use hor_net_nsdi.Bpf.Codes.{add, sub, mul, div, or_op, and_op, lsh, rsh, neg, mod_op, xor_op, arsh}

-- `u - (1 << bits) if u >> (bits - 1) else u`
unfoldable pub to_signed : ℕ → ℕ → ℤ
to_signed bits u = if u / 2 ^ (bits - 1) == 0 then pos u else sub_ℕ u (2 ^ bits)

-- the branch for LSH, RSH and ARSH
unfoldable pub arith_shift : ℕ → ℤ → ℤ → ℕ → ℤ
unfolding mask_ℤ and_ℤ shr_ℤ to_signed
arith_shift op dst src bits =
    let amt = pos_part (and_ℤ src (pos (bits - 1))) in
    let u = mask_ℤ bits dst in
    if op == lsh
    then pos ((u * 2 ^ amt) % 2 ^ bits)
    else if op == rsh
    then pos (u / 2 ^ amt)
    else pos (mask_ℤ bits (shr_ℤ (to_signed bits u) amt))

-- the branch for a signed DIV or MOD, on the masked operands
unfoldable pub arith_signed : ℕ → ℕ → ℕ → ℕ → ℤ
unfolding mask_ℤ to_signed
arith_signed op a b bits =
    let sa = to_signed bits a in
    let sb = to_signed bits b in
    if abs sb == 0
    then if op == div then pos 0 else pos a
    else let mag = if op == div then abs sa / abs sb else abs sa % abs sb in
      let negative =
        if op == div
        then (if ltb_ℤ sa (pos 0) then not (ltb_ℤ sb (pos 0)) else ltb_ℤ sb (pos 0))
        else ltb_ℤ sa (pos 0) in
      pos (mask_ℤ bits (if negative then neg_ℤ (pos mag) else pos mag))

-- the branch for DIV and MOD
unfoldable pub arith_div : ℕ → ℤ → ℤ → ℕ → Bool → ℤ
unfolding mask_ℤ arith_signed
arith_div op dst src bits signed =
    let a = mask_ℤ bits dst in
    let b = mask_ℤ bits src in
    if signed
    then arith_signed op a b bits
    else if op == div
    then if b == 0 then pos 0 else pos (a / b)
    else if b == 0
    then pos a
    else pos (a % b)

-- the last seven lines: exact integers, nothing is masked
unfoldable pub arith_exact : ℕ → ℤ → ℤ → ℤ
unfolding ◌+ℤ◌ ◌-ℤ◌ ◌*ℤ◌ or_ℤ and_ℤ xor_ℤ
arith_exact op dst src =
    if op == add
    then dst +ℤ src
    else if op == sub
    then dst -ℤ src
    else if op == mul
    then dst *ℤ src
    else if op == or_op
    then or_ℤ dst src
    else if op == and_op
    then and_ℤ dst src
    else if op == neg
    then neg_ℤ dst
    else if op == xor_op
    then xor_ℤ dst src
    else pos 0

abbrev pub is_shift : ℕ → Bool
is_shift op = if op == lsh then true else if op == rsh then true else op == arsh

abbrev pub is_div : ℕ → Bool
is_div op = if op == div then true else op == mod_op

-- `arith`. With bits = 32 the last branch calls itself at 64 bits on masked operands; `op` is no
-- shift and no division there, so that call is `arith_exact`.
unfoldable pub arith_op : ℕ → ℤ → ℤ → ℕ → Bool → ℤ
unfolding arith_shift arith_div arith_exact mask_ℤ
arith_op op dst src bits signed =
    if is_shift op
    then arith_shift op dst src bits
    else if is_div op
    then arith_div op dst src bits signed
    else if bits == 32
    then pos (mask_ℤ bits (arith_exact op (pos (mask_ℤ bits dst)) (pos (mask_ℤ bits src))))
    else arith_exact op dst src
