-- ===== src/Track/Stack.antt =====
-- hornet/track/block.py, `Block.stk_store` and `Block.stk_load`: the stack as slots of 8 bytes. An
-- address is below the frame pointer: it is -(depth + 1), so its slot is `depth // 8`, and its offset
-- in the slot is `7 - depth % 8`.
pub mod Slots
use hor_net_nsdi.Common.{
  ℕ, zero, suc, ◌+◌, ◌-◌, ◌*◌, ◌/◌, ◌%◌, ◌^◌, Bool, true, false, ◌&&◌, ◌||◌, not, ◌==◌, ltb, leb,
  if◌then◌else◌, List, [], ◌∷◌, ◌++◌, Option, some, none, get_elem?, length, replicate, modify_at,
  bit_xor,
}
use hor_net_nsdi.Common.Int.{ℤ, pos}
use hor_net_nsdi.Common.Result.{Result, ok, err}
use hor_net_nsdi.Bpf.Codes.{and_op, or_op, lsh}
use hor_net_nsdi.Track.Expr.{
  Expr, MaybeExpr, Exprs, nil, cons, absent, present, num_of, byte_seq, alu_binary, ptr,
}
use hor_net_nsdi.Track.Width.{size_of}

abbrev pub slot_of : ℕ → ℕ
slot_of depth = depth / 8

abbrev pub offset_of : ℕ → ℕ
offset_of depth = 7 - depth % 8

-- `ALUbinary(op, dst, num(n, size))`
abbrev pub masked : ℕ → Expr → ℕ → ℕ → ℤ → Expr
masked op dst n size idx = alu_binary op dst (num_of (pos n) size) (pos 0) 8 idx

-- `new_value`, cut to its size and moved to its place in the slot
unfoldable pub placed : ℕ → ℕ → Expr → ℤ → Expr
placed off size value idx =
    let cut = if ltb size 8 then masked and_op value (2 ^ (size * 8) - 1) 8 idx else value in
    if off == 0 then cut else masked lsh cut (off * 8) 8 idx

-- the bits of the slot that the store leaves
unfoldable pub keep_mask : ℕ → ℕ → ℕ
keep_mask off size = bit_xor (2 ^ 64 - 1) ((2 ^ (size * 8) - 1) * 2 ^ (off * 8))

-- the new entry of the slot
unfoldable pub stored : ℕ → ℕ → Expr → ℤ → MaybeExpr → MaybeExpr
unfolding placed keep_mask
stored off size value idx absent = present (placed off size value idx)
stored off size value idx (present old) =
    if (off == 0) && leb 8 size
    then present (placed off size value idx)
    else present (
        alu_binary or_op (masked and_op old (keep_mask off size) 8 idx) (placed off size value idx)
          (pos 0) 8 idx)

-- the stack, grown to `size` slots
unfoldable pub grown : ℕ → List MaybeExpr → List MaybeExpr
grown size stk = stk ++ replicate (size - length stk) absent

unfoldable pub stk_store : ℕ → ℕ → Expr → ℤ → List MaybeExpr → List MaybeExpr
unfolding grown stored
stk_store depth size value idx stk =
    modify_at (grown (slot_of depth + 1) stk) (slot_of depth)
      (stored (offset_of depth) size value idx)

-- the IndexError of a slot beyond the stack, and the AttributeError of `None.size`
pub data LoadError : Type 0 where
  beyond_stack no_size : LoadError

abbrev pub or_absent : Option MaybeExpr → MaybeExpr
or_absent none = absent
or_absent (some entry) = entry

-- the slots of an access that crosses into the next one, from the i-th
unfoldable pub chunks_from : List MaybeExpr → ℕ → ℕ → ℕ → Exprs
chunks_from stk slot i zero = nil
chunks_from stk slot i (suc count) =
    cons (if leb i slot then or_absent (get_elem? stk (slot - i)) else absent)
      (chunks_from stk slot (suc i) count)

-- the value of a slot, from its first byte
unfoldable pub load_first : ℕ → ℤ → MaybeExpr → Result LoadError Expr
unfolding size_of
load_first size idx absent = err no_size
load_first size idx (present (ptr p var_off map_key null_phi)) = ok (ptr p var_off map_key null_phi)
load_first size idx (present value) =
    if leb (size_of value) size
    then ok value
    else ok (masked and_op value (2 ^ (size * 8) - 1) size idx)

-- `self.stk[slot_idx]`, and what follows
unfoldable pub load_slot : ℕ → ℕ → ℤ → Option MaybeExpr → Result LoadError Expr
unfolding load_first
load_slot off size idx none = err beyond_stack
load_slot off size idx (some entry) =
    if off == 0 then load_first size idx entry else ok (byte_seq (cons entry nil) size off)

unfoldable pub stk_load : ℕ → ℕ → ℤ → List MaybeExpr → Result LoadError Expr
unfolding chunks_from load_slot
stk_load depth size idx stk =
    let off = offset_of depth in
    if ltb 8 (off + size)
    then ok (byte_seq (chunks_from stk (slot_of depth) 0 ((off + size + 7) / 8)) size off)
    else load_slot off size idx (get_elem? stk (slot_of depth))
