-- ===== src/Bpf/Arith/Bounds.antt =====
-- `arith` at 32 bits: its range, and the sum and the difference, wrapped.
use native.Mathlib.Nat.{div-le_self, mod-le}
use hor_net_nsdi.Common.{
  ℕ, ◌*◌, ◌%◌, ◌^◌, ◌≤◌, ◌<◌, ◌≡◌, refl, Bool, true, false, if◌then◌else◌, arith, ◌==◌, Bool-cases,
  inl, inr,
}
use hor_net_nsdi.Common.Int.{ℤ, pos, negsuc, mask_ℤ, pos_part, and_ℤ, shr_ℤ, abs, ◌+ℤ◌, ◌-ℤ◌}
use hor_net_nsdi.Bpf.Codes.{add, sub, lsh, rsh, div}
use hor_net_nsdi.Bpf.Arith.{
  arith_op, arith_shift, arith_div, arith_signed, to_signed, is_shift, is_div,
}

abbrev pub IsWord : ℤ → Type 0
IsWord z = (r : ℕ) × (z ≡ pos r) × (r < 2 ^ 32)

pub mask_ℤ-lt : (z : ℤ) → mask_ℤ 32 z < 2 ^ 32
unfolding mask_ℤ
mask_ℤ-lt (pos n) = omega arith
mask_ℤ-lt (negsuc n) = omega arith

IsWord-if : (t : Bool) {x y : ℤ} → IsWord x → IsWord y → IsWord (if t then x else y)
IsWord-if true hx hy = hx
IsWord-if false hx hy = hy

mod-lt-word : (n : ℕ) → n % 2 ^ 32 < 2 ^ 32
mod-lt-word n = omega arith

le_lt_trans : {a b c : ℕ} → a ≤ b → b < c → a < c
le_lt_trans h k = omega arith

-- The sum of two operands at 32 bits is their sum, wrapped.
pub arith_op-add_32 :
    (a b : ℤ) (signed : Bool) → arith_op add a b 32 signed ≡ pos (mask_ℤ 32 (a +ℤ b))
unfolding arith_op
arith_op-add_32 (pos a) (pos b) s = ground arith
arith_op-add_32 (pos a) (negsuc b) s = ground arith
arith_op-add_32 (negsuc a) (pos b) s = ground arith
arith_op-add_32 (negsuc a) (negsuc b) s = ground arith

arith_op-sub_32 : (a b : ℤ) (signed : Bool) → arith_op sub a b 32 signed ≡ pos (mask_ℤ 32 (a -ℤ b))
unfolding arith_op
arith_op-sub_32 (pos a) (pos b) s = ground arith
arith_op-sub_32 (pos a) (negsuc b) s = ground arith
arith_op-sub_32 (negsuc a) (pos b) s = ground arith
arith_op-sub_32 (negsuc a) (negsuc b) s = ground arith

arith_shift-IsWord : (op : ℕ) (dst src : ℤ) → IsWord (arith_shift op dst src 32)
unfolding arith_shift
arith_shift-IsWord op dst src =
    let amt = pos_part (and_ℤ src (pos 31)) in
    let u = mask_ℤ 32 dst in
    IsWord-if (op == lsh) (_, refl, mod-lt-word (u * 2 ^ amt))
      (IsWord-if (op == rsh) (_, refl, le_lt_trans (div-le_self u (2 ^ amt)) (mask_ℤ-lt dst))
        (_, refl, mask_ℤ-lt (shr_ℤ (to_signed 32 u) amt)))

arith_signed-IsWord : (op a b : ℕ) → a < 2 ^ 32 → b < 2 ^ 32 → IsWord (arith_signed op a b 32)
unfolding arith_signed
arith_signed-IsWord op a b ha hb =
    IsWord-if (abs (to_signed 32 b) == 0)
      (IsWord-if (op == div) (0, refl, omega arith) (a, refl, ha)) (_, refl, mask_ℤ-lt _)

arith_div-IsWord : (op : ℕ) (dst src : ℤ) (signed : Bool) → IsWord (arith_div op dst src 32 signed)
unfolding arith_div
arith_div-IsWord op dst src signed =
    let a = mask_ℤ 32 dst in
    let b = mask_ℤ 32 src in
    IsWord-if signed (arith_signed-IsWord op a b (mask_ℤ-lt dst) (mask_ℤ-lt src)) (
      IsWord-if (op == div)
        (IsWord-if (b == 0) (0, refl, omega arith)
          (_, refl, le_lt_trans (div-le_self a b) (mask_ℤ-lt dst)))
        (IsWord-if (b == 0) (_, refl, mask_ℤ-lt dst)
          (_, refl, le_lt_trans (mod-le a b) (mask_ℤ-lt dst))))

-- Every operation at 32 bits has a result in the range of a 32-bit word.
pub arith_op-IsWord :
    (op : ℕ) (dst src : ℤ) (signed : Bool) → IsWord (arith_op op dst src 32 signed)
unfolding arith_op
arith_op-IsWord op dst src signed = elim (Bool-cases (is_shift op)) [
  | inl e ↦ rw e (arith_shift-IsWord op dst src)
  | inr e ↦ elim (Bool-cases (is_div op)) [
    | inl d ↦ rw (e, d) (arith_div-IsWord op dst src signed)
    | inr d ↦ rw (e, d) (_, refl, mask_ℤ-lt _)
  ]
]
