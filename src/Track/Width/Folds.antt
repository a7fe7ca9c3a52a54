-- ===== src/Track/Width/Folds.antt =====
-- hornet/track/expr.py, `sext`: the folding of a constant agrees with the evaluation of the operation
-- that it stands for.
use hor_net_nsdi.Common.{ℕ, ◌*◌, ◌%◌, ◌^◌, ◌≡◌, refl, sym, ◌∙◌, ap, Bool, ◌==◌, some, arith}
use hor_net_nsdi.Common.Int.{ℤ, pos, negsuc, mask_ℤ}
use hor_net_nsdi.Common.Result.{ok}
use hor_net_nsdi.Bpf.Codes.{mov}
use hor_net_nsdi.Bpf.Arith.{to_signed}
use hor_net_nsdi.Track.Expr.{
  Expr, MaybeExpr, PtrInfo, present, scalar, join_value, ingress_ifindex, rx_queue_index,
  egress_ifindex, pkt_len, func_retval, pkt_val, map_val, bss_val, rodata_val, lookup_hit, num,
  byte_seq, alu_unary, alu_binary, ptr,
}
use mathlib.Core.Option.{some-injective}
use hor_net_nsdi.Track.Adjust.{Call, eval_at, eval_sext}
use hor_net_nsdi.Track.Width.{sext, sext_num}

-- the widths that an instruction sign-extends from, and the sizes it extends to
pub data IsNarrow : ℕ → Type 0 where
  byte : IsNarrow 8
  half : IsNarrow 16
  word : IsNarrow 32

pub data IsWide : ℕ → Type 0 where
  four : IsWide 4
  eight : IsWide 8

low_bits : (n : ℤ) (bits : ℕ) → IsNarrow bits → mask_ℤ 64 n % 2 ^ bits ≡ mask_ℤ bits n
unfolding mask_ℤ
low_bits (pos n) b byte = omega arith
low_bits (pos n) b half = omega arith
low_bits (pos n) b word = omega arith
low_bits (negsuc n) b byte = omega arith
low_bits (negsuc n) b half = omega arith
low_bits (negsuc n) b word = omega arith

mask-mask : (z : ℤ) → mask_ℤ 64 (pos (mask_ℤ 32 z)) ≡ mask_ℤ 32 z
unfolding mask_ℤ
mask-mask (pos n) = omega arith
mask-mask (negsuc n) = omega arith

sext_num-eval_at :
    (n : ℤ) (bits size : ℕ) (idx : ℤ) (rv : Call) (ret : ℤ)
    → IsWide size
    → eval_at (sext_num n bits size idx) rv ret
      ≡ some (mask_ℤ (8 * size) (to_signed bits (mask_ℤ bits n)))
unfolding sext_num eval_at
sext_num-eval_at n bits size idx rv ret four = ap some (mask-mask (to_signed bits (mask_ℤ bits n)))
sext_num-eval_at n bits size idx rv ret eight = refl

eval_at-sext :
    (v : Expr) (bits size n : ℕ) (wide : Bool) (rv : Call) (ret : ℤ)
    → eval_at v rv ret ≡ some n
    → eval_at (alu_unary mov v 0 bits size wide) rv ret
      ≡ some (mask_ℤ (8 * size) (to_signed bits (n % 2 ^ bits)))
unfolding eval_at eval_sext
eval_at-sext v bits size n wide rv ret h = ap (eval_sext bits size) h

eval_at-num :
    (k : ℤ) (s : ℕ) (i : ℤ) (rv : Call) (ret : ℤ) {n : ℕ}
    → eval_at (num k s i) rv ret ≡ some n
    → some (mask_ℤ 64 k) ≡ some n
unfolding eval_at
eval_at-num k s i rv ret h = h

eval_at-ptr :
    (p : PtrInfo) (var_off map_key null_phi : MaybeExpr) (rv : Call) (ret : ℤ) {n : ℕ}
    → eval_at (ptr p var_off map_key null_phi) rv ret ≡ some n
    → ⊥
unfolding eval_at
eval_at-ptr p var_off map_key null_phi rv ret h = cc

-- A value evaluates to n when a call returns `ret`, and 8, 16 or 32 bits are extended to 4 or 8
-- bytes. Then `sext` returns a value, folded or not, which evaluates to the low bits of n, read as
-- a signed number and wrapped at the size.
pub sext-eval_at :
    (v : Expr) (bits size n : ℕ) (idx : ℤ) (rv : Call) (ret : ℤ)
    → IsNarrow bits
    → IsWide size
    → eval_at v rv ret ≡ some n
    → (w : Expr) × (sext (present v) bits size idx ≡ ok (present w))
      × (eval_at w rv ret ≡ some (mask_ℤ (8 * size) (to_signed bits (n % 2 ^ bits))))
unfolding sext
sext-eval_at (num k s i) bits size n idx rv ret b z h = (
  sext_num k bits size idx,
  refl,
  sext_num-eval_at k bits size idx rv ret z
      ∙ ap (λ u. some (mask_ℤ (8 * size) (to_signed bits u)))
          (sym (low_bits k bits b)
            ∙ ap (λ u. u % 2 ^ bits) (some-injective _ _ (eval_at-num k s i rv ret h))),
)
sext-eval_at (func_retval s' i' f' m' mk' r') bits size n idx rv ret b z h =
    (_, refl, eval_at-sext _ bits size n (size == 8) rv ret h)
sext-eval_at (alu_binary o' d' e' off' s' i') bits size n idx rv ret b z h =
    (_, refl, eval_at-sext _ bits size n (size == 8) rv ret h)
sext-eval_at (alu_unary o' d' p' im' s' a') bits size n idx rv ret b z h =
    (_, refl, eval_at-sext _ bits size n (size == 8) rv ret h)
sext-eval_at (scalar s' i') bits size n idx rv ret b z h =
    (_, refl, eval_at-sext _ bits size n (size == 8) rv ret h)
sext-eval_at (join_value b' r' vs') bits size n idx rv ret b z h =
    (_, refl, eval_at-sext _ bits size n (size == 8) rv ret h)
sext-eval_at ingress_ifindex bits size n idx rv ret b z h =
    (_, refl, eval_at-sext _ bits size n (size == 8) rv ret h)
sext-eval_at rx_queue_index bits size n idx rv ret b z h =
    (_, refl, eval_at-sext _ bits size n (size == 8) rv ret h)
sext-eval_at egress_ifindex bits size n idx rv ret b z h =
    (_, refl, eval_at-sext _ bits size n (size == 8) rv ret h)
sext-eval_at (pkt_len s' b') bits size n idx rv ret b z h =
    (_, refl, eval_at-sext _ bits size n (size == 8) rv ret h)
sext-eval_at (pkt_val r' vo') bits size n idx rv ret b z h =
    (_, refl, eval_at-sext _ bits size n (size == 8) rv ret h)
sext-eval_at (map_val r' m' mk' vo') bits size n idx rv ret b z h =
    (_, refl, eval_at-sext _ bits size n (size == 8) rv ret h)
sext-eval_at (bss_val r' k' vo') bits size n idx rv ret b z h =
    (_, refl, eval_at-sext _ bits size n (size == 8) rv ret h)
sext-eval_at (rodata_val o' s' vo') bits size n idx rv ret b z h =
    (_, refl, eval_at-sext _ bits size n (size == 8) rv ret h)
sext-eval_at (lookup_hit m' mk' i') bits size n idx rv ret b z h =
    (_, refl, eval_at-sext _ bits size n (size == 8) rv ret h)
sext-eval_at (byte_seq c' s' o') bits size n idx rv ret b z h =
    (_, refl, eval_at-sext _ bits size n (size == 8) rv ret h)
sext-eval_at (ptr p' vo' mk' np') bits size n idx rv ret b z h =
    absurd (eval_at-ptr p' vo' mk' np' rv ret h)
