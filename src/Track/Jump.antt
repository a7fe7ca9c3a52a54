-- ===== src/Track/Jump.antt =====
-- hornet/track/tracker.py, `_jmp_taken`: does a conditional jump with these operands jump? And
-- hornet/bpf/constants.py, `swap_jmp_code`, against it.
use hor_net_nsdi.Common.{
  ℕ, ◌<◌, not-not, ◌^◌, ◌≡◌, refl, Bool, false, not, ◌==◌, ltb, leb, if◌then◌else◌, Option, some,
  none, bit_and, arith, ap, subst, sym, ◌∙◌, Bool-cases, ==→≡, inl, inr,
}
use mathlib.Core.Option.{some-injective, none-ne-some}
use hor_net_nsdi.Common.Int.{ℤ, pos, mask_ℤ, ltb_ℤ, leb_ℤ}
use hor_net_nsdi.Bpf.Codes.{
  jeq, jne, jset, jgt, jge, jlt, jle, jsgt, jsge, jslt, jsle, swap_jmp_code,
}
use hor_net_nsdi.Bpf.Arith.{to_signed}

-- The table of the source on the masked operands; `none` is the KeyError of a code that is no
-- conditional jump.
unfoldable pub compare_masked : ℕ → ℕ → ℕ → ℕ → Option Bool
unfolding to_signed
compare_masked code bits a b =
    let sa = to_signed bits a in
    let sb = to_signed bits b in
    if code == jeq
    then some (a == b)
    else if code == jne
    then some (not (a == b))
    else if code == jset
    then some (not (bit_and a b == 0))
    else if code == jgt
    then some (ltb b a)
    else if code == jge
    then some (leb b a)
    else if code == jlt
    then some (ltb a b)
    else if code == jle
    then some (leb a b)
    else if code == jsgt
    then some (ltb_ℤ sb sa)
    else if code == jsge
    then some (leb_ℤ sb sa)
    else if code == jslt
    then some (ltb_ℤ sa sb)
    else if code == jsle
    then some (leb_ℤ sa sb)
    else none

abbrev pub jump_bits : Bool → ℕ
jump_bits jmp32 = if jmp32 then 32 else 64

unfoldable pub jmp_taken : ℕ → ℤ → ℤ → Bool → Option Bool
unfolding compare_masked mask_ℤ
jmp_taken code a b jmp32 =
    compare_masked code (jump_bits jmp32) (mask_ℤ (jump_bits jmp32) a) (mask_ℤ (jump_bits jmp32) b)

mask_small : (a : ℕ) → a < 2 ^ 64 → mask_ℤ 64 (pos a) ≡ a
unfolding mask_ℤ
mask_small a h = ground arith

-- On 64-bit words the mask does nothing.
jmp_taken-64 :
    (code a b : ℕ)
    → a < 2 ^ 64
    → b < 2 ^ 64
    → jmp_taken code (pos a) (pos b) false ≡ compare_masked code 64 a b
unfolding jmp_taken
jmp_taken-64 code a b ha hb = rw (mask_small a ha, mask_small b hb)

-- The same for a jump of 64 bits.
pub jmp_taken-wide :
    (code a b : ℕ) (narrow : Bool)
    → narrow ≡ false
    → a < 2 ^ 64
    → b < 2 ^ 64
    → jmp_taken code (pos a) (pos b) narrow ≡ compare_masked code 64 a b
jmp_taken-wide code a b narrow w ha hb =
    ap (jmp_taken code (pos a) (pos b)) w ∙ jmp_taken-64 code a b ha hb

abbrev pub not_taken : Option Bool → Option Bool
not_taken none = none
not_taken (some t) = some (not t)

not-ltb : (a b : ℕ) → leb b a ≡ not (ltb a b)
not-ltb a b = ground arith

not-leb : (a b : ℕ) → ltb b a ≡ not (leb a b)
not-leb a b = ground arith

-- A code and its negation.
data IsNegation : ℕ → ℕ → Type 0 where
  eq_ne : IsNegation jeq jne
  ne_eq : IsNegation jne jeq
  gt_le : IsNegation jgt jle
  le_gt : IsNegation jle jgt
  ge_lt : IsNegation jge jlt
  lt_ge : IsNegation jlt jge
  sgt_sle : IsNegation jsgt jsle
  sle_sgt : IsNegation jsle jsgt
  sge_slt : IsNegation jsge jslt
  slt_sge : IsNegation jslt jsge

IsNegation-compare_masked :
    (bits a b : ℕ) {code code' : ℕ}
    → IsNegation code code'
    → compare_masked code' bits a b ≡ not_taken (compare_masked code bits a b)
unfolding compare_masked
IsNegation-compare_masked bits a b eq_ne = refl
IsNegation-compare_masked bits a b ne_eq = ap some (not-not (a == b))
IsNegation-compare_masked bits a b gt_le = ap some (not-ltb b a)
IsNegation-compare_masked bits a b le_gt = ap some (not-leb a b)
IsNegation-compare_masked bits a b ge_lt = ap some (not-leb b a)
IsNegation-compare_masked bits a b lt_ge = ap some (not-ltb a b)
IsNegation-compare_masked bits a b sgt_sle = ap some (not-ltb _ _)
IsNegation-compare_masked bits a b sle_sgt = ap some (not-leb _ _)
IsNegation-compare_masked bits a b sge_slt = ap some (not-leb _ _)
IsNegation-compare_masked bits a b slt_sge = ap some (not-ltb _ _)

-- One line of the table: the code is this one, or the rest of the table decides.
table_line :
    (code c n code' : ℕ) (rest : Option ℕ)
    → IsNegation c n
    → (rest ≡ some code' → IsNegation code code')
    → (if code == c then some n else rest) ≡ some code'
    → IsNegation code code'
table_line code c n code' rest one others h = elim (Bool-cases (code == c)) [
  | inl e ↦
      subst (λ k. IsNegation k code') (sym (==→≡ code c e))
        (subst (IsNegation c)
          (some-injective _ _ (ap (λ t. if t then some n else rest) (sym e) ∙ h)) one)
  | inr e ↦ others (ap (λ t. if t then some n else rest) (sym e) ∙ h)
]

swap_jmp_code-IsNegation :
    (code code' : ℕ) → swap_jmp_code code ≡ some code' → IsNegation code code'
unfolding swap_jmp_code
swap_jmp_code-IsNegation code code' h =
    table_line code jeq jne code' _ eq_ne
      (table_line code jne jeq code' _ ne_eq (
        table_line code jgt jle code' _ gt_le (
          table_line code jle jgt code' _ le_gt (
            table_line code jge jlt code' _ ge_lt (
              table_line code jlt jge code' _ lt_ge (
                table_line code jsgt jsle code' _ sgt_sle (
                  table_line code jsle jsgt code' _ sle_sgt (
                    table_line code jsge jslt code' _ sge_slt (
                      table_line code jslt jsge code' none slt_sge
                        (λ e. absurd (none-ne-some _ e)))))))))))
      h

-- The code that `swap_jmp_code` gives, where it gives one, is the negation: on the same operands, at
-- either width, it jumps exactly when the given code does not.
pub swap_jmp_code-negates :
    (code code' : ℕ) (a b : ℤ) (jmp32 : Bool)
    → swap_jmp_code code ≡ some code'
    → jmp_taken code' a b jmp32 ≡ not_taken (jmp_taken code a b jmp32)
unfolding swap_jmp_code jmp_taken
swap_jmp_code-negates code code' a b jmp32 h =
    IsNegation-compare_masked (jump_bits jmp32) _ _ (swap_jmp_code-IsNegation code code' h)
