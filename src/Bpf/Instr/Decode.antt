-- ===== src/Bpf/Instr/Decode.antt =====
-- The decoding against the layout of an eBPF instruction word, and the classes of an instruction.
use mathlib.Core.Option.{some-injective}
use hor_net_nsdi.Common.{
  ap, subst, ℕ, zero, suc, ◌+◌, ◌*◌, ◌/◌, ◌%◌, ◌^◌, ◌<◌, ◌≡◌, refl, Bool, true, false, ◌&&◌, ◌==◌,
  List, [], ◌∷◌, some, bit_and, arith, if◌then◌else◌,
}
use hor_net_nsdi.Common.Int.{ℤ, pos, negsuc, mask_ℤ, ◌≤ℤ◌, ◌<ℤ◌}
use hor_net_nsdi.Bpf.Codes.{
  alu, alu64, ld, ldx, st, stx, jmp, jmp32, opc_class_mask, opc_s_mask, opc_code_mask, opc_sz_mask,
  opc_mode_mask,
}
use hor_net_nsdi.Bpf.Instr.{
  Instr, parse_bytecode, parse_fields, from_bytes_signed, is_load, is_store, is_alu, is_jump,
  has_operation, has_mode,
}

-- A test of the numbers from `n - 1` down to 0.
abbrev checks : (ℕ → Bool) → ℕ → Bool
checks p zero = true
checks p (suc n) = if p n then checks p n else false

checks-at : (p : ℕ → Bool) (n x : ℕ) → checks p n ≡ true → x < n → p x ≡ true
checks-at p zero x tested below = absurd (ground arith)
checks-at p (suc n) x tested below = ground (arith, checks-at p n x)

-- The masks of an opcode byte, as arithmetic.
abbrev masks_agree : ℕ → Bool
masks_agree x =
    (bit_and x opc_class_mask == x % 8)
    && ((bit_and x opc_s_mask / 2 ^ 3 == x / 8 % 2)
        && ((bit_and x opc_code_mask / 2 ^ 4 == x / 16)
            && ((bit_and x opc_sz_mask / 2 ^ 3 == x / 8 % 4)
                && ((bit_and x opc_mode_mask / 2 ^ 5 == x / 32)
                    && ((bit_and (x / 2 ^ 4) 0x0F == x / 16) && (bit_and x 0x0F == x % 16))))))

masks_table : checks masks_agree 256 ≡ true
masks_table = refl

record Masks (x : ℕ) : Type 0 where
  class_bits : bit_and x opc_class_mask ≡ x % 8
  s_bit : bit_and x opc_s_mask / 2 ^ 3 ≡ x / 8 % 2
  code_bits : bit_and x opc_code_mask / 2 ^ 4 ≡ x / 16
  sz_bits : bit_and x opc_sz_mask / 2 ^ 3 ≡ x / 8 % 4
  mode_bits : bit_and x opc_mode_mask / 2 ^ 5 ≡ x / 32
  high : bit_and (x / 2 ^ 4) 0x0F ≡ x / 16
  low : bit_and x 0x0F ≡ x % 16

masks : (x : ℕ) → x < 256 → Masks x
masks x h = let t = checks-at masks_agree 256 x masks_table h in ground arith

-- The two bytes of a 16-bit field and the four of a 32-bit field, lowest first.
abbrev pub bytes16 : ℕ → List ℕ
bytes16 u = u % 256 ∷ u / 256 ∷ []

abbrev pub word : ℕ → ℕ → ℕ → ℤ → ℤ → List ℕ
word opcode dst src off imm =
    let o = mask_ℤ 16 off in
    let m = mask_ℤ 32 imm in
    opcode
    ∷ (src * 16 + dst)
    ∷ o % 256
    ∷ o / 256
    ∷ m % 256
    ∷ m / 256 % 256
    ∷ m / 65536 % 256
    ∷ m / 16777216
    ∷ []

from_bytes_signed-16 :
    (off : ℤ)
    → negsuc 0x7fff ≤ℤ off
    → off <ℤ pos 0x8000
    → from_bytes_signed (mask_ℤ 16 off % 256 ∷ mask_ℤ 16 off / 256 ∷ []) ≡ off
unfolding from_bytes_signed mask_ℤ
from_bytes_signed-16 (pos n) h k = ground arith
from_bytes_signed-16 (negsuc n) h k = ground arith

from_bytes_signed-32 :
    (imm : ℤ)
    → negsuc 0x7fff_ffff ≤ℤ imm
    → imm <ℤ pos 0x8000_0000
    → from_bytes_signed (
        mask_ℤ 32 imm % 256
        ∷ mask_ℤ 32 imm / 256 % 256
        ∷ mask_ℤ 32 imm / 65536 % 256
        ∷ mask_ℤ 32 imm / 16777216
        ∷ [])
      ≡ imm
unfolding from_bytes_signed mask_ℤ
from_bytes_signed-32 (pos n) h k = ground arith
from_bytes_signed-32 (negsuc n) h k = ground arith

-- What the fields of an instruction are, when its word was laid out from these values.
pub record IsDecoded (opcode dst src : ℕ) (off imm : ℤ) (i : Instr) : Type 0 where
  pub class_lem : i.opcode_class ≡ some (opcode % 8)
  pub dst_lem : i.dst_reg ≡ dst
  pub src_lem : i.src_reg ≡ src
  pub offset_lem : i.offset ≡ off
  pub imm_lem : i.imm ≡ imm
  pub operation :
      has_operation (opcode % 8) ≡ true
      → (i.opcode_s ≡ opcode / 8 % 2) × (i.opcode_code ≡ opcode / 16)
  pub mode :
      has_mode (opcode % 8) ≡ true → (i.opcode_sz ≡ opcode / 8 % 4) × (i.opcode_mode ≡ opcode / 32)

-- For an opcode byte, two register numbers, a signed 16-bit offset and a signed 32-bit immediate,
-- `Instr` decodes the eight bytes that lay them out: it gives back the class, the registers, the
-- offset and the immediate, for a class with an operation also the source bit and the operation, and
-- for a class with a mode the size and the mode.
pub parse_bytecode-word :
    (idx addr opcode dst src : ℕ) (off imm : ℤ)
    → opcode < 256
    → dst < 16
    → src < 16
    → negsuc 0x7fff ≤ℤ off
    → off <ℤ pos 0x8000
    → negsuc 0x7fff_ffff ≤ℤ imm
    → imm <ℤ pos 0x8000_0000
    → (i : Instr) × (parse_bytecode idx addr (word opcode dst src off imm) ≡ some i)
      × IsDecoded opcode dst src off imm i
unfolding parse_bytecode
parse_bytecode-word idx addr opcode dst src off imm ho hd hs o_lo o_hi i_lo i_hi =
    let m = masks opcode ho in
    let r = masks (src * 16 + dst) (omega arith) in
    (
      parse_fields idx addr opcode (src * 16 + dst) (word opcode dst src off imm),
      refl,
      record {
        class_lem = ap some m.class_bits;
        dst_lem = omega (arith, r.low);
        src_lem = omega (arith, r.high);
        offset_lem = from_bytes_signed-16 off o_lo o_hi;
        imm_lem = from_bytes_signed-32 imm i_lo i_hi;
        operation =
            λ h. (ground (arith, m.class_bits, m.s_bit), ground (arith, m.class_bits, m.code_bits));
        mode = λ h.
            (ground (arith, m.class_bits, m.sz_bits), ground (arith, m.class_bits, m.mode_bits));
      },
    )

abbrev pub one_if : Bool → ℕ
one_if true = 1
one_if false = 0

-- The four tests partition the eight classes.
one_class :
    (c : ℕ)
    → c < 8
    → one_if (if c == alu then true else c == alu64)
        + one_if (if c == ld then true else c == ldx)
        + one_if (if c == st then true else c == stx)
        + one_if (if c == jmp then true else c == jmp32)
      ≡ 1
one_class c h = ground arith

-- A decoded instruction whose opcode is a byte passes exactly one of the four tests on which
-- `track_block` branches: it computes, loads, stores or jumps.
pub parse_bytecode-one_class :
    (idx addr opcode : ℕ) (rest : List ℕ) (i : Instr)
    → opcode < 256
    → parse_bytecode idx addr (opcode ∷ rest) ≡ some i
    → one_if (is_alu i) + one_if (is_load i) + one_if (is_store i) + one_if (is_jump i) ≡ 1
unfolding parse_bytecode is_alu is_load is_store is_jump
parse_bytecode-one_class idx addr opcode [] i h e = cc
parse_bytecode-one_class idx addr opcode (regs ∷ rest) i h e =
    subst
      (λ j. one_if (is_alu j) + one_if (is_load j) + one_if (is_store j) + one_if (is_jump j) ≡ 1)
      (some-injective _ _ e) (rw class_bits (one_class (opcode % 8) (omega arith)))
  where
    open masks opcode h use {class_bits}
