-- ===== src/Bpf/Instr.antt =====
-- hornet/bpf/instr.py: the decoding of one instruction word and the tests on an instruction.
-- A field that the constructor leaves unset (the operation of a load, all but `idx` and `addr` of a
-- nop) is 0, false or `none` here; the source reads it only behind a test that it was set.
pub mod Decode
use hor_net_nsdi.Common.{
  ℕ, ◌+◌, ◌-◌, ◌*◌, ◌/◌, ◌%◌, ◌^◌, Bool, true, false, ◌&&◌, not, ◌==◌, leb, if◌then◌else◌, List, [],
  ◌∷◌, Option, some, none, String, bit_and, take, drop, length,
}
use hor_net_nsdi.Common.Int.{ℤ, pos, sub_ℕ, ◌==ℤ◌}
use hor_net_nsdi.Bpf.Codes.{
  opc_class_mask, opc_s_mask, opc_code_mask, opc_sz_mask, opc_mode_mask, ld, ldx, st, stx, alu, jmp,
  jmp32, alu64, ja, call, exit, helper_tail_call,
}

-- `reloc_tag`: a map's number, the name of a .bss object (or None), or the word 'rodata'.
pub data Tag : Type 0 where
  map_tag : ℕ → Tag
  bss_tag : Option String → Tag
  rodata_tag : Tag

pub record Instr : Type 0 where
  pub idx : ℕ
  pub addr : ℕ
  pub nop : Bool
  -- `none` is the -1 of a nop.
  pub opcode_class : Option ℕ
  pub opcode_s : ℕ
  pub opcode_code : ℕ
  pub opcode_sz : ℕ
  pub opcode_mode : ℕ
  pub src_reg : ℕ
  pub dst_reg : ℕ
  pub offset : ℤ
  pub imm : ℤ
  pub wide_instr : Bool
  pub next_imm : ℕ
  pub relocated : Bool
  pub reloc_tag : Option Tag
  pub reloc_region : ℕ
  pub rodata_offset : Option ℤ
  pub bss_offset : ℤ

-- `int.from_bytes(b, 'little')`
unfoldable pub from_bytes : List ℕ → ℕ
from_bytes [] = 0
from_bytes (b ∷ bs) = b + 256 * from_bytes bs

-- `int.from_bytes(b, 'little', signed=True)`
unfoldable pub from_bytes_signed : List ℕ → ℤ
unfolding from_bytes
from_bytes_signed bs =
    let u = from_bytes bs in
    if leb (2 ^ (8 * length bs - 1)) u then sub_ℕ u (2 ^ (8 * length bs)) else pos u

abbrev pub slice : ℕ → ℕ → List ℕ → List ℕ
slice i j bs = take (j - i) (drop i bs)

-- `in (ALU, ALU64, JMP, JMP32)`
abbrev pub has_operation : ℕ → Bool
has_operation c =
    if c == alu then true else if c == alu64 then true else if c == jmp then true else c == jmp32

-- `in (LD, LDX, ST, STX)`
abbrev pub has_mode : ℕ → Bool
has_mode c = if c == ld then true else if c == ldx then true else if c == st then true else c == stx

-- `parse_bytecode`, once the first two bytes are read.
unfoldable pub parse_fields : ℕ → ℕ → ℕ → ℕ → List ℕ → Instr
unfolding from_bytes from_bytes_signed
parse_fields idx addr opcode regs bytecode =
    let c = bit_and opcode opc_class_mask in
    record {
      idx = idx;
      addr = addr;
      nop = false;
      opcode_class = some c;
      opcode_s = if has_operation c then bit_and opcode opc_s_mask / 2 ^ 3 else 0;
      opcode_code = if has_operation c then bit_and opcode opc_code_mask / 2 ^ 4 else 0;
      opcode_sz = if has_mode c then bit_and opcode opc_sz_mask / 2 ^ 3 else 0;
      opcode_mode = if has_mode c then bit_and opcode opc_mode_mask / 2 ^ 5 else 0;
      src_reg = bit_and (regs / 2 ^ 4) 0x0F;
      dst_reg = bit_and regs 0x0F;
      offset = from_bytes_signed (slice 2 4 bytecode);
      imm = from_bytes_signed (slice 4 8 bytecode);
      wide_instr = opcode == 0x18;
      next_imm = if opcode == 0x18 then from_bytes (slice 8 16 bytecode) else 0;
      relocated = false;
      reloc_tag = none;
      reloc_region = 0;
      rodata_offset = none;
      bss_offset = pos 0;
    }

-- `Instr(idx, addr, bytecode)`; `none` is the IndexError of a word with fewer than two bytes.
unfoldable pub parse_bytecode : ℕ → ℕ → List ℕ → Option Instr
unfolding parse_fields
parse_bytecode idx addr [] = none
parse_bytecode idx addr (opcode ∷ []) = none
parse_bytecode idx addr (opcode ∷ regs ∷ rest) =
    some (parse_fields idx addr opcode regs (opcode ∷ regs ∷ rest))

-- `Instr(idx, addr, nop=True)`
abbrev pub nop_instr : ℕ → ℕ → Instr
nop_instr idx addr = record {
  idx = idx;
  addr = addr;
  nop = true;
  opcode_class = none;
  opcode_s = 0;
  opcode_code = 0;
  opcode_sz = 0;
  opcode_mode = 0;
  src_reg = 0;
  dst_reg = 0;
  offset = pos 0;
  imm = pos 0;
  wide_instr = false;
  next_imm = 0;
  relocated = false;
  reloc_tag = none;
  reloc_region = 0;
  rodata_offset = none;
  bss_offset = pos 0;
}

unfoldable pub set_reloc_tag : Instr → Tag → ℕ → Option ℤ → ℤ → Instr
set_reloc_tag i tag region rodata_offset bss_offset = record i {
  relocated = true;
  reloc_tag = some tag;
  reloc_region = region;
  rodata_offset = rodata_offset;
  bss_offset = bss_offset;
}

-- `self.opcode_class in (a, b)`
abbrev pub class_in : Instr → ℕ → ℕ → Bool
class_in i a b = elim i.opcode_class [ none ↦ false | some c ↦ if c == a then true else c == b ]

unfoldable pub is_load : Instr → Bool
is_load i = class_in i ld ldx

unfoldable pub is_store : Instr → Bool
is_store i = class_in i st stx

unfoldable pub is_alu : Instr → Bool
is_alu i = class_in i alu alu64

unfoldable pub is_jump : Instr → Bool
is_jump i = class_in i jmp jmp32

unfoldable pub is_call : Instr → Bool
unfolding is_jump
is_call i = is_jump i && (i.opcode_code == call)

unfoldable pub is_tail_call : Instr → Bool
unfolding is_call
is_tail_call i = is_call i && ((i.src_reg == 0) && (i.imm ==ℤ pos helper_tail_call))

unfoldable pub is_branch : Instr → Bool
unfolding is_jump
is_branch i =
    is_jump i
    && not (
        if i.opcode_code == ja
        then true
        else if i.opcode_code == call
        then true
        else i.opcode_code == exit)

unfoldable pub is_exit : Instr → Bool
unfolding is_jump
is_exit i = is_jump i && (i.opcode_code == exit)

unfoldable pub jump_offset : Instr → ℤ
jump_offset i = elim i.opcode_class [
  | none ↦ i.offset
  | some c ↦ if (c == jmp32) && (i.opcode_code == ja) then i.imm else i.offset
]
