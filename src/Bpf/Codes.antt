-- ===== src/Bpf/Codes.antt =====
-- hornet/bpf/constants.py: the encoding of opcodes, and the negation of a jump code. `OR`, `AND`,
-- `MOD`, `XOR`, `END`, `ABS` and `MEM` are words of antt or of the shared module and take a suffix.
use hor_net_nsdi.Common.{ℕ, ◌==◌, if◌then◌else◌, Option, some, none}

-- masks that split an opcode
abbrev pub opc_class_mask : ℕ
opc_class_mask = 0x07

abbrev pub opc_s_mask : ℕ
opc_s_mask = 0x08

abbrev pub opc_code_mask : ℕ
opc_code_mask = 0xF0

abbrev pub opc_sz_mask : ℕ
opc_sz_mask = 0x18

abbrev pub opc_mode_mask : ℕ
opc_mode_mask = 0xE0

-- instruction classes
abbrev pub ld : ℕ
ld = 0x0

abbrev pub ldx : ℕ
ldx = 0x1

abbrev pub st : ℕ
st = 0x2

abbrev pub stx : ℕ
stx = 0x3

abbrev pub alu : ℕ
alu = 0x4

abbrev pub jmp : ℕ
jmp = 0x5

abbrev pub jmp32 : ℕ
jmp32 = 0x6

abbrev pub alu64 : ℕ
alu64 = 0x7

-- operand sources
abbrev pub s_imm : ℕ
s_imm = 0x0

abbrev pub s_reg : ℕ
s_reg = 0x1

-- ALU operations
abbrev pub add : ℕ
add = 0x0

abbrev pub sub : ℕ
sub = 0x1

abbrev pub mul : ℕ
mul = 0x2

abbrev pub div : ℕ
div = 0x3

abbrev pub or_op : ℕ
or_op = 0x4

abbrev pub and_op : ℕ
and_op = 0x5

abbrev pub lsh : ℕ
lsh = 0x6

abbrev pub rsh : ℕ
rsh = 0x7

abbrev pub neg : ℕ
neg = 0x8

abbrev pub mod_op : ℕ
mod_op = 0x9

abbrev pub xor_op : ℕ
xor_op = 0xa

abbrev pub mov : ℕ
mov = 0xb

abbrev pub arsh : ℕ
arsh = 0xc

abbrev pub end_op : ℕ
end_op = 0xd

-- jump operations
abbrev pub ja : ℕ
ja = 0x0

abbrev pub jeq : ℕ
jeq = 0x1

abbrev pub jgt : ℕ
jgt = 0x2

abbrev pub jge : ℕ
jge = 0x3

abbrev pub jset : ℕ
jset = 0x4

abbrev pub jne : ℕ
jne = 0x5

abbrev pub jsgt : ℕ
jsgt = 0x6

abbrev pub jsge : ℕ
jsge = 0x7

abbrev pub call : ℕ
call = 0x8

abbrev pub exit : ℕ
exit = 0x9

abbrev pub jlt : ℕ
jlt = 0xa

abbrev pub jle : ℕ
jle = 0xb

abbrev pub jslt : ℕ
jslt = 0xc

abbrev pub jsle : ℕ
jsle = 0xd

-- the helper that `bpf_tail_call` is
abbrev pub helper_tail_call : ℕ
helper_tail_call = 12

-- addressing modes
abbrev pub imm : ℕ
imm = 0x0

abbrev pub abs_mode : ℕ
abs_mode = 0x1

abbrev pub ind : ℕ
ind = 0x2

abbrev pub mem_mode : ℕ
mem_mode = 0x3

abbrev pub memsx : ℕ
memsx = 0x4

abbrev pub atomic : ℕ
atomic = 0x6

-- `swap_jmp_code`; the -1 of a code with no negation is `none`.
unfoldable pub swap_jmp_code : ℕ → Option ℕ
swap_jmp_code code =
    if code == jeq
    then some jne
    else if code == jne
    then some jeq
    else if code == jgt
    then some jle
    else if code == jle
    then some jgt
    else if code == jge
    then some jlt
    else if code == jlt
    then some jge
    else if code == jsgt
    then some jsle
    else if code == jsle
    then some jsgt
    else if code == jsge
    then some jslt
    else if code == jslt
    then some jsge
    else none
