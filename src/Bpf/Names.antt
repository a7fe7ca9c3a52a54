-- ===== src/Bpf/Names.antt =====
-- hornet/bpf/constants.py: the tables of names and sizes, as association lists in their order.
use hor_net_nsdi.Common.{
  ℕ, Bool, true, false, ◌==◌, if◌then◌else◌, List, [], ◌∷◌, Option, some, none, String,
}
use hor_net_nsdi.Bpf.Codes.{
  abs_mode, add, and_op, arsh, atomic, call, div, end_op, exit, imm, ind, ja, jeq, jge, jgt, jle,
  jlt, jne, jset, jsge, jsgt, jsle, jslt, lsh, mem_mode, memsx, mod_op, mov, mul, neg, or_op, rsh,
  sub, xor_op,
}

-- `table[code]`; `none` is the KeyError.
unfoldable pub name_of {ℓ} : {A : Type ℓ} → List (ℕ × A) → ℕ → Option A
name_of [] code = none
name_of ((k, name) ∷ table) code = if code == k then some name else name_of table code

abbrev pub has_name {ℓ} : {A : Type ℓ} → List (ℕ × A) → ℕ → Bool
has_name table code = elim (name_of table code) [ none ↦ false | some name ↦ true ]

-- the bytes of a size code
abbrev pub sz_map : List (ℕ × ℕ)
sz_map = (0, 4) ∷ (1, 2) ∷ (2, 1) ∷ (3, 8) ∷ []

abbrev pub alu_op_to_str : List (ℕ × String)
alu_op_to_str =
    (add, "BPF_ADD")
    ∷ (sub, "BPF_SUB")
    ∷ (mul, "BPF_MUL")
    ∷ (div, "BPF_DIV")
    ∷ (or_op, "BPF_OR")
    ∷ (and_op, "BPF_AND")
    ∷ (lsh, "BPF_LSH")
    ∷ (rsh, "BPF_RSH")
    ∷ (neg, "BPF_NEG")
    ∷ (mod_op, "BPF_MOD")
    ∷ (xor_op, "BPF_XOR")
    ∷ (mov, "BPF_MOV")
    ∷ (arsh, "BPF_ARSH")
    ∷ (end_op, "BPF_END")
    ∷ []

abbrev pub jmp_op_to_str : List (ℕ × String)
jmp_op_to_str =
    (ja, "BPF_JA")
    ∷ (jeq, "BPF_JEQ")
    ∷ (jgt, "BPF_JGT")
    ∷ (jge, "BPF_JGE")
    ∷ (jset, "BPF_JSET")
    ∷ (jne, "BPF_JNE")
    ∷ (jsgt, "BPF_JSGT")
    ∷ (jsge, "BPF_JSGE")
    ∷ (call, "BPF_CALL")
    ∷ (exit, "BPF_EXIT")
    ∷ (jlt, "BPF_JLT")
    ∷ (jle, "BPF_JLE")
    ∷ (jslt, "BPF_JSLT")
    ∷ (jsle, "BPF_JSLE")
    ∷ []

-- the comparison of a branch
abbrev pub branch_op_to_str : List (ℕ × String)
branch_op_to_str =
    (jeq, "==")
    ∷ (jgt, ">")
    ∷ (jge, ">=")
    ∷ (jset, "&")
    ∷ (jne, "!=")
    ∷ (jsgt, ">s")
    ∷ (jsge, ">=s")
    ∷ (jlt, "<")
    ∷ (jle, "<=")
    ∷ (jslt, "<s")
    ∷ (jsle, "<=s")
    ∷ []

-- the operator of an ALU code
abbrev pub op_map : List (ℕ × String)
op_map =
    (add, "+")
    ∷ (sub, "-")
    ∷ (mul, "*")
    ∷ (div, "/")
    ∷ (or_op, "|")
    ∷ (and_op, "&")
    ∷ (lsh, "<<")
    ∷ (rsh, ">>")
    ∷ (neg, "NEG")
    ∷ (mod_op, "%")
    ∷ (xor_op, "^")
    ∷ (arsh, ">>s")
    ∷ []

abbrev pub mode_to_str : List (ℕ × String)
mode_to_str =
    (imm, "BPF_IMM")
    ∷ (abs_mode, "BPF_ABS")
    ∷ (ind, "BPF_IND")
    ∷ (mem_mode, "BPF_MEM")
    ∷ (memsx, "BPF_MEMSX")
    ∷ (atomic, "BPF_ATOMIC")
    ∷ []

abbrev pub sz_to_str : List (ℕ × String)
sz_to_str = (0, "W") ∷ (1, "H") ∷ (2, "B") ∷ (3, "DW") ∷ []

-- `MAP_TYPE_NAMES`
abbrev pub map_type_names : List (ℕ × String)
map_type_names =
    (0, "UNSPEC")
    ∷ (1, "HASH")
    ∷ (2, "ARRAY")
    ∷ (3, "PROG_ARRAY")
    ∷ (4, "PERF_EVENT_ARRAY")
    ∷ (5, "PERCPU_HASH")
    ∷ (6, "PERCPU_ARRAY")
    ∷ (7, "STACK_TRACE")
    ∷ (8, "CGROUP_ARRAY")
    ∷ (9, "LRU_HASH")
    ∷ (10, "LRU_PERCPU_HASH")
    ∷ (11, "LPM_TRIE")
    ∷ (12, "ARRAY_OF_MAPS")
    ∷ (13, "HASH_OF_MAPS")
    ∷ (14, "DEVMAP")
    ∷ (15, "SOCKMAP")
    ∷ (16, "CPUMAP")
    ∷ (17, "XSKMAP")
    ∷ (18, "SOCKHASH")
    ∷ (19, "CGROUP_STORAGE")
    ∷ (20, "REUSEPORT_SOCKARRAY")
    ∷ (21, "PERCPU_CGROUP_STORAGE")
    ∷ (22, "QUEUE")
    ∷ (23, "STACK")
    ∷ (24, "SK_STORAGE")
    ∷ (25, "DEVMAP_HASH")
    ∷ (26, "STRUCT_OPS")
    ∷ (27, "RINGBUF")
    ∷ (28, "INODE_STORAGE")
    ∷ (29, "TASK_STORAGE")
    ∷ (30, "BLOOM_FILTER")
    ∷ (31, "USER_RINGBUF")
    ∷ (32, "CGRP_STORAGE")
    ∷ (33, "ARENA")
    ∷ []

-- the text of `map_type_name`: a name, or `type=` and the number
pub data MapTypeName : Type 0 where
  named : String → MapTypeName
  numbered : ℕ → MapTypeName

unfoldable pub map_type_name : ℕ → MapTypeName
unfolding name_of
map_type_name type_num = elim (name_of map_type_names type_num) [
  | none ↦ numbered type_num
  | some name ↦ named name
]
