-- ===== src/Bpf/Witness.antt =====
-- The theorems on hornet/bpf at concrete inputs: the control-flow graph of `r0 = 1; if r1 == 0 goto +1;
-- r0 = 1; exit`, two instruction words, a signed division, and the maps of two objects.
use hor_net_nsdi.Common.{
  ℕ, ◌≡◌, refl, true, false, List, [], ◌∷◌, Option, some, none, get_elem?, length, arith, ◌+◌,
}
use hor_net_nsdi.Common.Int.{pos, negsuc}
use hor_net_nsdi.Common.Result.{Result, ok, err, ◌>>=◌, or_err}
use hor_net_nsdi.Bpf.Codes.{alu64, jmp, mov, jeq, exit}
use hor_net_nsdi.Bpf.Instr.{Instr, nop_instr, parse_bytecode, is_alu, is_load, is_store, is_jump}
use hor_net_nsdi.Bpf.Instr.Decode.{
  word, IsDecoded, parse_bytecode-word, one_if, parse_bytecode-one_class,
}
use hor_net_nsdi.Bpf.Arith.{arith_op}
use hor_net_nsdi.Bpf.Arith.Bounds.{IsWord, arith_op-IsWord}
use hor_net_nsdi.Bpf.Maps.{MapInfo, Load, merge_maps}
use hor_net_nsdi.Bpf.Maps.Merged.{Renumbers, merge_maps-Renumbers}
use hor_net_nsdi.Bpf.Cfg.{CfgError, Built, build_cfg}
use hor_net_nsdi.Bpf.Cfg.Edges.{HasEdges, build_cfg-HasEdges}
use hor_net_nsdi.Bpf.Cfg.Spans.{Span, spans}
use hor_net_nsdi.Bpf.Cfg.Leaders.{ends_block}
use hor_net_nsdi.Bpf.Cfg.Blocks.{Tiles, build_cfg-Tiles, build_cfg-straight}

abbrev move : ℕ → Instr
move idx = record (nop_instr idx 0) {
  nop = false;
  opcode_class = some alu64;
  opcode_code = mov;
  imm = pos 1;
}

abbrev test : ℕ → Instr
test idx = record (nop_instr idx 0) {
  nop = false;
  opcode_class = some jmp;
  opcode_code = jeq;
  dst_reg = 1;
  offset = pos 1;
}

abbrev leave : ℕ → Instr
leave idx = record (nop_instr idx 0) { nop = false; opcode_class = some jmp; opcode_code = exit }

abbrev pub program : List Instr
program = move 0 ∷ test 1 ∷ move 2 ∷ leave 3 ∷ []

abbrev built_of : Result CfgError Built → Built
built_of (ok r) = r
built_of (err e) = record { graph = record { blocks = []; cfg = [] }; starts = []; regions = [] }

abbrev pub built : Built
built = built_of (build_cfg program [])

pub returned : build_cfg program [] ≡ ok built
unfolding build_cfg or_err ◌>>=◌
returned = refl

build_cfg-starts : built.starts ≡ 0 ∷ 2 ∷ 3 ∷ []
unfolding build_cfg or_err ◌>>=◌
build_cfg-starts = refl

build_cfg-HasEdges_example : HasEdges built.graph
build_cfg-HasEdges_example = build_cfg-HasEdges program [] built returned

build_cfg-Tiles_example : Tiles (length program) 0 0 (spans built.graph)
build_cfg-Tiles_example = build_cfg-Tiles program [] built returned (omega arith) tt

-- the block of the first two instructions
abbrev first : Span
first = record { num = 0; start = 0; end = 1 }

first_lem : get_elem? (spans built.graph) 0 ≡ some first
unfolding build_cfg or_err ◌>>=◌
first_lem = refl

build_cfg-straight_example : ends_block (move 0) ≡ false
build_cfg-straight_example =
    build_cfg-straight program [] built 0 0 first (move 0) returned first_lem refl (omega arith)
      (omega arith) (omega arith)

-- `if r1 == 5 goto -2`
abbrev backward : Option Instr
backward = parse_bytecode 3 24 (word 0x15 1 0 (negsuc 1) (pos 5))

parse_bytecode-word_example :
    (i : Instr) × (backward ≡ some i) × IsDecoded 0x15 1 0 (negsuc 1) (pos 5) i
parse_bytecode-word_example =
    parse_bytecode-word 3 24 0x15 1 0 (negsuc 1) (pos 5) (omega arith) (omega arith) (omega arith)
      (omega arith) (omega arith) (omega arith) (omega arith)

abbrev the_instr : Option Instr → Instr
the_instr (some i) = i
the_instr none = leave 0

abbrev parsed : Option Instr
parsed = parse_bytecode 0 0 (0x15 ∷ 1 ∷ 1 ∷ 0 ∷ 0 ∷ 0 ∷ 0 ∷ 0 ∷ [])

parsed_lem : parsed ≡ some (the_instr parsed)
unfolding parse_bytecode
parsed_lem = refl

parse_bytecode-one_class_example :
    one_if (is_alu (the_instr parsed))
      + one_if (is_load (the_instr parsed))
      + one_if (is_store (the_instr parsed))
      + one_if (is_jump (the_instr parsed))
    ≡ 1
parse_bytecode-one_class_example =
    parse_bytecode-one_class 0 0 0x15 (1 ∷ 1 ∷ 0 ∷ 0 ∷ 0 ∷ 0 ∷ 0 ∷ []) (the_instr parsed)
      (omega arith) parsed_lem

arith_op-IsWord_example : IsWord (arith_op 0x3 (negsuc 6) (pos 2) 32 true)
arith_op-IsWord_example = arith_op-IsWord 0x3 (negsuc 6) (pos 2) true

-- two objects that share the map "jmp"
abbrev shared : ℕ → MapInfo
shared id = record {
  id = id;
  name = some "jmp";
  type = 3;
  key_size = 4;
  value_size = 4;
  max_entries = 8;
}

abbrev own : ℕ → MapInfo
own id = record (shared id) { name = some "flows"; type = 1 }

abbrev main_load : Load
main_load = record { path = "main.o"; maps = shared 0 ∷ [] }

abbrev tail_load : Load
tail_load = record { path = "tail.o"; maps = own 0 ∷ shared 1 ∷ [] }

merge_maps-returns :
    merge_maps (main_load ∷ tail_load ∷ [])
    ≡ ok (shared 0 ∷ own 1 ∷ [], ((0, 0) ∷ []) ∷ ((1, 0) ∷ (0, 1) ∷ []) ∷ [])
unfolding merge_maps or_err ◌>>=◌
merge_maps-returns = refl

merge_maps-Renumbers_example :
    (remap : List (ℕ × ℕ)) × (get_elem? (((0, 0) ∷ []) ∷ ((1, 0) ∷ (0, 1) ∷ []) ∷ []) 1
      ≡ some remap)
    × Renumbers (shared 0 ∷ own 1 ∷ []) (own 0 ∷ shared 1 ∷ []) remap
merge_maps-Renumbers_example =
    merge_maps-Renumbers (main_load ∷ tail_load ∷ []) (shared 0 ∷ own 1 ∷ [])
      (((0, 0) ∷ []) ∷ ((1, 0) ∷ (0, 1) ∷ []) ∷ []) 1 tail_load merge_maps-returns refl
