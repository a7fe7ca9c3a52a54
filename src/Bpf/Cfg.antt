-- ===== src/Bpf/Cfg.antt =====
-- hornet/bpf/cfg.py, `Cfg_builder.build_cfg`: leaders, basic blocks and the edges between them.
-- `blocks` and `cfg` are one state that each edge changes. A failed assertion, a ValueError, a
-- missing key and `exit(1)` are the cases of `CfgError`.
pub mod View
pub mod Spans
pub mod Leaders
pub mod Mirror
pub mod Wired
pub mod Edges
pub mod Blocks
use hor_net_nsdi.Common.{
  ℕ, zero, suc, ◌+◌, ◌-◌, ◌<◌, Bool, true, false, ◌&&◌, not, ◌==◌, ltb, if◌then◌else◌, List, [],
  ◌∷◌, ◌++◌, map, Option, some, none, get_elem?, length, replicate, modify_at, filter_b, index_of,
}
use hor_net_nsdi.Common.Int.{ℤ, pos, negsuc, ◌+ℤ◌}
use hor_net_nsdi.Common.Result.{Result, ok, err, ◌>>=◌, or_err}
use hor_net_nsdi.Bpf.Codes.{ja, call, exit, ld}
use hor_net_nsdi.Bpf.Codes
use hor_net_nsdi.Bpf.Region.{ProgRegion, is_main}
use hor_net_nsdi.Bpf.Instr.{
  Instr, Tag, map_tag, bss_tag, rodata_tag, is_jump, is_call, is_tail_call, is_exit, jump_offset,
}

-- The part of track/block.py's `Block` that the builder fills.
pub record Block : Type 0 where
  pub num : ℕ
  pub start : ℕ
  pub end : ℕ
  pub preds : List ℕ
  pub succ_f : Option ℕ
  pub succ_t : Option ℕ
  pub exit : Bool
  pub jump : Bool
  pub branch : Bool
  pub prog_entry : Option ProgRegion

pub record Graph : Type 0 where
  pub blocks : List Block
  pub cfg : List (List ℕ)

pub data CfgError : Type 0 where
  no_callee map_without_callee unclear_callee assertion_error index_error key_error : CfgError
  jump_target_not_found fallthrough_not_found : CfgError

abbrev pub new_block : ℕ → ℕ → ℕ → Block
new_block num start end = record {
  num = num;
  start = start;
  end = end;
  preds = [];
  succ_f = none;
  succ_t = none;
  exit = false;
  jump = false;
  branch = false;
  prog_entry = none;
}

-- `i + 1 + offset`
abbrev pub target_of : ℕ → ℤ → ℤ
target_of i offset = pos (i + 1) +ℤ offset

-- `target`, if `0 <= target < n`
abbrev pub in_range : ℕ → ℤ → Option ℕ
in_range n (pos t) = if ltb t n then some t else none
in_range n (negsuc t) = none

abbrev pub add_next : ℕ → ℕ → List ℕ → List ℕ
add_next n i leaders = if ltb (i + 1) n then (i + 1) ∷ leaders else leaders

abbrev pub add_target : Option ℕ → List ℕ → List ℕ
add_target (some t) leaders = t ∷ leaders
add_target none leaders = leaders

-- the body of the first loop, for the instruction at `i`; a set is a list with repetitions
unfoldable pub mark_leaders : ℕ → ℕ → Instr → List ℕ → List ℕ
unfolding is_jump is_exit is_call is_tail_call jump_offset ◌+ℤ◌
mark_leaders n i instr leaders =
    if is_jump instr
    then (if is_exit instr
        then add_next n i leaders
        else if is_call instr
        then if is_tail_call instr then add_next n i leaders else leaders
        else add_next n i (add_target (in_range n (target_of i (jump_offset instr))) leaders))
    else leaders

unfoldable pub scan_leaders : ℕ → ℕ → List Instr → List ℕ → List ℕ
unfolding mark_leaders
scan_leaders n i [] leaders = leaders
scan_leaders n i (instr ∷ rest) leaders =
    scan_leaders n (suc i) rest (mark_leaders n i instr leaders)

unfoldable pub insert_leader : ℕ → List ℕ → List ℕ
insert_leader x [] = x ∷ []
insert_leader x (y ∷ ys) =
    if ltb x y then x ∷ y ∷ ys else if x == y then y ∷ ys else y ∷ insert_leader x ys

-- `sorted(leaders)`, of a set
unfoldable pub sorted_set : List ℕ → List ℕ
unfolding insert_leader
sorted_set [] = []
sorted_set (x ∷ xs) = insert_leader x (sorted_set xs)

unfoldable pub leaders_of : List Instr → List ProgRegion → List ℕ
unfolding scan_leaders
leaders_of instrs progs = scan_leaders (length instrs) 0 instrs (0 ∷ map (λ r. r.start) progs)

-- One block from each leader to the next; `k` is the number of the first.
unfoldable pub make_blocks : ℕ → ℕ → List ℕ → List Block
make_blocks n k [] = []
make_blocks n k (start ∷ []) = new_block k start (n - 1) ∷ []
make_blocks n k (start ∷ next ∷ rest) =
    new_block k start (next - 1) ∷ make_blocks n (suc k) (next ∷ rest)

-- `block_start_map.get(target)`, with the block starts as the map's keys in block order
abbrev pub start_map : List ℕ → ℤ → Option ℕ
start_map starts (pos t) = index_of t starts
start_map starts (negsuc t) = none

abbrev pub update : Graph → ℕ → (Block → Block) → Graph
update g i f = record { blocks = modify_at g.blocks i f; cfg = g.cfg }

-- `cfg[i].append(succ); block.succ_t = succ; blocks[succ].preds.append(i)`
unfoldable pub edge_taken : ℕ → ℕ → Graph → Graph
edge_taken i succ g = record {
  blocks =
      modify_at (modify_at g.blocks i (λ b. record b { succ_t = some succ })) succ
        (λ b. record b { preds = b.preds ++ i ∷ [] });
  cfg = modify_at g.cfg i (λ l. l ++ succ ∷ []);
}

-- the same with `succ_f`
unfoldable pub edge_fall : ℕ → ℕ → Graph → Graph
edge_fall i succ g = record {
  blocks =
      modify_at (modify_at g.blocks i (λ b. record b { succ_f = some succ })) succ
        (λ b. record b { preds = b.preds ++ i ∷ [] });
  cfg = modify_at g.cfg i (λ l. l ++ succ ∷ []);
}

-- Is this the load of a map's address into r2?
abbrev loads_r2_map : Instr → Bool
loads_r2_map ins =
    (elim ins.opcode_class [ none ↦ false | some c ↦ c == ld ])
    && ((ins.opcode_mode == Codes.imm)
        && ((ins.dst_reg == 2) && (ins.relocated && (ins.reloc_region == 0))))

-- `for i in range(end - 1, start - 1, -1)`, with `k` rounds left: i = start + k - 1. The indices lie
-- below `end`, which the caller has read.
unfoldable pub last_map_load : List Instr → ℕ → ℕ → Option Tag
last_map_load instrs start zero = none
last_map_load instrs start (suc k) =
    let earlier = last_map_load instrs start k in
    elim (get_elem? instrs (start + k)) [
      | none ↦ earlier
      | some ins ↦ if loads_r2_map ins then ins.reloc_tag else earlier
    ]

-- `r.map_id == map_id`
abbrev in_map : Tag → ProgRegion → Bool
in_map (map_tag m) r = elim r.map_id [ none ↦ false | some m' ↦ m' == m ]
in_map (bss_tag _) r = false
in_map rodata_tag r = false

abbrev first_or : List ProgRegion → CfgError → Result CfgError ProgRegion
first_or [] e = err e
first_or (r ∷ rs) e = ok r

unfoldable pub tail_target : List Instr → ℕ → ℕ → List ProgRegion → Result CfgError ProgRegion
unfolding is_main last_map_load
tail_target instrs start end progs =
    let callees = filter_b (λ r. not (is_main r)) progs in
    elim callees [
      | [] ↦ err no_callee
      | r ∷ rs ↦ elim (last_map_load instrs start (end - start)) [
        | some map_id ↦ first_or (filter_b (in_map map_id) (r ∷ rs)) map_without_callee
        | none ↦ elim rs [ [] ↦ ok r | _ ∷ _ ↦ err unclear_callee ]
      ]
    ]

module _ (instrs : List Instr) (progs : List ProgRegion) (starts : List ℕ) where
  -- the branch for JA
  unfoldable pub connect_ja : Block → Instr → Graph → Result CfgError Graph
  unfolding edge_taken jump_offset ◌+ℤ◌
  connect_ja b last g = do
    succ ← or_err (start_map starts (target_of b.end (jump_offset last))) assertion_error
    ok (update (edge_taken b.num succ g) b.num (λ c. record c { jump = true }))

  unfoldable pub connect_tail : Block → Graph → Result CfgError Graph
  unfolding edge_taken tail_target
  connect_tail b g = do
    callee ← tail_target instrs b.start b.end progs
    succ ← or_err (index_of callee.start starts) key_error
    ok (edge_taken b.num succ (update g b.num (λ c. record c { branch = true })))

  -- the branch for CALL
  unfoldable pub connect_call : Block → Instr → Graph → Result CfgError Graph
  unfolding edge_fall connect_tail is_tail_call
  connect_call b last g = do
    g' ← if is_tail_call last then connect_tail b g else ok g
    succ ← or_err (index_of (b.end + 1) starts) assertion_error
    ok (edge_fall b.num succ g')

  -- the last branch, for a conditional jump
  unfoldable pub connect_branch : Block → Instr → Graph → Result CfgError Graph
  unfolding edge_taken edge_fall ◌+ℤ◌
  connect_branch b last g = do
    succ ← or_err (start_map starts (target_of b.end last.offset)) jump_target_not_found
    next ← or_err (index_of (b.end + 1) starts) fallthrough_not_found
    if next == b.num + 1
        then ok (
            edge_fall b.num next
              (edge_taken b.num succ (update g b.num (λ c. record c { branch = true }))))
        else err assertion_error

  -- a block whose last instruction is no jump
  unfoldable pub connect_fall : Block → Graph → Result CfgError Graph
  unfolding edge_fall
  connect_fall b g = elim (index_of (b.end + 1) starts) [
    | none ↦ ok g
    | some succ ↦ ok (edge_fall b.num succ g)
  ]

  -- the branches on the operation of a last instruction that jumps
  unfoldable pub connect_jump : Block → Instr → Graph → Result CfgError Graph
  unfolding connect_ja connect_call connect_branch
  connect_jump b last g =
      if last.opcode_code == ja
      then connect_ja b last g
      else if last.opcode_code == call
      then connect_call b last g
      else if last.opcode_code == exit
      then ok (update g b.num (λ c. record c { exit = true }))
      else connect_branch b last g

  -- the body of the second loop
  unfoldable pub connect : Block → Graph → Result CfgError Graph
  unfolding connect_jump connect_fall is_jump
  connect b g = do
    last ← or_err (get_elem? instrs b.end) index_error
    if is_jump last then connect_jump b last g else connect_fall b g

  unfoldable pub connect_all : List Block → Graph → Result CfgError Graph
  unfolding connect
  connect_all [] g = ok g
  connect_all (b ∷ bs) g = connect b g >>= connect_all bs

  -- the last loop: where each program begins
  unfoldable pub enter_regions : List ProgRegion → Graph → Result CfgError (List ProgRegion × Graph)
  enter_regions [] g = ok ([], g)
  enter_regions (r ∷ rs) g = or_err (index_of r.start starts) key_error >>= λ k.
      let region = record r { entry_block = some k } in
      let g' = if k == 0 then g else update g k (λ c. record c { prog_entry = some region }) in
      enter_regions rs g' >>= λ (done, g''). ok (region ∷ done, g'')

pub record Built : Type 0 where
  pub graph : Graph
  pub starts : List ℕ
  pub regions : List ProgRegion

unfoldable pub build_cfg : List Instr → List ProgRegion → Result CfgError Built
unfolding leaders_of sorted_set make_blocks connect_all enter_regions
build_cfg instrs progs =
    let starts = sorted_set (leaders_of instrs progs) in
    let blocks = make_blocks (length instrs) 0 starts in
    let g : Graph = record { blocks = blocks; cfg = replicate (length blocks) [] } in
    connect_all instrs progs starts blocks g >>= λ g'.
    enter_regions instrs progs starts progs g' >>= λ (regions, g'').
    ok (record { graph = g''; starts = starts; regions = regions })
