-- ===== src/Bpf/Link.antt =====
-- hornet/bpf/link.py: `_retag`, `_prog_array_id` and `link`, the joining of a main program and the
-- programs it calls in tail position. The .rodata offset of an instruction that refers to .rodata
-- is always set by the loader.
pub mod Joined
pub mod Whole
pub mod Places
mod Witness
use text.Mathlib.Text.{◌==◌ as str_eq}
use hor_net_nsdi.Common.{
  ℕ, zero, suc, ◌+◌, ◌-◌, Bool, true, false, ◌&&◌, not, ◌==◌, if◌then◌else◌, List, [], ◌∷◌, ◌++◌,
  Option, some, none, String, get_elem?, is_empty, length, filter_b, map, any_b,
}
use hor_net_nsdi.Common.Int.{ℤ, pos, ◌+ℤ◌}
use hor_net_nsdi.Common.Result.{Result, ok, err, ◌>>=◌, or_err}
use hor_net_nsdi.Bpf.Instr.{Instr, Tag, map_tag, bss_tag, rodata_tag, is_exit, is_tail_call}
use hor_net_nsdi.Bpf.Region.{ProgRegion}
use hor_net_nsdi.Bpf.Maps.{
  MapInfo, Load, LinkError, renumbered, merge_maps, index_error, wrong_count, chained_tail_call,
  not_first, no_instructions, falls_out, not_prog_array, no_such_map, no_prog_array,
  which_prog_array, same_prog_array,
}
use hor_net_nsdi.Bpf.Globals.{
  Sym, Rodata, Globals, MergedGlobals, renamed, rodata_of, merge_globals,
}

pub record TailSpec : Type 0 where
  pub path : String
  pub entry : String
  pub map_name : Option String
  pub slot : Option ℕ

-- What `link` reads of a loaded object.
pub record Object : Type 0 where
  pub load : Load
  pub globals : Globals
  pub entry_idx : ℕ
  pub instrs : List Instr

-- `map_remap.get(tag, tag)`
abbrev pub retag_map : List (ℕ × ℕ) → Option Tag → Option Tag
retag_map remap (some (map_tag id)) = elim (renumbered remap id) [
  | none ↦ some (map_tag id)
  | some k ↦ some (map_tag k)
]
retag_map remap tag = tag

-- `bss_rename.get(tag, tag)`
abbrev pub retag_bss : List (String × String) → Option Tag → Option Tag
retag_bss rename (some (bss_tag (some name))) = some (bss_tag (some (renamed rename name)))
retag_bss rename tag = tag

abbrev pub shift : ℕ → Option ℤ → Option ℤ
shift base none = none
shift base (some offset) = some (offset +ℤ pos base)

-- the body of the loop of `_retag`
unfoldable pub retag : List (ℕ × ℕ) → List (String × String) → ℕ → Instr → Instr
unfolding renumbered renamed
retag remap rename base i =
    if not i.relocated
    then i
    else if i.reloc_region == 0
    then record i { reloc_tag = retag_map remap i.reloc_tag }
    else if i.reloc_region == 1
    then record i { reloc_tag = retag_bss rename i.reloc_tag }
    else if (i.reloc_region == 2) && not (base == 0)
    then record i { rodata_offset = shift base i.rodata_offset }
    else i

-- `instr.idx = base + instr.idx`, after `_retag`
unfoldable pub move_instr : ℕ → List (ℕ × ℕ) → List (String × String) → ℕ → Instr → Instr
unfolding retag
move_instr start remap rename base i = record (retag remap rename base i) {
  idx = start + (retag remap rename base i).idx;
}

-- `m['type'] == BPF_MAP_TYPE_PROG_ARRAY`
abbrev pub is_prog_array : MapInfo → Bool
is_prog_array m = m.type == 3

abbrev pub has_name : String → MapInfo → Bool
has_name want m = elim m.name [ none ↦ false | some name ↦ str_eq name want ]

-- the first map that has the name
unfoldable pub first_named : String → List MapInfo → Option MapInfo
first_named want [] = none
first_named want (m ∷ maps) = if has_name want m then some m else first_named want maps

-- the only prog array
abbrev pub only_one : List MapInfo → Result LinkError ℕ
only_one [] = err no_prog_array
only_one (m ∷ []) = ok m.id
only_one (m ∷ n ∷ maps) = err which_prog_array

abbrev pub otherwise_named : Option MapInfo → Result LinkError ℕ
otherwise_named none = err no_such_map
otherwise_named (some m) = err not_prog_array

unfoldable pub prog_array_id : List MapInfo → Option String → Result LinkError ℕ
unfolding first_named
prog_array_id maps none = only_one (filter_b is_prog_array maps)
prog_array_id maps (some want) = elim (first_named want (filter_b is_prog_array maps)) [
  | some m ↦ ok m.id
  | none ↦ otherwise_named (first_named want maps)
]

-- the checks on the loads behind the first
unfoldable pub check_callees : List Object → Result LinkError (Unit {0})
unfolding is_tail_call
check_callees [] = ok tt
check_callees (o ∷ objects) =
    if any_b is_tail_call o.instrs
    then err chained_tail_call
    else if not (o.entry_idx == 0)
    then err not_first
    else check_callees objects

-- What the loop over the loads reads: the merged maps, how each load is retagged, and the tails.
pub record Plan : Type 0 where
  pub maps : List MapInfo
  pub remaps : List (List (ℕ × ℕ))
  pub renames : List (List (String × String))
  pub bases : List ℕ
  pub tails : List TailSpec

unfoldable pub last_instr : List Instr → Option Instr
last_instr [] = none
last_instr (i ∷ []) = some i
last_instr (i ∷ j ∷ instrs) = last_instr (j ∷ instrs)

-- the slot and the map of the i-th program
unfoldable pub place_of : Plan → ℕ → Result LinkError (Option ℕ × Option ℕ)
unfolding prog_array_id ◌>>=◌ or_err
place_of p zero = ok (none, none)
place_of p (suc i) = do
  tail ← or_err (get_elem? p.tails i) index_error
  id ← prog_array_id p.maps tail.map_name
  ok (tail.slot, some id)

-- control may not fall out of a program into the next
unfoldable pub check_end : Bool → Instr → Result LinkError (Unit {0})
unfolding is_exit
check_end is_last i = if not is_last && not (is_exit i) then err falls_out else ok tt

unfoldable pub region_for : Object → ℕ → Option ℕ × Option ℕ → ProgRegion
region_for o start (slot, map_id) = record {
  name = o.globals.entry;
  path = o.load.path;
  start = start;
  end = start + length o.instrs - 1;
  slot = slot;
  map_id = map_id;
  entry_block = none;
}

pub record Linked : Type 0 where
  pub instrs : List Instr
  pub progs : List ProgRegion

-- the body of the loop over the loads
unfoldable pub add_program : Plan → ℕ → Bool → Object → Linked → Result LinkError Linked
unfolding last_instr check_end move_instr place_of region_for ◌>>=◌ or_err
add_program p i is_last o s = do
  last ← or_err (last_instr o.instrs) no_instructions
  _ ← check_end is_last last
  remap ← or_err (get_elem? p.remaps i) index_error
  rename ← or_err (get_elem? p.renames i) index_error
  base ← or_err (get_elem? p.bases i) index_error
  place ← place_of p i
  ok (record {
    instrs = s.instrs ++ map (move_instr (length s.instrs) remap rename base) o.instrs;
    progs = s.progs ++ region_for o (length s.instrs) place ∷ [];
  })

unfoldable pub add_programs : Plan → ℕ → List Object → Linked → Result LinkError Linked
unfolding add_program ◌>>=◌
add_programs p i [] s = ok s
add_programs p i (o ∷ objects) s =
    add_program p i (is_empty objects) o s >>= add_programs p (suc i) objects

abbrev pub same_id : Option ℕ → Option ℕ → Bool
same_id none none = true
same_id (some a) (some b) = a == b
same_id _ _ = false

-- the loop over `progs[1:]`: no prog array is claimed twice
unfoldable pub check_claims : List ProgRegion → List (Option ℕ) → Result LinkError (Unit {0})
check_claims [] claimed = ok tt
check_claims (r ∷ progs) claimed =
    if any_b (same_id r.map_id) claimed
    then err same_prog_array
    else check_claims progs (r.map_id ∷ claimed)

pub record Program : Type 0 where
  pub instrs : List Instr
  pub maps : List MapInfo
  pub rodata : Rodata
  pub bss : List (String × Sym)
  pub progs : List ProgRegion

abbrev pub behind_first : List ProgRegion → List ProgRegion
behind_first [] = []
behind_first (r ∷ progs) = progs

-- the loads once they are known to be one more than the tails
unfoldable pub link_all : Object → List Object → List TailSpec → Result LinkError Program
unfolding check_callees merge_maps merge_globals rodata_of add_programs check_claims ◌>>=◌
link_all main callees tails = do
  _ ← check_callees callees
  (maps, remaps) ← merge_maps (map (λ o. o.load) (main ∷ callees))
  let g = merge_globals (map (λ o. o.globals) (main ∷ callees))
  let plan : Plan = record {
    maps = maps;
    remaps = remaps;
    renames = g.renames;
    bases = g.bases;
    tails = tails;
  }
  s ← add_programs plan 0 (main ∷ callees) (record { instrs = []; progs = [] })
  _ ← check_claims (behind_first s.progs) []
  ok (record {
    instrs = s.instrs;
    maps = maps;
    rodata = rodata_of main.globals.rodata.section_idx g.blob g.syms;
    bss = g.bss;
    progs = s.progs;
  })

unfoldable pub link : List Object → List TailSpec → Result LinkError Program
unfolding link_all
link [] tails = err index_error
link (main ∷ callees) tails =
    if not (length callees == length tails) then err wrong_count else link_all main callees tails
