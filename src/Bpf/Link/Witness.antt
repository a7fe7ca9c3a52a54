-- ===== src/Bpf/Link/Witness.antt =====
-- A main program with two prog arrays, and a callee for each. The first callee refers to a map of the
-- main program by another number.
use hor_net_nsdi.Common.{
  ℕ, ◌≡◌, ◌≢◌, refl, true, false, List, [], ◌∷◌, Option, some, none, get_elem?, length, arith, ◌+◌,
  map, String,
}
use hor_net_nsdi.Common.Result.{Result, ok, err, ◌>>=◌, or_err}
use hor_net_nsdi.Bpf.Codes.{jmp, ld, exit}
use hor_net_nsdi.Bpf.Instr.{Instr, nop_instr, map_tag}
use hor_net_nsdi.Bpf.Region.{ProgRegion}
use hor_net_nsdi.Bpf.Maps.{MapInfo, LinkError}
use hor_net_nsdi.Bpf.Maps.Merged.{IsCopy, IsFrom}
use hor_net_nsdi.Bpf.Globals.{Globals, no_rodata, merge_globals}
use hor_net_nsdi.Bpf.Globals.Laid.{StandsAt, merge_globals-StandsAt}
use hor_net_nsdi.Bpf.Link.{Object, Program, TailSpec, link}
use hor_net_nsdi.Bpf.Link.Joined.Placed.{Tiled}
use hor_net_nsdi.Bpf.Link.Whole.{IsLaidOut, link-Tiled, link-IsLaidOut, link-map_tag}
use hor_net_nsdi.Bpf.Link.Places.{IsChosen, link-IsChosen, link-distinct}

abbrev leave : ℕ → Instr
leave idx = record (nop_instr idx 0) { nop = false; opcode_class = some jmp; opcode_code = exit }

-- a load of the address of a map
abbrev fetch : ℕ → ℕ → Instr
fetch idx id = record (nop_instr idx 0) {
  nop = false;
  opcode_class = some ld;
  relocated = true;
  reloc_tag = some (map_tag id);
}

abbrev array : ℕ → String → ℕ → MapInfo
array id name type = record {
  id = id;
  name = some name;
  type = type;
  key_size = 4;
  value_size = 4;
  max_entries = 8;
}

abbrev globals : String → List ℕ → Globals
globals entry bytes = record {
  entry = entry;
  bss = ("hits", record { size = 8; offset = 0 }) ∷ [];
  rodata = record {
    data_bytes = bytes;
    section_idx = some 5;
    syms = ("limit", record { size = 2; offset = 1 }) ∷ [];
  };
}

abbrev main : Object
main = record {
  load = record { path = "main.o"; maps = array 0 "jmp" 3 ∷ array 1 "next" 3 ∷ [] };
  globals = globals "main" (1 ∷ 2 ∷ 3 ∷ []);
  entry_idx = 0;
  instrs = fetch 0 0 ∷ leave 1 ∷ [];
}

abbrev first : Object
first = record {
  load = record { path = "first.o"; maps = array 0 "flows" 1 ∷ array 1 "next" 3 ∷ [] };
  globals = globals "first" (4 ∷ 5 ∷ []);
  entry_idx = 0;
  instrs = fetch 0 1 ∷ leave 1 ∷ [];
}

abbrev second : Object
second = record {
  load = record { path = "second.o"; maps = [] };
  globals = record { entry = "second"; bss = []; rodata = no_rodata };
  entry_idx = 0;
  instrs = leave 0 ∷ [];
}

abbrev objects : List Object
objects = main ∷ first ∷ second ∷ []

abbrev tail_of : String → String → TailSpec
tail_of entry name = record { path = "x.o"; entry = entry; map_name = some name; slot = some 0 }

abbrev tails : List TailSpec
tails = tail_of "first" "jmp" ∷ tail_of "second" "next" ∷ []

abbrev program_of : Result LinkError Program → Program
program_of (ok q) = q
program_of (err e) = record { instrs = []; maps = []; rodata = no_rodata; bss = []; progs = [] }

abbrev linked : Program
linked = program_of (link objects tails)

linked_lem : link objects tails ≡ ok linked
unfolding link ◌>>=◌ or_err
linked_lem = refl

linked_spans : map (λ r. r.start) linked.progs ≡ 0 ∷ 2 ∷ 4 ∷ []
unfolding link ◌>>=◌ or_err
linked_spans = refl

abbrev nowhere : ProgRegion
nowhere = record {
  name = "";
  path = "";
  start = 0;
  end = 0;
  slot = none;
  map_id = none;
  entry_block = none;
}

abbrev or_nowhere : Option ProgRegion → ProgRegion
or_nowhere none = nowhere
or_nowhere (some r) = r

region_at : get_elem? linked.progs 1 ≡ some (or_nowhere (get_elem? linked.progs 1))
unfolding link ◌>>=◌ or_err
region_at = refl

next_region_at : get_elem? linked.progs 2 ≡ some (or_nowhere (get_elem? linked.progs 2))
unfolding link ◌>>=◌ or_err
next_region_at = refl

link-Tiled_example : Tiled 0 linked.progs (length linked.instrs)
link-Tiled_example = link-Tiled objects tails linked linked_lem

link-IsLaidOut_example : IsLaidOut objects linked 1 first 1 (leave 1)
link-IsLaidOut_example =
    link-IsLaidOut objects tails linked 1 first 1 (leave 1) linked_lem refl refl

link-map_tag_example :
    (region : ProgRegion) × (instr : Instr) × (k : ℕ) × (copied : MapInfo) × (get_elem? linked.progs
        1
      ≡ some region)
    × (get_elem? linked.instrs (region.start + 0) ≡ some instr)
    × (instr.reloc_tag ≡ some (map_tag k))
    × (copied.id ≡ 1)
    × IsFrom first.load.maps copied
    × IsCopy linked.maps copied k
link-map_tag_example =
    link-map_tag objects tails linked 1 first 0 (fetch 0 1) 1 (array 1 "next" 3) linked_lem refl
      refl refl refl refl refl

link-IsChosen_example :
    (region : ProgRegion) × (id : ℕ) × (get_elem? linked.progs 2 ≡ some region)
    × (region.slot ≡ some 0)
    × (region.map_id ≡ some id)
    × IsChosen linked.maps (some "next") id
link-IsChosen_example =
    link-IsChosen objects tails linked 1 (tail_of "second" "next") linked_lem refl

link-distinct_example :
    (or_nowhere (get_elem? linked.progs 2)).map_id ≢ (or_nowhere (get_elem? linked.progs 1)).map_id
link-distinct_example =
    link-distinct objects tails linked 0 1 (or_nowhere (get_elem? linked.progs 1))
      (or_nowhere (get_elem? linked.progs 2)) linked_lem (omega arith) region_at next_region_at

merge_globals-StandsAt_example :
    (base : ℕ) × (get_elem? (merge_globals (main.globals ∷ first.globals ∷ [])).bases 1 ≡ some base)
    × StandsAt (4 ∷ 5 ∷ []) base (merge_globals (main.globals ∷ first.globals ∷ [])).blob
merge_globals-StandsAt_example =
    merge_globals-StandsAt (main.globals ∷ first.globals ∷ []) 1 first.globals refl
