-- ===== src/Bpf/Globals.antt =====
-- hornet/bpf/link.py, `_merge_globals`: the .bss and .rodata objects of all loaded programs. A
-- dictionary of symbols is an association list in insertion order; the 'data' and 'section_idx' of
-- a .rodata dictionary are fields of their own.
pub mod Laid
use Prim.Native.String.{String, ◌++◌ as str_append}
use text.Mathlib.Text.{◌==◌ as str_eq}
use hor_net_nsdi.Common.{
  ℕ, ◌+◌, ◌-◌, ◌%◌, Bool, true, false, ◌==◌, if◌then◌else◌, List, [], ◌∷◌, ◌++◌, Option, some, none,
  length, replicate,
}

pub record Sym : Type 0 where
  pub size : ℕ
  pub offset : ℕ

pub record Rodata : Type 0 where
  pub data_bytes : List ℕ
  pub section_idx : Option ℕ
  pub syms : List (String × Sym)

-- `{}`
abbrev pub no_rodata : Rodata
no_rodata = record { data_bytes = []; section_idx = none; syms = [] }

-- `symbols.get(name)`
unfoldable pub sym_of : List (String × Sym) → String → Option Sym
sym_of [] name = none
sym_of ((n, s) ∷ symbols) name = if str_eq n name then some s else sym_of symbols name

-- `symbols[name] = sym`
unfoldable pub put_sym : String → Sym → List (String × Sym) → List (String × Sym)
put_sym name sym [] = (name, sym) ∷ []
put_sym name sym ((n, s) ∷ symbols) =
    if str_eq n name then (n, sym) ∷ symbols else (n, s) ∷ put_sym name sym symbols

-- `rename.get(name, name)`
unfoldable pub renamed : List (String × String) → String → String
renamed [] name = name
renamed ((n, new) ∷ rename) name = if str_eq n name then new else renamed rename name

-- f"{load['entry']}." + name
abbrev pub prefixed : String → String → String
prefixed entry name = str_append entry (str_append "." name)

-- one .bss symbol: shared, added, or added under a prefixed name where the sizes differ
unfoldable pub merge_bss_sym :
    String
    → String
    → Sym
    → List (String × Sym) × List (String × String)
    → List (String × Sym) × List (String × String)
unfolding sym_of put_sym
merge_bss_sym entry name sym (bss, rename) = elim (sym_of bss name) [
  | none ↦ (put_sym name sym bss, rename)
  | some have ↦
      if have.size == sym.size
      then (bss, rename)
      else (put_sym (prefixed entry name) sym bss, (name, prefixed entry name) ∷ rename)
]

unfoldable pub merge_bss :
    String
    → List (String × Sym)
    → List (String × Sym) × List (String × String)
    → List (String × Sym) × List (String × String)
unfolding merge_bss_sym
merge_bss entry [] s = s
merge_bss entry ((name, sym) ∷ symbols) s = merge_bss entry symbols (merge_bss_sym entry name sym s)

-- the name a .rodata symbol goes by
unfoldable pub rodata_name : String → String → List (String × Sym) → String
unfolding sym_of
rodata_name entry name rodata = elim (sym_of rodata name) [
  | none ↦ name
  | some _ ↦ prefixed entry name
]

-- the .rodata symbols of a load whose data stands at `base`
unfoldable pub merge_rodata :
    String → ℕ → List (String × Sym) → List (String × Sym) → List (String × Sym)
unfolding rodata_name put_sym
merge_rodata entry base [] rodata = rodata
merge_rodata entry base ((name, sym) ∷ symbols) rodata = merge_rodata entry base symbols (
    put_sym (rodata_name entry name rodata) (record { size = sym.size; offset = sym.offset + base })
      rodata)

-- zeros up to a multiple of 8
unfoldable pub pad : List ℕ → List ℕ
pad blob = if length blob % 8 == 0 then blob else blob ++ replicate (8 - length blob % 8) 0

unfoldable pub add_data : List ℕ → List ℕ → List ℕ
unfolding pad
add_data blob [] = blob
add_data blob (b ∷ bytes) = pad (blob ++ b ∷ bytes)

-- What `_merge_globals` reads of a load.
pub record Globals : Type 0 where
  pub entry : String
  pub bss : List (String × Sym)
  pub rodata : Rodata

pub record MergedGlobals : Type 0 where
  pub bss : List (String × Sym)
  pub syms : List (String × Sym)
  pub blob : List ℕ
  pub renames : List (List (String × String))
  pub bases : List ℕ

-- the loop over the loads
unfoldable pub merge_globals_from :
    List Globals → List (String × Sym) → List (String × Sym) → List ℕ → MergedGlobals
unfolding merge_bss merge_rodata add_data
merge_globals_from [] bss syms blob = record {
  bss = bss;
  syms = syms;
  blob = blob;
  renames = [];
  bases = [];
}
merge_globals_from (load ∷ loads) bss syms blob =
    let merged = merge_bss load.entry load.bss (bss, []) in
    let rest =
      merge_globals_from loads merged.0
        (merge_rodata load.entry (length blob) load.rodata.syms syms)
        (add_data blob load.rodata.data_bytes) in
    record rest { renames = merged.1 ∷ rest.renames; bases = length blob ∷ rest.bases }

-- the dictionary of the merged .rodata; it stays empty where there is nothing in it
unfoldable pub rodata_of : Option ℕ → List ℕ → List (String × Sym) → Rodata
rodata_of first [] [] = no_rodata
rodata_of first blob syms = record { data_bytes = blob; section_idx = first; syms = syms }

unfoldable pub merge_globals : List Globals → MergedGlobals
unfolding merge_globals_from
merge_globals loads = merge_globals_from loads [] [] []
