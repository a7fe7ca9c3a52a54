-- ===== src/Bpf/Maps.antt =====
-- hornet/bpf/link.py, `_map_key` and `_merge_maps`: the maps of all loaded objects, numbered once.
-- A map's dictionary is a record of the entries that the linker reads; a missing or empty name is
-- `none`.
pub mod Merged
use text.Mathlib.Text.{◌==◌ as str_eq}
use hor_net_nsdi.Common.{
  ℕ, Bool, true, false, ◌&&◌, ◌==◌, if◌then◌else◌, List, [], ◌∷◌, ◌++◌, Option, some, none, String,
  get_elem?, length,
}
use hor_net_nsdi.Common.Result.{Result, ok, err, ◌>>=◌, or_err}

pub record MapInfo : Type 0 where
  pub id : ℕ
  pub name : Option String
  pub type : ℕ
  pub key_size : ℕ
  pub value_size : ℕ
  pub max_entries : ℕ

pub record Load : Type 0 where
  pub path : String
  pub maps : List MapInfo

pub data LinkKey : Type 0 where
  named : String → LinkKey
  anonymous : (path : String) (id : ℕ) → LinkKey

pub data LinkError : Type 0 where
  declared_differently index_error : LinkError
  wrong_count chained_tail_call not_first no_instructions falls_out : LinkError
  not_prog_array no_such_map no_prog_array which_prog_array same_prog_array : LinkError

unfoldable pub map_key : MapInfo → String → LinkKey
map_key info path = elim info.name [ some name ↦ named name | none ↦ anonymous path info.id ]

unfoldable pub same_key : LinkKey → LinkKey → Bool
same_key (named a) (named b) = str_eq a b
same_key (anonymous p i) (anonymous q j) = str_eq p q && i == j
same_key _ _ = false

-- `index.get(key)`, with the newest entry first
unfoldable pub find : List (LinkKey × ℕ) → LinkKey → Option ℕ
unfolding same_key
find [] key = none
find ((k, hit) ∷ index) key = if same_key k key then some hit else find index key

-- `remap.get(id)`, with the newest entry first
unfoldable pub renumbered : List (ℕ × ℕ) → ℕ → Option ℕ
renumbered [] id = none
renumbered ((i, k) ∷ remap) id = if i == id then some k else renumbered remap id

unfoldable pub same_geometry : MapInfo → MapInfo → Bool
same_geometry a b =
    (a.type == b.type)
    && ((a.key_size == b.key_size)
        && ((a.value_size == b.value_size) && (a.max_entries == b.max_entries)))

pub record Merge : Type 0 where
  pub merged : List MapInfo
  pub index : List (LinkKey × ℕ)
  pub remap : List (ℕ × ℕ)

-- a map that was not seen
unfoldable pub add_map : MapInfo → LinkKey → Merge → Merge
add_map info key s =
    let id = length s.merged in
    record {
      merged = s.merged ++ record info { id = id } ∷ [];
      index = (key, id) ∷ s.index;
      remap = (info.id, id) ∷ s.remap;
    }

-- a map that stands at `hit`
unfoldable pub reuse_map : MapInfo → ℕ → Merge → Result LinkError Merge
unfolding same_geometry or_err ◌>>=◌
reuse_map info hit s = do
  have ← or_err (get_elem? s.merged hit) index_error
  if same_geometry have info
      then ok (record s { remap = (info.id, hit) ∷ s.remap })
      else err declared_differently

-- the body of the inner loop
unfoldable pub merge_map : String → MapInfo → Merge → Result LinkError Merge
unfolding map_key find add_map reuse_map
merge_map path info s = elim (find s.index (map_key info path)) [
  | none ↦ ok (add_map info (map_key info path) s)
  | some hit ↦ reuse_map info hit s
]

unfoldable pub merge_load : String → List MapInfo → Merge → Result LinkError Merge
unfolding merge_map ◌>>=◌
merge_load path [] s = ok s
merge_load path (info ∷ maps) s = merge_map path info s >>= merge_load path maps

-- the outer loop: the merged maps, and what each load is renumbered by
unfoldable pub merge_loads :
    List Load
    → List MapInfo
    → List (LinkKey × ℕ)
    → Result LinkError (List MapInfo × List (List (ℕ × ℕ)))
unfolding merge_load ◌>>=◌
merge_loads [] merged index = ok (merged, [])
merge_loads (load ∷ loads) merged index =
    merge_load load.path load.maps (record { merged = merged; index = index; remap = [] }) >>= λ s.
    merge_loads loads s.merged s.index >>= λ (all, remaps). ok (all, s.remap ∷ remaps)

unfoldable pub merge_maps : List Load → Result LinkError (List MapInfo × List (List (ℕ × ℕ)))
unfolding merge_loads
merge_maps loads = merge_loads loads [] []
