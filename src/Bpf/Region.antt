-- ===== src/Bpf/Region.antt =====
-- hornet/bpf/link.py, `ProgRegion` and `region_of`: the instructions of one linked program.
use hor_net_nsdi.Common.{
  ℕ, Bool, true, false, ◌&&◌, leb, if◌then◌else◌, List, [], ◌∷◌, Option, some, none, String,
}

pub record ProgRegion : Type 0 where
  pub name : String
  pub path : String
  pub start : ℕ
  pub end : ℕ
  pub slot : Option ℕ
  pub map_id : Option ℕ
  pub entry_block : Option ℕ

unfoldable pub is_main : ProgRegion → Bool
is_main r = elim r.slot [ none ↦ elim r.map_id [ none ↦ true | some _ ↦ false ] | some _ ↦ false ]

unfoldable pub contains : ProgRegion → ℕ → Bool
contains r idx = leb r.start idx && leb idx r.end

unfoldable pub region_of : List ProgRegion → ℕ → Option ProgRegion
unfolding contains
region_of [] idx = none
region_of (r ∷ rs) idx = if contains r idx then some r else region_of rs idx
