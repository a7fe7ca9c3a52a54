-- ===== src/Track/Order.antt =====
-- hornet/bpf/cfg.py, `get_next_block_no`, and the loop of hornet/track/tracker.py, `Tracker.track`:
-- the order in which the blocks are tracked. `untraced` is a list, in the order that Python iterates
-- the set; `none` is the exit of a set in which no block is ready.
pub mod Ready
use hor_net_nsdi.Common.{
  ℕ, zero, suc, Bool, true, false, not, ◌==◌, if◌then◌else◌, List, [], ◌∷◌, Option, some, none,
  all_b, filter_b, length, range_from,
}
use hor_net_nsdi.Common.Sets.{mem, discard}
use hor_net_nsdi.Bpf.Cfg.{Block}
use hor_net_nsdi.Verify.Prune.{preds_of}

-- `all(p not in untraced for p in blocks[item].preds)`
unfoldable pub is_ready : List Block → List ℕ → ℕ → Bool
unfolding mem
is_ready blocks untraced item = all_b (λ p. not (mem p untraced)) (preds_of blocks item)

-- the loop over the items
unfoldable pub next_from : List Block → List ℕ → List ℕ → Option ℕ
unfolding is_ready
next_from blocks untraced [] = none
next_from blocks untraced (item ∷ items) =
    if is_ready blocks untraced item then some item else next_from blocks untraced items

abbrev pub next_block_no : List Block → List ℕ → Option ℕ
next_block_no blocks untraced = next_from blocks untraced untraced

abbrev in_front : ℕ → Option (List ℕ) → Option (List ℕ)
in_front target none = none
in_front target (some order) = some (target ∷ order)

-- the `while` loop: the blocks that it tracks, in order
unfoldable pub track_all : List Block → ℕ → List ℕ → Option (List ℕ)
unfolding next_from
track_all blocks fuel [] = some []
track_all blocks zero (b ∷ untraced) = none
track_all blocks (suc fuel) (b ∷ untraced) = elim (next_block_no blocks (b ∷ untraced)) [
  | none ↦ none
  | some target ↦ in_front target (track_all blocks fuel (discard target (b ∷ untraced)))
]
