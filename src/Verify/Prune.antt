-- ===== src/Verify/Prune.antt =====
-- hornet/verify/prune.py without `analyze`: reachable blocks, their order, ancestors and slices.
-- `blocks[b]` outside the list would raise IndexError; the numbers that these functions look up are
-- those of blocks (the edges of a graph lead to blocks), and a missing block has no edges here.
pub mod Reach
pub mod Topo
pub mod Fuel
use hor_net_nsdi.Common.{
  ℕ, zero, suc, ◌+◌, ◌*◌, Bool, true, false, not, ◌&&◌, ◌==◌, ltb, if◌then◌else◌, List, [], ◌∷◌,
  ◌++◌, Option, some, none, get_elem?, length, filter_b,
}
use hor_net_nsdi.Common.Sets.{mem}
use hor_net_nsdi.Common.Result.{Result, ok, err, ◌>>=◌}
use hor_net_nsdi.Bpf.Cfg.{Block}
use hor_net_nsdi.Verify.Worklist.{search, work}

abbrev pub after_taken : Option ℕ → Option ℕ → List ℕ
after_taken succ_t none = []
after_taken none (some f) = f ∷ []
after_taken (some t) (some f) = if f == t then [] else f ∷ []

unfoldable pub successors : Block → List ℕ
successors s = elim s.succ_t [
  | none ↦ after_taken none s.succ_f
  | some t ↦ t ∷ after_taken (some t) s.succ_f
]

abbrev pub succs_at : List Block → ℕ → List ℕ
succs_at blocks b = elim (get_elem? blocks b) [ none ↦ [] | some s ↦ successors s ]

abbrev pub preds_of : List Block → ℕ → List ℕ
preds_of blocks b = elim (get_elem? blocks b) [ none ↦ [] | some s ↦ s.preds ]

-- `not 0 <= b < len(blocks)`
abbrev pub outside : List Block → ℕ → Bool
outside blocks b = not (ltb b (length blocks))

unfoldable pub forward_reachable : List Block → Option (List ℕ)
unfolding search successors work
forward_reachable blocks =
    search (outside blocks) (λ seen b. succs_at blocks b)
      (1 + work (succs_at blocks) (length blocks) []) (0 ∷ []) []

-- `_slice_to`
unfoldable pub slice_to : List Block → List ℕ → ℕ → Option (List ℕ)
unfolding search work mem
slice_to blocks live target =
    search (λ b. false) (λ bwd b. filter_b (λ p. mem p live && not (mem p bwd)) (preds_of blocks b))
      (1 + work (preds_of blocks) (length blocks) []) (target ∷ []) []

-- An item of the stack of `topo_order`: `enter b` is (b, False) and `leave b` is (b, True).
pub data Visit : Type 0 where
  enter leave : ℕ → Visit

pub data TopoError : Type 0 where
  cycle_detected : ℕ → TopoError
  not_covered out_of_fuel : TopoError

-- `color[b] = k`
abbrev pub paint : (ℕ → ℕ) → ℕ → ℕ → ℕ → ℕ
paint color b k x = if x == b then k else color x

-- `for u in successors(blocks[b])`
unfoldable pub push_succs : List ℕ → (ℕ → ℕ) → List ℕ → List Visit → Result TopoError (List Visit)
unfolding mem
push_succs live color [] stack = ok stack
push_succs live color (u ∷ us) stack =
    let skipped = push_succs live color us stack in
    let pushed = push_succs live color us (enter u ∷ stack) in
    if mem u live
    then if color u == 1 then err (cycle_detected u) else if color u == 2 then skipped else pushed
    else skipped

-- The `while` loop. `order` has the last block appended first, so at the end it is reversed.
unfoldable pub topo_loop :
    List Block → List ℕ → ℕ → List Visit → (ℕ → ℕ) → List ℕ → Result TopoError (List ℕ)
unfolding push_succs successors ◌>>=◌
topo_loop blocks live fuel [] color order = ok order
topo_loop blocks live zero (v ∷ stack) color order = err out_of_fuel
topo_loop blocks live (suc fuel) (leave b ∷ stack) color order =
    topo_loop blocks live fuel stack (paint color b 2) (b ∷ order)
topo_loop blocks live (suc fuel) (enter b ∷ stack) color order = elim (color b == 0) [
  | false ↦ topo_loop blocks live fuel stack color order
  | true ↦ push_succs live (paint color b 1) (succs_at blocks b) (leave b ∷ stack) >>= λ stack'.
      topo_loop blocks live fuel stack' (paint color b 1) order
]

unfoldable pub topo_order : List Block → List ℕ → Result TopoError (List ℕ)
unfolding topo_loop work
topo_order blocks live =
    topo_loop blocks live (2 * length blocks + 1 + work (succs_at blocks) (length blocks) [])
      (enter 0 ∷ []) (λ b. 0) []
    >>= λ order. if length order == length live then ok order else err not_covered

-- `anc`, with the newest key first
abbrev pub anc_of : List (ℕ × List ℕ) → ℕ → Option (List ℕ)
anc_of [] b = none
anc_of ((k, s) ∷ anc) b = if k == b then some s else anc_of anc b

-- The ancestors of one block: each predecessor that has an entry, with that entry.
abbrev pub gather : List (ℕ × List ℕ) → List ℕ → List ℕ
gather anc [] = []
gather anc (p ∷ ps) = elim (anc_of anc p) [ none ↦ gather anc ps | some s ↦ p ∷ s ++ gather anc ps ]

unfoldable pub ancestors_from : List Block → List ℕ → List (ℕ × List ℕ) → List (ℕ × List ℕ)
ancestors_from blocks [] anc = anc
ancestors_from blocks (b ∷ order) anc =
    ancestors_from blocks order ((b, gather anc (preds_of blocks b)) ∷ anc)

unfoldable pub ancestors : List Block → List ℕ → List (ℕ × List ℕ)
unfolding ancestors_from
ancestors blocks order = ancestors_from blocks order []
