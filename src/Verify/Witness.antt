-- ===== src/Verify/Witness.antt =====
-- A diamond of four blocks: block 0 branches to 1 and 2, and both fall through to 3.
use hor_net_nsdi.Common.{
  ◌==◌, if◌then◌else◌, ◌<◌, ◌≡◌, ◌≢◌, ◌↔◌, refl, true, List, [], ◌∷◌, some, length, arith,
}
use hor_net_nsdi.Common.Sets.{mem}
use hor_net_nsdi.Common.Result.{ok, err, ◌>>=◌, or_err}
use hor_net_nsdi.Bpf.Cfg.{Block, new_block, build_cfg}
use hor_net_nsdi.Verify.Prune.{forward_reachable, slice_to, topo_order, out_of_fuel}
use hor_net_nsdi.Verify.Prune.Reach.{Forward, Backward, forward_reachable_lem, slice_to_lem}
use hor_net_nsdi.Verify.Prune.Topo.{IsLinear, topo_order-IsLinear}
use hor_net_nsdi.Common.{ℕ, Bool, true, false, ◌&&◌, not, any_b, Option, none}
use hor_net_nsdi.Common.Result.{Result}
use hor_net_nsdi.Bpf.Witness.{program, built, returned}
use hor_net_nsdi.Bpf.Cfg.Edges.{build_cfg-HasEdges}
use hor_net_nsdi.Verify.Prune.{TopoError}
use hor_net_nsdi.Verify.Guard.{Logic, Guard, term}
use hor_net_nsdi.Verify.Analyze.{BlockInfo, analyze}
use hor_net_nsdi.Verify.Analyze.Paths.{IsPathExact, analyze-IsPathExact}
use hor_net_nsdi.Common.Int.{pos}
use hor_net_nsdi.Track.Expr.{
  MaybeExpr, absent, present, ingress_ifindex, num_of, rx_queue_index, pkt_val,
}
use hor_net_nsdi.Verify.Regions.{
  pkt_region, map_region, rx_region, has_region, Action, map_write, pkt_write, Trees, leaf,
  more_trees, no_tree, map_atom,
}
use hor_net_nsdi.Verify.Regions.Slice.{TracedBlock, relevant_regions}
use hor_net_nsdi.Verify.Regions.Fold.{Touches, is_memory, fold_eligible_regions}
use hor_net_nsdi.Verify.Regions.Fold.Eligible.{block_varies, fold_eligible_regions_lem}
use hor_net_nsdi.Verify.Prune.Fuel.{topo_order-in_time}

abbrev diamond : List Block
diamond =
    record (new_block 0 0 0) { succ_t = some 2; succ_f = some 1 }
    ∷ record (new_block 1 1 1) { succ_t = some 3; preds = 0 ∷ [] }
    ∷ record (new_block 2 2 2) { succ_f = some 3; preds = 0 ∷ [] }
    ∷ record (new_block 3 3 3) { preds = 1 ∷ 2 ∷ [] }
    ∷ []

abbrev all_four : List ℕ
all_four = 3 ∷ 1 ∷ 2 ∷ 0 ∷ []

topo_order-diamond : topo_order diamond all_four ≡ ok (0 ∷ 2 ∷ 1 ∷ 3 ∷ [])
unfolding topo_order ◌>>=◌
topo_order-diamond = refl

four_inside : (b : ℕ) → mem b all_four ≡ true → b < length diamond
unfolding mem
four_inside b m = ground arith

topo_order-IsLinear_example : IsLinear diamond all_four (0 ∷ 2 ∷ 1 ∷ 3 ∷ [])
unfolding mem
topo_order-IsLinear_example =
    topo_order-IsLinear diamond all_four (0 ∷ 2 ∷ 1 ∷ 3 ∷ []) refl topo_order-diamond

topo_order-in_time_example : topo_order diamond all_four ≢ err out_of_fuel
unfolding mem
topo_order-in_time_example = topo_order-in_time diamond all_four refl four_inside

forward_reachable_lem_example :
    (live : List ℕ) × (forward_reachable diamond ≡ some live)
    × ((b : ℕ) → (mem b live ≡ true) ↔ Forward diamond b)
forward_reachable_lem_example = forward_reachable_lem diamond

slice_to_lem_example :
    (bwd : List ℕ) × (slice_to diamond all_four 1 ≡ some bwd)
    × ((b : ℕ) → (mem b bwd ≡ true) ↔ Backward diamond all_four 1 b)
slice_to_lem_example = slice_to_lem diamond all_four 1 four_inside (omega arith)

-- Terms as tests of a valuation of numbered variables.
abbrev toy : Logic
toy = record {
  Term = (ℕ → Bool) → Bool;
  Model = ℕ → Bool;
  truth = λ m t. t m;
  and_t = λ a b m. a m && b m;
  or_t = λ ts m. any_b (λ t. t m) ts;
  not_t = λ a m. not (a m);
  branch_taken = λ n m. m n;
  simplify = λ a. a;
  is_true = λ a. false;
  is_false = λ a. false;
  and_lem = λ m a b. refl;
  or_lem = λ m ts. refl;
  not_lem = λ m a. refl;
  simplify_lem = λ m a. refl;
  is_true_lem = λ m a e. cc;
  is_false_lem = λ m a e. cc;
}

abbrev at_first : ℕ → Option (Guard toy.Term)
at_first b = if b == 0 then some (term (λ m. m 7)) else none

abbrev infos_of : Result TopoError (List (BlockInfo toy.Term)) → List (BlockInfo toy.Term)
infos_of (ok info) = info
infos_of (err e) = []

abbrev infos : List (BlockInfo toy.Term)
infos = infos_of (analyze toy built.graph.blocks at_first (some (2 ∷ [])))

analyzed : analyze toy built.graph.blocks at_first (some (2 ∷ [])) ≡ ok infos
unfolding analyze ◌>>=◌ or_err build_cfg
analyzed = refl

built_blocks : 0 < length built.graph.blocks
unfolding build_cfg or_err ◌>>=◌
built_blocks = omega arith

analyze-IsPathExact_example :
    IsPathExact toy
      (λ n. true)
      built.graph
      (build_cfg-HasEdges program [] built returned)
      at_first
      (some (2 ∷ []))
      infos
analyze-IsPathExact_example =
    analyze-IsPathExact toy (λ n. true) program [] built at_first (some (2 ∷ [])) infos returned
      built_blocks analyzed

-- A condition on map 1, a write of a packet byte into map 1, and a write of the queue into the packet.
abbrev on_map : Trees
on_map = more_trees (leaf (map_atom 1)) no_tree

abbrev into_map : Action
into_map = record {
  written = map_write;
  map_id = some 1;
  bss_key = none;
  value = present (pkt_val (record { block = 0; idx = 0; off = pos 0; size = 1 }) absent);
  map_key = present (num_of (pos 3) 4);
  var_off = absent;
}

abbrev into_packet : Action
into_packet = record {
  written = pkt_write;
  map_id = none;
  bss_key = none;
  value = present rx_queue_index;
  map_key = absent;
  var_off = absent;
}

-- Block 1 is not in the slice.
abbrev traced_block : Bool → MaybeExpr → List Action → TracedBlock
traced_block exit returned actions = record {
  exit = exit;
  jump = false;
  branch = false;
  returned = returned;
  cond = none;
  actions = actions;
}

abbrev traced : List TracedBlock
traced =
    traced_block false absent (into_packet ∷ [])
    ∷ traced_block true (present ingress_ifindex) []
    ∷ traced_block true absent (into_map ∷ [])
    ∷ []

relevant_regions-run :
    relevant_regions traced (2 ∷ 0 ∷ []) on_map
    ≡ some (rx_region ∷ pkt_region ∷ map_region (some 1) ∷ [])
unfolding relevant_regions
relevant_regions-run = refl

-- A block that writes map 1 at a variable offset and reads a packet byte at a fixed one.
abbrev touching : Touches
touching = record {
  actions = record into_map { var_off = present rx_queue_index } ∷ [];
  sources = pkt_val (record { block = 0; idx = 0; off = pos 0; size = 1 }) absent ∷ [];
}

fold_eligible_regions-run :
    fold_eligible_regions (touching ∷ []) (rx_region ∷ pkt_region ∷ map_region (some 1) ∷ [])
    ≡ pkt_region ∷ []
unfolding fold_eligible_regions
fold_eligible_regions-run = refl

fold_eligible_regions_lem_example :
    has_region pkt_region (fold_eligible_regions (touching ∷ []) (pkt_region ∷ [])) ≡ (
      has_region pkt_region (pkt_region ∷ [])
      && (is_memory pkt_region && not (any_b (block_varies pkt_region) (touching ∷ []))))
fold_eligible_regions_lem_example =
    fold_eligible_regions_lem (touching ∷ []) (pkt_region ∷ []) pkt_region
