-- ===== src/Verify/Regions/Fold.antt =====
-- hornet/verify/forward.py, `fold_eligible_regions`: the relevant regions that no action and no
-- leaf of the slice touches at a variable offset. A block is its actions and its sources; the
-- dictionary of `_region_has_var_off` has the newest entry first.
pub mod Eligible
use hor_net_nsdi.Common.{
  ℕ, Bool, true, false, ◌&&◌, ◌||◌, not, if◌then◌else◌, List, [], ◌∷◌, Option, some, none, filter_b,
}
use hor_net_nsdi.Track.Expr.{
  Expr, MaybeExpr, absent, present, pkt_val, map_val, bss_val, func_retval,
}
use hor_net_nsdi.Verify.Regions.{
  Region, pkt_region, map_region, bss_region, same_region, follows, Action, write_region,
}

pub record Touches : Type 0 where
  pub actions : List Action
  pub sources : List Expr

-- `_leaf_region`
unfoldable pub leaf_region : Expr → Option Region
leaf_region (pkt_val read var_off) = some pkt_region
leaf_region (map_val read map_id map_key var_off) = some (map_region (some map_id))
leaf_region (bss_val read bss_key var_off) = some (bss_region bss_key)
leaf_region (func_retval size idx func map_id map_key redirects) =
    if follows redirects map_id then some (map_region map_id) else none
leaf_region _ = none

-- `getattr(s, 'var_off', None)` of a leaf
unfoldable pub leaf_var_off : Expr → MaybeExpr
leaf_var_off (pkt_val read var_off) = var_off
leaf_var_off (map_val read map_id map_key var_off) = var_off
leaf_var_off (bss_val read bss_key var_off) = var_off
leaf_var_off _ = absent

abbrev pub is_present : MaybeExpr → Bool
is_present absent = false
is_present (present e) = true

-- `r[0] in ('pkt', 'map', 'bss')`
unfoldable pub is_memory : Region → Bool
is_memory pkt_region = true
is_memory (map_region map_id) = true
is_memory (bss_region bss_key) = true
is_memory _ = false

-- `out.get(r, False)`
unfoldable pub varies_in : Region → List (Region × Bool) → Bool
unfolding same_region
varies_in r [] = false
varies_in r ((q, v) ∷ out) = if same_region r q then v else varies_in r out

unfoldable pub has_key : Region → List (Region × Bool) → Bool
unfolding same_region
has_key r [] = false
has_key r ((q, v) ∷ out) = same_region r q || has_key r out

-- the body of both loops: `out[r] = True`, or `out.setdefault(r, False)`
unfoldable pub touch : Option Region → Bool → List (Region × Bool) → List (Region × Bool)
unfolding is_memory has_key
touch none at_variable out = out
touch (some r) at_variable out =
    if not (is_memory r)
    then out
    else if at_variable
    then (r, true) ∷ out
    else if has_key r out
    then out
    else (r, false) ∷ out

unfoldable pub touch_actions : List Action → List (Region × Bool) → List (Region × Bool)
unfolding touch write_region
touch_actions [] out = out
touch_actions (a ∷ actions) out =
    touch_actions actions (touch (write_region a) (is_present a.var_off) out)

unfoldable pub touch_sources : List Expr → List (Region × Bool) → List (Region × Bool)
unfolding touch leaf_region leaf_var_off
touch_sources [] out = out
touch_sources (s ∷ sources) out =
    touch_sources sources (touch (leaf_region s) (is_present (leaf_var_off s)) out)

unfoldable pub region_has_var_off : List Touches → List (Region × Bool) → List (Region × Bool)
unfolding touch_actions touch_sources
region_has_var_off [] out = out
region_has_var_off (b ∷ blocks) out =
    region_has_var_off blocks (touch_sources b.sources (touch_actions b.actions out))

unfoldable pub fold_eligible_regions : List Touches → List Region → List Region
unfolding region_has_var_off is_memory varies_in
fold_eligible_regions blocks relevant =
    let has_var = region_has_var_off blocks [] in
    filter_b (λ r. is_memory r && not (varies_in r has_var)) relevant
