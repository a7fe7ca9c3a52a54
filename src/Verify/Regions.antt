-- ===== src/Verify/Regions.antt =====
-- hornet/verify/forward.py, `relevant_regions` and what it calls: the parts of the memory that the
-- conditions of a specification depend on. A set of regions is a list; the set `seen`, which keeps
-- a shared value from being walked twice, is left out.
pub mod Closed
pub mod Fold
pub mod Slice
use text.Mathlib.Text.{◌==◌ as str_eq}
use hor_net_nsdi.Common.{
  ℕ, zero, suc, ◌+◌, Bool, true, false, ◌&&◌, ◌||◌, not, ◌==◌, if◌then◌else◌, List, [], ◌∷◌, ◌++◌,
  map, Option, some, none, String, length,
}
use hor_net_nsdi.Track.Expr.{
  Expr, MaybeExpr, Exprs, absent, present, nil, cons, join_value, ingress_ifindex, rx_queue_index,
  egress_ifindex, pkt_len, func_retval, pkt_val, map_val, bss_val, rodata_val, lookup_hit, byte_seq,
  alu_unary, alu_binary,
}
use hor_net_nsdi.Track.Facts.{
  Cond, condition, adjust_head_check, contain_map_value, tail_call_taken,
}

-- ('pkt',), ('map', id), ('bss', key), ('pkt_len',), ('rx_index',), ('ingress',), ('egress',)
pub data Region : Type 0 where
  pkt_region len_region rx_region ingress_region egress_region : Region
  map_region : (map_id : Option ℕ) → Region
  bss_region : (bss_key : Option String) → Region

abbrev pub same_map : Option ℕ → Option ℕ → Bool
same_map none none = true
same_map (some a) (some b) = a == b
same_map _ _ = false

abbrev pub same_bss : Option String → Option String → Bool
same_bss none none = true
same_bss (some a) (some b) = str_eq a b
same_bss _ _ = false

unfoldable pub same_region : Region → Region → Bool
same_region pkt_region pkt_region = true
same_region len_region len_region = true
same_region rx_region rx_region = true
same_region ingress_region ingress_region = true
same_region egress_region egress_region = true
same_region (map_region a) (map_region b) = same_map a b
same_region (bss_region a) (bss_region b) = same_bss a b
same_region _ _ = false

unfoldable pub has_region : Region → List Region → Bool
unfolding same_region
has_region r [] = false
has_region r (q ∷ out) = same_region r q || has_region r out

-- `out.add(r)`
abbrev pub add_region : Region → List Region → List Region
add_region r out = if has_region r out then out else r ∷ out

-- `expr.redirects and expr.map_id is not None`
abbrev pub follows : Bool → Option ℕ → Bool
follows redirects none = false
follows redirects (some map_id) = redirects

unfoldable mutual
  unfolding has_region

  -- `_expr_regions`
  pub expr_regions : Expr → List Region → List Region
  expr_regions (pkt_val read var_off) out = maybe_regions var_off (add_region pkt_region out)
  expr_regions (map_val read map_id map_key var_off) out =
      maybe_regions var_off (maybe_regions map_key (add_region (map_region (some map_id)) out))
  expr_regions (bss_val read bss_key var_off) out =
      maybe_regions var_off (add_region (bss_region bss_key) out)
  expr_regions (rodata_val off size var_off) out = maybe_regions var_off out
  expr_regions (lookup_hit map_id map_key map_key_id) out =
      maybe_regions map_key (add_region (map_region map_id) out)
  expr_regions (pkt_len size base_id) out = add_region len_region out
  expr_regions rx_queue_index out = add_region rx_region out
  expr_regions ingress_ifindex out = add_region ingress_region out
  expr_regions egress_ifindex out = add_region egress_region out
  expr_regions (func_retval size idx func map_id map_key redirects) out =
      let keyed = maybe_regions map_key (add_region (map_region map_id) out) in
      if follows redirects map_id then keyed else out
  expr_regions (join_value block_idx reg_num values) out = all_regions values out
  expr_regions (alu_unary op dst s imm size alu64) out = expr_regions dst out
  expr_regions (alu_binary op dst src offset size idx) out = expr_regions src (expr_regions dst out)
  expr_regions (byte_seq chunks size off) out = all_regions chunks out
  expr_regions _ out = out

  pub maybe_regions : MaybeExpr → List Region → List Region
  maybe_regions absent out = out
  maybe_regions (present e) out = expr_regions e out

  pub all_regions : Exprs → List Region → List Region
  all_regions nil out = out
  all_regions (cons e es) out = all_regions es (maybe_regions e out)

-- `_branch_cond_regions`
unfoldable pub branch_cond_regions : Option Cond → List Region → List Region
unfolding maybe_regions
branch_cond_regions (some (contain_map_value (some map_id) map_key map_key_id result)) out =
    maybe_regions map_key (add_region (map_region (some map_id)) out)
branch_cond_regions (some (tail_call_taken index)) out = maybe_regions index out
branch_cond_regions (some (condition code dst src jmp32)) out =
    maybe_regions src (maybe_regions dst out)
branch_cond_regions _ out = out

-- What `relevant_regions` reads of an action: the region it writes, and the values that the write
-- depends on.
pub data Written : Type 0 where
  pkt_write map_write bss_write ctx_write adjust_head no_write : Written

pub record Action : Type 0 where
  pub written : Written
  pub map_id : Option ℕ
  pub bss_key : Option String
  pub value : MaybeExpr
  pub map_key : MaybeExpr
  pub var_off : MaybeExpr

-- `_write_region`
unfoldable pub write_region : Action → Option Region
write_region a = elim a.written [
  | pkt_write ↦ some pkt_region
  | map_write ↦ some (map_region a.map_id)
  | bss_write ↦ some (bss_region a.bss_key)
  | ctx_write ↦ some rx_region
  | adjust_head ↦ some len_region
  | no_write ↦ none
]

-- the values of a write
abbrev pub action_regions : Action → List Region → List Region
action_regions a out = maybe_regions a.var_off (maybe_regions a.map_key (maybe_regions a.value out))

-- `r is None or r not in out`
abbrev pub is_skipped : Option Region → List Region → Bool
is_skipped none out = true
is_skipped (some r) out = not (has_region r out)

-- one round of the `while changed` loop over the actions of the slice
unfoldable pub one_round : List Action → List Region → List Region
unfolding write_region maybe_regions has_region
one_round [] out = out
one_round (a ∷ actions) out =
    one_round actions (if is_skipped (write_region a) out then out else action_regions a out)

-- the loop: a round in which no set grew is the last
unfoldable pub close_over : List Action → ℕ → List Region → Option (List Region)
unfolding one_round
close_over actions zero out = none
close_over actions (suc fuel) out =
    let out' = one_round actions out in
    let rest = close_over actions fuel out' in if length out' == length out then some out' else rest

-- the regions of the branch conditions of the slice
unfoldable pub cond_regions : List (Option Cond) → List Region → List Region
unfolding branch_cond_regions
cond_regions [] out = out
cond_regions (c ∷ conds) out = cond_regions conds (branch_cond_regions c out)

-- the fields of a ScalarAtom's target
pub data Target : Type 0 where
  ingress_target rx_target egress_target : Target

abbrev pub target_region : Target → Region
target_region ingress_target = ingress_region
target_region rx_target = rx_region
target_region egress_target = egress_region

-- The atoms of hornet/verify/spec.py, by what `_atom_regions` reads. A HelperAtom is one of three
-- by its kind, and a ReadAtom has the leaves of its parts.
pub data Atom : Type 0 where
  pkt_atom len_atom ret_atom helper_other : Atom
  map_atom : ℕ → Atom
  bss_atom : String → Atom
  scalar_atom : Target → Atom
  helper_scalar : (retval : MaybeExpr) → Atom
  helper_null : (map_id : Option ℕ) (map_key : MaybeExpr) → Atom
  read_atom : (leaves : Exprs) → Atom

-- A `CondNode`: a leaf, or children under one of the operators.
mutual
  pub data Tree : Type 0 where
    leaf : Atom → Tree
    node : Trees → Tree

  pub data Trees : Type 0 where
    no_tree : Trees
    more_trees : Tree → Trees → Trees

-- `_atom_regions`
unfoldable pub atom_regions : Atom → List Region → List Region
unfolding maybe_regions
atom_regions pkt_atom out = add_region pkt_region out
atom_regions (map_atom map_id) out = add_region (map_region (some map_id)) out
atom_regions (bss_atom sym) out = add_region (bss_region (some sym)) out
atom_regions len_atom out = add_region len_region out
atom_regions (scalar_atom target) out = add_region (target_region target) out
atom_regions (helper_scalar retval) out = maybe_regions retval out
atom_regions (helper_null (some map_id) map_key) out =
    maybe_regions map_key (add_region (map_region (some map_id)) out)
atom_regions (helper_null none map_key) out = out
atom_regions helper_other out = out
atom_regions ret_atom out = out
atom_regions (read_atom leaves) out = all_regions leaves out

-- `_cond_regions`
unfoldable mutual
  unfolding atom_regions

  pub tree_regions : Tree → List Region → List Region
  tree_regions (leaf atom) out = atom_regions atom out
  tree_regions (node children) out = trees_regions children out

  pub trees_regions : Trees → List Region → List Region
  trees_regions no_tree out = out
  trees_regions (more_trees tree trees) out = trees_regions trees (tree_regions tree out)
