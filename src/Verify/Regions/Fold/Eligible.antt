-- ===== src/Verify/Regions/Fold/Eligible.antt =====
-- Which regions `fold_eligible_regions` returns.
use hor_net_nsdi.Common.{
  ◌≡◌, refl, sym, ◌∙◌, ap, subst, Bool, true, false, ◌&&◌, ◌||◌, ◌⊎◌, not, if◌then◌else◌, List, [],
  ◌∷◌, Option, some, none, filter_b, any_b, arith, Bool-cases, inl, inr,
}
use hor_net_nsdi.Track.Expr.{Expr}
use hor_net_nsdi.Verify.Regions.{Region, same_region, has_region, Action, write_region}
use hor_net_nsdi.Verify.Regions.Closed.{same_region-eq}
use hor_net_nsdi.Verify.Regions.Fold.{
  Touches, leaf_region, leaf_var_off, is_present, is_memory, varies_in, has_key, touch,
  touch_actions, touch_sources, region_has_var_off, fold_eligible_regions,
}

-- Is region r the one touched, at a variable offset?
abbrev pub touched : Option Region → Bool → Region → Bool
touched none at_variable r = false
touched (some q) at_variable r = same_region r q && at_variable

abbrev pub action_varies : Region → Action → Bool
action_varies r a = touched (write_region a) (is_present a.var_off) r

abbrev pub source_varies : Region → Expr → Bool
source_varies r s = touched (leaf_region s) (is_present (leaf_var_off s)) r

abbrev pub block_varies : Region → Touches → Bool
block_varies r b = any_b (action_varies r) b.actions || any_b (source_varies r) b.sources

no_key : (r : Region) (out : List (Region × Bool)) → has_key r out ≡ false → varies_in r out ≡ false
unfolding has_key varies_in
no_key r [] h = refl
no_key r ((q, v) ∷ out) h = ground (arith, h, no_key r out)

varies_in-touch :
    (r : Region) (o : Option Region) (v : Bool) (out : List (Region × Bool))
    → is_memory r ≡ true
    → varies_in r (touch o v out) ≡ (touched o v r || varies_in r out)
unfolding touch varies_in
varies_in-touch r none v out m = refl
varies_in-touch r (some q) v out m =
    let memory : same_region r q ≡ true → is_memory q ≡ true =
      λ e. subst (λ x. is_memory x ≡ true) (same_region-eq r q e) m in
    let fresh : same_region r q ≡ true → has_key q out ≡ false → varies_in r out ≡ false =
      λ e h. subst (λ x. varies_in x out ≡ false) (sym (same_region-eq r q e)) (no_key q out h) in
    ground (arith, memory, fresh)

module _ (r : Region) (m : is_memory r ≡ true) where
  varies_in-touch_actions :
      (actions : List Action) (out : List (Region × Bool))
      → varies_in r (touch_actions actions out)
        ≡ (any_b (action_varies r) actions || varies_in r out)
  unfolding touch_actions
  varies_in-touch_actions [] out = refl
  varies_in-touch_actions (a ∷ actions) out =
      varies_in-touch_actions actions (touch (write_region a) (is_present a.var_off) out)
      ∙ ap (λ t. any_b (action_varies r) actions || t)
          (varies_in-touch r (write_region a) (is_present a.var_off) out m)
      ∙ order (any_b (action_varies r) actions) (action_varies r a) (varies_in r out)
    where
      order : (s t u : Bool) → (s || (t || u)) ≡ ((if t then true else s) || u)
      order s t u = ground arith

  varies_in-touch_sources :
      (sources : List Expr) (out : List (Region × Bool))
      → varies_in r (touch_sources sources out)
        ≡ (any_b (source_varies r) sources || varies_in r out)
  unfolding touch_sources
  varies_in-touch_sources [] out = refl
  varies_in-touch_sources (s ∷ sources) out =
      varies_in-touch_sources sources (touch (leaf_region s) (is_present (leaf_var_off s)) out)
      ∙ ap (λ t. any_b (source_varies r) sources || t)
          (varies_in-touch r (leaf_region s) (is_present (leaf_var_off s)) out m)
      ∙ order (any_b (source_varies r) sources) (source_varies r s) (varies_in r out)
    where
      order : (s t u : Bool) → (s || (t || u)) ≡ ((if t then true else s) || u)
      order s t u = ground arith

  varies_in-blocks :
      (blocks : List Touches) (out : List (Region × Bool))
      → varies_in r (region_has_var_off blocks out)
        ≡ (any_b (block_varies r) blocks || varies_in r out)
  unfolding region_has_var_off
  varies_in-blocks [] out = refl
  varies_in-blocks (b ∷ blocks) out =
      varies_in-blocks blocks (touch_sources b.sources (touch_actions b.actions out))
      ∙ ap (λ t. any_b (block_varies r) blocks || t)
          (varies_in-touch_sources b.sources (touch_actions b.actions out)
            ∙ ap (λ t. any_b (source_varies r) b.sources || t)
                (varies_in-touch_actions b.actions out))
      ∙ order (any_b (block_varies r) blocks) (any_b (source_varies r) b.sources)
          (any_b (action_varies r) b.actions) (varies_in r out)
    where
      order : (s t u w : Bool) → (s || (t || (u || w))) ≡ ((if u || t then true else s) || w)
      order s t u w = ground arith

has-filter_b :
    (p : Region → Bool) (r : Region) (out : List Region)
    → has_region r (filter_b p out) ≡ (has_region r out && p r)
unfolding has_region
has-filter_b p r [] = refl
has-filter_b p r (q ∷ out) =
    let same : same_region r q ≡ true → p r ≡ p q = λ e. ap p (same_region-eq r q e) in
    ground (arith, same, has-filter_b p r out)

or_none : (r : Region) (t : Bool) → (t || varies_in r []) ≡ t
unfolding varies_in
or_none r t = ground arith

-- A region is in the result of `fold_eligible_regions` exactly when it is relevant, is the packet, a map or a
-- global, and no action writes it and no leaf reads it at a variable offset in a block of the slice.
pub fold_eligible_regions_lem :
    (blocks : List Touches) (relevant : List Region) (r : Region)
    → has_region r (fold_eligible_regions blocks relevant)
      ≡ (has_region r relevant && (is_memory r && not (any_b (block_varies r) blocks)))
unfolding fold_eligible_regions
fold_eligible_regions_lem blocks relevant r =
    has-filter_b (λ q. is_memory q && not (varies_in q (region_has_var_off blocks []))) r relevant
    ∙ ap (λ t. has_region r relevant && t) (by_memory (Bool-cases (is_memory r)))
  where
    by_memory :
        (is_memory r ≡ true) ⊎ (is_memory r ≡ false)
        → (is_memory r && not (varies_in r (region_has_var_off blocks [])))
          ≡ (is_memory r && not (any_b (block_varies r) blocks))
    by_memory (inl m) =
        ap (λ t. is_memory r && not t)
          (varies_in-blocks r m blocks [] ∙ or_none r (any_b (block_varies r) blocks))
    by_memory (inr m) = rw m refl
