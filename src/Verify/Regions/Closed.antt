-- ===== src/Verify/Regions/Closed.antt =====
-- What the accumulating functions on regions compute: membership in their result.
pub mod Grown
pub mod Least
use text.Mathlib.TextEquality.{eq_iff}
use hor_net_nsdi.Common.{
  ℕ, zero, suc, ◌+◌, ◌≤◌, ◌<◌, ◌≡◌, ◌≢◌, ◌⊎◌, refl, sym, ◌∙◌, ap, subst, Bool, true, false, ◌&&◌,
  ◌||◌, not, ◌==◌, ==→≡, ≡→==, if◌then◌else◌, List, [], ◌∷◌, ◌++◌, Option, some, none, String,
  length, arith, Bool-cases, inl, inr,
}
use hor_net_nsdi.Track.Expr.{
  Expr, MaybeExpr, Exprs, absent, present, nil, cons, scalar, num, ptr, join_value, ingress_ifindex,
  rx_queue_index, egress_ifindex, pkt_len, func_retval, pkt_val, map_val, bss_val, rodata_val,
  lookup_hit, byte_seq, alu_unary, alu_binary,
}
use hor_net_nsdi.Verify.Regions.{
  Region, pkt_region, len_region, rx_region, ingress_region, egress_region, map_region, bss_region,
  same_map, same_bss, same_region, has_region, add_region, follows, expr_regions, maybe_regions,
  all_regions,
}

same_map-eq : (a b : Option ℕ) → same_map a b ≡ true → a ≡ b
same_map-eq none none h = refl
same_map-eq (some a) (some b) h = ap some (==→≡ a b h)
same_map-eq none (some b) h = cc
same_map-eq (some a) none h = cc

same_bss-eq : (a b : Option String) → same_bss a b ≡ true → a ≡ b
same_bss-eq none none h = refl
same_bss-eq (some a) (some b) h = ap some ((eq_iff a b).0 h)
same_bss-eq none (some b) h = cc
same_bss-eq (some a) none h = cc

pub same_region-eq : (r q : Region) → same_region r q ≡ true → r ≡ q
unfolding same_region
same_region-eq pkt_region pkt_region h = refl
same_region-eq len_region len_region h = refl
same_region-eq rx_region rx_region h = refl
same_region-eq ingress_region ingress_region h = refl
same_region-eq egress_region egress_region h = refl
same_region-eq (map_region a) (map_region b) h = ap map_region (same_map-eq a b h)
same_region-eq (bss_region a) (bss_region b) h = ap bss_region (same_bss-eq a b h)
same_region-eq _ _ h = cc

pub same_region_refl : (r : Region) → same_region r r ≡ true
unfolding same_region
same_region_refl pkt_region = refl
same_region_refl len_region = refl
same_region_refl rx_region = refl
same_region_refl ingress_region = refl
same_region_refl egress_region = refl
same_region_refl (map_region none) = refl
same_region_refl (map_region (some a)) = ≡→== a a refl
same_region_refl (bss_region none) = refl
same_region_refl (bss_region (some s)) = (eq_iff s s).1 refl

pub has-add_region :
    (r q : Region) (out : List Region)
    → has_region r (add_region q out) ≡ (same_region r q || has_region r out)
unfolding has_region
has-add_region r q out = elim (Bool-cases (has_region q out)) [
  | inr e ↦ rw e refl
  | inl e ↦ elim (Bool-cases (same_region r q)) [
    | inl s ↦
        let there : has_region r out ≡ true =
          subst (λ x. has_region x out ≡ true) (sym (same_region-eq r q s)) e in
        ground (arith, e, s, there)
    | inr s ↦ ground (arith, e, s)
  ]
]

unfoldable mutual
  unfolding same_region

  -- Does the value read region r?
  pub reads : Expr → Region → Bool
  reads (pkt_val read var_off) r = same_region r pkt_region || maybe_reads var_off r
  reads (map_val read map_id map_key var_off) r =
      same_region r (map_region (some map_id)) || (maybe_reads map_key r || maybe_reads var_off r)
  reads (bss_val read bss_key var_off) r =
      same_region r (bss_region bss_key) || maybe_reads var_off r
  reads (rodata_val off size var_off) r = maybe_reads var_off r
  reads (lookup_hit map_id map_key map_key_id) r =
      same_region r (map_region map_id) || maybe_reads map_key r
  reads (pkt_len size base_id) r = same_region r len_region
  reads rx_queue_index r = same_region r rx_region
  reads ingress_ifindex r = same_region r ingress_region
  reads egress_ifindex r = same_region r egress_region
  reads (func_retval size idx func map_id map_key redirects) r =
      follows redirects map_id && (same_region r (map_region map_id) || maybe_reads map_key r)
  reads (join_value block_idx reg_num values) r = any_reads values r
  reads (alu_unary op dst s imm size alu64) r = reads dst r
  reads (alu_binary op dst src offset size idx) r = reads dst r || reads src r
  reads (byte_seq chunks size off) r = any_reads chunks r
  reads (scalar size idx) r = false
  reads (num n size idx) r = false
  reads (ptr info var_off map_key null_phi) r = false

  pub maybe_reads : MaybeExpr → Region → Bool
  maybe_reads absent r = false
  maybe_reads (present e) r = reads e r

  pub any_reads : Exprs → Region → Bool
  any_reads nil r = false
  any_reads (cons e es) r = maybe_reads e r || any_reads es r

has-guarded :
    (r : Region) (t x : Bool) (more out : List Region)
    → has_region r more ≡ (x || has_region r out)
    → has_region r (if t then more else out) ≡ ((t && x) || has_region r out)
has-guarded r true x more out h = h
has-guarded r false x more out h = refl

swap : (a b c : Bool) → (a || (b || c)) ≡ ((b || a) || c)
swap a b c = ground arith

swap_three : (a b c d : Bool) → (a || (b || (c || d))) ≡ ((c || (b || a)) || d)
swap_three a b c d = ground arith

mutual
  unfolding expr_regions reads

  pub has-expr_regions :
      (r : Region) (e : Expr) (out : List Region)
      → has_region r (expr_regions e out) ≡ (reads e r || has_region r out)
  has-expr_regions r (pkt_val read var_off) out =
      has-maybe_regions r var_off (add_region pkt_region out)
      ∙ ap (λ t. maybe_reads var_off r || t) (has-add_region r pkt_region out)
      ∙ swap (maybe_reads var_off r) (same_region r pkt_region) (has_region r out)
  has-expr_regions r (map_val read map_id map_key var_off) out =
      let o = add_region (map_region (some map_id)) out in
      has-maybe_regions r var_off (maybe_regions map_key o)
      ∙ ap (λ t. maybe_reads var_off r || t)
          (has-maybe_regions r map_key o
            ∙ ap (λ t. maybe_reads map_key r || t)
                (has-add_region r (map_region (some map_id)) out))
      ∙ swap_three (maybe_reads var_off r) (maybe_reads map_key r)
          (same_region r (map_region (some map_id))) (has_region r out)
  has-expr_regions r (bss_val read bss_key var_off) out =
      has-maybe_regions r var_off (add_region (bss_region bss_key) out)
      ∙ ap (λ t. maybe_reads var_off r || t) (has-add_region r (bss_region bss_key) out)
      ∙ swap (maybe_reads var_off r) (same_region r (bss_region bss_key)) (has_region r out)
  has-expr_regions r (rodata_val off size var_off) out = has-maybe_regions r var_off out
  has-expr_regions r (lookup_hit map_id map_key map_key_id) out =
      has-maybe_regions r map_key (add_region (map_region map_id) out)
      ∙ ap (λ t. maybe_reads map_key r || t) (has-add_region r (map_region map_id) out)
      ∙ swap (maybe_reads map_key r) (same_region r (map_region map_id)) (has_region r out)
  has-expr_regions r (pkt_len size base_id) out = has-add_region r len_region out
  has-expr_regions r rx_queue_index out = has-add_region r rx_region out
  has-expr_regions r ingress_ifindex out = has-add_region r ingress_region out
  has-expr_regions r egress_ifindex out = has-add_region r egress_region out
  has-expr_regions r (func_retval size idx func map_id map_key redirects) out =
      has-guarded r (follows redirects map_id)
        (same_region r (map_region map_id) || maybe_reads map_key r)
        (maybe_regions map_key (add_region (map_region map_id) out)) out
        (has-maybe_regions r map_key (add_region (map_region map_id) out)
          ∙ ap (λ t. maybe_reads map_key r || t) (has-add_region r (map_region map_id) out)
          ∙ swap (maybe_reads map_key r) (same_region r (map_region map_id)) (has_region r out))
  has-expr_regions r (join_value block_idx reg_num values) out = has-all_regions r values out
  has-expr_regions r (alu_unary op dst s imm size alu64) out = has-expr_regions r dst out
  has-expr_regions r (alu_binary op dst src offset size idx) out =
      has-expr_regions r src (expr_regions dst out)
      ∙ ap (λ t. reads src r || t) (has-expr_regions r dst out)
      ∙ swap (reads src r) (reads dst r) (has_region r out)
  has-expr_regions r (byte_seq chunks size off) out = has-all_regions r chunks out
  has-expr_regions r (scalar size idx) out = refl
  has-expr_regions r (num n size idx) out = refl
  has-expr_regions r (ptr info var_off map_key null_phi) out = refl

  pub has-maybe_regions :
      (r : Region) (e : MaybeExpr) (out : List Region)
      → has_region r (maybe_regions e out) ≡ (maybe_reads e r || has_region r out)
  has-maybe_regions r absent out = refl
  has-maybe_regions r (present e) out = has-expr_regions r e out

  pub has-all_regions :
      (r : Region) (es : Exprs) (out : List Region)
      → has_region r (all_regions es out) ≡ (any_reads es r || has_region r out)
  has-all_regions r nil out = refl
  has-all_regions r (cons e es) out =
      has-all_regions r es (maybe_regions e out)
      ∙ ap (λ t. any_reads es r || t) (has-maybe_regions r e out)
      ∙ swap (any_reads es r) (maybe_reads e r) (has_region r out)
