-- ===== src/Verify/Regions/Closed/Grown.antt =====
-- How the accumulating functions grow a set of regions: not at all, or by a new region.
use hor_net_nsdi.Common.{
  ◌≤◌, ◌<◌, ◌≡◌, refl, sym, ◌∙◌, ap, subst, Bool, true, false, if◌then◌else◌, List, some, length,
  arith, Bool-cases, inl, inr,
}
use hor_net_nsdi.Track.Expr.{
  Expr, MaybeExpr, Exprs, absent, present, nil, cons, scalar, num, ptr, join_value, ingress_ifindex,
  rx_queue_index, egress_ifindex, pkt_len, func_retval, pkt_val, map_val, bss_val, rodata_val,
  lookup_hit, byte_seq, alu_unary, alu_binary,
}
use hor_net_nsdi.Verify.Regions.{
  Region, has_region, add_region, expr_regions, maybe_regions, all_regions, follows, map_region,
  pkt_region, bss_region, len_region, rx_region, ingress_region, egress_region, Action,
  action_regions,
}
use hor_net_nsdi.Verify.Regions.Closed.{same_region_refl}

-- One set grown to another: they are the same, or the other has a new region.
pub data Grows (out out' : List Region) : Type 0 where
  same : out' ≡ out → Grows out out'
  more :
      length out < length out'
      → (x : Region) → has_region x out ≡ false
      → has_region x out' ≡ true
      → ((y : Region) → has_region y out ≡ true → has_region y out' ≡ true)
      → Grows out out'

pub Grows-mono :
    {out out' : List Region}
    → Grows out out'
    → (y : Region) → has_region y out ≡ true
    → has_region y out' ≡ true
Grows-mono (same e) y h = ap (has_region y) e ∙ h
Grows-mono (more l x f t mono) y h = mono y h

pub Grows-trans : {a b c : List Region} → Grows a b → Grows b c → Grows a c
Grows-trans (same e) (same f) = same (f ∙ e)
Grows-trans {c = c} (same e) g = subst (λ l. Grows l c) e g
Grows-trans {a = a} g (same f) = subst (Grows a) (sym f) g
Grows-trans (more l x f t mono) (more l' x' f' t' mono') =
    more (omega (arith, l, l')) x f (mono' x t) (λ y h. mono' y (mono y h))

add_region-Grows : (r : Region) (out : List Region) → Grows out (add_region r out)
unfolding has_region
add_region-Grows r out = elim (Bool-cases (has_region r out)) [
  | inl e ↦ same (rw e refl)
  | inr e ↦
      rw e (more (omega arith) r e (ground (arith, same_region_refl r)) (λ y h. ground (arith, h)))
]

if-Grows :
    (t : Bool) (grown out : List Region) → Grows out grown → Grows out (if t then grown else out)
if-Grows true grown out g = g
if-Grows false grown out g = same refl

mutual
  unfolding expr_regions

  expr_regions-Grows : (e : Expr) (out : List Region) → Grows out (expr_regions e out)
  expr_regions-Grows (pkt_val read var_off) out =
      Grows-trans (add_region-Grows pkt_region out)
        (maybe_regions-Grows var_off (add_region pkt_region out))
  expr_regions-Grows (map_val read map_id map_key var_off) out =
      let o = add_region (map_region (some map_id)) out in
      Grows-trans (add_region-Grows (map_region (some map_id)) out) (
        Grows-trans (maybe_regions-Grows map_key o)
          (maybe_regions-Grows var_off (maybe_regions map_key o)))
  expr_regions-Grows (bss_val read bss_key var_off) out =
      Grows-trans (add_region-Grows (bss_region bss_key) out)
        (maybe_regions-Grows var_off (add_region (bss_region bss_key) out))
  expr_regions-Grows (rodata_val off size var_off) out = maybe_regions-Grows var_off out
  expr_regions-Grows (lookup_hit map_id map_key map_key_id) out =
      Grows-trans (add_region-Grows (map_region map_id) out)
        (maybe_regions-Grows map_key (add_region (map_region map_id) out))
  expr_regions-Grows (pkt_len size base_id) out = add_region-Grows len_region out
  expr_regions-Grows rx_queue_index out = add_region-Grows rx_region out
  expr_regions-Grows ingress_ifindex out = add_region-Grows ingress_region out
  expr_regions-Grows egress_ifindex out = add_region-Grows egress_region out
  expr_regions-Grows (func_retval size idx func map_id map_key redirects) out =
      if-Grows (follows redirects map_id)
        (maybe_regions map_key (add_region (map_region map_id) out)) out
        (Grows-trans (add_region-Grows (map_region map_id) out)
          (maybe_regions-Grows map_key (add_region (map_region map_id) out)))
  expr_regions-Grows (join_value block_idx reg_num values) out = all_regions-Grows values out
  expr_regions-Grows (alu_unary op dst s imm size alu64) out = expr_regions-Grows dst out
  expr_regions-Grows (alu_binary op dst src offset size idx) out =
      Grows-trans (expr_regions-Grows dst out) (expr_regions-Grows src (expr_regions dst out))
  expr_regions-Grows (byte_seq chunks size off) out = all_regions-Grows chunks out
  expr_regions-Grows (scalar size idx) out = same refl
  expr_regions-Grows (num n size idx) out = same refl
  expr_regions-Grows (ptr info var_off map_key null_phi) out = same refl

  maybe_regions-Grows : (e : MaybeExpr) (out : List Region) → Grows out (maybe_regions e out)
  maybe_regions-Grows absent out = same refl
  maybe_regions-Grows (present e) out = expr_regions-Grows e out

  all_regions-Grows : (es : Exprs) (out : List Region) → Grows out (all_regions es out)
  all_regions-Grows nil out = same refl
  all_regions-Grows (cons e es) out =
      Grows-trans (maybe_regions-Grows e out) (all_regions-Grows es (maybe_regions e out))

pub action_regions-Grows : (a : Action) (out : List Region) → Grows out (action_regions a out)
action_regions-Grows a out = Grows-trans (maybe_regions-Grows a.value out) (
    Grows-trans (maybe_regions-Grows a.map_key (maybe_regions a.value out))
      (maybe_regions-Grows a.var_off (maybe_regions a.map_key (maybe_regions a.value out))))

pub Grows-le : {out out' : List Region} → Grows out out' → length out ≤ length out'
Grows-le (same e) = omega (arith, ap length e)
Grows-le (more l x f t mono) = omega (arith, l)

pub Grows-short : {out out' : List Region} → Grows out out' → length out' ≤ length out → out' ≡ out
Grows-short (same e) h = e
Grows-short (more l x f t mono) h = absurd (omega (arith, l, h))
