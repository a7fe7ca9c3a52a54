-- ===== src/Bpf/Link/Joined/Placed.antt =====
-- Where the instructions of a linked program stand, and that `region_of` finds their region.
use hor_net_nsdi.Common.{
  ℕ, zero, suc, ◌+◌, ◌-◌, ◌≤◌, ◌≡◌, refl, sym, ◌∙◌, ap, subst, Bool, List, [], ◌∷◌, ◌++◌, some,
  String, get_elem?, get_elem?-lt, get_elem?-append, get_elem?-append_left, get_elem?-map, length,
  length-append, length-map, map, arith, append_assoc, append-nil,
}
use mathlib.Core.Option.{some-injective}
use hor_net_nsdi.Common.Result.{ok}
use hor_net_nsdi.Bpf.Instr.{Instr}
use hor_net_nsdi.Bpf.Region.{ProgRegion, region_of, contains}
use hor_net_nsdi.Bpf.Link.{Object, Plan, Linked, move_instr, place_of, region_for}
use hor_net_nsdi.Bpf.Link.Joined.{IsAdded, Adds, no_more, one_more}

-- The regions lie one behind the other from `from` up to `to`.
abbrev pub Tiled : ℕ → List ProgRegion → ℕ → Type 0
Tiled from [] to = from ≡ to
Tiled from (r ∷ progs) to = (r.start ≡ from) × (r.start ≤ r.end) × Tiled (suc r.end) progs to

Tiled-snoc :
    (from : ℕ) (progs : List ProgRegion) (r : ProgRegion) (to : ℕ)
    → Tiled from progs to
    → r.start ≡ to
    → r.start ≤ r.end
    → Tiled from (progs ++ r ∷ []) (suc r.end)
Tiled-snoc from [] r to t at le = (omega (arith, t, at), le, refl)
Tiled-snoc from (q ∷ progs) r to (a, b, t) at le = (a, b, Tiled-snoc (suc q.end) progs r to t at le)

Tiled-start :
    (from : ℕ) (progs : List ProgRegion) (to n : ℕ) (r : ProgRegion)
    → Tiled from progs to
    → get_elem? progs n ≡ some r
    → from ≤ r.start
Tiled-start from [] to n r t h = cc
Tiled-start from (q ∷ progs) to zero r (a, b, t) h =
    subst (λ (x : ProgRegion). from ≤ x.start) (some-injective _ _ h) (omega (arith, a))
Tiled-start from (q ∷ progs) to (suc n) r (a, b, t) h =
    omega (arith, a, b, Tiled-start (suc q.end) progs to n r t h)

-- The region that holds an index is the one found.
pub region_of-Tiled :
    (from : ℕ) (progs : List ProgRegion) (to n k : ℕ) (r : ProgRegion)
    → Tiled from progs to
    → get_elem? progs n ≡ some r
    → r.start ≤ k
    → k ≤ r.end
    → region_of progs k ≡ some r
unfolding region_of contains
region_of-Tiled from [] to n k r t h le ge = cc
region_of-Tiled from (q ∷ progs) to zero k r (a, b, t) h le ge =
    let e = some-injective _ _ h in
    let le' : q.start ≤ k = subst (λ (x : ProgRegion). x.start ≤ k) (sym e) le in
    let ge' : k ≤ q.end = subst (λ (x : ProgRegion). k ≤ x.end) (sym e) ge in
    rw (← e) (ground arith)
region_of-Tiled from (q ∷ progs) to (suc n) k r (a, b, t) h le ge = ground (
  arith,
  Tiled-start (suc q.end) progs to n r t h,
  region_of-Tiled (suc q.end) progs to n k r t h le ge,
)

module _ (p : Plan) where
  -- What the loop has put together stays in front.
  record IsExtended (s s' : Linked) : Type 0 where
    more_instrs : List Instr
    more_progs : List ProgRegion
    instrs_more : s'.instrs ≡ s.instrs ++ more_instrs
    progs_more : s'.progs ≡ s.progs ++ more_progs

  IsAdded-IsExtended :
      {n : ℕ} {l : Bool} {o : Object} {s s' : Linked} → IsAdded p n l o s s' → IsExtended s s'
  IsAdded-IsExtended a = record {
    more_instrs = _;
    more_progs = _;
    instrs_more = a.instrs_lem;
    progs_more = a.progs_lem;
  }

  Adds-IsExtended :
      {n : ℕ} {objects : List Object} {s s' : Linked} → Adds p n objects s s' → IsExtended s s'
  Adds-IsExtended {s = s} no_more = record {
    more_instrs = [];
    more_progs = [];
    instrs_more = sym (append-nil s.instrs);
    progs_more = sym (append-nil s.progs);
  }
  Adds-IsExtended {s = s} (one_more a rest) =
      let b = IsAdded-IsExtended a in
      let c = Adds-IsExtended rest in
      record {
        more_instrs = b.more_instrs ++ c.more_instrs;
        more_progs = b.more_progs ++ c.more_progs;
        instrs_more =
            c.instrs_more
            ∙ ap (λ l. l ++ c.more_instrs) b.instrs_more
            ∙ append_assoc s.instrs b.more_instrs c.more_instrs;
        progs_more =
            c.progs_more
            ∙ ap (λ l. l ++ c.more_progs) b.progs_more
            ∙ append_assoc s.progs b.more_progs c.more_progs;
      }

  abbrev IsTiled : Linked → Type 0
  IsTiled s = Tiled 0 s.progs (length s.instrs)

  IsAdded-IsTiled :
      {n : ℕ} {l : Bool} {o : Object} {s s' : Linked}
      → IsAdded p n l o s s'
      → IsTiled s
      → IsTiled s'
  unfolding region_for
  IsAdded-IsTiled {o = o} {s = s} {s' = s'} a t =
      subst (λ k. Tiled 0 s'.progs k)
        (omega (
          arith,
          a.nonempty,
          ap length a.instrs_lem,
          length-append s.instrs
              (map (move_instr (length s.instrs) a.remap a.rename a.base) o.instrs),
          length-map (move_instr (length s.instrs) a.remap a.rename a.base) o.instrs,
        ))
        (subst (λ ps. Tiled 0 ps (suc (length s.instrs + length o.instrs - 1))) (sym a.progs_lem)
          (Tiled-snoc 0 s.progs (region_for o (length s.instrs) a.place) (length s.instrs) t refl
            (omega (arith, a.nonempty))))

  pub Adds-IsTiled :
      {n : ℕ} {objects : List Object} {s s' : Linked}
      → Adds p n objects s s'
      → IsTiled s
      → IsTiled s'
  Adds-IsTiled no_more t = t
  Adds-IsTiled (one_more a rest) t = Adds-IsTiled rest (IsAdded-IsTiled a t)

  -- Object o is the m-th program: its region, and its instructions there.
  pub record IsPlaced (m : ℕ) (o : Object) (s : Linked) : Type 0 where
    pub region : ProgRegion
    pub remap : List (ℕ × ℕ)
    pub rename : List (String × String)
    pub base : ℕ
    pub remap_at : get_elem? p.remaps m ≡ some remap
    pub rename_at : get_elem? p.renames m ≡ some rename
    pub base_at : get_elem? p.bases m ≡ some base
    pub region_at : get_elem? s.progs m ≡ some region
    pub named : region.name ≡ o.globals.entry
    pub fits : suc region.end ≡ region.start + length o.instrs
    pub placed : place_of p m ≡ ok (region.slot, region.map_id)
    pub moved :
        (j : ℕ) (x : Instr)
        → get_elem? o.instrs j ≡ some x
        → (get_elem? s.instrs (region.start + j)
            ≡ some (move_instr region.start remap rename base x))
          × (region_of s.progs (region.start + j) ≡ some region)

  module _ {n : ℕ} {l : Bool} {o : Object} {s s1 s' : Linked} (size : length s.progs ≡ n)
      (a : IsAdded p n l o s s1) (more : IsExtended s1 s') (tiled : IsTiled s') where
    abbrev region : ProgRegion
    region = region_for o (length s.instrs) a.place

    region_at : get_elem? s'.progs n ≡ some region
    unfolding region_for
    region_at =
        ap (λ l. get_elem? l n) more.progs_more
        ∙ get_elem?-append_left s1.progs more.more_progs n (
            ap (λ l. get_elem? l n) a.progs_lem
            ∙ get_elem?-append s.progs (region ∷ []) 0 n (omega (arith, size)))

    instr_at :
        (j : ℕ) (x : Instr)
        → get_elem? o.instrs j ≡ some x
        → get_elem? s'.instrs (length s.instrs + j)
          ≡ some (move_instr (length s.instrs) a.remap a.rename a.base x)
    instr_at j x h =
        let k = length s.instrs + j in
        let f = move_instr (length s.instrs) a.remap a.rename a.base in
        ap (λ l. get_elem? l k) more.instrs_more
        ∙ get_elem?-append_left s1.instrs more.more_instrs k (
            ap (λ l. get_elem? l k) a.instrs_lem
            ∙ get_elem?-append s.instrs (map f o.instrs) j k refl
            ∙ get_elem?-map f o.instrs j h)

    IsPlaced-head : IsPlaced n o s'
    unfolding region_for
    IsPlaced-head = record {
      region = region;
      remap = a.remap;
      rename = a.rename;
      base = a.base;
      remap_at = a.remap_at;
      rename_at = a.rename_at;
      base_at = a.base_at;
      region_at = region_at;
      named = refl;
      fits = omega (arith, a.nonempty);
      placed = a.placed;
      moved = λ j x h. (
        instr_at j x h,
        region_of-Tiled 0 s'.progs (length s'.instrs) n (length s.instrs + j) region tiled region_at
            (omega arith) (omega (arith, get_elem?-lt o.instrs j h)),
      );
    }

  IsAdded-size :
      {n : ℕ} {l : Bool} {o : Object} {s s' : Linked}
      → IsAdded p n l o s s'
      → length s'.progs ≡ suc (length s.progs)
  IsAdded-size {o = o} {s = s} a = omega (
    arith,
    ap length a.progs_lem,
    length-append s.progs (region_for o (length s.instrs) a.place ∷ []),
  )

  pub Adds-IsPlaced :
      (n m i : ℕ) (objects : List Object) (s s' : Linked) (o : Object)
      → Adds p n objects s s'
      → IsTiled s
      → length s.progs ≡ n
      → m ≡ n + i
      → get_elem? objects i ≡ some o
      → IsPlaced m o s'
  Adds-IsPlaced n m i objects s s' o no_more t size e h = cc
  Adds-IsPlaced n m zero (q ∷ objects) s s' o (one_more a rest) t size e h =
      let whole = Adds-IsTiled rest (IsAdded-IsTiled a t) in
      subst (λ k. IsPlaced k o s') (omega (arith, e))
        (subst (λ x. IsPlaced n x s') (some-injective _ _ h)
          (IsPlaced-head size a (Adds-IsExtended rest) whole))
  Adds-IsPlaced n m (suc i) (q ∷ objects) s s' o (one_more {s1 = s1} a rest) t size e h =
      Adds-IsPlaced (suc n) m i objects s1 s' o rest (IsAdded-IsTiled a t)
        (omega (arith, IsAdded-size a, size)) (omega (arith, e)) h
