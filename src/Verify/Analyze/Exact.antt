-- ===== src/Verify/Analyze/Exact.antt =====
-- The path conditions of `analyze` are exact: in each model of the solver's variables, the condition
-- of a block is true exactly when the execution that the model describes reaches the block.
use hor_net_nsdi.Common.{
  ℕ, ◌≡◌, ◌↔◌, refl, sym, ◌∙◌, ap, subst, Bool, true, false, ◌&&◌, ◌||◌, not, ◌==◌, ==→≡, ≡→==,
  if◌then◌else◌, List, [], ◌∷◌, ◌++◌, map, Option, some, none, get_elem?, any_b, arith, Bool-cases,
  Option-cases, map-append, inl, inr, ◌≢◌,
}
use mathlib.Core.Option.{some-injective}
use hor_net_nsdi.Common.Sets.{mem}
use hor_net_nsdi.Bpf.Cfg.{Block, sorted_set}
use hor_net_nsdi.Bpf.Cfg.Leaders.{mem-sorted_set}
use hor_net_nsdi.Verify.Prune.{preds_of, succs_at, successors}
use hor_net_nsdi.Verify.Prune.Topo.{Forwards, Distinct}
use hor_net_nsdi.Verify.Guard.{
  Logic, Guard, term, is_known, value, and_guard, literal, value-and_guard, value-not_guard,
  value-or_all, value-literal, is_known-value,
}
use hor_net_nsdi.Verify.Analyze.{
  EdgeKind, taken, fall, InEdge, BlockInfo, info_of, leads_to, succ_t_of, succ_f_of, is_branching,
  branch_guards, edge_if, edges_from, edges_into, guards_of, info_for, analyze_from,
}

any_b-append {ℓ} :
    {A : Type ℓ} (p : A → Bool) (xs ys : List A) → any_b p (xs ++ ys) ≡ (any_b p xs || any_b p ys)
any_b-append p [] ys = refl
any_b-append p (x ∷ xs) ys = ground (arith, any_b-append p xs ys)

-- Where a Boolean test holds of a list of numbers, an item shows it.
any_b-item :
    (p : ℕ → Bool) (xs : List ℕ) → any_b p xs ≡ true → (x : ℕ) × (mem x xs ≡ true) × (p x ≡ true)
unfolding mem
any_b-item p [] h = cc
any_b-item p (x ∷ xs) h = elim (Bool-cases (p x)) [
  | inl e ↦ (x, ground arith, e)
  | inr e ↦ let (y, m, q) = any_b-item p xs (ground (arith, h, e)) in (y, ground (arith, m), q)
]

item-any_b : (p : ℕ → Bool) (xs : List ℕ) (x : ℕ) → mem x xs ≡ true → p x ≡ true → any_b p xs ≡ true
unfolding mem
item-any_b p [] x m h = cc
item-any_b p (y ∷ xs) x m h = elim (Bool-cases (x == y)) [
  | inl e ↦ let e' : p y ≡ true = subst (λ k. p k ≡ true) (==→≡ x y e) h in ground arith
  | inr e ↦ ground (arith, item-any_b p xs x)
]

mem_tail : (c b : ℕ) (rest : List ℕ) → c ≢ b → mem c (b ∷ rest) ≡ true → mem c rest ≡ true
unfolding mem
mem_tail c b rest ne h = ground arith

mem_cons : (c b : ℕ) (rest : List ℕ) → mem c rest ≡ true → mem c (b ∷ rest) ≡ true
unfolding mem
mem_cons c b rest h = ground arith

mem_head : (b : ℕ) (rest : List ℕ) → mem b (b ∷ rest) ≡ true
unfolding mem
mem_head b rest = ground arith

pub mem-successors :
    (o : Option Block) (b : ℕ)
    → mem b (elim o [ none ↦ [] | some s ↦ successors s ]) ≡ (
        leads_to (elim o [ none ↦ none | some s ↦ s.succ_t ]) b
        || leads_to (elim o [ none ↦ none | some s ↦ s.succ_f ]) b)
unfolding successors mem
mem-successors none b = refl
mem-successors (some s) b = ground arith

module _ (z : Logic) (m : z.Model) (blocks : List Block) (cond : ℕ → Option (Guard z.Term)) where
  open z use {Term, branch_taken}

  -- Does the branch at the end of block p jump? A condition that was not recorded is the model's
  -- free choice.
  abbrev pub jumps_on : ℕ → Option (Guard Term) → Bool
  jumps_on p none = value z m (term (branch_taken p))
  jumps_on p (some c) = value z m c

  abbrev pub jumps : ℕ → Bool
  jumps p = jumps_on p (cond p)

  -- Does control go from block p to block b?
  abbrev pub goes : ℕ → ℕ → Bool
  goes p b =
      if is_branching blocks p
      then (if jumps p then leads_to (succ_t_of blocks p) b else leads_to (succ_f_of blocks p) b)
      else leads_to (succ_t_of blocks p) b || leads_to (succ_f_of blocks p) b

  -- The execution reaches a block of the order, through blocks of the order.
  pub data Runs (order : List ℕ) : ℕ → Type 0 where
    start : {b : ℕ} → b ≡ 0 → mem b order ≡ true → Runs order b
    step : {p b : ℕ} → Runs order p → goes p b ≡ true → mem b order ≡ true → Runs order b

  pub Runs-mem : {order : List ℕ} {b : ℕ} → Runs order b → mem b order ≡ true
  Runs-mem (start e h) = h
  Runs-mem (step r g h) = h

  branch_guards-value :
      (p : ℕ) (o : Option (Guard Term))
      → (value z m (branch_guards z p o).0 ≡ jumps_on p o)
        × (value z m (branch_guards z p o).1 ≡ not (jumps_on p o))
  unfolding branch_guards
  branch_guards-value p none = (refl, value-not_guard z m (term (branch_taken p)))
  branch_guards-value p (some c) =
      (value-literal z m c, value-not_guard z m (literal z c) ∙ ap not (value-literal z m c))

  guards_of-value :
      (p : ℕ)
      → (value z m (guards_of z blocks cond p).0 ≡ (not (is_branching blocks p) || jumps p))
        × (value z m (guards_of z blocks cond p).1 ≡ (not (is_branching blocks p) || not (jumps p)))
  guards_of-value p = elim (Bool-cases (is_branching blocks p)) [
    | inr e ↦ rw e (refl, refl)
    | inl e ↦ rw e (branch_guards-value p (cond p))
  ]

  -- the value of a list of edges
  abbrev some_open : List (InEdge Term) → Bool
  some_open es = any_b (value z m) (map (λ e. e.guard) es)

  some_open-append :
      (xs ys : List (InEdge Term)) → some_open (xs ++ ys) ≡ (some_open xs || some_open ys)
  some_open-append xs ys =
      ap (any_b (value z m)) (map-append (λ (e : InEdge Term). e.guard) xs ys)
      ∙ any_b-append (value z m) (map (λ e. e.guard) xs) (map (λ e. e.guard) ys)

  some_open-edge_if :
      (here : Bool) (p : ℕ) (kind : EdgeKind) (g : Guard Term)
      → some_open (edge_if z here p kind g) ≡ (here && value z m g)
  some_open-edge_if false p kind g = refl
  some_open-edge_if true p kind g = elim (Bool-cases (is_known false g)) [
    | inl e ↦ rw e (sym (is_known-value z m g e))
    | inr e ↦ rw e (ground arith)
  ]

  -- The edges from p are open when p is reached and control goes from p to b.
  some_open-edges_from :
      (p b : ℕ) (i : BlockInfo Term)
      → i.edge_taken ≡ (guards_of z blocks cond p).0
      → i.edge_fall ≡ (guards_of z blocks cond p).1
      → some_open (edges_from z blocks b p (some i)) ≡ (value z m i.reach && goes p b)
  unfolding edges_from
  some_open-edges_from p b i et ef = elim (Bool-cases (is_known false i.reach)) [
    | inl e ↦ rw e (ground (arith, is_known-value z m i.reach e))
    | inr e ↦
        let t = and_guard z i.reach i.edge_taken in
        let f = and_guard z i.reach i.edge_fall in
        let here_t = leads_to (succ_t_of blocks p) b in
        let here_f = leads_to (succ_f_of blocks p) b in
        let from_t = some_open-edge_if here_t p taken t in
        let from_f = some_open-edge_if here_f p fall f in
        let both = some_open-append (edge_if z here_t p taken t) (edge_if z here_f p fall f) in
        let value_t =
          value-and_guard z m i.reach i.edge_taken
          ∙ ap (λ (g : Guard Term). value z m i.reach && value z m g) et in
        let value_f =
          value-and_guard z m i.reach i.edge_fall
          ∙ ap (λ (g : Guard Term). value z m i.reach && value z m g) ef in
        let guards = guards_of-value p in
        rw e (ground (arith, both, from_t, from_f, value_t, value_f, guards.0, guards.1))
  ]

  -- Is the block at p known to be reached, and does control go from it to b?
  abbrev arrives_by : Option (BlockInfo Term) → ℕ → ℕ → Bool
  arrives_by none p b = false
  arrives_by (some i) p b = value z m i.reach && goes p b

  abbrev arrives : List (BlockInfo Term) → ℕ → ℕ → Bool
  arrives info b p = arrives_by (info_of info p) p b

  -- The entries of `info` have the guards of their blocks.
  abbrev pub HasGuards : List (BlockInfo Term) → Type 0
  HasGuards info =
      (p : ℕ) (i : BlockInfo Term)
      → info_of info p ≡ some i
      → (i.edge_taken ≡ (guards_of z blocks cond p).0)
        × (i.edge_fall ≡ (guards_of z blocks cond p).1)

  some_open-arrives_by :
      (o : Option (BlockInfo Term)) (p b : ℕ)
      → ((i : BlockInfo Term)
          → o ≡ some i
          → (i.edge_taken ≡ (guards_of z blocks cond p).0)
            × (i.edge_fall ≡ (guards_of z blocks cond p).1))
      → some_open (edges_from z blocks b p o) ≡ arrives_by o p b
  unfolding edges_from
  some_open-arrives_by none p b g = refl
  some_open-arrives_by (some i) p b g = some_open-edges_from p b i (g i refl).0 (g i refl).1

  some_open-edges_into :
      (info : List (BlockInfo Term)) (b : ℕ) (ps : List ℕ)
      → HasGuards info
      → some_open (edges_into z blocks info b ps) ≡ any_b (arrives info b) ps
  unfolding edges_into
  some_open-edges_into info b [] g = refl
  some_open-edges_into info b (p ∷ ps) g = ground (
    arith,
    some_open-append (edges_from z blocks b p (info_of info p)) (edges_into z blocks info b ps),
    some_open-arrives_by (info_of info p) p b (g p),
    some_open-edges_into info b ps g,
  )

  -- Control goes along the edges of the graph only.
  goes-leads_to :
      (p b : ℕ)
      → goes p b ≡ true
      → (leads_to (succ_t_of blocks p) b || leads_to (succ_f_of blocks p) b) ≡ true
  goes-leads_to p b h = ground arith

  pub goes-mem : (p b : ℕ) → goes p b ≡ true → mem b (succs_at blocks p) ≡ true
  goes-mem p b h = mem-successors (get_elem? blocks p) b ∙ goes-leads_to p b h

  -- An edge between live blocks goes forward, so an edge to b comes from no block behind it.
  forward-mem :
      (live : List ℕ) (p b : ℕ) (rest : List ℕ)
      → Forwards blocks live rest
      → goes p b ≡ true
      → mem b live ≡ true
      → mem p rest ≡ true
      → mem b rest ≡ true
  unfolding mem
  forward-mem live p b [] f g lb mp = cc
  forward-mem live p b (x ∷ rest) f g lb mp = elim (Bool-cases (p == x)) [
    | inl e ↦
        let goes_on = f.0 b (
          subst (λ k. (mem b (succs_at blocks k) && mem b live) ≡ true) (==→≡ p x e)
            (rw (goes-mem p b g, lb) refl)) in
        ground arith
    | inr e ↦ ground (arith, forward-mem live p b rest f.1 g lb)
  ]

  no_way_back :
      (live : List ℕ) (b p : ℕ) (rest : List ℕ)
      → Forwards blocks live (b ∷ rest)
      → Distinct blocks live (b ∷ rest)
      → mem b live ≡ true
      → mem p (b ∷ rest) ≡ true
      → goes p b ≡ true
      → ⊥
  unfolding mem
  no_way_back live b p rest f d lb mp g = elim (Bool-cases (p == b)) [
    | inl e ↦
        let goes_on = f.0 b (
          subst (λ k. (mem b (succs_at blocks k) && mem b live) ≡ true) (==→≡ p b e)
            (rw (goes-mem p b g, lb) refl)) in
        cc (goes_on, d.0)
    | inr e ↦ cc (forward-mem live p b rest f.1 g lb (ground (arith, mp, e)), d.0)
  ]

  -- What holds between two rounds: the blocks of the order that are not in `info` are still to come,
  -- and the conditions in `info` are exact.
  pub record IsExact (order rest : List ℕ) (info : List (BlockInfo Term)) : Type 0 where
    pub guards : HasGuards info
    pub exact :
        (b : ℕ) (i : BlockInfo Term)
        → info_of info b ≡ some i
        → (value z m i.reach ≡ true) ↔ Runs order b
    pub within : (b : ℕ) (i : BlockInfo Term) → info_of info b ≡ some i → mem b order ≡ true
    pub to_come : (b : ℕ) → mem b order ≡ true → info_of info b ≡ none → mem b rest ≡ true

  module _ (live order : List ℕ) (live_only : (b : ℕ) → mem b order ≡ true → mem b live ≡ true)
      (mirrored : (p b : ℕ) → mem b (succs_at blocks p) ≡ true → mem p (preds_of blocks b) ≡ true)
      (b : ℕ) (rest : List ℕ) (info : List (BlockInfo Term)) (in_order : mem b order ≡ true)
      (forwards : Forwards blocks live (b ∷ rest)) (distinct : Distinct blocks live (b ∷ rest))
      (inv : IsExact order (b ∷ rest) info) where
    -- A reached block arrives by an entry of `info`, and only so.
    arrives-Runs : (p : ℕ) → arrives info b p ≡ true → Runs order b
    arrives-Runs p h = elim (Option-cases (info_of info p)) [
      | inl e ↦ absurd (nothing p (rw e at h))
      | inr (i, e) ↦
          let both = subst (λ o. arrives_by o p b ≡ true) e h in
          step ((inv.exact p i e).0 (ground (arith, both))) (ground (arith, both)) in_order
    ]
      where
        nothing : (q : ℕ) → arrives_by none q b ≡ true → ⊥
        nothing q g = cc

    Runs-arrives : (p : ℕ) → Runs order p → goes p b ≡ true → arrives info b p ≡ true
    Runs-arrives p r g = elim (Option-cases (info_of info p)) [
      | inl e ↦ absurd (
          no_way_back live b p rest forwards distinct (live_only b in_order)
            (inv.to_come p (Runs-mem r) e) g)
      | inr (i, e) ↦
          subst (λ o. arrives_by o p b ≡ true) (sym e) (rw (g, (inv.exact p i e).1 r) refl)
    ]

    edges-Runs :
        b ≢ 0 → (any_b (arrives info b) (sorted_set (preds_of blocks b)) ≡ true) ↔ Runs order b
    edges-Runs ne = (
      λ h.
          let (p, at, a) = any_b-item (arrives info b) (sorted_set (preds_of blocks b)) h in
          arrives-Runs p a,
      from_run,
    )
      where
        from_step :
            (p : ℕ)
            → Runs order p
            → goes p b ≡ true
            → any_b (arrives info b) (sorted_set (preds_of blocks b)) ≡ true
        from_step p r g =
            item-any_b (arrives info b) (sorted_set (preds_of blocks b)) p
              (mem-sorted_set p (preds_of blocks b) ∙ mirrored p b (goes-mem p b g))
              (Runs-arrives p r g)

        from_run : Runs order b → any_b (arrives info b) (sorted_set (preds_of blocks b)) ≡ true
        from_run (start e h) = absurd (ne e)
        from_run (step r g h) = from_step _ r g

    entry-Runs : (value z m (info_for z blocks cond info b).reach ≡ true) ↔ Runs order b
    unfolding info_for
    entry-Runs = elim (Bool-cases (b == 0)) [
      | inl e ↦ rw e ((λ h. start (==→≡ b 0 e) in_order), (λ r. refl))
      | inr e ↦ rw e (
          subst (λ t. (t ≡ true) ↔ Runs order b)
            (sym (
              value-or_all z m
                (map (λ x. x.guard) (edges_into z blocks info b (sorted_set (preds_of blocks b))))
              ∙ some_open-edges_into info b (sorted_set (preds_of blocks b)) inv.guards))
            (edges-Runs (λ same. cc (sym e ∙ ≡→== b 0 same))))
    ]

    abbrev entry : BlockInfo Term
    entry = info_for z blocks cond info b

    entry_guards :
        (entry.edge_taken ≡ (guards_of z blocks cond b).0)
        × (entry.edge_fall ≡ (guards_of z blocks cond b).1)
        × (entry.num ≡ b)
    unfolding info_for
    entry_guards = (refl, refl, refl)

    -- What is found behind the new entry.
    found_entry :
        (P : ℕ → BlockInfo Term → Type 0)
        → P b entry
        → ((p : ℕ) (i : BlockInfo Term) → info_of info p ≡ some i → P p i)
        → (p : ℕ) (i : BlockInfo Term) → info_of (entry ∷ info) p ≡ some i
        → P p i
    found_entry P new old p i h = elim (Bool-cases (entry.num == p)) [
      | inl e ↦
          subst (λ x. P p x) (some-injective _ _ (rw e at h))
            (subst (λ k. P k entry) (sym entry_guards.2 ∙ ==→≡ entry.num p e) new)
      | inr e ↦ old p i (rw e at h)
    ]

    info_for-IsExact : IsExact order rest (entry ∷ info)
    info_for-IsExact = record {
      guards =
          found_entry
            (λ p i.
              (i.edge_taken ≡ (guards_of z blocks cond p).0)
              × (i.edge_fall ≡ (guards_of z blocks cond p).1))
            (entry_guards.0, entry_guards.1) inv.guards;
      exact = found_entry (λ p i. (value z m i.reach ≡ true) ↔ Runs order p) entry-Runs inv.exact;
      within = found_entry (λ p i. mem p order ≡ true) in_order inv.within;
      to_come = λ c at h. elim (Bool-cases (entry.num == c)) [
        | inl e ↦ cc (rw e at h)
        | inr e ↦
            other_mem c (λ same. cc (sym e ∙ ≡→== entry.num c (entry_guards.2 ∙ sym same)))
              (inv.to_come c at (rw e at h))
      ];
    }
      where
        other_mem : (c : ℕ) → c ≢ b → mem c (b ∷ rest) ≡ true → mem c rest ≡ true
        other_mem c ne h = mem_tail c b rest ne h

  module _ (live order : List ℕ) (live_only : (b : ℕ) → mem b order ≡ true → mem b live ≡ true)
      (mirrored : (p b : ℕ)
        → mem b (succs_at blocks p) ≡ true
        → mem p (preds_of blocks b) ≡ true) where
    pub analyze_from-IsExact :
        (rest : List ℕ) (info : List (BlockInfo Term))
        → ((b : ℕ) → mem b rest ≡ true → mem b order ≡ true)
        → Forwards blocks live rest
        → Distinct blocks live rest
        → IsExact order rest info
        → IsExact order [] (analyze_from z blocks cond info rest)
    unfolding analyze_from
    analyze_from-IsExact [] info inside f d inv = inv
    analyze_from-IsExact (b ∷ rest) info inside f d inv =
        analyze_from-IsExact rest (info_for z blocks cond info b ∷ info)
          (λ c h. inside c (mem_cons c b rest h)) f.1 d.1
          (info_for-IsExact live order live_only mirrored b rest info (inside b (mem_head b rest)) f
            d inv)
