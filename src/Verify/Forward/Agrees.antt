-- ===== src/Verify/Forward/Agrees.antt =====
-- The walk of a `ForwardContext` computes the path conditions and guards of `analyze`, at the
-- memories that it computes itself; so its path conditions are exact too.
use hor_net_nsdi.Common.{
  ℕ, ◌≡◌, refl, sym, ◌∙◌, ap, Bool, true, false, ◌==◌, ≡→==, if◌then◌else◌, List, [], ◌∷◌, ◌++◌,
  map, Option, some, none, arith, Bool-cases, inl, inr, map-append,
}
use hor_net_nsdi.Common.Sets.{mem}
use hor_net_nsdi.Bpf.Cfg.{Block, sorted_set}
use hor_net_nsdi.Verify.Prune.{preds_of}
use hor_net_nsdi.Verify.Prune.Topo.{Distinct}
use hor_net_nsdi.Verify.Guard.{Logic, Guard, known, is_known, and_guard, or_all}
use hor_net_nsdi.Verify.Analyze.{
  EdgeKind, taken, fall, InEdge, BlockInfo, info_of, leads_to, succ_t_of, succ_f_of, is_branching,
  branch_guards, edge_if, edges_from, edges_into, info_for, analyze_from,
}
use hor_net_nsdi.Verify.Forward.{
  Memory, ForwardInfo, forward_of, contrib_if, contribs_from, contribs_into, sigma_for,
  forward_info, walk,
}

module _ (z : Logic) (memory : Memory z) where
  open z use {Term}
  open memory use {State, cond_at}

  -- The entries of the two dictionaries for a block: none, or the same condition and guards.
  pub data Agrees : Option (BlockInfo Term) → Option (ForwardInfo Term State) → Type 0 where
    neither : Agrees none none
    both :
        {i : BlockInfo Term} {w : ForwardInfo Term State}
        → w.reach ≡ i.reach
        → w.edge_taken ≡ i.edge_taken
        → w.edge_fall ≡ i.edge_fall
        → Agrees (some i) (some w)

  contrib_if-edge_if :
      (here : Bool) (p : ℕ) (kind : EdgeKind) (g h : Guard Term) (sigma : State)
      → h ≡ g
      → map (λ c. c.0) (contrib_if z memory here h sigma)
        ≡ map (λ e. e.guard) (edge_if z here p kind g)
  contrib_if-edge_if false p kind g h sigma e = refl
  contrib_if-edge_if true p kind g h sigma e = elim (Bool-cases (is_known false g)) [
    | inl q ↦ rw (e, q) refl
    | inr q ↦ rw (e, q) refl
  ]

  same_skip :
      (t t' : Bool) (xs : List (Guard Term × State)) (ys : List (InEdge Term))
      → t' ≡ t
      → map (λ c. c.0) xs ≡ map (λ e. e.guard) ys
      → map (λ c. c.0) (if t' then [] else xs) ≡ map (λ e. e.guard) (if t then [] else ys)
  same_skip true true xs ys e h = refl
  same_skip false false xs ys e h = h
  same_skip true false xs ys e h = cc
  same_skip false true xs ys e h = cc

  same_append :
      (xs xs' : List (Guard Term × State)) (ys ys' : List (InEdge Term))
      → map (λ c. c.0) xs ≡ map (λ e. e.guard) ys
      → map (λ c. c.0) xs' ≡ map (λ e. e.guard) ys'
      → map (λ c. c.0) (xs ++ xs') ≡ map (λ e. e.guard) (ys ++ ys')
  same_append xs xs' ys ys' h h' =
      map-append (λ c. c.0) xs xs'
      ∙ ap (λ l. l ++ map (λ c. c.0) xs') h
      ∙ ap (λ l. map (λ e. e.guard) ys ++ l) h'
      ∙ sym (map-append (λ e. e.guard) ys ys')

  contribs_from-edges_from :
      (blocks : List Block) (b p : ℕ) {oi : Option (BlockInfo Term)}
      {ow : Option (ForwardInfo Term State)}
      → Agrees oi ow
      → map (λ c. c.0) (contribs_from z memory blocks b p ow)
        ≡ map (λ e. e.guard) (edges_from z blocks b p oi)
  unfolding contribs_from edges_from
  contribs_from-edges_from blocks b p neither = refl
  contribs_from-edges_from blocks b p (both {i = i} {w = w} r t f) =
      same_skip (is_known false i.reach) (is_known false w.reach) _ _ (ap (is_known false) r) (
        same_append _ _ _ _
          (contrib_if-edge_if (leads_to (succ_t_of blocks p) b) p taken _ _ w.sigma
            (ap (λ g. and_guard z g w.edge_taken) r ∙ ap (and_guard z i.reach) t))
          (contrib_if-edge_if (leads_to (succ_f_of blocks p) b) p fall _ _ w.sigma
            (ap (λ g. and_guard z g w.edge_fall) r ∙ ap (and_guard z i.reach) f)))

  module _ (blocks : List Block) where
    contribs_into-edges_into :
        (info : List (BlockInfo Term)) (winfo : List (ForwardInfo Term State)) (b : ℕ) (ps : List ℕ)
        → ((p : ℕ) → Agrees (info_of info p) (forward_of winfo p))
        → map (λ c. c.0) (contribs_into z memory blocks winfo b ps)
          ≡ map (λ e. e.guard) (edges_into z blocks info b ps)
    unfolding contribs_into edges_into
    contribs_into-edges_into info winfo b [] all = refl
    contribs_into-edges_into info winfo b (p ∷ ps) all =
        same_append _ _ _ _ (contribs_from-edges_from blocks b p (all p))
          (contribs_into-edges_into info winfo b ps all)

    module _ (cond : ℕ → Option (Guard Term)) where
      forward_info-Agrees :
          (info : List (BlockInfo Term)) (winfo : List (ForwardInfo Term State)) (b : ℕ)
          → ((p : ℕ) → Agrees (info_of info p) (forward_of winfo p))
          → cond b ≡ cond_at b (sigma_for z memory blocks winfo b)
          → Agrees
              (some (info_for z blocks cond info b))
              (some (forward_info z memory blocks winfo b))
      unfolding forward_info info_for
      forward_info-Agrees info winfo b all same =
          let pick = λ (o : Option (Guard Term)).
            if is_branching blocks b
            then branch_guards z b o
            else (known true, known true, false) in
          both
            (elim (Bool-cases (b == 0)) [
              | inl e ↦ rw e refl
              | inr e ↦ rw e (
                  ap (or_all z)
                    (contribs_into-edges_into info winfo b (sorted_set (preds_of blocks b)) all))
            ])
            (ap (λ o. (pick o).0) (sym same)) (ap (λ o. (pick o).1) (sym same))

      num_lem :
          (info : List (BlockInfo Term)) (winfo : List (ForwardInfo Term State)) (b : ℕ)
          → ((info_for z blocks cond info b).num ≡ b)
            × ((forward_info z memory blocks winfo b).num ≡ b)
            × ((forward_info z memory blocks winfo b).sigma ≡ sigma_for z memory blocks winfo b)
      unfolding forward_info info_for
      num_lem info winfo b = (refl, refl, refl)

      found_both :
          (i : BlockInfo Term) (w : ForwardInfo Term State) (info : List (BlockInfo Term))
          (winfo : List (ForwardInfo Term State)) (b p : ℕ)
          → i.num ≡ b
          → w.num ≡ b
          → Agrees (some i) (some w)
          → Agrees (info_of info p) (forward_of winfo p)
          → Agrees (info_of (i ∷ info) p) (forward_of (w ∷ winfo) p)
      found_both i w info winfo b p ei ew new old =
          one_of (i.num == p) (w.num == p) (ap (λ n. n == p) (ew ∙ sym ei)) new old
        where
          one_of :
              {oi : Option (BlockInfo Term)} {ow : Option (ForwardInfo Term State)}
              {x : BlockInfo Term} {y : ForwardInfo Term State} (t t' : Bool)
              → t' ≡ t
              → Agrees (some x) (some y)
              → Agrees oi ow
              → Agrees (if t then some x else oi) (if t' then some y else ow)
          one_of true true e new old = new
          one_of false false e new old = old
          one_of true false e new old = cc
          one_of false true e new old = cc

  -- A round changes no entry but that of its own block.
  walk-keeps :
      (blocks : List Block) (order : List ℕ) (winfo : List (ForwardInfo Term State)) (b : ℕ)
      → mem b order ≡ false
      → forward_of (walk z memory blocks winfo order) b ≡ forward_of winfo b
  unfolding walk forward_info mem
  walk-keeps blocks [] winfo b h = refl
  walk-keeps blocks (x ∷ order) winfo b h =
      walk-keeps blocks order (forward_info z memory blocks winfo x ∷ winfo) b (ground (arith, h))
      ∙ rw (other x b (ground (arith, h))) refl
    where
      other : (x b : ℕ) → (b == x) ≡ false → (x == b) ≡ false
      other x b h = ground arith

  pub walk-Agrees :
      (blocks : List Block) (cond : ℕ → Option (Guard Term)) (live order : List ℕ)
      (info : List (BlockInfo Term)) (winfo : List (ForwardInfo Term State))
      → Distinct blocks live order
      → ((b : ℕ) (w : ForwardInfo Term State)
          → forward_of (walk z memory blocks winfo order) b ≡ some w
          → cond b ≡ cond_at b w.sigma)
      → ((p : ℕ) → Agrees (info_of info p) (forward_of winfo p))
      → (p : ℕ)
      → Agrees
          (info_of (analyze_from z blocks cond info order) p)
          (forward_of (walk z memory blocks winfo order) p)
  unfolding walk analyze_from
  walk-Agrees blocks cond live [] info winfo d conds all p = all p
  walk-Agrees blocks cond live (b ∷ order) info winfo (fresh, d) conds all p =
      let i = info_for z blocks cond info b in
      let w = forward_info z memory blocks winfo b in
      let (ni, nw, sw) = num_lem blocks cond info winfo b in
      let found = walk-keeps blocks order (w ∷ winfo) b fresh ∙ rw (nw, ≡→== b b refl) refl in
      let same = conds b w found ∙ ap (cond_at b) sw in
      walk-Agrees blocks cond live order (i ∷ info) (w ∷ winfo) d conds
        (λ q.
          found_both blocks cond i w info winfo b q ni nw
            (forward_info-Agrees blocks cond info winfo b all same) (all q))
        p
