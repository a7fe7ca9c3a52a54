-- ===== src/Verify/Prune/Topo.antt =====
-- The order that `topo_order` returns: every edge between live blocks goes forward.
use hor_net_nsdi.Common.{
  ap, ℕ, zero, suc, ◌≤◌, ◌≡◌, ◌≢◌, ◌↔◌, refl, Bool, true, false, ◌||◌, ◌&&◌, ◌==◌, ==→≡, List, [],
  ◌∷◌, length, arith, Bool-cases, inl, inr,
}
use hor_net_nsdi.Common.Sets.{mem}
use hor_net_nsdi.Common.Result.{
  ok, Ensures, done, failed, Ensures-bind, Ensures-if, Ensures-elim, Ensures-weaken,
}
use hor_net_nsdi.Bpf.Cfg.{Block}
use hor_net_nsdi.Verify.Prune.{
  succs_at, Visit, enter, leave, paint, push_succs, topo_loop, topo_order,
}

-- A successor in each state: finished, in progress above, or untouched and waiting above.
abbrev handled : ℕ → Bool → Bool → Bool
handled c t f = c == 2 || (t || (c == 0 && f))

abbrev add : ℕ → (ℕ → Bool) → ℕ → Bool
add b s x = x == b || s x

-- Is the block in progress, with its `leave` item on the stack?
abbrev leaving : ℕ → List Visit → Bool
leaving x [] = false
leaving x (enter b ∷ stack) = leaving x stack
leaving x (leave b ∷ stack) = x == b || leaving x stack

abbrev entering : ℕ → List Visit → Bool
entering x [] = false
entering x (enter b ∷ stack) = x == b || entering x stack
entering x (leave b ∷ stack) = entering x stack

module _ (blocks : List Block) (live : List ℕ) where
  abbrev edge : ℕ → ℕ → Bool
  edge b u = mem u (succs_at blocks b) && mem u live

  -- For each block that is in progress, its live successors are handled by what lies above it:
  -- `t` and `f` hold the blocks of the `leave` and `enter` items above.
  abbrev Frames : (ℕ → ℕ) → (ℕ → Bool) → (ℕ → Bool) → List Visit → Type 0
  Frames c t f [] = Unit
  Frames c t f (enter b ∷ stack) = Frames c t (add b f) stack
  Frames c t f (leave b ∷ stack) =
      ((u : ℕ) → edge b u ≡ true → handled (c u) (t u) (f u) ≡ true) × Frames c (add b t) f stack

  -- What lies above may change as long as no successor gets unhandled.
  Frames-mono :
      (c c' : ℕ → ℕ) (t t' f f' : ℕ → Bool) (stack : List Visit)
      → ((u : ℕ) (x y : Bool)
          → handled (c u) (x || t u) (y || f u) ≡ true
          → handled (c' u) (x || t' u) (y || f' u) ≡ true)
      → Frames c t f stack
      → Frames c' t' f' stack
  Frames-mono c c' t t' f f' [] h i = tt
  Frames-mono c c' t t' f f' (enter b ∷ stack) h i =
      Frames-mono c c' t t' (add b f) (add b f') stack
        (λ u x y k. ground (arith, h u x (y || u == b))) i
  Frames-mono c c' t t' f f' (leave b ∷ stack) h i = (
    λ u e. ground (arith, h u false false, i.0 u e),
    Frames-mono c c' (add b t) (add b t') f f' stack
        (λ u x y k. ground (arith, h u (x || u == b) y)) i.1,
  )

  -- Every edge between live blocks leads to a block behind it.
  abbrev pub Forwards : List ℕ → Type 0
  Forwards [] = Unit
  Forwards (b ∷ order) = ((u : ℕ) → edge b u ≡ true → mem u order ≡ true) × Forwards order

  -- No block occurs twice.
  abbrev pub Distinct : List ℕ → Type 0
  Distinct [] = Unit
  Distinct (b ∷ order) = (mem b order ≡ false) × Distinct order

  -- The blocks in progress, each once.
  abbrev Leaves : (ℕ → ℕ) → List Visit → Type 0
  Leaves c [] = Unit
  Leaves c (enter b ∷ stack) = Leaves c stack
  Leaves c (leave b ∷ stack) = (c b ≡ 1) × (leaving b stack ≡ false) × Leaves c stack

  -- What holds at each round.
  record Inv (stack : List Visit) (c : ℕ → ℕ) (order : List ℕ) : Type 0 where
    small : (x : ℕ) → c x ≤ 2
    frames : Frames c (λ u. false) (λ u. false) stack
    leaves : Leaves c stack
    finished : (x : ℕ) → (c x ≡ 2) ↔ (mem x order ≡ true)
    forwards : Forwards order
    distinct : Distinct order
    started : handled (c 0) (leaving 0 stack) (entering 0 stack) ≡ true
    alive :
        (x : ℕ) → (mem x order || (leaving x stack || entering x stack)) ≡ true → mem x live ≡ true

  Leaves-paint :
      (c : ℕ → ℕ) (b k : ℕ) (stack : List Visit)
      → leaving b stack ≡ false
      → Leaves c stack
      → Leaves (paint c b k) stack
  Leaves-paint c b k [] h l = tt
  Leaves-paint c b k (enter x ∷ stack) h l = Leaves-paint c b k stack h l
  Leaves-paint c b k (leave x ∷ stack) h l =
      (ground arith, l.1, Leaves-paint c b k stack (ground arith) l.2)

  leaving-white :
      (c : ℕ → ℕ) (b : ℕ) (stack : List Visit) → Leaves c stack → c b ≡ 0 → leaving b stack ≡ false
  leaving-white c b [] l w = refl
  leaving-white c b (enter x ∷ stack) l w = leaving-white c b stack l w
  leaving-white c b (leave x ∷ stack) l w = elim (Bool-cases (b == x)) [
    | inl e ↦ let e' : c b ≡ c x = ap c (==→≡ b x e) in absurd (omega (arith, l.0))
    | inr e ↦ ground (arith, leaving-white c b stack l.2 w)
  ]

  Inv-leave :
      (b : ℕ) (stack : List Visit) (c : ℕ → ℕ) (order : List ℕ)
      → Inv (leave b ∷ stack) c order
      → Inv stack (paint c b 2) (b ∷ order)
  unfolding mem
  Inv-leave b stack c order i =
      let in_progress : c b ≡ 1 = i.leaves.0 in
      let gone : leaving b stack ≡ false = i.leaves.1 in
      record {
        small = λ x. ground (arith, i.small x);
        frames =
            Frames-mono c (paint c b 2) (add b (λ u. false)) (λ u. false) (λ u. false) (λ u. false)
              stack (λ u x y h. ground arith) i.frames.1;
        leaves = Leaves-paint c b 2 stack gone i.leaves.2;
        finished = λ x. ground (arith, i.finished x);
        forwards = (λ u e. ground (arith, i.frames.0 u e, i.finished u), i.forwards);
        distinct = (ground (arith, i.finished b), i.distinct);
        started = ground (arith, i.started);
        alive = λ x h. i.alive x (ground arith);
      }

  Inv-skip :
      (b : ℕ) (stack : List Visit) (c : ℕ → ℕ) (order : List ℕ)
      → c b ≢ 0
      → Inv (enter b ∷ stack) c order
      → Inv stack c order
  unfolding mem
  Inv-skip b stack c order old i = record {
    small = i.small;
    frames =
        Frames-mono c c (λ u. false) (λ u. false) (add b (λ u. false)) (λ u. false) stack
          (λ u x y h. elim (Bool-cases (u == b)) [
            | inl e ↦ let e' : c u ≡ c b = ap c (==→≡ u b e) in ground arith
            | inr e ↦ ground arith
          ])
          i.frames;
    leaves = i.leaves;
    finished = i.finished;
    forwards = i.forwards;
    distinct = i.distinct;
    started = elim (Bool-cases (0 == b)) [
      | inl e ↦ let e' : c 0 ≡ c b = ap c (==→≡ 0 b e) in ground (arith, i.started)
      | inr e ↦ ground (arith, i.started)
    ];
    alive = λ x h. i.alive x (ground arith);
  }

  -- The items that `push_succs` puts on the stack, the last of `ws` on top.
  abbrev enter_all : List ℕ → List Visit → List Visit
  enter_all [] stack = stack
  enter_all (w ∷ ws) stack = enter_all ws (enter w ∷ stack)

  record Pushed (c : ℕ → ℕ) (us : List ℕ) (stack stack' : List Visit) : Type 0 where
    ws : List ℕ
    pushed : stack' ≡ enter_all ws stack
    found :
        (u : ℕ) → mem u us ≡ true → mem u live ≡ true → (c u == 2 || (c u == 0 && mem u ws)) ≡ true
    live_only : (u : ℕ) → mem u ws ≡ true → mem u live ≡ true
    few : length ws ≤ length us

  push_succs-Pushed :
      (c : ℕ → ℕ) (us : List ℕ) (stack : List Visit)
      → ((x : ℕ) → c x ≤ 2)
      → Ensures (Pushed c us stack) (push_succs live c us stack)
  unfolding push_succs mem
  push_succs-Pushed c [] stack small = done (record {
    ws = [];
    pushed = refl;
    found = λ u m l. cc;
    live_only = λ u m. cc;
    few = omega arith;
  })
  push_succs-Pushed c (u ∷ us) stack small =
      Ensures-if _ (mem u live) _ _
        (λ l.
          Ensures-if _ (c u == 1) _ _ (λ _. failed)
            λ not_one.
              Ensures-if _ (c u == 2) _ _
                (λ two.
                  Ensures-weaken (Pushed c us stack) _ _
                    (λ s p. record {
                      ws = p.ws;
                      pushed = p.pushed;
                      found = λ v m k. elim (Bool-cases (v == u)) [
                        | inl e ↦ let e' : c v ≡ c u = ap c (==→≡ v u e) in ground arith
                        | inr e ↦ p.found v (ground arith) k
                      ];
                      live_only = p.live_only;
                      few = omega (arith, p.few);
                    })
                    (push_succs-Pushed c us stack small))
                λ not_two.
                  Ensures-weaken (Pushed c us (enter u ∷ stack)) _ _
                    (λ s p. record {
                      ws = u ∷ p.ws;
                      pushed = p.pushed;
                      found = λ v m k. elim (Bool-cases (v == u)) [
                        | inl e ↦ let e' : c v ≡ c u = ap c (==→≡ v u e) in ground (arith, small u)
                        | inr e ↦ ground (arith, p.found v (ground arith) k)
                      ];
                      live_only = λ v m. elim (Bool-cases (v == u)) [
                        | inl e ↦ rw (==→≡ v u e) l
                        | inr e ↦ p.live_only v (ground arith)
                      ];
                      few = omega (arith, p.few);
                    })
                    (push_succs-Pushed c us (enter u ∷ stack) small))
        λ d.
          Ensures-weaken (Pushed c us stack) _ _
            (λ s p. record {
              ws = p.ws;
              pushed = p.pushed;
              found = λ v m k. elim (Bool-cases (v == u)) [
                | inl e ↦ let k' : mem u live ≡ true = rw (==→≡ v u e) at k in cc
                | inr e ↦ p.found v (ground arith) k
              ];
              live_only = p.live_only;
              few = omega (arith, p.few);
            })
            (push_succs-Pushed c us stack small)

  Frames-enter_all :
      (c : ℕ → ℕ) (t f : ℕ → Bool) (ws : List ℕ) (stack : List Visit)
      → Frames c t (λ u. mem u ws || f u) stack
      → Frames c t f (enter_all ws stack)
  unfolding mem
  Frames-enter_all c t f [] stack i = i
  Frames-enter_all c t f (w ∷ ws) stack i = Frames-enter_all c t f ws (enter w ∷ stack) (
      Frames-mono c c t t (λ u. mem u (w ∷ ws) || f u) (add w (λ u. mem u ws || f u)) stack
        (λ u x y h. ground arith) i)

  Leaves-enter_all :
      (c : ℕ → ℕ) (ws : List ℕ) (stack : List Visit)
      → Leaves c stack
      → Leaves c (enter_all ws stack)
  Leaves-enter_all c [] stack l = l
  Leaves-enter_all c (w ∷ ws) stack l = Leaves-enter_all c ws (enter w ∷ stack) l

  leaving-enter_all :
      (x : ℕ) (ws : List ℕ) (stack : List Visit) → leaving x (enter_all ws stack) ≡ leaving x stack
  leaving-enter_all x [] stack = refl
  leaving-enter_all x (w ∷ ws) stack = leaving-enter_all x ws (enter w ∷ stack)

  entering-enter_all :
      (x : ℕ) (ws : List ℕ) (stack : List Visit)
      → entering x (enter_all ws stack) ≡ (mem x ws || entering x stack)
  unfolding mem
  entering-enter_all x [] stack = refl
  entering-enter_all x (w ∷ ws) stack = ground (arith, entering-enter_all x ws (enter w ∷ stack))

  Inv-enter :
      (b : ℕ) (stack stack' : List Visit) (c : ℕ → ℕ) (order : List ℕ)
      → c b ≡ 0
      → Inv (enter b ∷ stack) c order
      → Pushed (paint c b 1) (succs_at blocks b) (leave b ∷ stack) stack'
      → Inv stack' (paint c b 1) order
  unfolding mem
  Inv-enter b stack stack' c order white i p =
      let c' = paint c b 1 in
      let gone = leaving-white c b stack i.leaves white in
      let at_leave = λ (x : ℕ). leaving-enter_all x p.ws (leave b ∷ stack) in
      let at_enter = λ (x : ℕ). entering-enter_all x p.ws (leave b ∷ stack) in
      rw p.pushed (record {
        small = λ x. ground (arith, i.small x);
        frames =
            Frames-enter_all c' (λ u. false) (λ u. false) p.ws (leave b ∷ stack)
              (
                (λ u e. ground (arith, p.found u)),
                Frames-mono c c' (λ u. false) (add b (λ u. false)) (add b (λ u. false))
                    (λ u. mem u p.ws || false) stack
                    (λ u x y h. elim (Bool-cases (u == b)) [
                      | inl e ↦ ground arith
                      | inr e ↦ ground arith
                    ])
                    i.frames,
              );
        leaves =
            Leaves-enter_all c' p.ws (leave b ∷ stack)
              (ground arith, gone, Leaves-paint c b 1 stack gone i.leaves);
        finished = λ x. elim (Bool-cases (x == b)) [
          | inl e ↦ let e' : c x ≡ c b = ap c (==→≡ x b e) in ground (arith, i.finished x)
          | inr e ↦ ground (arith, i.finished x)
        ];
        forwards = i.forwards;
        distinct = i.distinct;
        started = ground (arith, i.started, at_leave 0, at_enter 0);
        alive = λ x h. elim (Bool-cases (mem x p.ws)) [
          | inl w ↦ p.live_only x w
          | inr w ↦ i.alive x (ground (arith, at_leave x, at_enter x))
        ];
      })

  topo_loop-Inv :
      (fuel : ℕ) (stack : List Visit) (c : ℕ → ℕ) (order : List ℕ)
      → Inv stack c order
      → Ensures (λ found. (c' : ℕ → ℕ) × Inv [] c' found) (topo_loop blocks live fuel stack c order)
  unfolding topo_loop
  topo_loop-Inv fuel [] c order i = done (c, i)
  topo_loop-Inv zero (v ∷ stack) c order i = failed
  topo_loop-Inv (suc fuel) (leave b ∷ stack) c order i =
      topo_loop-Inv fuel stack (paint c b 2) (b ∷ order) (Inv-leave b stack c order i)
  topo_loop-Inv (suc fuel) (enter b ∷ stack) c order i = elim (Bool-cases (c b == 0)) [
    | inr old ↦
        rw (old, topo_loop)
          (topo_loop-Inv fuel stack c order (Inv-skip b stack c order (ground arith) i))
    | inl white ↦
        rw (white, topo_loop)
          (Ensures-bind _ (Pushed (paint c b 1) (succs_at blocks b) (leave b ∷ stack)) _ _
            (push_succs-Pushed (paint c b 1) (succs_at blocks b) (leave b ∷ stack)
              (λ x. ground (arith, i.small x)))
            λ stack' p.
              topo_loop-Inv fuel stack' (paint c b 1) order
                (Inv-enter b stack stack' c order (==→≡ (c b) 0 white) i p))
  ]

  Inv-start : mem 0 live ≡ true → Inv (enter 0 ∷ []) (λ b. 0) []
  unfolding mem
  Inv-start h = record {
    small = λ x. omega arith;
    frames = tt;
    leaves = tt;
    finished = λ x. (λ e. absurd (omega arith), λ e. cc);
    forwards = tt;
    distinct = tt;
    started = refl;
    alive = λ x e. elim (Bool-cases (x == 0)) [ inl z ↦ rw (==→≡ x 0 z) h | inr z ↦ ground arith ];
  }

  -- What a returned order is.
  pub record IsLinear (order : List ℕ) : Type 0 where
    pub forwards : Forwards order
    pub distinct : Distinct order
    pub live_only : (b : ℕ) → mem b order ≡ true → mem b live ≡ true
    pub has_entry : mem 0 order ≡ true
    pub size : length order ≡ length live

linear :
    (blocks : List Block) (live : List ℕ)
    → mem 0 live ≡ true
    → Ensures (IsLinear blocks live) (topo_order blocks live)
unfolding topo_order
linear blocks live h =
    Ensures-bind _ (λ found. (c' : ℕ → ℕ) × Inv blocks live [] c' found) _ _
      (topo_loop-Inv blocks live _ (enter 0 ∷ []) (λ b. 0) [] (Inv-start blocks live h))
      λ found (c, i).
        Ensures-if _ (length found == length live) _ _
          (λ same. done (record {
            forwards = i.forwards;
            distinct = i.distinct;
            live_only = λ b m. i.alive b (ground arith);
            has_entry = (i.finished 0).0 (ground (arith, i.started));
            size = ==→≡ (length found) (length live) same;
          }))
          λ _. failed

-- When `topo_order` returns, for live blocks that include block 0: the order holds live blocks only,
-- each once and as many as there are, block 0 among them, and every edge between live blocks goes
-- from a block to one behind it.
pub topo_order-IsLinear :
    (blocks : List Block) (live order : List ℕ)
    → mem 0 live ≡ true
    → topo_order blocks live ≡ ok order
    → IsLinear blocks live order
topo_order-IsLinear blocks live order h e =
    Ensures-elim (IsLinear blocks live) _ order (linear blocks live h) e
