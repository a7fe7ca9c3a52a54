-- ===== src/Bpf/Cfg/Wired.antt =====
-- The jump of one block drawn into the graph: `connect_jump` and what it calls.
use hor_net_nsdi.Common.{
  ℕ, suc, ◌+◌, ◌≤◌, ◌<◌, ◌≡◌, refl, ◌==◌, if◌then◌else◌, List, [], some, none, length,
  length-modify_at, arith, inl, inr, index_of, index_of-lt, sym, ◌∙◌, Option-cases,
}
use hor_net_nsdi.Common.Result.{
  ok, Ensures, Ensures-bind, Ensures-or_err, Ensures-if, Ensures-any, done, failed,
}
use hor_net_nsdi.Bpf.Instr.{Instr, is_jump, is_tail_call}
use hor_net_nsdi.Bpf.Codes.{ja, call, exit}
use hor_net_nsdi.Bpf.Region.{ProgRegion}
use hor_net_nsdi.Common.Int.{ℤ, pos, negsuc}
use hor_net_nsdi.Bpf.Cfg.{
  tail_target, Block, Graph, edge_taken, edge_fall, update, start_map, connect_ja, connect_tail,
  connect_call, connect_branch, connect_fall, connect_jump, connect,
}
use hor_net_nsdi.Bpf.Cfg.View.{succ_t_at, succ_f_at, field_at-modify_at_same}
use hor_net_nsdi.Bpf.Cfg.Mirror.{
  Mirrors, edge_taken-size, edge_fall-size, succ_t_at-edge_taken, succ_f_at-edge_taken,
  Mirrors-edge_taken, succ_f_at-edge_fall, succ_t_at-edge_fall, Mirrors-edge_fall,
}

-- `preds` mirrors the edges, which lead to blocks, and from the blocks `kt` and `kf` on there is no
-- taken edge and no fall-through yet.
pub record Wired (m kt kf : ℕ) (g : Graph) : Type 0 where
  pub size : length g.blocks ≡ m
  pub mirrors : Mirrors g
  pub bound_t : (p s : ℕ) → succ_t_at g p ≡ some s → s < m
  pub bound_f : (p s : ℕ) → succ_f_at g p ≡ some s → s < m
  pub free_t : (j : ℕ) → kt ≤ j → succ_t_at g j ≡ none
  pub free_f : (j : ℕ) → kf ≤ j → succ_f_at g j ≡ none

module _ (m k s : ℕ) (g : Graph) (k_lt : k < m) (s_lt : s < m) where
  Wired-taken : (kf : ℕ) → Wired m k kf g → Wired m (suc k) kf (edge_taken k s g)
  Wired-taken kf w =
      let i_lt : k < length g.blocks = omega (arith, w.size) in
      let j_lt : s < length g.blocks = omega (arith, w.size) in
      record {
        size = edge_taken-size k s g ∙ w.size;
        mirrors = Mirrors-edge_taken k s g i_lt j_lt w.mirrors (w.free_t k (omega arith));
        bound_t = λ p t e. ground (arith, succ_t_at-edge_taken k s g i_lt j_lt p, w.bound_t p t);
        bound_f = λ p t e. w.bound_f p t (sym (succ_f_at-edge_taken k s g i_lt j_lt p) ∙ e);
        free_t = λ j h. ground (arith, succ_t_at-edge_taken k s g i_lt j_lt j, w.free_t j);
        free_f = λ j h. succ_f_at-edge_taken k s g i_lt j_lt j ∙ w.free_f j h;
      }

  Wired-fall : (kt : ℕ) → Wired m kt k g → Wired m kt (suc k) (edge_fall k s g)
  Wired-fall kt w =
      let i_lt : k < length g.blocks = omega (arith, w.size) in
      let j_lt : s < length g.blocks = omega (arith, w.size) in
      record {
        size = edge_fall-size k s g ∙ w.size;
        mirrors = Mirrors-edge_fall k s g i_lt j_lt w.mirrors (w.free_f k (omega arith));
        bound_t = λ p t e. w.bound_t p t (sym (succ_t_at-edge_fall k s g i_lt j_lt p) ∙ e);
        bound_f = λ p t e. ground (arith, succ_f_at-edge_fall k s g i_lt j_lt p, w.bound_f p t);
        free_t = λ j h. succ_t_at-edge_fall k s g i_lt j_lt j ∙ w.free_t j h;
        free_f = λ j h. ground (arith, succ_f_at-edge_fall k s g i_lt j_lt j, w.free_f j);
      }

-- A change of the flags of a block.
pub Wired-update :
    (m kt kf : ℕ) (g : Graph) (i : ℕ) (h : Block → Block)
    → ((x : Block) → (h x).preds ≡ x.preds)
    → ((x : Block) → (h x).succ_t ≡ x.succ_t)
    → ((x : Block) → (h x).succ_f ≡ x.succ_f)
    → Wired m kt kf g
    → Wired m kt kf (update g i h)
Wired-update m kt kf g i h hp ht hf w =
    let at_p = field_at-modify_at_same (λ x. x.preds) [] h hp g.blocks i in
    let at_t = field_at-modify_at_same (λ x. x.succ_t) none h ht g.blocks i in
    let at_f = field_at-modify_at_same (λ x. x.succ_f) none h hf g.blocks i in
    record {
      size = length-modify_at g.blocks i h ∙ w.size;
      mirrors = λ p b. rw (at_p b, at_t p, at_f p) (w.mirrors p b);
      bound_t = λ p t e. w.bound_t p t (sym (at_t p) ∙ e);
      bound_f = λ p t e. w.bound_f p t (sym (at_f p) ∙ e);
      free_t = λ j l. at_t j ∙ w.free_t j l;
      free_f = λ j l. at_f j ∙ w.free_f j l;
    }

start_map-lt : (starts : List ℕ) (t : ℤ) (s : ℕ) → start_map starts t ≡ some s → s < length starts
start_map-lt starts (pos t) s h = index_of-lt t starts s h
start_map-lt starts (negsuc t) s h = cc

Wired-later :
    (m kt kt' kf kf' : ℕ) (g : Graph) → Wired m kt kf g → kt ≤ kt' → kf ≤ kf' → Wired m kt' kf' g
Wired-later m kt kt' kf kf' g w ht hf = record {
  size = w.size;
  mirrors = w.mirrors;
  bound_t = w.bound_t;
  bound_f = w.bound_f;
  free_t = λ j l. w.free_t j (omega arith);
  free_f = λ j l. w.free_f j (omega arith);
}

module _ (instrs : List Instr) (progs : List ProgRegion) (starts : List ℕ) (b : Block) (g : Graph)
    (b_lt : b.num < length starts) (w : Wired (length starts) b.num b.num g) where
  abbrev After : Graph → Type 0
  After = Wired (length starts) (suc b.num) (suc b.num)

  later :
      {kt kf : ℕ} {g' : Graph}
      → Wired (length starts) kt kf g'
      → kt ≤ suc b.num
      → kf ≤ suc b.num
      → After g'
  later w' ht hf = Wired-later _ _ _ _ _ _ w' ht hf

  connect_ja-Wired : (last : Instr) → Ensures After (connect_ja instrs progs starts b last g)
  unfolding connect_ja
  connect_ja-Wired last = Ensures-or_err After _ _ _ λ s found.
      let s_lt = start_map-lt starts _ s found in
      done (
        Wired-update _ _ _ _ b.num _ (λ x. refl) (λ x. refl) (λ x. refl)
          (later (Wired-taken _ b.num s g b_lt s_lt b.num w) (omega arith) (omega arith)))

  -- After the taken edge, the fall-through.
  then_fall :
      (kt s : ℕ) (g' : Graph)
      → kt ≤ suc b.num
      → s < length starts
      → Wired (length starts) kt b.num g'
      → After (edge_fall b.num s g')
  then_fall kt s g' h s_lt w' =
      Wired-later _ _ _ _ _ _ (Wired-fall _ b.num s g' b_lt s_lt kt w') h (omega arith)

  connect_fall-Wired : Ensures After (connect_fall instrs progs starts b g)
  unfolding connect_fall
  connect_fall-Wired = elim (Option-cases (index_of (b.end + 1) starts)) [
    | inl e ↦ rw (e, connect_fall) (done (later w (omega arith) (omega arith)))
    | inr (s, e) ↦
        rw (e, connect_fall) (done (then_fall b.num s g (omega arith) (index_of-lt _ starts s e) w))
  ]

  connect_tail-Wired :
      Ensures (Wired (length starts) (suc b.num) b.num) (connect_tail instrs progs starts b g)
  unfolding connect_tail
  connect_tail-Wired =
      let P = Wired (length starts) (suc b.num) b.num in
      Ensures-bind P (λ _. Unit {0}) (tail_target instrs b.start b.end progs) _ (Ensures-any _)
        λ callee _. Ensures-or_err P _ _ _ λ s found. done (
          Wired-taken _ b.num s _ b_lt (index_of-lt _ starts s found) b.num
            (Wired-update _ _ _ g b.num _ (λ x. refl) (λ x. refl) (λ x. refl) w))

  connect_call-Wired : (last : Instr) → Ensures After (connect_call instrs progs starts b last g)
  unfolding connect_call
  connect_call-Wired last =
      let P = Wired (length starts) (suc b.num) b.num in
      Ensures-bind After P
        (if is_tail_call last then connect_tail instrs progs starts b g else ok g) _
        (Ensures-if P (is_tail_call last) _ _ (λ _. connect_tail-Wired)
          (λ _. done (Wired-later _ _ _ _ _ _ w (omega arith) (omega arith))))
        λ g' w'. Ensures-or_err After _ _ _ λ s found.
          done (then_fall (suc b.num) s g' (omega arith) (index_of-lt _ starts s found) w')

  connect_branch-Wired :
      (last : Instr) → Ensures After (connect_branch instrs progs starts b last g)
  unfolding connect_branch
  connect_branch-Wired last = Ensures-or_err After _ _ _ λ s found.
      Ensures-or_err After _ _ _ λ next after.
        Ensures-if After (next == b.num + 1) _ _
          (λ _. done (
            then_fall (suc b.num) next _ (omega arith) (index_of-lt _ starts next after) (
              Wired-taken _ b.num s _ b_lt (start_map-lt starts _ s found) b.num
                (Wired-update _ _ _ g b.num _ (λ x. refl) (λ x. refl) (λ x. refl) w))))
          (λ _. failed)

  pub connect-Wired : Ensures After (connect instrs progs starts b g)
  unfolding connect connect_jump
  connect-Wired = Ensures-or_err After _ _ _ λ last _.
      Ensures-if After (is_jump last) _ _
        (λ _.
          Ensures-if After (last.opcode_code == ja) _ _ (λ _. connect_ja-Wired last)
            λ _.
              Ensures-if After (last.opcode_code == call) _ _ (λ _. connect_call-Wired last)
                λ _.
                  Ensures-if After (last.opcode_code == exit) _ _
                    (λ _. done (
                      Wired-update _ _ _ g b.num _ (λ x. refl) (λ x. refl) (λ x. refl)
                        (later w (omega arith) (omega arith))))
                    λ _. connect_branch-Wired last)
        λ _. connect_fall-Wired
