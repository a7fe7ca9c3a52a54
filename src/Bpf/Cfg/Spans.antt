-- ===== src/Bpf/Cfg/Spans.antt =====
-- The edges leave the number, the start and the end of every block alone.
use hor_net_nsdi.Common.{
  ℕ, zero, suc, ◌+◌, ◌≡◌, refl, ◌∙◌, ap, List, [], ◌∷◌, map, some, modify_at, if◌then◌else◌, ◌==◌,
  Bool-cases, Option-cases, inl, inr, index_of, true,
}
use hor_net_nsdi.Common.Result.{
  ok, Ensures, done, failed, Ensures-bind, Ensures-or_err, Ensures-if, Ensures-any, Ensures-weaken,
}
use hor_net_nsdi.Bpf.Codes.{ja, call, exit}
use hor_net_nsdi.Bpf.Instr.{Instr, is_jump, is_tail_call}
use hor_net_nsdi.Bpf.Region.{ProgRegion}
use hor_net_nsdi.Bpf.Cfg.{
  Block, Graph, edge_taken, edge_fall, update, connect_ja, connect_tail, connect_call,
  connect_branch, connect_fall, connect_jump, connect, connect_all, enter_regions, tail_target,
}

pub record Span : Type 0 where
  pub num : ℕ
  pub start : ℕ
  pub end : ℕ

abbrev pub span : Block → Span
span b = record { num = b.num; start = b.start; end = b.end }

abbrev pub spans : Graph → List Span
spans g = map span g.blocks

abbrev Same : Graph → Graph → Type 0
Same g g' = spans g' ≡ spans g

spans-modify_at :
    (h : Block → Block)
    → ((b : Block) → span (h b) ≡ span b)
    → (bs : List Block) (i : ℕ) → map span (modify_at bs i h) ≡ map span bs
spans-modify_at h same [] i = refl
spans-modify_at h same (b ∷ bs) zero = ap (λ x. x ∷ map span bs) (same b)
spans-modify_at h same (b ∷ bs) (suc i) = ap (λ xs. span b ∷ xs) (spans-modify_at h same bs i)

edge_taken-Same : (i s : ℕ) (g : Graph) → Same g (edge_taken i s g)
unfolding edge_taken
edge_taken-Same i s g =
    spans-modify_at _ (λ b. refl)
      (modify_at g.blocks i (λ (x : Block). record x { succ_t = some s })) s
    ∙ spans-modify_at _ (λ b. refl) g.blocks i

edge_fall-Same : (i s : ℕ) (g : Graph) → Same g (edge_fall i s g)
unfolding edge_fall
edge_fall-Same i s g =
    spans-modify_at _ (λ b. refl)
      (modify_at g.blocks i (λ (x : Block). record x { succ_f = some s })) s
    ∙ spans-modify_at _ (λ b. refl) g.blocks i

module _ (instrs : List Instr) (progs : List ProgRegion) (starts : List ℕ) (b : Block)
    (g : Graph) where
  abbrev branching : Graph
  branching = update g b.num (λ c. record c { branch = true })

  connect_ja-Same : (last : Instr) → Ensures (Same g) (connect_ja instrs progs starts b last g)
  unfolding connect_ja
  connect_ja-Same last = Ensures-or_err _ _ _ _ λ s _. done (
      spans-modify_at _ (λ x. refl) (edge_taken b.num s g).blocks b.num ∙ edge_taken-Same b.num s g)

  connect_fall-Same : Ensures (Same g) (connect_fall instrs progs starts b g)
  unfolding connect_fall
  connect_fall-Same = elim (Option-cases (index_of (b.end + 1) starts)) [
    | inl e ↦ rw (e, connect_fall) (done refl)
    | inr (s, e) ↦ rw (e, connect_fall) (done (edge_fall-Same b.num s g))
  ]

  connect_tail-Same : Ensures (Same g) (connect_tail instrs progs starts b g)
  unfolding connect_tail
  connect_tail-Same =
      Ensures-bind _ (λ _. Unit {0}) (tail_target instrs b.start b.end progs) _ (Ensures-any _)
        λ callee _. Ensures-or_err _ _ _ _ λ s _.
          done (edge_taken-Same b.num s branching ∙ spans-modify_at _ (λ x. refl) g.blocks b.num)

  connect_call-Same : (last : Instr) → Ensures (Same g) (connect_call instrs progs starts b last g)
  unfolding connect_call
  connect_call-Same last =
      Ensures-bind _ (Same g)
        (if is_tail_call last then connect_tail instrs progs starts b g else ok g) _
        (Ensures-if _ (is_tail_call last) _ _ (λ _. connect_tail-Same) (λ _. done refl))
        λ g' same. Ensures-or_err _ _ _ _ λ s _. done (edge_fall-Same b.num s g' ∙ same)

  connect_branch-Same :
      (last : Instr) → Ensures (Same g) (connect_branch instrs progs starts b last g)
  unfolding connect_branch
  connect_branch-Same last = Ensures-or_err _ _ _ _ λ s _. Ensures-or_err _ _ _ _ λ next _.
      Ensures-if _ (next == b.num + 1) _ _
        (λ _. done (
          edge_fall-Same b.num next (edge_taken b.num s branching)
          ∙ edge_taken-Same b.num s branching
          ∙ spans-modify_at _ (λ x. refl) g.blocks b.num))
        (λ _. failed)

  connect-Same : Ensures (Same g) (connect instrs progs starts b g)
  unfolding connect connect_jump
  connect-Same = Ensures-or_err _ _ _ _ λ last _.
      Ensures-if _ (is_jump last) _ _
        (λ _.
          Ensures-if _ (last.opcode_code == ja) _ _ (λ _. connect_ja-Same last)
            λ _.
              Ensures-if _ (last.opcode_code == call) _ _ (λ _. connect_call-Same last)
                λ _.
                  Ensures-if _ (last.opcode_code == exit) _ _
                    (λ _. done (spans-modify_at _ (λ x. refl) g.blocks b.num))
                    λ _. connect_branch-Same last)
        λ _. connect_fall-Same

module _ (instrs : List Instr) (progs : List ProgRegion) (starts : List ℕ) where
  pub connect_all-Same :
      (bs : List Block) (g : Graph) → Ensures (Same g) (connect_all instrs progs starts bs g)
  unfolding connect_all
  connect_all-Same [] g = done refl
  connect_all-Same (b ∷ bs) g =
      Ensures-bind _ (Same g) _ _ (connect-Same instrs progs starts b g) λ g' same.
        Ensures-weaken (Same g') (Same g) _ (λ g'' next. next ∙ same) (connect_all-Same bs g')

  pub enter_regions-Same :
      (rs : List ProgRegion) (g : Graph)
      → Ensures (λ q. Same g q.1) (enter_regions instrs progs starts rs g)
  unfolding enter_regions
  enter_regions-Same [] g = done refl
  enter_regions-Same (r ∷ rs) g = Ensures-or_err _ _ _ _ λ k _.
      let region = record r { entry_block = some k } in
      let g' : Graph =
        if k == 0 then g else update g k (λ c. record c { prog_entry = some region }) in
      let same : Same g g' = elim (Bool-cases (k == 0)) [
        | inl e ↦ rw e refl
        | inr e ↦ rw e (spans-modify_at _ (λ x. refl) g.blocks k)
      ] in
      Ensures-bind _ (λ (q : List ProgRegion × Graph). Same g' q.1) _ _ (enter_regions-Same rs g')
        λ q next. done (next ∙ same)
