-- ===== src/Bpf/Cfg/View.antt =====
-- What an edge of `build_cfg` changes in the graph, seen through the fields of its blocks.
use hor_net_nsdi.Common.{
  ℕ, zero, suc, ◌<◌, ◌≡◌, refl, ◌==◌, if◌then◌else◌, List, [], ◌∷◌, Option, some, none, get_elem?,
  length, modify_at, arith,
}
use hor_net_nsdi.Bpf.Cfg.{Block, Graph}

-- A field of the block at an index, with a default where there is none.
abbrev pub field_at {ℓ} : {A : Type ℓ} → (Block → A) → A → List Block → ℕ → A
field_at f d bs i = elim (get_elem? bs i) [ none ↦ d | some x ↦ f x ]

abbrev pub succ_t_at : Graph → ℕ → Option ℕ
succ_t_at g = field_at (λ x. x.succ_t) none g.blocks

abbrev pub succ_f_at : Graph → ℕ → Option ℕ
succ_f_at g = field_at (λ x. x.succ_f) none g.blocks

abbrev pub preds_at : Graph → ℕ → List ℕ
preds_at g = field_at (λ x. x.preds) [] g.blocks

-- A change that leaves the field alone.
pub field_at-modify_at_same {ℓ} :
    {A : Type ℓ} (f : Block → A) (d : A) (h : Block → Block)
    → ((x : Block) → f (h x) ≡ f x)
    → (bs : List Block) (i j : ℕ) → field_at f d (modify_at bs i h) j ≡ field_at f d bs j
field_at-modify_at_same f d h same [] i j = refl
field_at-modify_at_same f d h same (b ∷ bs) zero zero = same b
field_at-modify_at_same f d h same (b ∷ bs) zero (suc j) = refl
field_at-modify_at_same f d h same (b ∷ bs) (suc i) zero = refl
field_at-modify_at_same f d h same (b ∷ bs) (suc i) (suc j) =
    field_at-modify_at_same f d h same bs i j

-- A change of the field by `c`.
pub field_at-modify_at {ℓ} :
    {A : Type ℓ} (f : Block → A) (d : A) (h : Block → Block) (c : A → A)
    → ((x : Block) → f (h x) ≡ c (f x))
    → (bs : List Block) (i j : ℕ) → i < length bs
    → field_at f d (modify_at bs i h) j
      ≡ (if i == j then c (field_at f d bs j) else field_at f d bs j)
field_at-modify_at f d h c same [] i j lt = absurd (omega arith)
field_at-modify_at f d h c same (b ∷ bs) zero zero lt = same b
field_at-modify_at f d h c same (b ∷ bs) zero (suc j) lt = ground arith
field_at-modify_at f d h c same (b ∷ bs) (suc i) zero lt = ground arith
field_at-modify_at f d h c same (b ∷ bs) (suc i) (suc j) lt =
    ground (arith, field_at-modify_at f d h c same bs i j (omega arith))
