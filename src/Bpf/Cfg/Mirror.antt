-- ===== src/Bpf/Cfg/Mirror.antt =====
-- `edge_taken` and `edge_fall`: each keeps `preds` the mirror of `succ_t` and `succ_f`.
use hor_net_nsdi.Common.{
  ℕ, ◌+◌, ◌<◌, ◌≡◌, refl, ◌==◌, if◌then◌else◌, List, [], ◌∷◌, ◌++◌, Option, some, none, length,
  modify_at, length-modify_at, arith, ap, ◌∙◌,
}
use hor_net_nsdi.Bpf.Cfg.{Block, Graph, edge_taken, edge_fall}
use hor_net_nsdi.Bpf.Cfg.View.{
  succ_t_at, succ_f_at, preds_at, field_at-modify_at, field_at-modify_at_same,
}

abbrev pub count : ℕ → List ℕ → ℕ
count p [] = 0
count p (x ∷ xs) = (if x == p then 1 else 0) + count p xs

abbrev pub hits : Option ℕ → ℕ → ℕ
hits none b = 0
hits (some s) b = if s == b then 1 else 0

count-append : (p : ℕ) (xs ys : List ℕ) → count p (xs ++ ys) ≡ count p xs + count p ys
count-append p [] ys = omega arith
count-append p (x ∷ xs) ys = omega (arith, count-append p xs ys)

-- `p` stands among the predecessors of `b` once for each edge from `p` to `b`.
abbrev pub Mirrors : Graph → Type 0
Mirrors g = (p b : ℕ) → count p (preds_at g b) ≡ hits (succ_t_at g p) b + hits (succ_f_at g p) b

pub edge_taken-size : (i s : ℕ) (g : Graph) → length (edge_taken i s g).blocks ≡ length g.blocks
unfolding edge_taken
edge_taken-size i s g =
    length-modify_at (modify_at g.blocks i (λ (x : Block). record x { succ_t = some s })) s _
    ∙ length-modify_at g.blocks i _

pub edge_fall-size : (i s : ℕ) (g : Graph) → length (edge_fall i s g).blocks ≡ length g.blocks
unfolding edge_fall
edge_fall-size i s g =
    length-modify_at (modify_at g.blocks i (λ (x : Block). record x { succ_f = some s })) s _
    ∙ length-modify_at g.blocks i _

module _ (i s : ℕ) (g : Graph) (i_lt : i < length g.blocks) (s_lt : s < length g.blocks) where
  -- the three fields after an edge
  pub succ_t_at-edge_taken :
      (j : ℕ) → succ_t_at (edge_taken i s g) j ≡ (if i == j then some s else succ_t_at g j)
  unfolding edge_taken
  succ_t_at-edge_taken j =
      field_at-modify_at_same (λ x. x.succ_t) none _ (λ x. refl) _ s j
      ∙ field_at-modify_at (λ x. x.succ_t) none _ (λ _. some s) (λ x. refl) g.blocks i j i_lt

  pub succ_f_at-edge_taken : (j : ℕ) → succ_f_at (edge_taken i s g) j ≡ succ_f_at g j
  unfolding edge_taken
  succ_f_at-edge_taken j =
      field_at-modify_at_same (λ x. x.succ_f) none _ (λ x. refl) _ s j
      ∙ field_at-modify_at_same (λ x. x.succ_f) none _ (λ x. refl) g.blocks i j

  preds_at-edge_taken :
      (j : ℕ)
      → preds_at (edge_taken i s g) j ≡ (if s == j then preds_at g j ++ i ∷ [] else preds_at g j)
  unfolding edge_taken
  preds_at-edge_taken j =
      let bs = modify_at g.blocks i (λ (x : Block). record x { succ_t = some s }) in
      let kept =
        field_at-modify_at_same (λ x. x.preds) [] (λ x. record x { succ_t = some s }) (λ x. refl)
          g.blocks i j in
      let added =
        field_at-modify_at (λ x. x.preds) [] (λ x. record x { preds = x.preds ++ i ∷ [] })
          (λ l. l ++ i ∷ []) (λ x. refl) bs s j (rw length-modify_at s_lt) in
      added ∙ ap (λ (l : List ℕ). if s == j then l ++ i ∷ [] else l) kept

  pub Mirrors-edge_taken : Mirrors g → succ_t_at g i ≡ none → Mirrors (edge_taken i s g)
  Mirrors-edge_taken m free p b = ground (
    arith,
    m p b,
    succ_t_at-edge_taken p,
    succ_f_at-edge_taken p,
    preds_at-edge_taken b,
    count-append p (preds_at g b) (i ∷ []),
  )

  -- the same for `edge_fall`
  pub succ_f_at-edge_fall :
      (j : ℕ) → succ_f_at (edge_fall i s g) j ≡ (if i == j then some s else succ_f_at g j)
  unfolding edge_fall
  succ_f_at-edge_fall j =
      field_at-modify_at_same (λ x. x.succ_f) none _ (λ x. refl) _ s j
      ∙ field_at-modify_at (λ x. x.succ_f) none _ (λ _. some s) (λ x. refl) g.blocks i j i_lt

  pub succ_t_at-edge_fall : (j : ℕ) → succ_t_at (edge_fall i s g) j ≡ succ_t_at g j
  unfolding edge_fall
  succ_t_at-edge_fall j =
      field_at-modify_at_same (λ x. x.succ_t) none _ (λ x. refl) _ s j
      ∙ field_at-modify_at_same (λ x. x.succ_t) none _ (λ x. refl) g.blocks i j

  preds_at-edge_fall :
      (j : ℕ)
      → preds_at (edge_fall i s g) j ≡ (if s == j then preds_at g j ++ i ∷ [] else preds_at g j)
  unfolding edge_fall
  preds_at-edge_fall j =
      let bs = modify_at g.blocks i (λ (x : Block). record x { succ_f = some s }) in
      let kept =
        field_at-modify_at_same (λ x. x.preds) [] (λ x. record x { succ_f = some s }) (λ x. refl)
          g.blocks i j in
      let added =
        field_at-modify_at (λ x. x.preds) [] (λ x. record x { preds = x.preds ++ i ∷ [] })
          (λ l. l ++ i ∷ []) (λ x. refl) bs s j (rw length-modify_at s_lt) in
      added ∙ ap (λ (l : List ℕ). if s == j then l ++ i ∷ [] else l) kept

  pub Mirrors-edge_fall : Mirrors g → succ_f_at g i ≡ none → Mirrors (edge_fall i s g)
  Mirrors-edge_fall m free p b = ground (
    arith,
    m p b,
    succ_f_at-edge_fall p,
    succ_t_at-edge_fall p,
    preds_at-edge_fall b,
    count-append p (preds_at g b) (i ∷ []),
  )
