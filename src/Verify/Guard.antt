-- ===== src/Verify/Guard.antt =====
-- hornet/track/encode.py, `_and`, `_not` and `_or_all`: guards are Python's True and False, or solver
-- terms. The solver, z3, is a parameter: its terms, what they are worth in a model, and the
-- documented meaning of the constructors and of `simplify`.
use hor_net_nsdi.Common.{
  ℕ, ◌≡◌, refl, Bool, true, false, ◌&&◌, not, if◌then◌else◌, List, [], ◌∷◌, arith, Bool-cases, inl,
  inr, any_b,
}

pub record Logic : Type 1 where
  pub Term : Type 0
  pub Model : Type 0
  pub truth : Model → Term → Bool
  -- And(a, b), Or(terms), Not(a), Bool(f'branch{n}_taken')
  pub and_t : Term → Term → Term
  pub or_t : List Term → Term
  pub not_t : Term → Term
  pub branch_taken : ℕ → Term
  pub simplify : Term → Term
  pub is_true : Term → Bool
  pub is_false : Term → Bool
  pub and_lem : (m : Model) (a b : Term) → truth m (and_t a b) ≡ (truth m a && truth m b)
  pub or_lem : (m : Model) (ts : List Term) → truth m (or_t ts) ≡ any_b (truth m) ts
  pub not_lem : (m : Model) (a : Term) → truth m (not_t a) ≡ not (truth m a)
  pub simplify_lem : (m : Model) (a : Term) → truth m (simplify a) ≡ truth m a
  pub is_true_lem : (m : Model) (a : Term) → is_true a ≡ true → truth m a ≡ true
  pub is_false_lem : (m : Model) (a : Term) → is_false a ≡ true → truth m a ≡ false

pub data Guard (T : Type 0) : Type 0 where
  known : Bool → Guard T
  term : T → Guard T

-- `g is True` and `g is False`
abbrev pub is_known : {T : Type 0} → Bool → Guard T → Bool
is_known true (known b) = b
is_known false (known b) = not b
is_known b (term t) = false

module _ (z : Logic) where
  open z use {
    Term, Model, truth, and_t, or_t, not_t, simplify, is_true, is_false, and_lem, or_lem, not_lem,
    simplify_lem, is_true_lem, is_false_lem,
  }

  -- What a guard is worth in a model.
  abbrev pub value : Model → Guard Term → Bool
  value m (known b) = b
  value m (term t) = truth m t

  -- `_and`, by its early returns
  unfoldable pub and_guard : Guard Term → Guard Term → Guard Term
  and_guard (known true) b = b
  and_guard a (known true) = a
  and_guard (known false) b = known false
  and_guard a (known false) = known false
  and_guard (term a) (term b) = term (and_t a b)

  unfoldable pub not_guard : Guard Term → Guard Term
  not_guard (known b) = known (not b)
  not_guard (term a) = term (not_t a)

  -- the terms among the guards
  abbrev pub terms_of : List (Guard Term) → List Term
  terms_of [] = []
  terms_of (known b ∷ gs) = terms_of gs
  terms_of (term t ∷ gs) = t ∷ terms_of gs

  -- False for no term, the term itself for one
  abbrev pub or_terms : List Term → Guard Term
  or_terms [] = known false
  or_terms (t ∷ []) = term t
  or_terms (t ∷ u ∷ ts) = term (or_t (t ∷ u ∷ ts))

  unfoldable pub or_all : List (Guard Term) → Guard Term
  or_all gs = if any_b (is_known true) gs then known true else or_terms (terms_of gs)

  -- `_lit` of hornet/verify/prune.py
  unfoldable pub literal : Guard Term → Guard Term
  literal (known b) = known b
  literal (term t) =
      let r = simplify t in
      if is_true r then known true else if is_false r then known false else term r

  pub value-and_guard :
      (m : Model) (a b : Guard Term) → value m (and_guard a b) ≡ (value m a && value m b)
  unfolding and_guard
  value-and_guard m (known true) b = refl
  value-and_guard m (known false) (known true) = refl
  value-and_guard m (known false) (known false) = refl
  value-and_guard m (known false) (term b) = refl
  value-and_guard m (term a) (known true) = ground arith
  value-and_guard m (term a) (known false) = ground arith
  value-and_guard m (term a) (term b) = and_lem m a b

  pub value-not_guard : (m : Model) (a : Guard Term) → value m (not_guard a) ≡ not (value m a)
  unfolding not_guard
  value-not_guard m (known b) = refl
  value-not_guard m (term a) = not_lem m a

  value-or_terms : (m : Model) (ts : List Term) → value m (or_terms ts) ≡ any_b (truth m) ts
  value-or_terms m [] = refl
  value-or_terms m (t ∷ []) = ground arith
  value-or_terms m (t ∷ u ∷ ts) = or_lem m (t ∷ u ∷ ts)

  any_known :
      (m : Model) (gs : List (Guard Term))
      → any_b (is_known true) gs ≡ true
      → any_b (value m) gs ≡ true
  any_known m [] h = h
  any_known m (known true ∷ gs) h = refl
  any_known m (known false ∷ gs) h = any_known m gs h
  any_known m (term t ∷ gs) h = ground (arith, any_known m gs h)

  any_terms :
      (m : Model) (gs : List (Guard Term))
      → any_b (is_known true) gs ≡ false
      → any_b (truth m) (terms_of gs) ≡ any_b (value m) gs
  any_terms m [] h = refl
  any_terms m (known true ∷ gs) h = cc
  any_terms m (known false ∷ gs) h = any_terms m gs h
  any_terms m (term t ∷ gs) h = ground (arith, any_terms m gs h)

  -- The disjunction is worth true when one of the guards is.
  pub value-or_all : (m : Model) (gs : List (Guard Term)) → value m (or_all gs) ≡ any_b (value m) gs
  unfolding or_all
  value-or_all m gs = elim (Bool-cases (any_b (is_known true) gs)) [
    | inl e ↦ rw e (ground (arith, any_known m gs e))
    | inr e ↦ rw e (ground (arith, value-or_terms m (terms_of gs), any_terms m gs e))
  ]

  pub value-literal : (m : Model) (a : Guard Term) → value m (literal a) ≡ value m a
  unfolding literal
  value-literal m (known b) = refl
  value-literal m (term t) =
      ground (arith, simplify_lem m t, is_true_lem m (simplify t), is_false_lem m (simplify t))

  pub is_known-value : (m : Model) (g : Guard Term) → is_known false g ≡ true → value m g ≡ false
  is_known-value m (known b) h = ground arith
  is_known-value m (term t) h = cc
