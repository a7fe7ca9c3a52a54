-- ===== src/Track/Merge/Joined.antt =====
-- hornet/track/block.py, `merge_predecessors`: the loop over the predecessors. Once two views of the
-- packet differ, `pkt_base_id` is None for the rest of the loop.
use hor_net_nsdi.Common.{
  ℕ, zero, suc, ◌≡◌, ◌≢◌, ◌⊎◌, ⊎_elim, inl, inr, refl, sym, ◌∙◌, ap, subst, Bool, true, false, not,
  List, [], ◌∷◌, Option, some, none, get_elem?,
}
use mathlib.Core.Option.{some-injective}
use hor_net_nsdi.Common.Int.{ℤ}
use hor_net_nsdi.Common.Result.{
  ok, Ensures, done, Ensures-bind, Ensures-or_err, Ensures-if, Ensures-any, Ensures-elim,
}
use hor_net_nsdi.Track.Facts.{EdgeFact}
use hor_net_nsdi.Track.Merge.{
  no_block, same_key, PktFact, fact_at, FactBlock, pred_cond, view_after, join_pkts, join_ptrs,
  join_view, join_pred, join_preds, merge_facts,
}
use hor_net_nsdi.Track.Merge.Sound.{
  AllBound, EdgeBounds, IsKept, join_pkts-keeps, join_pkts-enters, copy_pkts-enters,
}

module _ (n len : ℕ) (key : Option ℤ) where
  -- The block keeps its number, and it has no view of the packet or the fact under the key bounds the
  -- length.
  abbrev Knows : FactBlock → Type 0
  Knows b = (b.num ≡ n) × ((b.pkt_base_id ≡ none) ⊎ IsKept len key b.pkts)

  join_view-keeps :
      (cond : Option EdgeFact) (pb b : FactBlock)
      → Knows b
      → Ensures Knows (join_view false cond pb b)
  unfolding join_view
  join_view-keeps cond pb b (same, known) =
      Ensures-if Knows (not (same_key b.pkt_base_id (view_after cond pb.pkt_base_id))) _ _
        (λ t. done (same, inl refl))
        (λ t. elim known [
          | inl nothing ↦
              Ensures-bind Knows _ (join_pkts cond b.pkt_base_id pb.pkts b.pkts) _
                (Ensures-any (join_pkts cond b.pkt_base_id pb.pkts b.pkts))
                (λ pkts u. done (same, inl nothing))
          | inr kept ↦
              Ensures-bind Knows _ (join_pkts cond b.pkt_base_id pb.pkts b.pkts) _
                (join_pkts-keeps len key cond b.pkt_base_id pb.pkts b.pkts kept)
                (λ pkts k. done (same, inr k))
        ])

  join_view-enters :
      (first : Bool) (cond : Option EdgeFact) (pb b : FactBlock) (known : PktFact)
      → b.num ≡ n
      → EdgeBounds len cond
      → AllBound len pb.pkts
      → fact_at key pb.pkts ≡ some known
      → Ensures Knows (join_view first cond pb b)
  unfolding join_view
  join_view-enters first cond pb b known same edge all at =
      Ensures-if Knows first _ _
        (λ t. done (same, inr (copy_pkts-enters len key pb.pkts b.pkts known all at)))
        (λ t.
          Ensures-if Knows (not (same_key b.pkt_base_id (view_after cond pb.pkt_base_id))) _ _
            (λ u. done (same, inl refl))
            (λ u.
              Ensures-bind Knows _ (join_pkts cond b.pkt_base_id pb.pkts b.pkts) _
                (join_pkts-enters len key cond b.pkt_base_id pb.pkts b.pkts known edge all at)
                (λ pkts k. done (same, inr k))))

  join_view-num :
      (first : Bool) (cond : Option EdgeFact) (pb b : FactBlock)
      → b.num ≡ n
      → Ensures (λ joined. joined.num ≡ n) (join_view first cond pb b)
  unfolding join_view
  join_view-num first cond pb b same =
      Ensures-if (λ joined. joined.num ≡ n) first _ _ (λ t. done same)
        (λ t.
          Ensures-if (λ joined. joined.num ≡ n)
            (not (same_key b.pkt_base_id (view_after cond pb.pkt_base_id))) _ _ (λ u. done same)
            (λ u.
              Ensures-bind (λ joined. joined.num ≡ n) _
                (join_pkts cond b.pkt_base_id pb.pkts b.pkts) _
                (Ensures-any (join_pkts cond b.pkt_base_id pb.pkts b.pkts)) (λ pkts k. done same)))

  -- What holds after the packet's branches holds after the round.
  join_pred-from_view :
      (P : FactBlock → Type 0) (first : Bool) (pb b : FactBlock)
      → ((c : FactBlock)
          → c.num ≡ b.num
          → (c.pkts ≡ b.pkts) × (c.pkt_base_id ≡ b.pkt_base_id)
          → Ensures P (join_view first (pred_cond b.num pb) pb c))
      → Ensures P (join_pred first pb b)
  unfolding join_pred
  join_pred-from_view P first pb b h =
      Ensures-bind P _ (join_ptrs (pred_cond b.num pb) pb.ptrs b.ptrs) _
        (Ensures-any (join_ptrs (pred_cond b.num pb) pb.ptrs b.ptrs))
        (λ ptrs u. h (record b { ptrs = ptrs }) refl (refl, refl))

  join_preds-keeps :
      (blocks : List FactBlock) (preds : List ℕ) (b : FactBlock)
      → Knows b
      → Ensures Knows (join_preds false blocks preds b)
  unfolding join_preds
  join_preds-keeps blocks [] b k = done k
  join_preds-keeps blocks (pred ∷ preds) b k =
      Ensures-or_err Knows (get_elem? blocks pred) no_block _ (λ pb at.
        Ensures-bind Knows Knows (join_pred false pb b)
          (λ joined. join_preds false blocks preds joined)
          (join_pred-from_view Knows false pb b (λ c num (pkts, view).
            join_view-keeps (pred_cond b.num pb) pb c (
              num ∙ k.0,
              ⊎_elim (λ none_yet. inl (view ∙ none_yet))
                  (λ kept. inr (subst (IsKept len key) (sym pkts) kept)) k.1,
            )))
          (λ joined j. join_preds-keeps blocks preds joined j))

  module _ (p : ℕ) (pb : FactBlock) (known : PktFact) (edge : EdgeBounds len (pred_cond n pb))
      (all : AllBound len pb.pkts) (at : fact_at key pb.pkts ≡ some known) where
    join_preds-enters :
        (first : Bool) (blocks : List FactBlock) (preds : List ℕ) (i : ℕ) (b : FactBlock)
        → b.num ≡ n
        → get_elem? blocks p ≡ some pb
        → get_elem? preds i ≡ some p
        → Ensures Knows (join_preds first blocks preds b)
    unfolding join_preds
    join_preds-enters first blocks [] i b same found h = cc
    join_preds-enters first blocks (q ∷ preds) zero b same found h =
        Ensures-or_err Knows (get_elem? blocks q) no_block _ (λ qb at'.
          let mine : qb ≡ pb =
            some-injective _ _ (sym at' ∙ ap (get_elem? blocks) (some-injective _ _ h) ∙ found) in
          Ensures-bind Knows Knows (join_pred first qb b)
            (λ joined. join_preds false blocks preds joined)
            (subst (λ x. Ensures Knows (join_pred first x b)) (sym mine)
              (join_pred-from_view Knows first pb b (λ c num unchanged.
                join_view-enters first (pred_cond b.num pb) pb c known (num ∙ same)
                  (subst (λ m. EdgeBounds len (pred_cond m pb)) (sym same) edge) all at)))
            (λ joined j. join_preds-keeps blocks preds joined j))
    join_preds-enters first blocks (q ∷ preds) (suc i) b same found h =
        Ensures-or_err Knows (get_elem? blocks q) no_block _ (λ qb at'.
          Ensures-bind Knows (λ joined. joined.num ≡ n) (join_pred first qb b)
            (λ joined. join_preds false blocks preds joined)
            (join_pred-from_view (λ joined. joined.num ≡ n) first qb b
              (λ c num unchanged. join_view-num first (pred_cond b.num qb) qb c (num ∙ same)))
            (λ joined j. join_preds-enters false blocks preds i joined j found h))

-- `merge_predecessors` returns the block `s` with a view of the packet, not None. One predecessor has a
-- packet fact under the key; the bounds of all its packet facts hold of a length, and so do those of
-- the fact that the merge takes for its edge, where that is a packet fact. Then `s` has a packet
-- fact under the key, and its bounds hold of the length.
pub merge_facts-IsKept :
    (blocks : List FactBlock) (b s : FactBlock) (i p : ℕ) (pb : FactBlock) (len : ℕ)
    (key : Option ℤ) (known : PktFact)
    → merge_facts blocks b ≡ ok s
    → s.pkt_base_id ≢ none
    → get_elem? b.preds i ≡ some p
    → get_elem? blocks p ≡ some pb
    → AllBound len pb.pkts
    → EdgeBounds len (pred_cond b.num pb)
    → fact_at key pb.pkts ≡ some known
    → IsKept len key s.pkts
unfolding merge_facts
merge_facts-IsKept blocks b s i p pb len key known e viewed h found all edge at =
    let (_, result) =
      Ensures-elim (Knows b.num len key) _ s
        (join_preds-enters b.num len key p pb known edge all at true blocks b.preds i b refl found
          h)
        e in
    ⊎_elim (λ nothing. absurd (viewed nothing)) (λ kept. kept) result
