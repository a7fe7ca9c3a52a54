-- ===== src/Track/Merge.antt =====
-- hornet/track/block.py, `Block.merge_predecessors`: the merge of the facts at a join. A dictionary is
-- an association list with its keys in the order in which they were added; the merge of the
-- registers and of the stack, `merge_entry`, is left out.
pub mod Sound
pub mod Joined
use hor_net_nsdi.Common.{
  ℕ, Bool, true, false, ◌&&◌, not, ◌==◌, if◌then◌else◌, List, [], ◌∷◌, ◌++◌, Option, some, none,
  get_elem?,
}
use hor_net_nsdi.Common.Int.{ℤ, leb_ℤ, ◌==ℤ◌}
use hor_net_nsdi.Common.Result.{Result, ok, err, ◌>>=◌, or_err}
use hor_net_nsdi.Track.Expr.{MaybeExpr, absent, present}
use hor_net_nsdi.Track.Facts.{EdgeFact, ptr_facts, pkt_facts, adjust_facts}

-- the IndexError of `blocks[pred]`, and the AttributeError of a fact of another class
pub data MergeError : Type 0 where
  no_block no_attribute : MergeError

-- `==` of two ids, which may be None
abbrev pub same_key : Option ℤ → Option ℤ → Bool
same_key none none = true
same_key (some a) (some b) = a ==ℤ b
same_key _ _ = false

abbrev pub same_nullity : Option Bool → Option Bool → Bool
same_nullity none none = true
same_nullity (some a) (some b) = if a then b else not b
same_nullity _ _ = false

-- A `PtrFacts` and a `PktFacts` that a block holds.
pub record PtrFact : Type 0 where
  pub base_id : Option ℤ
  pub ptr : MaybeExpr
  pub checked_null : Option Bool

pub record PktFact : Type 0 where
  pub id : Option ℤ
  pub base_id : Option ℤ
  pub ptr : MaybeExpr
  pub min_len : Option ℤ
  pub max_len : Option ℤ

module _ {ℓ} {A : Type ℓ} where
  -- `d.get(key)`
  unfoldable pub fact_at : Option ℤ → List (Option ℤ × A) → Option A
  fact_at key [] = none
  fact_at key ((k, a) ∷ facts) = if same_key key k then some a else fact_at key facts

  -- `d[key] = a`
  unfoldable pub set_fact : Option ℤ → A → List (Option ℤ × A) → List (Option ℤ × A)
  set_fact key a [] = (key, a) ∷ []
  set_fact key a ((k, b) ∷ facts) =
      if same_key key k then (k, a) ∷ facts else (k, b) ∷ set_fact key a facts

-- What the merge reads and sets of a block.
pub record FactBlock : Type 0 where
  pub num : ℕ
  pub preds : List ℕ
  pub succ_f : Option ℕ
  pub cond_f : Option EdgeFact
  pub cond_t : Option EdgeFact
  pub ptrs : List (Option ℤ × PtrFact)
  pub pkts : List (Option ℤ × PktFact)
  pub pkt_base_id : Option ℤ

abbrev pub falls_to : Option ℕ → ℕ → Bool
falls_to none num = false
falls_to (some succ) num = succ == num

-- the fact on the edge from `pb` to block `num`
unfoldable pub pred_cond : ℕ → FactBlock → Option EdgeFact
pred_cond num pb = if falls_to pb.succ_f num then pb.cond_f else pb.cond_t

-- `pkt_base_id_p`
unfoldable pub view_after : Option EdgeFact → Option ℤ → Option ℤ
view_after (some (adjust_facts idx base_id)) before = base_id
view_after _ before = before

-- `cond_base_id`, `cond_pkt_base_id` and `cond_pkt_id`
abbrev pub cond_base_id : Option EdgeFact → Option ℤ
cond_base_id (some (ptr_facts base_id p checked_null)) = base_id
cond_base_id _ = none

abbrev pub cond_pkt_base_id : Option EdgeFact → Option ℤ
cond_pkt_base_id (some (pkt_facts id base_id min_len max_len)) = base_id
cond_pkt_base_id _ = none

abbrev pub cond_pkt_id : Option EdgeFact → Option ℤ
cond_pkt_id (some (pkt_facts id base_id min_len max_len)) = some id
cond_pkt_id _ = none

-- `fact = cond_p` where the key is that of the edge's fact
unfoldable pub ptr_fact_of : Option EdgeFact → Result MergeError PtrFact
ptr_fact_of (some (ptr_facts base_id p checked_null)) =
    ok (record { base_id = base_id; ptr = present p; checked_null = checked_null })
ptr_fact_of _ = err no_attribute

unfoldable pub refined_ptr : Option EdgeFact → Option ℤ → PtrFact → Result MergeError PtrFact
unfolding ptr_fact_of
refined_ptr cond key fact = if same_key (cond_base_id cond) key then ptr_fact_of cond else ok fact

unfoldable pub pkt_fact_of : Option EdgeFact → Result MergeError PktFact
pkt_fact_of (some (pkt_facts id base_id min_len max_len)) =
    ok (record {
      id = some id;
      base_id = base_id;
      ptr = absent;
      min_len = min_len;
      max_len = max_len;
    })
pkt_fact_of _ = err no_attribute

unfoldable pub refined_pkt :
    Option EdgeFact → Option ℤ → Option ℤ → PktFact → Result MergeError PktFact
unfolding pkt_fact_of
refined_pkt cond view key fact =
    if same_key (cond_pkt_base_id cond) view && same_key (cond_pkt_id cond) key
    then pkt_fact_of cond
    else ok fact

-- one item of `ptr_facts`, entered
unfoldable pub join_ptr : Option ℤ → PtrFact → List (Option ℤ × PtrFact) → List (Option ℤ × PtrFact)
unfolding fact_at set_fact
join_ptr key fact facts = elim (fact_at key facts) [
  | none ↦ set_fact key fact facts
  | some old ↦
      if same_nullity old.checked_null fact.checked_null
      then facts
      else set_fact key (record fact { checked_null = none }) facts
]

unfoldable pub join_ptrs :
    Option EdgeFact
    → List (Option ℤ × PtrFact)
    → List (Option ℤ × PtrFact)
    → Result MergeError (List (Option ℤ × PtrFact))
unfolding refined_ptr join_ptr ◌>>=◌
join_ptrs cond [] facts = ok facts
join_ptrs cond ((key, fact) ∷ items) facts =
    refined_ptr cond key fact >>= (λ f. join_ptrs cond items (join_ptr key f facts))

-- `min` and `max` where both bounds are known
abbrev pub lower_of : Option ℤ → Option ℤ → Option ℤ
lower_of (some a) (some b) = some (if leb_ℤ a b then a else b)
lower_of _ _ = none

abbrev pub upper_of : Option ℤ → Option ℤ → Option ℤ
upper_of (some a) (some b) = some (if leb_ℤ b a then a else b)
upper_of _ _ = none

abbrev pub widened : PktFact → PktFact → PktFact
widened fact old = record fact {
  min_len = lower_of fact.min_len old.min_len;
  max_len = upper_of fact.max_len old.max_len;
}

-- one item of `pkt_ptr_facts`, entered
unfoldable pub join_pkt : Option ℤ → PktFact → List (Option ℤ × PktFact) → List (Option ℤ × PktFact)
unfolding fact_at set_fact
join_pkt key fact facts = elim (fact_at key facts) [
  | none ↦ set_fact key fact facts
  | some old ↦ set_fact key (widened fact old) facts
]

unfoldable pub join_pkts :
    Option EdgeFact
    → Option ℤ
    → List (Option ℤ × PktFact)
    → List (Option ℤ × PktFact)
    → Result MergeError (List (Option ℤ × PktFact))
unfolding refined_pkt join_pkt ◌>>=◌
join_pkts cond view [] facts = ok facts
join_pkts cond view ((key, fact) ∷ items) facts =
    refined_pkt cond view key fact >>= (λ f. join_pkts cond view items (join_pkt key f facts))

-- the first predecessor's items, copied
unfoldable pub copy_pkts :
    List (Option ℤ × PktFact) → List (Option ℤ × PktFact) → List (Option ℤ × PktFact)
unfolding set_fact
copy_pkts [] facts = facts
copy_pkts ((key, fact) ∷ items) facts = copy_pkts items (set_fact key fact facts)

-- the branches for the packet's facts
unfoldable pub join_view :
    Bool → Option EdgeFact → FactBlock → FactBlock → Result MergeError FactBlock
unfolding view_after copy_pkts join_pkts ◌>>=◌
join_view first cond pb b =
    let view = view_after cond pb.pkt_base_id in
    if first
    then ok (record b { pkt_base_id = view; pkts = copy_pkts pb.pkts b.pkts })
    else if not (same_key b.pkt_base_id view)
    then ok (record b { pkt_base_id = none; pkts = [] })
    else join_pkts cond b.pkt_base_id pb.pkts b.pkts >>= (λ pkts. ok (record b { pkts = pkts }))

-- one round of the loop over the predecessors
unfoldable pub join_pred : Bool → FactBlock → FactBlock → Result MergeError FactBlock
unfolding pred_cond join_ptrs join_view ◌>>=◌
join_pred first pb b =
    let cond = pred_cond b.num pb in
    join_ptrs cond pb.ptrs b.ptrs >>= (λ ptrs. join_view first cond pb (record b { ptrs = ptrs }))

unfoldable pub join_preds : Bool → List FactBlock → List ℕ → FactBlock → Result MergeError FactBlock
unfolding join_pred or_err ◌>>=◌
join_preds first blocks [] b = ok b
join_preds first blocks (pred ∷ preds) b =
    or_err (get_elem? blocks pred) no_block
    >>= (λ pb. join_pred first pb b >>= (λ joined. join_preds false blocks preds joined))

-- the loop over `self.preds`
unfoldable pub merge_facts : List FactBlock → FactBlock → Result MergeError FactBlock
unfolding join_preds
merge_facts blocks b = join_preds true blocks b.preds b
