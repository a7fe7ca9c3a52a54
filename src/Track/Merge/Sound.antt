-- ===== src/Track/Merge/Sound.antt =====
-- hornet/track/block.py, `merge_predecessors`: a bound on the packet's length that holds on the edge
-- that an execution takes holds after the merge.
use hor_net_nsdi.Common.{
  ℕ, ◌≡◌, inl, inr, refl, sym, ◌∙◌, ap, subst, true, false, if◌then◌else◌, List, [], ◌∷◌, Option,
  some, none, arith, Bool-cases,
}
use mathlib.Core.Option.{some-injective}
use hor_net_nsdi.Common.Int.{ℤ}
use hor_net_nsdi.Common.Result.{ok, Ensures, done, failed, Ensures-bind, Ensures-if, Ensures-any}
use hor_net_nsdi.Track.Facts.{EdgeFact, ptr_facts, pkt_facts, adjust_facts}
use hor_net_nsdi.Track.Branch.Packet.{IsLower, IsUpper}
use hor_net_nsdi.Track.Merge.{
  same_key, PktFact, fact_at, set_fact, pkt_fact_of, refined_pkt, widened, join_pkt, join_pkts,
  copy_pkts, lower_of, upper_of,
}

-- The length is within the bounds of the fact.
abbrev pub Bounds : ℕ → PktFact → Type 0
Bounds len f = IsLower f.min_len len × IsUpper f.max_len len

abbrev pub AllBound : ℕ → List (Option ℤ × PktFact) → Type 0
AllBound len [] = Unit {0}
AllBound len ((key, f) ∷ facts) = Bounds len f × AllBound len facts

abbrev pub EdgeBounds : ℕ → Option EdgeFact → Type 0
EdgeBounds len (some (pkt_facts id base_id low high)) = IsLower low len × IsUpper high len
EdgeBounds len _ = Unit {0}

-- There is a fact under the key, and it bounds the length.
abbrev pub IsKept : ℕ → Option ℤ → List (Option ℤ × PktFact) → Type 0
IsKept len key facts = (f : PktFact) × (fact_at key facts ≡ some f) × Bounds len f

same_key_refl : (k : Option ℤ) → same_key k k ≡ true
same_key_refl none = refl
same_key_refl (some a) = ground arith

same_key_cong : (a k l : Option ℤ) → same_key k l ≡ true → same_key a k ≡ same_key a l
same_key_cong a none none e = refl
same_key_cong a none (some l) e = cc
same_key_cong a (some k) none e = cc
same_key_cong none (some k) (some l) e = refl
same_key_cong (some a) (some k) (some l) e = ground arith

same_key_sym : (a b : Option ℤ) → same_key a b ≡ same_key b a
same_key_sym none none = refl
same_key_sym none (some b) = refl
same_key_sym (some a) none = refl
same_key_sym (some a) (some b) = ground arith

module _ {ℓ} {A : Type ℓ} where
  fact_at-same :
      (key k : Option ℤ) (facts : List (Option ℤ × A))
      → same_key key k ≡ true
      → fact_at key facts ≡ fact_at k facts
  unfolding fact_at
  fact_at-same key k [] e = refl
  fact_at-same key k ((l, a) ∷ facts) e =
      let same : same_key key l ≡ same_key k l =
        same_key_sym key l ∙ same_key_cong l key k e ∙ same_key_sym l k in
      ap (λ t. if t then some a else fact_at key facts) same
      ∙ ap (λ o. if same_key k l then some a else o) (fact_at-same key k facts e)

  fact_at-set_fact :
      (k : Option ℤ) (a : A) (facts : List (Option ℤ × A)) → fact_at k (set_fact k a facts) ≡ some a
  unfolding fact_at set_fact
  fact_at-set_fact k a [] = rw (same_key_refl k) refl
  fact_at-set_fact k a ((l, b) ∷ facts) = elim (Bool-cases (same_key k l)) [
    | inl e ↦ rw (e) (rw (e) refl)
    | inr e ↦ rw (e) (rw (e) (fact_at-set_fact k a facts))
  ]

  fact_at-set_other :
      (key k : Option ℤ) (a : A) (facts : List (Option ℤ × A))
      → same_key key k ≡ false
      → fact_at key (set_fact k a facts) ≡ fact_at key facts
  unfolding fact_at set_fact
  fact_at-set_other key k a [] other = rw other refl
  fact_at-set_other key k a ((l, b) ∷ facts) other = elim (Bool-cases (same_key k l)) [
    | inl e ↦
        let differ : same_key key l ≡ false = sym (same_key_cong key k l e) ∙ other in
        rw (e) (rw (differ) refl)
    | inr e ↦
        rw (e)
          (ap (λ o. if same_key key l then some b else o) (fact_at-set_other key k a facts other))
  ]

lower_of-old : (len : ℕ) (a b : Option ℤ) → IsLower b len → IsLower (lower_of a b) len
lower_of-old len none b h = tt
lower_of-old len (some a) none h = tt
lower_of-old len (some a) (some b) h = ground arith

lower_of-new : (len : ℕ) (a b : Option ℤ) → IsLower a len → IsLower (lower_of a b) len
lower_of-new len none b h = tt
lower_of-new len (some a) none h = tt
lower_of-new len (some a) (some b) h = ground arith

upper_of-old : (len : ℕ) (a b : Option ℤ) → IsUpper b len → IsUpper (upper_of a b) len
upper_of-old len none b h = tt
upper_of-old len (some a) none h = tt
upper_of-old len (some a) (some b) h = ground arith

upper_of-new : (len : ℕ) (a b : Option ℤ) → IsUpper a len → IsUpper (upper_of a b) len
upper_of-new len none b h = tt
upper_of-new len (some a) none h = tt
upper_of-new len (some a) (some b) h = ground arith

none-some : {A : Type 0} {a : A} → none ≡ some a → ⊥
none-some e = cc

true-false : true ≡ false → ⊥
true-false e = cc

module _ (len : ℕ) (key : Option ℤ) where
  set_fact-keeps :
      (k : Option ℤ) (g : PktFact) (facts : List (Option ℤ × PktFact))
      → (same_key key k ≡ true → Bounds len g)
      → (same_key key k ≡ false → IsKept len key facts)
      → IsKept len key (set_fact k g facts)
  set_fact-keeps k g facts here there = elim (Bool-cases (same_key key k)) [
    | inl e ↦ (g, fact_at-same key k (set_fact k g facts) e ∙ fact_at-set_fact k g facts, here e)
    | inr e ↦ let (f, at, b) = there e in (f, fact_at-set_other key k g facts e ∙ at, b)
  ]

  -- A fact that is widened by another still bounds what it bounded.
  join_pkt-keeps :
      (k : Option ℤ) (g : PktFact) (facts : List (Option ℤ × PktFact))
      → IsKept len key facts
      → IsKept len key (join_pkt k g facts)
  unfolding join_pkt
  join_pkt-keeps k g facts (f, at, (low, high)) = go (fact_at k facts) refl
    where
      go :
          (o : Option PktFact)
          → fact_at k facts ≡ o
          → IsKept len key
              (elim o [ none ↦ set_fact k g facts | some old ↦ set_fact k (widened g old) facts ])
      go none e =
          set_fact-keeps k g facts
            (λ same. absurd (none-some (sym e ∙ sym (fact_at-same key k facts same) ∙ at)))
            (λ other. (f, at, (low, high)))
      go (some old) e =
          set_fact-keeps k (widened g old) facts
            (λ same.
              let same_fact = some-injective _ _ (sym at ∙ fact_at-same key k facts same ∙ e) in
              subst (λ x. Bounds len (widened g x)) same_fact
                (
                  lower_of-old len g.min_len f.min_len low,
                  upper_of-old len g.max_len f.max_len high,
                ))
            (λ other. (f, at, (low, high)))

  join_pkt-enters :
      (k : Option ℤ) (g : PktFact) (facts : List (Option ℤ × PktFact))
      → same_key key k ≡ true
      → Bounds len g
      → IsKept len key (join_pkt k g facts)
  unfolding join_pkt
  join_pkt-enters k g facts same (low, high) = go (fact_at k facts)
    where
      go :
          (o : Option PktFact)
          → IsKept len key
              (elim o [ none ↦ set_fact k g facts | some old ↦ set_fact k (widened g old) facts ])
      go none =
          set_fact-keeps k g facts (λ s. (low, high))
            (λ other. absurd (true-false (sym same ∙ other)))
      go (some old) =
          set_fact-keeps k (widened g old) facts
            (λ s. (
              lower_of-new len g.min_len old.min_len low,
              upper_of-new len g.max_len old.max_len high,
            ))
            (λ other. absurd (true-false (sym same ∙ other)))

  pub join_pkts-keeps :
      (cond : Option EdgeFact) (view : Option ℤ) (items facts : List (Option ℤ × PktFact))
      → IsKept len key facts
      → Ensures (IsKept len key) (join_pkts cond view items facts)
  unfolding join_pkts
  join_pkts-keeps cond view [] facts kept = done kept
  join_pkts-keeps cond view ((k, fact) ∷ items) facts kept =
      Ensures-bind (IsKept len key) _ (refined_pkt cond view k fact)
        (λ f. join_pkts cond view items (join_pkt k f facts))
        (Ensures-any (refined_pkt cond view k fact))
        (λ f u.
          join_pkts-keeps cond view items (join_pkt k f facts) (join_pkt-keeps k f facts kept))

  pkt_fact_of-Bounds :
      (cond : Option EdgeFact) → EdgeBounds len cond → Ensures (Bounds len) (pkt_fact_of cond)
  unfolding pkt_fact_of
  pkt_fact_of-Bounds none h = failed
  pkt_fact_of-Bounds (some (ptr_facts base_id p c)) h = failed
  pkt_fact_of-Bounds (some (pkt_facts id base_id low high)) h = done h
  pkt_fact_of-Bounds (some (adjust_facts idx base_id)) h = failed

  refined_pkt-Bounds :
      (cond : Option EdgeFact) (view k : Option ℤ) (fact : PktFact)
      → EdgeBounds len cond
      → Bounds len fact
      → Ensures (Bounds len) (refined_pkt cond view k fact)
  unfolding refined_pkt
  refined_pkt-Bounds cond view k fact edge b =
      Ensures-if (Bounds len) _ (pkt_fact_of cond) (ok fact) (λ t. pkt_fact_of-Bounds cond edge)
        (λ t. done b)

  pub join_pkts-enters :
      (cond : Option EdgeFact) (view : Option ℤ) (items facts : List (Option ℤ × PktFact))
      (known : PktFact)
      → EdgeBounds len cond
      → AllBound len items
      → fact_at key items ≡ some known
      → Ensures (IsKept len key) (join_pkts cond view items facts)
  unfolding join_pkts fact_at
  join_pkts-enters cond view [] facts known edge all h = absurd (none-some h)
  join_pkts-enters cond view ((k, fact) ∷ items) facts known edge (b, all) h =
      Ensures-bind (IsKept len key) _ (refined_pkt cond view k fact)
        (λ f. join_pkts cond view items (join_pkt k f facts))
        (refined_pkt-Bounds cond view k fact edge b)
        (λ f bf. elim (Bool-cases (same_key key k)) [
          | inl e ↦
              join_pkts-keeps cond view items (join_pkt k f facts) (join_pkt-enters k f facts e bf)
          | inr e ↦
              join_pkts-enters cond view items (join_pkt k f facts) known edge all
                (subst (λ t. (if t then some fact else fact_at key items) ≡ some known) e h)
        ])

  copy_pkts-keeps :
      (items facts : List (Option ℤ × PktFact))
      → AllBound len items
      → IsKept len key facts
      → IsKept len key (copy_pkts items facts)
  unfolding copy_pkts
  copy_pkts-keeps [] facts all kept = kept
  copy_pkts-keeps ((k, f) ∷ items) facts (b, all) kept =
      copy_pkts-keeps items (set_fact k f facts) all (set_fact-keeps k f facts (λ e. b) (λ e. kept))

  pub copy_pkts-enters :
      (items facts : List (Option ℤ × PktFact)) (known : PktFact)
      → AllBound len items
      → fact_at key items ≡ some known
      → IsKept len key (copy_pkts items facts)
  unfolding copy_pkts fact_at
  copy_pkts-enters [] facts known all h = absurd (none-some h)
  copy_pkts-enters ((k, f) ∷ items) facts known (b, all) h = elim (Bool-cases (same_key key k)) [
    | inl e ↦
        copy_pkts-keeps items (set_fact k f facts) all
          (set_fact-keeps k f facts (λ s. b) (λ other. absurd (true-false (sym e ∙ other))))
    | inr e ↦
        copy_pkts-enters items (set_fact k f facts) known all
          (subst (λ t. (if t then some f else fact_at key items) ≡ some known) e h)
  ]
