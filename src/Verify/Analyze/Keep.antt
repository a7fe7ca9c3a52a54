-- ===== src/Verify/Analyze/Keep.antt =====
-- The blocks that `analyze` keeps: everything live, or what leads to the targets.
use hor_net_nsdi.Common.{
  ℕ, ◌<◌, ◌≡◌, ◌≢◌, ◌↔◌, refl, sym, ◌∙◌, ap, subst, Bool, true, ◌||◌, not, ◌==◌, ==→≡, List, [],
  ◌∷◌, Option, some, none, length, arith, Bool-cases, inl, inr, filter_b,
}
use hor_net_nsdi.Common.Sets.{mem, mem-append}
use hor_net_nsdi.Common.Result.{ok, ◌>>=◌, or_err}
use hor_net_nsdi.Bpf.Cfg.{Block}
use hor_net_nsdi.Verify.Worklist.{root, step}
use hor_net_nsdi.Verify.Prune.{preds_of}
use hor_net_nsdi.Verify.Prune.Reach.{Backward, slice_to_lem, mem-filter_b}
use hor_net_nsdi.Verify.Analyze.{union, keep_of, kept}

-- Is block b asked for?
abbrev pub asked : Option (List ℕ) → ℕ → Bool
asked none b = true
asked (some targets) b = mem b targets

module _ (blocks : List Block) (live : List ℕ) where
  -- The blocks kept: the entry, and with each other block the live blocks before it.
  pub record IsKept (keep : List ℕ) : Type 0 where
    pub entry : mem 0 keep ≡ true
    pub live_only : (b : ℕ) → mem b keep ≡ true → mem b live ≡ true
    pub closed :
        (p b : ℕ)
        → mem b keep ≡ true
        → b ≢ 0
        → mem p (preds_of blocks b) ≡ true
        → mem p live ≡ true
        → mem p keep ≡ true

  mem-union : (b : ℕ) (bwd keep : List ℕ) → mem b (union bwd keep) ≡ (mem b bwd || mem b keep)
  mem-union b bwd keep = ground (
    arith,
    mem-append b (filter_b (λ x. not (mem x keep)) bwd) keep,
    mem-filter_b (λ x. not (mem x keep)) b bwd,
  )

  module _ (in_range : (b : ℕ) → mem b live ≡ true → b < length blocks) where
    Backward-live :
        (t : ℕ) → mem t live ≡ true → (b : ℕ) → Backward blocks live t b → mem b live ≡ true
    unfolding mem
    Backward-live t lt b (root h o) =
        subst (λ k. mem k live ≡ true) (sym (==→≡ b t (ground arith))) lt
    Backward-live t lt b (step {x = c} w h o) =
        ground (arith, mem-filter_b (λ p. mem p live) b (preds_of blocks c))

    IsKept-union :
        (t : ℕ) (keep bwd : List ℕ)
        → mem t live ≡ true
        → IsKept keep
        → ((b : ℕ) → (mem b bwd ≡ true) ↔ Backward blocks live t b)
        → IsKept (union bwd keep) × ((b : ℕ) → b ≡ t → mem b (union bwd keep) ≡ true)
    unfolding mem
    IsKept-union t keep bwd lt k all = (
      record {
        entry = ground (arith, k.entry, mem-union 0 bwd keep);
        live_only = λ b h. elim (Bool-cases (mem b bwd)) [
          | inl e ↦ Backward-live t lt b ((all b).0 e)
          | inr e ↦ k.live_only b (ground (arith, mem-union b bwd keep))
        ];
        closed = λ p b h ne at lp. elim (Bool-cases (mem b bwd)) [
          | inl e ↦
              let found = (all p).1 (
                step ((all b).0 e)
                  (mem-filter_b (λ q. mem q live) p (preds_of blocks b) ∙ rw (at, lp) refl) refl) in
              ground (arith, mem-union p bwd keep, found)
          | inr e ↦ ground (
            arith,
            mem-union p bwd keep,
            k.closed p b (ground (arith, mem-union b bwd keep)) ne at lp,
          )
        ];
      },
      λ b e. ground (arith, mem-union b bwd keep, (all b).1 (root (ground arith) refl)),
    )

    -- What the loop over the targets returns.
    record Keeps (targets keep k : List ℕ) : Type 0 where
      kept_ok : IsKept k
      grows : (b : ℕ) → mem b keep ≡ true → mem b k ≡ true
      holds : (b : ℕ) → mem b targets ≡ true → mem b live ≡ true → mem b k ≡ true

    Keeps-after :
        (t : ℕ) (targets keep keep' k : List ℕ)
        → ((b : ℕ) → mem b keep ≡ true → mem b keep' ≡ true)
        → ((b : ℕ) → b ≡ t → mem b live ≡ true → mem b keep' ≡ true)
        → Keeps targets keep' k
        → Keeps (t ∷ targets) keep k
    unfolding mem
    Keeps-after t targets keep keep' k more at_t r = record {
      kept_ok = r.kept_ok;
      grows = λ b h. r.grows b (more b h);
      holds = λ b h lb. elim (Bool-cases (b == t)) [
        | inl e ↦ r.grows b (at_t b (==→≡ b t e) lb)
        | inr e ↦ r.holds b (ground (arith, h, e)) lb
      ];
    }

    keep_of-Keeps :
        (targets keep : List ℕ)
        → IsKept keep
        → (k : List ℕ) × (keep_of blocks live targets keep ≡ ok k) × Keeps targets keep k
    unfolding keep_of mem ◌>>=◌ or_err
    keep_of-Keeps [] keep i =
        (keep, refl, record { kept_ok = i; grows = λ b h. h; holds = λ b h lb. cc })
    keep_of-Keeps (t ∷ targets) keep i = elim (Bool-cases (mem t live)) [
      | inl e ↦
          let (bwd, found, all) = slice_to_lem blocks live t in_range (in_range t e) in
          let (i', at_t) = IsKept-union t keep bwd e i all in
          let (k, eq, r) = keep_of-Keeps targets (union bwd keep) i' in
          (
            k,
            rw (e, found) eq,
            Keeps-after t targets keep (union bwd keep) k
                (λ b h. ground (arith, mem-union b bwd keep)) (λ b same lb. at_t b same) r,
          )
      | inr e ↦
          let (k, eq, r) = keep_of-Keeps targets keep i in
          (
            k,
            rw e eq,
            Keeps-after t targets keep keep k (λ b h. h)
                (λ b same lb. cc (ap (λ x. mem x live) same, e, lb)) r,
          )
    ]

    IsKept-entry : mem 0 live ≡ true → IsKept (0 ∷ [])
    unfolding mem
    IsKept-entry h = record {
      entry = refl;
      live_only = λ b e. subst (λ k. mem k live ≡ true) (sym (==→≡ b 0 (ground arith))) h;
      closed = λ p b e ne at lp. absurd (ne (==→≡ b 0 (ground arith)));
    }

    pub kept-IsKept :
        (targets : Option (List ℕ))
        → mem 0 live ≡ true
        → (k : List ℕ) × (kept blocks targets live ≡ ok k)
          × IsKept k
          × ((b : ℕ) → asked targets b ≡ true → mem b live ≡ true → mem b k ≡ true)
    kept-IsKept none h = (
      live,
      refl,
      record { entry = h; live_only = λ b e. e; closed = λ p b e ne at lp. lp },
      λ b _ e. e,
    )
    kept-IsKept (some targets) h =
        let (k, eq, r) = keep_of-Keeps targets (0 ∷ []) (IsKept-entry h) in
        (k, eq, r.kept_ok, r.holds)
