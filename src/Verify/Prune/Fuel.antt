-- ===== src/Verify/Prune/Fuel.antt =====
-- The loop of `topo_order` ends: its fuel is never used up. A block is entered once, and then puts
-- itself and its successors on the stack.
use hor_net_nsdi.Common.{
  ℕ, zero, suc, ◌+◌, ◌≤◌, ◌<◌, ◌≡◌, ◌≢◌, refl, Bool, true, false, ◌==◌, ==→≡, if◌then◌else◌, List,
  [], ◌∷◌, length, arith, Bool-cases, inl, inr, subst, sym,
}
use hor_net_nsdi.Common.Sets.{mem}
use hor_net_nsdi.Common.Result.{Result, ok, err, ◌>>=◌}
use hor_net_nsdi.Bpf.Cfg.{Block}
use hor_net_nsdi.Verify.Worklist.{work}
use hor_net_nsdi.Verify.Prune.{
  succs_at, Visit, enter, leave, TopoError, cycle_detected, not_covered, out_of_fuel, paint,
  push_succs, topo_loop, topo_order,
}

-- The result is not the one of fuel used up.
abbrev InTime {ℓ} : {A : Type ℓ} → Result TopoError A → Type 0
InTime (ok a) = Unit
InTime (err out_of_fuel) = ⊥
InTime (err (cycle_detected b)) = Unit
InTime (err not_covered) = Unit

InTime-bind {ℓ κ μ} :
    {A : Type ℓ} {B : Type κ} (P : A → Type μ) (m : Result TopoError A) (f : A → Result TopoError B)
    → InTime m × ((a : A) → m ≡ ok a → P a)
    → ((a : A) → P a → InTime (f a))
    → InTime (m >>= f)
unfolding ◌>>=◌
InTime-bind P (ok a) f (t, p) h = h a (p a refl)
InTime-bind P (err (cycle_detected b)) f t h = tt
InTime-bind P (err not_covered) f t h = tt
InTime-bind P (err out_of_fuel) f (t, p) h = t

ok-injective : {a b : List Visit} → ◌≡◌ {A = Result TopoError (List Visit)} (ok a) (ok b) → a ≡ b
ok-injective e = cc

module _ (blocks : List Block) (live : List ℕ) where
  -- what the blocks that were never entered may still put on the stack
  abbrev left : (ℕ → ℕ) → ℕ → ℕ
  left color zero = 0
  left color (suc k) = (if color k == 0 then 1 + length (succs_at blocks k) else 0) + left color k

  left-paint : (color : ℕ → ℕ) (b c n : ℕ) → left (paint color b (suc c)) n ≤ left color n
  left-paint color b c zero = omega arith
  left-paint color b c (suc k) = ground (arith, left-paint color b c k)

  left-enter :
      (color : ℕ → ℕ) (b c n : ℕ)
      → (color b == 0) ≡ true
      → b < n
      → left (paint color b (suc c)) n + 1 + length (succs_at blocks b) ≤ left color n
  left-enter color b c zero w h = omega arith
  left-enter color b c (suc k) w h = elim (Bool-cases (k == b)) [
    | inl e ↦
        subst
          (λ j.
            left (paint color j (suc c)) (suc k) + 1 + length (succs_at blocks j)
            ≤ left color (suc k))
          (==→≡ k b e)
          (ground (
            arith,
            left-paint color k c k,
            subst (λ j. (color j == 0) ≡ true) (sym (==→≡ k b e)) w,
          ))
    | inr e ↦ ground (arith, left-enter color b c k w)
  ]

  left-start : (n : ℕ) → left (λ b. 0) n ≤ n + work (succs_at blocks) n []
  unfolding work mem
  left-start zero = omega arith
  left-start (suc k) = ground (arith, left-start k)

  -- Every block that waits to be entered is one of the program.
  abbrev Fits : List Visit → Type 0
  Fits [] = Unit
  Fits (enter b ∷ stack) = (b < length blocks) × Fits stack
  Fits (leave b ∷ stack) = Fits stack

  -- `push_succs` puts at most its successors on the stack, and they are blocks of the program.
  push_succs-Fits :
      ((u : ℕ) → mem u live ≡ true → u < length blocks)
      → (color : ℕ → ℕ) (us : List ℕ) (stack : List Visit) → Fits stack
      → InTime (push_succs live color us stack)
        × ((s : List Visit)
            → push_succs live color us stack ≡ ok s
            → Fits s × (length s ≤ length us + length stack))
  unfolding push_succs
  push_succs-Fits inside color [] stack fits = (
    tt,
    λ s e. subst (λ r. Fits r × (length r ≤ 0 + length stack)) (ok-injective e) (fits, omega arith),
  )
  push_succs-Fits inside color (u ∷ us) stack fits = elim (Bool-cases (mem u live)) [
    | inr gone ↦ rw gone (wider us (push_succs-Fits inside color us stack fits))
    | inl alive ↦ elim (Bool-cases (color u == 1)) [
      | inl grey ↦ rw (alive, grey) (tt, λ s e. cc)
      | inr other ↦ elim (Bool-cases (color u == 2)) [
        | inl black ↦
            rw (alive, other, black) (wider us (push_succs-Fits inside color us stack fits))
        | inr white ↦
            rw (alive, other, white)
              (moved us (push_succs-Fits inside color us (enter u ∷ stack) (inside u alive, fits)))
      ]
    ]
  ]
    where
      wider :
          {r : Result TopoError (List Visit)} (vs : List ℕ)
          → InTime r
            × ((s : List Visit) → r ≡ ok s → Fits s × (length s ≤ length vs + length stack))
          → InTime r
            × ((s : List Visit) → r ≡ ok s → Fits s × (length s ≤ suc (length vs) + length stack))
      wider vs (t, f) = (t, λ s e. let (x, y) = f s e in (x, omega arith))

      moved :
          {r : Result TopoError (List Visit)} (vs : List ℕ)
          → InTime r
            × ((s : List Visit) → r ≡ ok s → Fits s × (length s ≤ length vs + suc (length stack)))
          → InTime r
            × ((s : List Visit) → r ≡ ok s → Fits s × (length s ≤ suc (length vs) + length stack))
      moved vs (t, f) = (t, λ s e. let (x, y) = f s e in (x, omega arith))

  topo_loop-InTime :
      ((u : ℕ) → mem u live ≡ true → u < length blocks)
      → (fuel : ℕ) (stack : List Visit) (color : ℕ → ℕ) (order : List ℕ) → Fits stack
      → length stack + left color (length blocks) ≤ fuel
      → InTime (topo_loop blocks live fuel stack color order)
  unfolding topo_loop
  topo_loop-InTime inside fuel [] color order fits enough = tt
  topo_loop-InTime inside zero (v ∷ stack) color order fits enough = absurd (ground arith)
  topo_loop-InTime inside (suc fuel) (leave b ∷ stack) color order fits enough =
      topo_loop-InTime inside fuel stack (paint color b 2) (b ∷ order) fits
        (omega (arith, left-paint color b 1 (length blocks)))
  topo_loop-InTime inside (suc fuel) (enter b ∷ stack) color order fits enough =
      elim (Bool-cases (color b == 0)) [
        | inr seen ↦
            rw (seen, topo_loop)
              (topo_loop-InTime inside fuel stack color order fits.1 (omega arith))
        | inl white ↦
            rw (white, topo_loop)
              (InTime-bind
                (λ s. Fits s × (length s ≤ length (succs_at blocks b) + suc (length stack))) _ _
                (push_succs-Fits inside (paint color b 1) (succs_at blocks b) (leave b ∷ stack)
                  fits.1)
                λ s (fit, few).
                  topo_loop-InTime inside fuel s (paint color b 1) order fit
                    (omega (arith, left-enter color b 0 (length blocks) white fits.0)))
      ]

  topo_order-InTime :
      mem 0 live ≡ true
      → ((u : ℕ) → mem u live ≡ true → u < length blocks)
      → InTime (topo_order blocks live)
  unfolding topo_order
  topo_order-InTime entry inside =
      InTime-bind (λ order. Unit {0}) _ _
        (
          topo_loop-InTime inside _ (enter 0 ∷ []) (λ b. 0) [] (inside 0 entry, tt)
              (omega (arith, left-start (length blocks))),
          λ order e. tt,
        )
        λ order u. checked (length order == length live) order
    where
      checked : (t : Bool) (order : List ℕ) → InTime (if t then ok order else err not_covered)
      checked true order = tt
      checked false order = tt

-- When the live blocks are blocks of the program and include block 0, `topo_order` never uses up
-- its fuel: it returns an order, or refuses a cycle or a live block that was not reached.
pub topo_order-in_time :
    (blocks : List Block) (live : List ℕ)
    → mem 0 live ≡ true
    → ((u : ℕ) → mem u live ≡ true → u < length blocks)
    → topo_order blocks live ≢ err out_of_fuel
topo_order-in_time blocks live entry inside e =
    subst InTime e (topo_order-InTime blocks live entry inside)
