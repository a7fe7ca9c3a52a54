-- ===== src/Bpf/Cfg/Leaders.antt =====
-- The leaders of `build_cfg`: which instructions they are, and that they are sorted.
use mathlib.Core.Option.{some-injective}
use hor_net_nsdi.Common.{
  subst, sym, ℕ, zero, suc, ◌+◌, ◌≤◌, ◌<◌, ◌≡◌, refl, Bool, true, ◌==◌, ◌||◌, ◌&&◌, if◌then◌else◌,
  List, [], ◌∷◌, map, some, none, get_elem?, length, arith,
}
use hor_net_nsdi.Common.Sets.{mem}
use hor_net_nsdi.Bpf.Instr.{Instr, is_jump, is_call, is_tail_call, is_exit, jump_offset}
use hor_net_nsdi.Bpf.Region.{ProgRegion}
use hor_net_nsdi.Bpf.Cfg.{
  mark_leaders, scan_leaders, insert_leader, sorted_set, leaders_of, in_range, add_target, add_next,
  target_of,
}

-- Does an instruction end its block? A helper call does not, a tail call does.
abbrev pub ends_block : Instr → Bool
ends_block x = is_jump x && (if is_exit x then true else if is_call x then is_tail_call x else true)

-- Strictly ascending, from `lo` on.
abbrev pub Ascends : ℕ → List ℕ → Type 0
Ascends lo [] = Unit
Ascends lo (x ∷ xs) = (lo ≤ x) × Ascends (suc x) xs

abbrev pub AllBelow : ℕ → List ℕ → Type 0
AllBelow n [] = Unit
AllBelow n (x ∷ xs) = (x < n) × AllBelow n xs

pub mem-insert_leader : (y x : ℕ) (xs : List ℕ) → mem y (insert_leader x xs) ≡ (y == x || mem y xs)
unfolding insert_leader mem
mem-insert_leader y x [] = refl
mem-insert_leader y x (z ∷ zs) = ground (arith, mem-insert_leader y x zs)

pub mem-sorted_set : (y : ℕ) (xs : List ℕ) → mem y (sorted_set xs) ≡ mem y xs
unfolding sorted_set mem
mem-sorted_set y [] = refl
mem-sorted_set y (x ∷ xs) =
    ground (arith, mem-insert_leader y x (sorted_set xs), mem-sorted_set y xs)

pub Ascends-le : (lo y : ℕ) (xs : List ℕ) → Ascends lo xs → mem y xs ≡ true → lo ≤ y
unfolding mem
Ascends-le lo y [] a m = cc
Ascends-le lo y (x ∷ xs) a m = ground (arith, Ascends-le (suc x) y xs)

insert_leader-Ascends :
    (lo x : ℕ) (xs : List ℕ) → lo ≤ x → Ascends lo xs → Ascends lo (insert_leader x xs)
unfolding insert_leader
insert_leader-Ascends lo x [] h a = (h, tt)
insert_leader-Ascends lo x (y ∷ ys) h (p, a) = ground (arith, insert_leader-Ascends (suc y) x ys)

pub sorted_set-Ascends : (xs : List ℕ) → Ascends 0 (sorted_set xs)
unfolding sorted_set
sorted_set-Ascends [] = tt
sorted_set-Ascends (x ∷ xs) =
    insert_leader-Ascends 0 x (sorted_set xs) (omega arith) (sorted_set-Ascends xs)

insert_leader-AllBelow :
    (n x : ℕ) (xs : List ℕ) → x < n → AllBelow n xs → AllBelow n (insert_leader x xs)
unfolding insert_leader
insert_leader-AllBelow n x [] h a = (h, tt)
insert_leader-AllBelow n x (y ∷ ys) h (p, a) = ground (arith, insert_leader-AllBelow n x ys)

pub sorted_set-AllBelow : (n : ℕ) (xs : List ℕ) → AllBelow n xs → AllBelow n (sorted_set xs)
unfolding sorted_set
sorted_set-AllBelow n [] h = tt
sorted_set-AllBelow n (x ∷ xs) (p, h) =
    insert_leader-AllBelow n x (sorted_set xs) p (sorted_set-AllBelow n xs h)

mark_leaders-mem :
    (n i : ℕ) (x : Instr) (l : List ℕ) (y : ℕ)
    → mem y l ≡ true
    → mem y (mark_leaders n i x l) ≡ true
unfolding mark_leaders mem
mark_leaders-mem n i x l y h =
    elim (in_range n (target_of i (jump_offset x)))
      as (λ o.
        mem y (
          if is_jump x
          then (if is_exit x
              then add_next n i l
              else if is_call x
              then if is_tail_call x then add_next n i l else l
              else add_next n i (add_target o l))
          else l)
        ≡ true) [ none ↦ ground arith | some t ↦ ground arith ]

-- The instruction after one that ends a block is a leader.
mark_leaders-next :
    (n i : ℕ) (x : Instr) (l : List ℕ)
    → ends_block x ≡ true
    → suc i < n
    → mem (suc i) (mark_leaders n i x l) ≡ true
unfolding mark_leaders mem
mark_leaders-next n i x l e h = ground arith

mark_leaders-AllBelow :
    (n i : ℕ) (x : Instr) (l : List ℕ) → AllBelow n l → AllBelow n (mark_leaders n i x l)
unfolding mark_leaders
mark_leaders-AllBelow n i x l h = ground arith

scan_leaders-mem :
    (n i : ℕ) (xs : List Instr) (l : List ℕ) (y : ℕ)
    → mem y l ≡ true
    → mem y (scan_leaders n i xs l) ≡ true
unfolding scan_leaders
scan_leaders-mem n i [] l y h = h
scan_leaders-mem n i (x ∷ xs) l y h =
    scan_leaders-mem n (suc i) xs (mark_leaders n i x l) y (mark_leaders-mem n i x l y h)

scan_leaders-next :
    (n i : ℕ) (xs : List Instr) (l : List ℕ) (j : ℕ) {x : Instr}
    → get_elem? xs j ≡ some x
    → ends_block x ≡ true
    → suc (i + j) < n
    → mem (suc (i + j)) (scan_leaders n i xs l) ≡ true
unfolding scan_leaders
scan_leaders-next n i [] l j g e h = cc
scan_leaders-next n i (y ∷ xs) l zero g e h =
    let k : suc (i + 0) ≡ suc i = omega arith in
    rw k (
      scan_leaders-mem n (suc i) xs (mark_leaders n i y l) (suc i) (
        mark_leaders-next n i y l (subst (λ z. ends_block z ≡ true) (sym (some-injective _ _ g)) e)
          (omega arith)))
scan_leaders-next n i (y ∷ xs) l (suc j) g e h =
    let k : suc (i + suc j) ≡ suc (suc i + j) = omega arith in
    rw k (scan_leaders-next n (suc i) xs (mark_leaders n i y l) j g e (omega arith))

scan_leaders-AllBelow :
    (n i : ℕ) (xs : List Instr) (l : List ℕ) → AllBelow n l → AllBelow n (scan_leaders n i xs l)
unfolding scan_leaders
scan_leaders-AllBelow n i [] l h = h
scan_leaders-AllBelow n i (x ∷ xs) l h =
    scan_leaders-AllBelow n (suc i) xs (mark_leaders n i x l) (mark_leaders-AllBelow n i x l h)

-- The first instruction is a leader, and so is each one after an instruction that ends a block.
pub leaders_of-zero :
    (instrs : List Instr) (progs : List ProgRegion) → mem 0 (leaders_of instrs progs) ≡ true
unfolding leaders_of mem
leaders_of-zero instrs progs = scan_leaders-mem (length instrs) 0 instrs _ 0 refl

pub leaders_of-next :
    (instrs : List Instr) (progs : List ProgRegion) (j : ℕ) (x : Instr)
    → get_elem? instrs j ≡ some x
    → ends_block x ≡ true
    → suc j < length instrs
    → mem (suc j) (leaders_of instrs progs) ≡ true
unfolding leaders_of
leaders_of-next instrs progs j x g e h =
    let k : suc (0 + j) ≡ suc j = omega arith in
    subst (λ y. mem y (leaders_of instrs progs) ≡ true) k
      (scan_leaders-next (length instrs) 0 instrs (0 ∷ map (λ r. r.start) progs) j g e
        (omega arith))

pub leaders_of-AllBelow :
    (instrs : List Instr) (progs : List ProgRegion)
    → 0 < length instrs
    → AllBelow (length instrs) (map (λ r. r.start) progs)
    → AllBelow (length instrs) (leaders_of instrs progs)
unfolding leaders_of
leaders_of-AllBelow instrs progs some_instr h =
    scan_leaders-AllBelow (length instrs) 0 instrs (0 ∷ map (λ r. r.start) progs) (some_instr, h)
