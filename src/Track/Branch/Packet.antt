-- ===== src/Track/Branch/Packet.antt =====
-- hornet/track/tracker.py, `track_branch`: a packet pointer against the packet's end. The two
-- pointers are addresses of a packet of `len` bytes, and the jump is the machine's.
use hor_net_nsdi.Common.{
  ℕ, ◌+◌, ◌^◌, ◌<◌, ◌≡◌, refl, sym, and_false, ◌∙◌, ap, subst, Bool, true, false, not, ◌==◌,
  if◌then◌else◌, Option, some, none, arith, inl, inr, ◌⊎◌,
}
use mathlib.Core.Option.{some-injective}
use hor_net_nsdi.Common.Int.{ℤ, pos, pos_part, neg_part, ◌+ℤ◌, ◌≤ℤ◌, +ℤ_parts, -ℤ_parts}
use hor_net_nsdi.Common.Result.{Result, ok, ◌>>=◌, or_err}
use hor_net_nsdi.Bpf.Codes.{jgt, jge, jlt, jle, jset, jmp32, s_imm, swap_jmp_code}
use hor_net_nsdi.Bpf.Instr.{Instr, class_in}
use hor_net_nsdi.Track.Expr.{MaybeExpr, absent, present, PtrInfo, ptr, ptr_to_pkt, ptr_to_pkt_end}
use hor_net_nsdi.Track.Facts.{Marks, EdgeFact, pkt_facts, edge_fact}
use hor_net_nsdi.Track.Adjust.{BranchError, unknown_jump, adjust_call, adjust_ret_in}
use hor_net_nsdi.Track.Jump.{jmp_taken, compare_masked, jmp_taken-wide}
use hor_net_nsdi.Track.Branch.{
  track_branch, branch_adjusted, exchange, branch_on, compare_values, pkt_check, pkt_compare,
  mirror_code, pkt_size_check, unchecked, branch_src, has_negation,
}

-- an unsigned order
pub data IsOrder : ℕ → Type 0 where
  gt : IsOrder jgt
  ge : IsOrder jge
  lt : IsOrder jlt
  le : IsOrder jle

-- Where the pointer points, when the packet stands at `base`.
abbrev pub address : ℕ → ℕ → PtrInfo → ℤ
address base len p = if p.ptr_type == ptr_to_pkt then pos base +ℤ p.off else pos (base + len)

abbrev pub IsLower : Option ℤ → ℕ → Type 0
IsLower none len = Unit
IsLower (some m) len = m ≤ℤ pos len

abbrev pub IsUpper : Option ℤ → ℕ → Type 0
IsUpper none len = Unit
IsUpper (some m) len = pos len ≤ℤ m

-- The one of the two that points into the packet.
abbrev pub packet_of : PtrInfo → PtrInfo → PtrInfo
packet_of p q = if p.ptr_type == ptr_to_pkt then p else q

-- The fact is about the pointer p and the view of the packet that p is based on, and it bounds the
-- length.
abbrev pub HasLength : PtrInfo → ℕ → Option EdgeFact → Type 0
HasLength p len (some (pkt_facts id base low high)) =
    (id ≡ p.id) × (base ≡ p.base_id) × IsLower low len × IsUpper high len
HasLength p len _ = ⊥

abbrev Learns : PtrInfo → ℕ → Bool → Result BranchError Marks → Type 0
Learns p len taken r = (m : Marks) × (r ≡ ok m) × HasLength p len (edge_fact taken m)

Learns-cast :
    (p q : PtrInfo) (len : ℕ) (taken : Bool) (r : Result BranchError Marks)
    → p ≡ q
    → Learns p len taken r
    → Learns q len taken r
Learns-cast p q len taken r e = subst (λ s. Learns s len taken r) e

offset_parts :
    (base a : ℕ) (off : ℤ) → pos base +ℤ off ≡ pos a → base + pos_part off ≡ a + neg_part off
offset_parts base a off e = ground (arith, +ℤ_parts (pos base) off, ap pos_part e, ap neg_part e)

pkt_compare-length :
    (code : ℕ) (p : PtrInfo) (vo : MaybeExpr) (base len a : ℕ) (taken : Bool)
    → IsOrder code
    → pos base +ℤ p.off ≡ pos a
    → compare_masked code 64 a (base + len) ≡ some taken
    → Learns p len taken (pkt_compare code p vo)
unfolding pkt_compare compare_masked
pkt_compare-length code p vo base len a true gt e h = (
  _,
  refl,
  (
    refl,
    refl,
    tt,
    ground (
      arith,
      +ℤ_parts p.off (pos 1),
      -ℤ_parts p.off (pos 1),
      offset_parts base a p.off e,
      some-injective _ _ h,
    ),
  ),
)
pkt_compare-length code p vo base len a false gt e h = (
  _,
  refl,
  (
    refl,
    refl,
    ground (
      arith,
      +ℤ_parts p.off (pos 1),
      -ℤ_parts p.off (pos 1),
      offset_parts base a p.off e,
      some-injective _ _ h,
    ),
    tt,
  ),
)
pkt_compare-length code p vo base len a true ge e h = (
  _,
  refl,
  (
    refl,
    refl,
    tt,
    ground (
      arith,
      +ℤ_parts p.off (pos 1),
      -ℤ_parts p.off (pos 1),
      offset_parts base a p.off e,
      some-injective _ _ h,
    ),
  ),
)
pkt_compare-length code p vo base len a false ge e h = (
  _,
  refl,
  (
    refl,
    refl,
    ground (
      arith,
      +ℤ_parts p.off (pos 1),
      -ℤ_parts p.off (pos 1),
      offset_parts base a p.off e,
      some-injective _ _ h,
    ),
    tt,
  ),
)
pkt_compare-length code p vo base len a true lt e h = (
  _,
  refl,
  (
    refl,
    refl,
    ground (
      arith,
      +ℤ_parts p.off (pos 1),
      -ℤ_parts p.off (pos 1),
      offset_parts base a p.off e,
      some-injective _ _ h,
    ),
    tt,
  ),
)
pkt_compare-length code p vo base len a false lt e h = (
  _,
  refl,
  (
    refl,
    refl,
    tt,
    ground (
      arith,
      +ℤ_parts p.off (pos 1),
      -ℤ_parts p.off (pos 1),
      offset_parts base a p.off e,
      some-injective _ _ h,
    ),
  ),
)
pkt_compare-length code p vo base len a true le e h = (
  _,
  refl,
  (
    refl,
    refl,
    ground (
      arith,
      +ℤ_parts p.off (pos 1),
      -ℤ_parts p.off (pos 1),
      offset_parts base a p.off e,
      some-injective _ _ h,
    ),
    tt,
  ),
)
pkt_compare-length code p vo base len a false le e h = (
  _,
  refl,
  (
    refl,
    refl,
    tt,
    ground (
      arith,
      +ℤ_parts p.off (pos 1),
      -ℤ_parts p.off (pos 1),
      offset_parts base a p.off e,
      some-injective _ _ h,
    ),
  ),
)

mirror_code-compare :
    (code a b : ℕ)
    → IsOrder code
    → (code' : ℕ) × (mirror_code code ≡ some code')
      × IsOrder code'
      × (compare_masked code' 64 b a ≡ compare_masked code 64 a b)
unfolding mirror_code compare_masked
mirror_code-compare code a b gt = (jlt, refl, lt, refl)
mirror_code-compare code a b ge = (jle, refl, le, refl)
mirror_code-compare code a b lt = (jgt, refl, gt, refl)
mirror_code-compare code a b le = (jge, refl, ge, refl)

-- One of the two pointers is the packet's, the other is its end.
pkt_size_check-cases :
    (p q : PtrInfo)
    → pkt_size_check p q ≡ true
    → ((p.ptr_type ≡ ptr_to_pkt) × (q.ptr_type ≡ ptr_to_pkt_end))
      ⊎ ((p.ptr_type ≡ ptr_to_pkt_end) × (q.ptr_type ≡ ptr_to_pkt))
unfolding pkt_size_check
pkt_size_check-cases p q h = ground arith

abbrev mirrored_check : ℕ → PtrInfo → MaybeExpr → Result BranchError Marks
mirrored_check code q wo =
    or_err (mirror_code code) unknown_jump >>= (λ mirrored. pkt_compare mirrored q wo)

mirrored_check-length :
    (code : ℕ) (q : PtrInfo) (wo : MaybeExpr) (base len b : ℕ) (taken : Bool)
    → IsOrder code
    → pos base +ℤ q.off ≡ pos b
    → compare_masked code 64 (base + len) b ≡ some taken
    → Learns q len taken (mirrored_check code q wo)
unfolding ◌>>=◌ or_err
mirrored_check-length code q wo base len b taken o e h =
    let (code', m, o', c) = mirror_code-compare code (base + len) b o in
    subst
      (λ k. Learns q len taken (or_err k unknown_jump >>= (λ mirrored. pkt_compare mirrored q wo)))
      (sym m) (pkt_compare-length code' q wo base len b taken o' e (c ∙ h))

address-pkt :
    (base len : ℕ) (p : PtrInfo) → p.ptr_type ≡ ptr_to_pkt → address base len p ≡ pos base +ℤ p.off
address-pkt base len p e = rw e

address-end :
    (base len a : ℕ) (p : PtrInfo)
    → p.ptr_type ≡ ptr_to_pkt_end
    → address base len p ≡ pos a
    → a ≡ base + len
address-end base len a p e h =
    let at_end : address base len p ≡ pos (base + len) = rw e in ap pos_part (sym h ∙ at_end)

packet_of-first : (p q : PtrInfo) → p.ptr_type ≡ ptr_to_pkt → p ≡ packet_of p q
packet_of-first p q e = rw e refl

packet_of-second : (p q : PtrInfo) → p.ptr_type ≡ ptr_to_pkt_end → q ≡ packet_of p q
packet_of-second p q e = rw e refl

pkt_check-length :
    (code : ℕ) (p q : PtrInfo) (vo wo : MaybeExpr) (base len a b : ℕ) (taken : Bool)
    → IsOrder code
    → pkt_size_check p q ≡ true
    → address base len p ≡ pos a
    → address base len q ≡ pos b
    → compare_masked code 64 a b ≡ some taken
    → Learns (packet_of p q) len taken (pkt_check code p vo q wo)
unfolding pkt_check
pkt_check-length code p q vo wo base len a b taken o s ea eb h = elim (pkt_size_check-cases p q s) [
  | inl (tp, tq) ↦
      Learns-cast p (packet_of p q) len taken (pkt_check code p vo q wo) (packet_of-first p q tp) (
        subst
          (λ t.
            Learns p len taken
              (if t == ptr_to_pkt then mirrored_check code q wo else pkt_compare code p vo))
          (sym tq)
          (pkt_compare-length code p vo base len a taken o (sym (address-pkt base len p tp) ∙ ea) (
            subst (λ n. compare_masked code 64 a n ≡ some taken) (address-end base len b q tq eb)
              h)))
  | inr (tp, tq) ↦
      Learns-cast q (packet_of p q) len taken (pkt_check code p vo q wo) (packet_of-second p q tp) (
        subst
          (λ t.
            Learns q len taken
              (if t == ptr_to_pkt then mirrored_check code q wo else pkt_compare code p vo))
          (sym tq)
          (mirrored_check-length code q wo base len b taken o (sym (address-pkt base len q tq) ∙ eb)
            (subst (λ n. compare_masked code 64 n b ≡ some taken) (address-end base len a p tp ea)
              h)))
]

IsOrder-branch : (code : ℕ) → IsOrder code → has_negation code ≡ true
unfolding swap_jmp_code
IsOrder-branch code gt = refl
IsOrder-branch code ge = refl
IsOrder-branch code lt = refl
IsOrder-branch code le = refl

-- A comparison of two checked pointers, a packet's and its end's, is the last branch.
track_branch-pointers :
    (pending : Option (ℕ × Option ℤ)) (i : Instr) (p q : PtrInfo) (vo mk np wo mk' np' : MaybeExpr)
    (m : Marks)
    → IsOrder i.opcode_code
    → (i.opcode_s == s_imm) ≡ false
    → unchecked p ≡ false
    → pkt_size_check p q ≡ true
    → track_branch false pending i (present (ptr p vo mk np)) (present (ptr q wo mk' np')) m
      ≡ pkt_check i.opcode_code p vo q wo
unfolding track_branch branch_src adjust_call adjust_ret_in branch_adjusted exchange branch_on
    compare_values
track_branch-pointers pending i p q vo mk np wo mk' np' m o s cp size =
    rw (IsOrder-branch i.opcode_code o, s, cp, size, and_false (not (i.opcode_code == jset)))

-- A packet of `len` bytes stands at `base`, and a 64-bit jump, not one of class JMP32, compares a
-- pointer at a known offset in the packet with the pointer to its end, or the end with the pointer,
-- both from registers and by an unsigned order; the first is known to be valid, and both addresses
-- fit in 64 bits. Then the second pass of `track_branch` succeeds, and the edge that the machine
-- takes carries a fact on this packet pointer and its view of the packet whose bounds hold of `len`.
pub track_branch-HasLength :
    (pending : Option (ℕ × Option ℤ)) (i : Instr) (p q : PtrInfo) (mk np mk' np' : MaybeExpr)
    (m : Marks) (base len a b : ℕ) (taken : Bool)
    → IsOrder i.opcode_code
    → (i.opcode_s == s_imm) ≡ false
    → class_in i jmp32 jmp32 ≡ false
    → unchecked p ≡ false
    → pkt_size_check p q ≡ true
    → address base len p ≡ pos a
    → address base len q ≡ pos b
    → a < 2 ^ 64
    → b < 2 ^ 64
    → jmp_taken i.opcode_code (pos a) (pos b) (class_in i jmp32 jmp32) ≡ some taken
    → (r : Marks) × (track_branch false pending i
          (present (ptr p absent mk np))
          (present (ptr q absent mk' np'))
          m
        ≡ ok r)
      × HasLength (packet_of p q) len (edge_fact taken r)
track_branch-HasLength pending i p q mk np mk' np' m base len a b taken o s w cp size ea eb ha hb
      h =
    let (r, e, fact) =
      pkt_check-length i.opcode_code p q absent absent base len a b taken o size ea eb
        (sym (jmp_taken-wide i.opcode_code a b (class_in i jmp32 jmp32) w ha hb) ∙ h) in
    (r, track_branch-pointers pending i p q absent mk np absent mk' np' m o s cp size ∙ e, fact)
