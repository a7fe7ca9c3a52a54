-- ===== src/Track/Stack/Slots.antt =====
-- hornet/track/block.py, `stk_store` and `stk_load`: what a store does to the loads after it.
use hor_net_nsdi.Common.{
  ℕ, zero, suc, ◌+◌, ◌-◌, ◌%◌, ◌<◌, ◌≤◌, ◌≡◌, ◌≢◌, refl, sym, ◌∙◌, ap, true, false, ltb, leb, List,
  [], ◌∷◌, ◌++◌, some, get_elem?, length, replicate, arith, get_elem?-of_lt,
  get_elem?-modify_at_self, get_elem?-modify_at_ne, length-append,
}
use hor_net_nsdi.Common.Int.{ℤ}
use hor_net_nsdi.Common.Result.{ok}
use hor_net_nsdi.Track.Expr.{
  Expr, MaybeExpr, absent, present, scalar, join_value, ingress_ifindex, rx_queue_index,
  egress_ifindex, pkt_len, func_retval, pkt_val, map_val, bss_val, rodata_val, lookup_hit, num,
  byte_seq, alu_unary, alu_binary, ptr,
}
use hor_net_nsdi.Track.Width.{size_of}
use hor_net_nsdi.Track.Stack.{
  slot_of, offset_of, placed, stored, grown, stk_store, load_first, load_slot, stk_load,
}

length-replicate : (n : ℕ) (a : MaybeExpr) → length (replicate n a) ≡ n
length-replicate zero a = refl
length-replicate (suc n) a = ap suc (length-replicate n a)

get_elem?-first :
    (xs ys : List MaybeExpr) (i : ℕ) → i < length xs → get_elem? (xs ++ ys) i ≡ get_elem? xs i
get_elem?-first [] ys i h = absurd (omega (arith, h))
get_elem?-first (x ∷ xs) ys zero h = refl
get_elem?-first (x ∷ xs) ys (suc i) h = get_elem?-first xs ys i (omega (arith, h))

grown-reaches : (n : ℕ) (stk : List MaybeExpr) → n < length (grown (n + 1) stk)
unfolding grown
grown-reaches n stk = omega (
  arith,
  length-append stk (replicate (n + 1 - length stk) absent),
  length-replicate (n + 1 - length stk) absent,
)

grown-keeps :
    (n i : ℕ) (stk : List MaybeExpr) → i < length stk → get_elem? (grown n stk) i ≡ get_elem? stk i
unfolding grown
grown-keeps n i stk h = get_elem?-first stk (replicate (n - length stk) absent) i h

-- A store of 8 bytes at the start of a slot.
stored-whole : (v : Expr) (idx : ℤ) (old : MaybeExpr) → stored 0 8 v idx old ≡ present v
unfolding stored placed
stored-whole v idx absent = refl
stored-whole v idx (present old) = refl

load_first-whole :
    (v : Expr) (idx : ℤ) → leb (size_of v) 8 ≡ true → load_first 8 idx (present v) ≡ ok v
unfolding load_first size_of
load_first-whole (func_retval s' i' f' m' mk' r') idx h = rw h refl
load_first-whole (alu_binary o' d' e' off' s' i') idx h = rw h refl
load_first-whole (alu_unary o' d' p' im' s' a') idx h = rw h refl
load_first-whole (scalar s' i') idx h = rw h refl
load_first-whole (join_value b' r' vs') idx h = refl
load_first-whole ingress_ifindex idx h = refl
load_first-whole rx_queue_index idx h = refl
load_first-whole egress_ifindex idx h = refl
load_first-whole (pkt_len s' b') idx h = rw h refl
load_first-whole (pkt_val r' vo') idx h = rw h refl
load_first-whole (map_val r' m' mk' vo') idx h = rw h refl
load_first-whole (bss_val r' k' vo') idx h = rw h refl
load_first-whole (rodata_val o' s' vo') idx h = rw h refl
load_first-whole (lookup_hit m' mk' i') idx h = refl
load_first-whole (byte_seq c' s' o') idx h = rw h refl
load_first-whole (num n' s' i') idx h = rw h refl
load_first-whole (ptr p' vo' mk' np') idx h = refl

-- An entry of the stack after a store.
stk_store-at :
    (depth size : ℕ) (v : Expr) (idx : ℤ) (stk : List MaybeExpr)
    → (old : MaybeExpr) × (get_elem? (stk_store depth size v idx stk) (slot_of depth)
        ≡ some (stored (offset_of depth) size v idx old))
unfolding stk_store
stk_store-at depth size v idx stk =
    let (old, at) =
      get_elem?-of_lt (grown (slot_of depth + 1) stk) (slot_of depth)
        (grown-reaches (slot_of depth) stk) in
    (old, get_elem?-modify_at_self (grown (slot_of depth + 1) stk) (slot_of depth) _ at)

-- A load that lies in one slot.
stk_load-within :
    (depth size : ℕ) (idx : ℤ) (stk : List MaybeExpr)
    → ltb 8 (offset_of depth + size) ≡ false
    → stk_load depth size idx stk
      ≡ load_slot (offset_of depth) size idx (get_elem? stk (slot_of depth))
unfolding stk_load
stk_load-within depth size idx stk h = rw h refl

-- A value of at most 8 bytes is stored as 8 bytes at the start of a slot, and then 8 bytes are loaded
-- from there: the load gives the value itself, also where the stack had to grow.
pub stk_load-stk_store :
    (depth : ℕ) (v : Expr) (idx idx' : ℤ) (stk : List MaybeExpr)
    → depth % 8 ≡ 7
    → leb (size_of v) 8 ≡ true
    → stk_load depth 8 idx' (stk_store depth 8 v idx stk) ≡ ok v
unfolding load_slot
stk_load-stk_store depth v idx idx' stk start fits =
    let (old, at) = stk_store-at depth 8 v idx stk in
    let first : offset_of depth ≡ 0 = omega (arith, start) in
    let whole : get_elem? (stk_store depth 8 v idx stk) (slot_of depth) ≡ some (present v) =
      at ∙ ap (λ o. some (stored o 8 v idx old)) first ∙ ap some (stored-whole v idx old) in
    stk_load-within depth 8 idx' (stk_store depth 8 v idx stk) (ground (arith, first))
    ∙ ap (load_slot (offset_of depth) 8 idx') whole
    ∙ ap (λ o. load_slot o 8 idx' (some (present v))) first
    ∙ load_first-whole v idx' fits

-- A store leaves every load that lies in one other slot of the stack as it was.
pub stk_load-other :
    (depth size : ℕ) (v : Expr) (idx : ℤ) (stk : List MaybeExpr) (depth' size' : ℕ) (idx' : ℤ)
    → slot_of depth ≢ slot_of depth'
    → slot_of depth' < length stk
    → offset_of depth' + size' ≤ 8
    → stk_load depth' size' idx' (stk_store depth size v idx stk) ≡ stk_load depth' size' idx' stk
unfolding stk_store
stk_load-other depth size v idx stk depth' size' idx' differ inside within =
    let within_slot : ltb 8 (offset_of depth' + size') ≡ false = ground (arith, within) in
    let same =
      get_elem?-modify_at_ne (grown (slot_of depth + 1) stk) (slot_of depth) (slot_of depth')
        (stored (offset_of depth) size v idx) differ
      ∙ grown-keeps (slot_of depth + 1) (slot_of depth') stk inside in
    stk_load-within depth' size' idx' (stk_store depth size v idx stk) within_slot
    ∙ ap (load_slot (offset_of depth') size' idx') same
    ∙ sym (stk_load-within depth' size' idx' stk within_slot)
