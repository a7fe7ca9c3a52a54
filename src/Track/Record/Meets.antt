-- ===== src/Track/Record/Meets.antt =====
-- hornet/track/record.py, `may_alias`, against the bytes that an access touches. A map's key is a
-- word of its key size, and a constant key stands for its residue, as `_map_key_z3` of
-- hornet/track/encode.py resizes it.
use native.Mathlib.Nat.{mod-eq_of_lt}
use text.Mathlib.TextEquality.{eq_iff}
use hor_net_nsdi.Common.{
  ℕ, ◌≡◌, refl, sym, ◌∙◌, ap, ◌+◌, ◌^◌, true, false, ◌&&◌, not, ◌==◌, ≡→==, if◌then◌else◌, Option,
  some, none, String, arith, Bool-cases, inl, inr,
}
use hor_net_nsdi.Common.Int.{ℤ, pos, negsuc, pos_part, neg_part, mask_ℤ, ◌+ℤ◌, ◌≤ℤ◌, ◌<ℤ◌, ltb_ℤ}
use hor_net_nsdi.Track.Record.{
  map_region, bss_region, const_of, Access, same_id, keys_differ, names_differ, extent, has_var_off,
  may_overlap, alias_in, may_alias,
}

-- A byte of the memory at run time: its region, in a map the map and the key of the entry, in .bss
-- the object, and the offset.
pub record Cell : Type 0 where
  pub region : ℕ
  pub map_id : Option ℕ
  pub key : ℕ
  pub object : String
  pub off : ℤ

-- The access touches the byte, where a key has `bits` bits; a key or an offset that is not constant
-- may have any value.
pub record Touches (bits : ℕ) (a : Access) (c : Cell) : Type 0 where
  pub in_region : a.region ≡ some c.region
  pub in_map : (c.region == map_region) ≡ true → a.map_id ≡ c.map_id
  pub at_key :
      (k : ℤ)
      → (c.region == map_region) ≡ true
      → const_of a.map_key ≡ some k
      → mask_ℤ bits k ≡ c.key
  pub in_object : (s : String) → (c.region == bss_region) ≡ true → a.bss_key ≡ some s → s ≡ c.object
  pub from_off : has_var_off a ≡ false → a.off ≤ℤ c.off
  pub below_end : has_var_off a ≡ false → c.off <ℤ a.off +ℤ extent a

-- A constant key is written as a number of its width, not as a negative one and not beyond it.
abbrev pub HasWidth : ℕ → Access → Type 0
HasWidth bits a = (k : ℤ) → const_of a.map_key ≡ some k → (pos 0 ≤ℤ k) × (k <ℤ pos (2 ^ bits))

same_id_refl : (o : Option ℕ) → same_id o o ≡ true
same_id_refl none = refl
same_id_refl (some n) = ≡→== n n refl

-- A number of the width is its own residue.
mask-in_width :
    (bits : ℕ) (k : ℤ) (c : ℕ) → pos 0 ≤ℤ k → k <ℤ pos (2 ^ bits) → mask_ℤ bits k ≡ c → k ≡ pos c
unfolding mask_ℤ
mask-in_width bits (pos n) c low high e = ap pos (sym (mod-eq_of_lt (omega (arith, high))) ∙ e)
mask-in_width bits (negsuc n) c low high e = absurd (omega (arith, low))

-- The constant key of an access that touches the byte is the key of the byte's entry.
at_entry :
    (bits : ℕ) (a : Access) (c : Cell)
    → HasWidth bits a
    → Touches bits a c
    → (c.region == map_region) ≡ true
    → (k : ℤ) → const_of a.map_key ≡ some k
    → k ≡ pos c.key
at_entry bits a c w t m k h =
    let (low, high) = w k h in mask-in_width bits k c.key low high (t.at_key k m h)

keys_agree :
    (o p : Option ℤ) (c : ℤ)
    → ((k : ℤ) → o ≡ some k → k ≡ c)
    → ((k : ℤ) → p ≡ some k → k ≡ c)
    → keys_differ o p ≡ false
keys_agree none p c f g = refl
keys_agree (some a) none c f g = refl
keys_agree (some a) (some b) c f g =
    rw (f a refl, g b refl) (ap not (≡→== (pos_part c + neg_part c) (pos_part c + neg_part c) refl))

names_agree :
    (o p : Option String) (c : String)
    → ((s : String) → o ≡ some s → s ≡ c)
    → ((s : String) → p ≡ some s → s ≡ c)
    → names_differ o p ≡ false
names_agree none p c f g = refl
names_agree (some a) none c f g = refl
names_agree (some a) (some b) c f g = rw (f a refl, g b refl) (ap not ((eq_iff c c).1 refl))

-- An access at a constant offset that covers a byte begins before each one that covers it ends.
starts_before :
    (a b : Access) (c : Cell)
    → a.off ≤ℤ c.off
    → c.off <ℤ b.off +ℤ extent b
    → ltb_ℤ a.off (b.off +ℤ extent b) ≡ true
starts_before a b c from below = ground arith

module _ (bits : ℕ) (a b : Access) (c : Cell) (wa : HasWidth bits a) (wb : HasWidth bits b)
    (ta : Touches bits a c) (tb : Touches bits b c) where
  overlap : may_overlap a b ≡ true
  unfolding may_overlap
  overlap = elim (Bool-cases (has_var_off a)) [
    | inl v ↦ rw v refl
    | inr fa ↦ elim (Bool-cases (has_var_off b)) [
      | inl w ↦ rw (fa, w) refl
      | inr fb ↦
          rw
            (
              fa,
              fb,
              starts_before a b c (ta.from_off fa) (tb.below_end fb),
              starts_before b a c (tb.from_off fb) (ta.below_end fa),
            )
            refl
    ]
  ]

  not_other_entry :
      ((c.region == map_region)
        && (if same_id a.map_id b.map_id
            then keys_differ (const_of a.map_key) (const_of b.map_key)
            else true))
      ≡ false
  not_other_entry = elim (Bool-cases (c.region == map_region)) [
    | inl m ↦
        rw
          (
            m,
            ta.in_map m,
            tb.in_map m,
            same_id_refl c.map_id,
            keys_agree (const_of a.map_key) (const_of b.map_key) (pos c.key)
                (at_entry bits a c wa ta m) (at_entry bits b c wb tb m),
          )
          refl
    | inr other ↦ rw other refl
  ]

  not_other_object : ((c.region == bss_region) && names_differ a.bss_key b.bss_key) ≡ false
  not_other_object = elim (Bool-cases (c.region == bss_region)) [
    | inl m ↦
        rw
          (
            m,
            names_agree a.bss_key b.bss_key c.object (λ s. ta.in_object s m)
                (λ s. tb.in_object s m),
          )
          refl
    | inr other ↦ rw other refl
  ]

  alias_in-true : alias_in c.region a b ≡ true
  unfolding alias_in
  alias_in-true = rw (not_other_entry, not_other_object) overlap

  may_alias-true : may_alias a b ≡ true
  unfolding may_alias
  may_alias-true = rw (ta.in_region, tb.in_region, ≡→== c.region c.region refl) alias_in-true

-- Two accesses touch the same byte: the same region, in a map the same map and the same entry, in
-- .bss the same object, and an offset that each of them covers, where a constant offset covers
-- `max(size, 1)` bytes and any other may cover every byte. The entry of a constant key is its residue
-- at the key's width, and each constant key is written as a number from 0 to below 2 to that width.
-- Then `may_alias` is true.
pub may_alias-Touches :
    (bits : ℕ) (a b : Access) (c : Cell)
    → HasWidth bits a
    → HasWidth bits b
    → Touches bits a c
    → Touches bits b c
    → may_alias a b ≡ true
may_alias-Touches bits a b c wa wb ta tb = may_alias-true bits a b c wa wb ta tb
