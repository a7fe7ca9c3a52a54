-- ===== src/Verify/Regions/Closed/Least.antt =====
-- The relevant regions are the least set that holds the regions of the conditions and, with the region
-- of a write, the regions that the write depends on; and the loop that finds them ends.
use hor_net_nsdi.Common.{
  ℕ, ◌+◌, ◌≡◌, Bool, true, false, ◌||◌, if◌then◌else◌, List, [], ◌∷◌, Option, some, get_elem?,
}
use hor_net_nsdi.Verify.Regions.{
  Region, has_region, Action, write_region, action_regions, is_skipped,
}
use hor_net_nsdi.Verify.Regions.Slice.{TracedBlock, action_reads}
use hor_net_nsdi.Verify.Regions.Closed.{maybe_reads}

-- Does the write of the action depend on region r?
abbrev pub depends_on : Action → Region → Bool
depends_on a r = maybe_reads a.value r || (maybe_reads a.map_key r || maybe_reads a.var_off r)

step_of : Action → List Region → List Region
step_of a out = if is_skipped (write_region a) out then out else action_regions a out

-- The sets are closed under the dependencies of the writes that they hold.
abbrev pub IsClosed : List Action → List Region → Type 0
IsClosed actions out =
    (i : ℕ) (a : Action)
    → get_elem? actions i ≡ some a
    → is_skipped (write_region a) out ≡ false
    → (r : Region) → depends_on a r ≡ true
    → has_region r out ≡ true

-- How many entries of the list are not in the set.
missing : List Region → List Region → ℕ
missing [] out = 0
missing (u ∷ us) out = (if has_region u out then 0 else 1) + missing us out

-- The least set: the regions given, and with the region of a write those that the write depends on.
pub data Relevant (given : List Region) (actions : List Action) : Region → Type 0 where
  from_given : {r : Region} → has_region r given ≡ true → Relevant given actions r
  from_write :
      (i : ℕ) {a : Action} {q r : Region}
      → get_elem? actions i ≡ some a
      → write_region a ≡ some q
      → Relevant given actions q
      → depends_on a r ≡ true
      → Relevant given actions r

module _ (given : List Region) (actions : List Action) where
  -- What the loop returns.
  record IsResult (res : List Region) : Type 0 where
    closed : IsClosed actions res
    more_than : (r : Region) → has_region r given ≡ true → has_region r res ≡ true
    only : (r : Region) → has_region r res ≡ true → Relevant given actions r

  reads_all : List Region
  reads_all = action_reads actions given

-- The blocks with the numbers of the slice, in its order.
pub data IsSelection (blocks : List TracedBlock) : List ℕ → List TracedBlock → Type 0 where
  none_left : IsSelection blocks [] []
  next_block :
      {b : ℕ} {slice : List ℕ} {block : TracedBlock} {found : List TracedBlock}
      → get_elem? blocks b ≡ some block
      → IsSelection blocks slice found
      → IsSelection blocks (b ∷ slice) (block ∷ found)
