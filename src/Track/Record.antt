-- ===== src/Track/Record.antt =====
-- hornet/track/record.py, `_const` and `may_alias`: may two accesses of memory meet?
-- An attribute that a kind of access lacks is `none`.
pub mod Meets
use text.Mathlib.Text.{◌==◌ as str_eq}
use hor_net_nsdi.Common.{
  ℕ, max, Bool, true, false, ◌&&◌, not, ◌==◌, if◌then◌else◌, Option, some, none, String,
}
use hor_net_nsdi.Common.Int.{ℤ, pos, ◌+ℤ◌, ltb_ℤ, ◌==ℤ◌}
use hor_net_nsdi.Track.Expr.{Expr, MaybeExpr, absent, present, num}

abbrev pub map_region : ℕ
map_region = 1

abbrev pub bss_region : ℕ
bss_region = 3

-- A key is a Python integer or an expression.
pub data MapKey : Type 0 where
  plain : ℤ → MapKey
  symbolic : MaybeExpr → MapKey

unfoldable pub const_of : MapKey → Option ℤ
const_of (plain k) = some k
const_of (symbolic (present (num k size idx))) = some k
const_of (symbolic _) = none

pub record Access : Type 0 where
  pub region : Option ℕ
  pub map_id : Option ℕ
  pub map_key : MapKey
  pub bss_key : Option String
  pub var_off : MaybeExpr
  pub off : ℤ
  pub size : ℕ

abbrev pub same_id : Option ℕ → Option ℕ → Bool
same_id none none = true
same_id (some a) (some b) = a == b
same_id _ _ = false

-- both keys are known, and they differ
abbrev pub keys_differ : Option ℤ → Option ℤ → Bool
keys_differ (some a) (some b) = not (a ==ℤ b)
keys_differ _ _ = false

abbrev pub names_differ : Option String → Option String → Bool
names_differ (some a) (some b) = not (str_eq a b)
names_differ _ _ = false

-- `max(a.size, 1)`
abbrev pub extent : Access → ℤ
extent a = pos (max a.size 1)

abbrev pub has_var_off : Access → Bool
has_var_off a = elim a.var_off [ absent ↦ false | present v ↦ true ]

-- the last two tests
unfoldable pub may_overlap : Access → Access → Bool
unfolding ◌+ℤ◌
may_overlap a b =
    if (if has_var_off a then true else has_var_off b)
    then true
    else ltb_ℤ a.off (b.off +ℤ extent b) && ltb_ℤ b.off (a.off +ℤ extent a)

-- what follows the test of the regions, for two accesses of the region `r`
unfoldable pub alias_in : ℕ → Access → Access → Bool
unfolding may_overlap const_of
alias_in r a b =
    if (r == map_region)
      && (if same_id a.map_id b.map_id
          then keys_differ (const_of a.map_key) (const_of b.map_key)
          else true)
    then false
    else if (r == bss_region) && names_differ a.bss_key b.bss_key
    then false
    else may_overlap a b

unfoldable pub may_alias : Access → Access → Bool
unfolding alias_in
may_alias a b = elim a.region [
  | none ↦ false
  | some r ↦ elim b.region [ none ↦ false | some s ↦ if r == s then alias_in r a b else false ]
]
