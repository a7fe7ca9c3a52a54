-- ===== src/Track/Symbols.antt =====
-- hornet/bpf/constants.py, `branch_op_to_str`, against the codes that `_jmp_taken` and `track_branch` of
-- hornet/track/tracker.py know.
use hor_net_nsdi.Common.{ℕ, ◌≡◌, Bool, true, false, Option, some, none, arith}
use hor_net_nsdi.Common.Int.{ℤ}
use hor_net_nsdi.Bpf.Codes.{swap_jmp_code}
use hor_net_nsdi.Bpf.Names.{name_of, has_name, branch_op_to_str}
use hor_net_nsdi.Track.Jump.{jmp_taken, compare_masked}
use hor_net_nsdi.Track.Branch.{has_negation}

has_name-negation : (code : ℕ) → has_name branch_op_to_str code ≡ has_negation code
unfolding name_of swap_jmp_code
has_name-negation code = ground arith

abbrev pub is_decided : Option Bool → Bool
is_decided none = false
is_decided (some taken) = true

has_name-decided :
    (code bits a b : ℕ) → has_name branch_op_to_str code ≡ is_decided (compare_masked code bits a b)
unfolding name_of compare_masked
has_name-decided code bits a b = ground arith

-- `branch_op_to_str` has a symbol for exactly the codes that `track_branch` does not refuse for want of
-- a negation, and for exactly those that `_jmp_taken` decides, whatever the operands and the width.
pub branch_op_to_str-codes :
    (code : ℕ) (a b : ℤ) (narrow : Bool)
    → (has_name branch_op_to_str code ≡ has_negation code)
      × (has_name branch_op_to_str code ≡ is_decided (jmp_taken code a b narrow))
unfolding jmp_taken
branch_op_to_str-codes code a b narrow = (has_name-negation code, has_name-decided code _ _ _)
