-- ===== src/Track/Facts.antt =====
-- hornet/track/block.py and hornet/track/encode.py: what a block records of its branch. The facts
-- that hold on an edge (`PtrFacts`, `PktFacts`, `AdjustFacts`), the condition (`Condition`,
-- `adjust_head_check`, `contain_map_value`), and the three fields of a block that hold them.
use hor_net_nsdi.Common.{ℕ, Bool, Option, some, if◌then◌else◌}
use hor_net_nsdi.Common.Int.{ℤ, negsuc, ◌==ℤ◌}
use hor_net_nsdi.Track.Expr.{Expr, MaybeExpr, PtrInfo}

pub data EdgeFact : Type 0 where
  ptr_facts : (base_id : Option ℤ) (p : Expr) (checked_null : Option Bool) → EdgeFact
  pkt_facts : (id : ℤ) (base_id min_len max_len : Option ℤ) → EdgeFact
  adjust_facts : (idx : ℕ) (base_id : Option ℤ) → EdgeFact

pub data Cond : Type 0 where
  condition : (code : ℕ) (dst src : MaybeExpr) (jmp32 : Bool) → Cond
  adjust_head_check : (result : Bool) (idx : ℕ) → Cond
  contain_map_value :
      (map_id : Option ℕ) (map_key : MaybeExpr) (map_key_id : Option ℤ) (result : Bool) → Cond
  tail_call_taken : (index : MaybeExpr) → Cond

-- the fields `cond_t`, `cond_f` and `cond` of a block
pub record Marks : Type 0 where
  pub cond_t : Option EdgeFact
  pub cond_f : Option EdgeFact
  pub cond : Option Cond

-- The fact on the edge of a jump that is taken, or is not.
abbrev pub edge_fact : Bool → Marks → Option EdgeFact
edge_fact taken m = if taken then m.cond_t else m.cond_f

-- `null_fact_id`
unfoldable pub null_fact_id : PtrInfo → Option ℤ
null_fact_id p = if p.id ==ℤ negsuc 0 then p.base_id else some p.id
