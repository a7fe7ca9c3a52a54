-- ===== src/Bpf/Link/Joined.antt =====
-- What `link` returns: the programs stand one behind the other, and every instruction is found in
-- the region of its program.

pub mod Placed
use hor_net_nsdi.Common.{
  ℕ, zero, suc, ◌+◌, ◌-◌, ◌≤◌, ◌<◌, ◌≡◌, refl, sym, ◌∙◌, ap, subst, Bool, true, false, ◌&&◌, not,
  ◌==◌, leb, if◌then◌else◌, List, [], ◌∷◌, ◌++◌, Option, some, none, String, get_elem?, is_empty,
  length, length-append, length-map, map, arith, Bool-cases, inl, inr, append_assoc, append-nil,
}
use hor_net_nsdi.Common.Result.{
  Result, ok, err, ◌>>=◌, or_err, >>=-eq-ok, Ensures, done, failed, Ensures-bind, Ensures-or_err,
  Ensures-elim, Ensures-if, Ensures-weaken, Ensures-self,
}
use hor_net_nsdi.Bpf.Instr.{Instr, is_exit}
use hor_net_nsdi.Bpf.Region.{ProgRegion, region_of, contains}
use hor_net_nsdi.Bpf.Maps.{LinkError}
use hor_net_nsdi.Bpf.Link.{
  Object, Plan, Linked, last_instr, check_end, move_instr, place_of, region_for, add_program,
  add_programs,
}

last_instr-length : (is : List Instr) (i : Instr) → last_instr is ≡ some i → 0 < length is
unfolding last_instr
last_instr-length [] i h = cc
last_instr-length (x ∷ is) i h = omega arith

-- One program added to those before it.
pub record IsAdded (p : Plan) (n : ℕ) (is_last : Bool) (o : Object) (s s' : Linked) : Type 0 where
  pub remap : List (ℕ × ℕ)
  pub rename : List (String × String)
  pub base : ℕ
  pub place : Option ℕ × Option ℕ
  pub nonempty : 0 < length o.instrs
  pub remap_at : get_elem? p.remaps n ≡ some remap
  pub rename_at : get_elem? p.renames n ≡ some rename
  pub base_at : get_elem? p.bases n ≡ some base
  pub placed : place_of p n ≡ ok place
  pub ends : is_last ≡ false → (i : Instr) × (last_instr o.instrs ≡ some i) × (is_exit i ≡ true)
  pub instrs_lem :
      s'.instrs ≡ s.instrs ++ map (move_instr (length s.instrs) remap rename base) o.instrs
  pub progs_lem : s'.progs ≡ s.progs ++ region_for o (length s.instrs) place ∷ []

check_end-exit :
    (is_last : Bool) (i : Instr)
    → Ensures (λ (u : Unit {0}). is_last ≡ false → is_exit i ≡ true) (check_end is_last i)
unfolding check_end
check_end-exit is_last i =
    Ensures-if _ (not is_last && not (is_exit i)) _ _ (λ h. failed) (λ h. done (λ e. ground arith))

add_program-IsAdded :
    (p : Plan) (n : ℕ) (is_last : Bool) (o : Object) (s : Linked)
    → Ensures (IsAdded p n is_last o s) (add_program p n is_last o s)
unfolding add_program
add_program-IsAdded p n is_last o s =
    let P = IsAdded p n is_last o s in
    Ensures-or_err P _ _ _ λ last found.
      Ensures-bind P (λ u. is_last ≡ false → is_exit last ≡ true) _ _ (check_end-exit is_last last)
        λ u ends. Ensures-or_err P _ _ _ λ remap remap_at.
          Ensures-or_err P _ _ _ λ rename rename_at. Ensures-or_err P _ _ _ λ base base_at.
            Ensures-bind P (λ place. place_of p n ≡ ok place) _ _ (Ensures-self (place_of p n))
              λ place placed. done (record {
                remap = remap;
                rename = rename;
                base = base;
                place = place;
                nonempty = last_instr-length o.instrs last found;
                remap_at = remap_at;
                rename_at = rename_at;
                base_at = base_at;
                placed = placed;
                ends = λ e. (last, found, ends e);
                instrs_lem = refl;
                progs_lem = refl;
              })

-- The rounds of the loop over the loads.
pub data Adds (p : Plan) : ℕ → List Object → Linked → Linked → Type 0 where
  no_more : {n : ℕ} {s : Linked} → Adds p n [] s s
  one_more :
      {n : ℕ} {o : Object} {objects : List Object} {s s1 s2 : Linked}
      → IsAdded p n (is_empty objects) o s s1
      → Adds p (suc n) objects s1 s2
      → Adds p n (o ∷ objects) s s2

pub add_programs-Ensures :
    (p : Plan) (n : ℕ) (objects : List Object) (s : Linked)
    → Ensures (Adds p n objects s) (add_programs p n objects s)
unfolding add_programs
add_programs-Ensures p n [] s = done no_more
add_programs-Ensures p n (o ∷ objects) s =
    Ensures-bind (Adds p n (o ∷ objects) s) (IsAdded p n (is_empty objects) o s) _ _
      (add_program-IsAdded p n (is_empty objects) o s)
      λ s1 a.
        Ensures-weaken (Adds p (suc n) objects s1) (Adds p n (o ∷ objects) s) _
          (λ s2 rest. one_more a rest) (add_programs-Ensures p (suc n) objects s1)

pub add_programs-Adds :
    (p : Plan) (n : ℕ) (objects : List Object) (s s' : Linked)
    → add_programs p n objects s ≡ ok s'
    → Adds p n objects s s'
add_programs-Adds p n objects s s' e = Ensures-elim _ _ s' (add_programs-Ensures p n objects s) e
