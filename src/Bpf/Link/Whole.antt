-- ===== src/Bpf/Link/Whole.antt =====
-- The result of `link` as a whole: programs, instructions, and the maps that they refer to.
use hor_net_nsdi.Common.{
  ℕ, suc, ◌+◌, ◌≡◌, refl, sym, ◌∙◌, subst, true, not, ◌==◌, List, [], ◌∷◌, String, some, get_elem?,
  get_elem?-map, ap, length, map, arith, false, ◌&&◌, ltb, Bool-cases, inl, inr,
}
use hor_net_nsdi.Common.Int.{ℤ, pos, negsuc, ◌+ℤ◌}
use mathlib.Core.Option.{some-injective}
use hor_net_nsdi.Common.Result.{
  ok, Ensures, done, failed, Ensures-bind, Ensures-elim, Ensures-if, Ensures-self,
}
use hor_net_nsdi.Bpf.Instr.{Instr, map_tag}
use hor_net_nsdi.Bpf.Region.{ProgRegion, region_of}
use hor_net_nsdi.Bpf.Maps.{MapInfo, renumbered, merge_maps}
use hor_net_nsdi.Bpf.Maps.Merged.{IsCopy, IsFrom, merge_maps-Renumbers}
use hor_net_nsdi.Bpf.Globals.{merge_globals}
use hor_net_nsdi.Bpf.Link.{
  Object, Plan, Linked, Program, TailSpec, retag, retag_map, move_instr, check_callees,
  check_claims, behind_first, link_all, link,
}
use hor_net_nsdi.Bpf.Link.Joined.{Adds, add_programs-Ensures}
use hor_net_nsdi.Bpf.Link.Joined.Placed.{Tiled, IsPlaced, Adds-IsPlaced, Adds-IsTiled}

abbrev nothing_linked : Linked
nothing_linked = record { instrs = []; progs = [] }

-- What the steps of `link` returned on the way to q.
pub record IsLinked (objects : List Object) (tails : List TailSpec) (q : Program) : Type 0 where
  pub plan : Plan
  pub sizes : length objects ≡ suc (length tails)
  pub maps_lem : merge_maps (map (λ o. o.load) objects) ≡ ok (q.maps, plan.remaps)
  pub maps_same : plan.maps ≡ q.maps
  pub bases_lem : plan.bases ≡ (merge_globals (map (λ o. o.globals) objects)).bases
  pub tails_same : plan.tails ≡ tails
  pub added : Adds plan 0 objects nothing_linked (record { instrs = q.instrs; progs = q.progs })
  pub claims : check_claims (behind_first q.progs) [] ≡ ok tt

link_all-Ensures :
    (main : Object) (callees : List Object) (tails : List TailSpec)
    → length callees ≡ length tails
    → Ensures (IsLinked (main ∷ callees) tails) (link_all main callees tails)
unfolding link_all
link_all-Ensures main callees tails size =
    let P = IsLinked (main ∷ callees) tails in
    let g = merge_globals (map (λ o. o.globals) (main ∷ callees)) in
    Ensures-bind P _ _ _ (Ensures-self (check_callees callees)) λ _ _.
      Ensures-bind P _ _ _ (Ensures-self (merge_maps (map (λ o. o.load) (main ∷ callees))))
        λ found merged.
          let (maps, remaps) = found in
          let plan : Plan = record {
            maps = maps;
            remaps = remaps;
            renames = g.renames;
            bases = g.bases;
            tails = tails;
          } in
          Ensures-bind P _ _ _ (add_programs-Ensures plan 0 (main ∷ callees) nothing_linked)
            λ s added.
              Ensures-bind P _ _ _ (Ensures-self (check_claims (behind_first s.progs) []))
                λ u claims. done (record {
                  plan = plan;
                  sizes = omega (arith, size);
                  maps_lem = merged;
                  maps_same = refl;
                  bases_lem = refl;
                  tails_same = refl;
                  added = added;
                  claims = claims;
                })

link-Ensures :
    (objects : List Object) (tails : List TailSpec)
    → Ensures (IsLinked objects tails) (link objects tails)
unfolding link
link-Ensures [] tails = failed
link-Ensures (main ∷ callees) tails =
    Ensures-if (IsLinked (main ∷ callees) tails) (not (length callees == length tails)) _ _
      (λ _. failed) (λ same. link_all-Ensures main callees tails (ground arith))

pub link-IsLinked :
    (objects : List Object) (tails : List TailSpec) (q : Program)
    → link objects tails ≡ ok q
    → IsLinked objects tails q
link-IsLinked objects tails q e = Ensures-elim _ _ q (link-Ensures objects tails) e

retag-idx :
    (remap : List (ℕ × ℕ)) (rename : List (String × String)) (base : ℕ) (x : Instr)
    → (retag remap rename base x).idx ≡ x.idx
unfolding retag
retag-idx remap rename base x = ground arith

-- y is x in the program: all fields but the number, the tag of a reference to a map or to .bss, and
-- the offset of a reference to .rodata are those of x, and such an offset is moved by `base`.
pub record IsMoved (base : ℕ) (x y : Instr) : Type 0 where
  pub same : y ≡ record x { idx = y.idx; reloc_tag = y.reloc_tag; rodata_offset = y.rodata_offset }
  pub tag_same : (x.relocated && ltb x.reloc_region 2) ≡ false → y.reloc_tag ≡ x.reloc_tag
  pub offset_same :
      (x.relocated && (x.reloc_region == 2)) ≡ false → y.rodata_offset ≡ x.rodata_offset
  pub offset_moved :
      (offset : ℤ)
      → (x.relocated && (x.reloc_region == 2)) ≡ true
      → x.rodata_offset ≡ some offset
      → y.rodata_offset ≡ some (offset +ℤ pos base)

+ℤ-zero : (a : ℤ) → a +ℤ pos 0 ≡ a
unfolding ◌+ℤ◌
+ℤ-zero (pos n) = ground arith
+ℤ-zero (negsuc n) = ground arith

shift-zero : (base : ℕ) (a : ℤ) → base ≡ 0 → a ≡ a +ℤ pos base
shift-zero base a e = sym (rw e (+ℤ-zero a))

module _ (start : ℕ) (remap : List (ℕ × ℕ)) (rename : List (String × String)) (base : ℕ)
    (x : Instr) where
  abbrev moved : Instr
  moved = move_instr start remap rename base x

  move_instr-tag : (x.relocated && ltb x.reloc_region 2) ≡ false → moved.reloc_tag ≡ x.reloc_tag
  unfolding move_instr
  move_instr-tag h = ground arith

  move_instr-offset :
      (x.relocated && (x.reloc_region == 2)) ≡ false → moved.rodata_offset ≡ x.rodata_offset
  unfolding move_instr
  move_instr-offset h = ground arith

  move_instr-shift :
      (offset : ℤ)
      → (x.relocated && (x.reloc_region == 2)) ≡ true
      → x.rodata_offset ≡ some offset
      → moved.rodata_offset ≡ some (offset +ℤ pos base)
  unfolding move_instr
  move_instr-shift offset h e =
      let rel : x.relocated ≡ true = ground arith in
      let reg : x.reloc_region ≡ 2 = ground arith in
      elim (Bool-cases (base == 0)) [
        | inl z ↦ rw (rel, reg, z, e) (ap some (shift-zero base offset (ground arith)))
        | inr z ↦ rw (rel, reg, z, e) refl
      ]

  move_instr-same : moved ≡ record x {
    idx = moved.idx;
    reloc_tag = moved.reloc_tag;
    rodata_offset = moved.rodata_offset;
  }
  unfolding move_instr
  move_instr-same = ground arith

  move_instr-IsMoved : IsMoved base x moved
  move_instr-IsMoved = record {
    same = move_instr-same;
    tag_same = move_instr-tag;
    offset_same = move_instr-offset;
    offset_moved = move_instr-shift;
  }

-- Instruction j of object i, where it stands in the program.
pub record IsLaidOut (objects : List Object) (q : Program) (i : ℕ) (o : Object) (j : ℕ) (x : Instr)
    : Type 0 where
  pub region : ProgRegion
  pub instr : Instr
  pub region_at : get_elem? q.progs i ≡ some region
  pub named : region.name ≡ o.globals.entry
  pub fits : suc region.end ≡ region.start + length o.instrs
  pub instr_at : get_elem? q.instrs (region.start + j) ≡ some instr
  pub region_lem : region_of q.progs (region.start + j) ≡ some region
  pub numbered : x.idx ≡ j → instr.idx ≡ region.start + j
  pub base : ℕ
  pub base_at : get_elem? (merge_globals (map (λ b. b.globals) objects)).bases i ≡ some base
  pub moved : IsMoved base x instr

pub linked-IsPlaced :
    (objects : List Object) (tails : List TailSpec) (q : Program)
    → (l : IsLinked objects tails q) → (i : ℕ) (o : Object) → get_elem? objects i ≡ some o
    → IsPlaced l.plan i o (record { instrs = q.instrs; progs = q.progs })
linked-IsPlaced objects tails q l i o h =
    Adds-IsPlaced l.plan 0 i i objects nothing_linked
      (record { instrs = q.instrs; progs = q.progs }) o l.added refl refl (omega arith) h

-- When `link` returns, the regions of the programs lie one behind the other, each of one instruction or
-- more, from 0 to the number of instructions.
pub link-Tiled :
    (objects : List Object) (tails : List TailSpec) (q : Program)
    → link objects tails ≡ ok q
    → Tiled 0 q.progs (length q.instrs)
link-Tiled objects tails q e =
    let l = link-IsLinked objects tails q e in Adds-IsTiled l.plan l.added refl

-- When `link` returns, the i-th object has the i-th region, named after its entry and as long as its
-- instructions; its j-th instruction stands at the j-th place of the region, where `region_of` finds
-- the region, unchanged but for its number, for the tag of a reference to a map or to .bss, and for
-- the offset of a reference to .rodata, which is moved by the base of the i-th load in the merged
-- .rodata; and if its number was its position in the object then its number is its position in the
-- program.
pub link-IsLaidOut :
    (objects : List Object) (tails : List TailSpec) (q : Program) (i : ℕ) (o : Object) (j : ℕ)
    (x : Instr)
    → link objects tails ≡ ok q
    → get_elem? objects i ≡ some o
    → get_elem? o.instrs j ≡ some x
    → IsLaidOut objects q i o j x
unfolding move_instr
link-IsLaidOut objects tails q i o j x e h at =
    let l = link-IsLinked objects tails q e in
    let p = linked-IsPlaced objects tails q l i o h in
    record {
      region = p.region;
      instr = move_instr p.region.start p.remap p.rename p.base x;
      region_at = p.region_at;
      named = p.named;
      fits = p.fits;
      instr_at = (p.moved j x at).0;
      region_lem = (p.moved j x at).1;
      numbered = λ same. omega (arith, retag-idx p.remap p.rename p.base x, same);
      base = p.base;
      base_at = subst (λ bs. get_elem? bs i ≡ some p.base) l.bases_lem p.base_at;
      moved = move_instr-IsMoved p.region.start p.remap p.rename p.base x;
    }

-- A reference to map `id`, retagged.
retag-map_tag :
    (remap : List (ℕ × ℕ)) (rename : List (String × String)) (base id k : ℕ) (x : Instr)
    → x.relocated ≡ true
    → x.reloc_region ≡ 0
    → x.reloc_tag ≡ some (map_tag id)
    → renumbered remap id ≡ some k
    → (retag remap rename base x).reloc_tag ≡ some (map_tag k)
unfolding retag
retag-map_tag remap rename base id k x rel reg tag found =
    rw (rel, reg, tag) (rw (retag_map, found) refl)

-- When `link` returns, an instruction that refers to a map of its object by the map's number refers,
-- at its place in the program, to a merged map of the same name and geometry, by the merged number.
pub link-map_tag :
    (objects : List Object) (tails : List TailSpec) (q : Program) (i : ℕ) (o : Object) (j : ℕ)
    (x : Instr) (n : ℕ) (info : MapInfo)
    → link objects tails ≡ ok q
    → get_elem? objects i ≡ some o
    → get_elem? o.instrs j ≡ some x
    → get_elem? o.load.maps n ≡ some info
    → x.relocated ≡ true
    → x.reloc_region ≡ 0
    → x.reloc_tag ≡ some (map_tag info.id)
    → (region : ProgRegion) × (instr : Instr) × (k : ℕ) × (copied : MapInfo) × (get_elem? q.progs i
        ≡ some region)
      × (get_elem? q.instrs (region.start + j) ≡ some instr)
      × (instr.reloc_tag ≡ some (map_tag k))
      × (copied.id ≡ info.id)
      × IsFrom o.load.maps copied
      × IsCopy q.maps copied k
unfolding move_instr
link-map_tag objects tails q i o j x n info e h at known rel reg tag =
    let l = link-IsLinked objects tails q e in
    let p = linked-IsPlaced objects tails q l i o h in
    let (remap, remap_at, r) =
      merge_maps-Renumbers (map (λ b. b.load) objects) q.maps l.plan.remaps i o.load l.maps_lem
        (get_elem?-map (λ b. b.load) objects i h) in
    let same = some-injective _ _ (sym remap_at ∙ p.remap_at) in
    let (k, found) = r.knows n info known in
    let (copied, from, id_same, copy) = r.copies info.id k found in
    (
      p.region,
      move_instr p.region.start p.remap p.rename p.base x,
      k,
      copied,
      p.region_at,
      (p.moved j x at).0,
      retag-map_tag p.remap p.rename p.base info.id k x rel reg tag
          (subst (λ m. renumbered m info.id ≡ some k) same found),
      id_same,
      from,
      copy,
    )
