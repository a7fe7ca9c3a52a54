-- ===== src/Bpf/Maps/Merged.antt =====
-- What `_merge_maps` returns: each map of a load is renumbered to an entry that is a copy of it.
use text.Mathlib.TextEquality.{eq_iff}
use mathlib.Core.Option.{some-injective}
use hor_net_nsdi.Common.{
  ℕ, zero, suc, ◌≡◌, refl, sym, ◌∙◌, ap, subst, true, ◌==◌, ==→≡, ≡→==, List, [], ◌∷◌, ◌++◌, Option,
  some, none, String, get_elem?, get_elem?-append_left, length, arith, Bool-cases, inl, inr,
  Option-cases,
}
use hor_net_nsdi.Common.Result.{
  ok, Ensures, done, failed, Ensures-bind, Ensures-or_err, Ensures-if, Ensures-elim, Ensures-weaken,
}
use hor_net_nsdi.Bpf.Maps.{
  MapInfo, Load, LinkKey, named, anonymous, map_key, same_key, find, renumbered, same_geometry,
  Merge, add_map, reuse_map, merge_map, merge_load, merge_loads, merge_maps,
}

get_elem?-last {ℓ} :
    {A : Type ℓ} (xs : List A) (x : A) → get_elem? (xs ++ x ∷ []) (length xs) ≡ some x
get_elem?-last [] x = refl
get_elem?-last (y ∷ xs) x = get_elem?-last xs x

abbrev key_name : LinkKey → Option String
key_name (named s) = some s
key_name (anonymous p i) = none

same_key-name : (a b : LinkKey) → same_key a b ≡ true → key_name a ≡ key_name b
unfolding same_key
same_key-name (named a) (named b) h = ap some ((eq_iff a b).0 h)
same_key-name (named a) (anonymous p i) h = cc
same_key-name (anonymous p i) (named b) h = cc
same_key-name (anonymous p i) (anonymous q j) h = refl

map_key-name : (info : MapInfo) (path : String) → key_name (map_key info path) ≡ info.name
unfolding map_key
map_key-name info path = elim (Option-cases info.name) [
  | inl e ↦ rw e refl
  | inr (s, e) ↦ rw e refl
]

same_geometry_refl : (a : MapInfo) → same_geometry a a ≡ true
unfolding same_geometry
same_geometry_refl a = ground arith

-- Entry `k` of the merged maps has this number and this name.
abbrev IsEntry : List MapInfo → Option String → ℕ → Type 0
IsEntry merged name k = (m : MapInfo) × (get_elem? merged k ≡ some m) × (m.name ≡ name) × (m.id ≡ k)

-- Entry `k` of the merged maps is numbered `k`, and has the name and the geometry of the map.
abbrev pub IsCopy : List MapInfo → MapInfo → ℕ → Type 0
IsCopy merged info k =
    (m : MapInfo) × (get_elem? merged k ≡ some m)
    × (m.id ≡ k)
    × (m.name ≡ info.name)
    × (same_geometry m info ≡ true)

abbrev pub IsKnown : List (ℕ × ℕ) → ℕ → Type 0
IsKnown remap id = (k : ℕ) × (renumbered remap id ≡ some k)

abbrev Grows : List MapInfo → List MapInfo → Type 0
Grows xs ys = (i : ℕ) (m : MapInfo) → get_elem? xs i ≡ some m → get_elem? ys i ≡ some m

-- A number that the load is renumbered by comes from one of its maps.
abbrev IsSent : (MapInfo → Type 0) → List MapInfo → ℕ → ℕ → Type 0
IsSent P merged id k = (info : MapInfo) × P info × (info.id ≡ id) × IsCopy merged info k

IsSent-Grows :
    (P : MapInfo → Type 0) (xs ys : List MapInfo) (id k : ℕ)
    → Grows xs ys
    → IsSent P xs id k
    → IsSent P ys id k
IsSent-Grows P xs ys id k grows (info, p, e, (m, at_k, i, n, g)) =
    (info, p, e, (m, grows k m at_k, i, n, g))

module _ (P : MapInfo → Type 0) where
  record IsMerge (s : Merge) : Type 0 where
    entries :
        (key : LinkKey) (k : ℕ) → find s.index key ≡ some k → IsEntry s.merged (key_name key) k
    sent : (id k : ℕ) → renumbered s.remap id ≡ some k → IsSent P s.merged id k

  -- one step, or several, from `s`
  record IsStep (s s' : Merge) : Type 0 where
    inv : IsMerge s'
    grows : Grows s.merged s'.merged
    keeps : (id : ℕ) → IsKnown s.remap id → IsKnown s'.remap id

  -- A new pair at the front of the renumbering.
  renumbered-cons :
      (info : MapInfo) (hit : ℕ) (remap : List (ℕ × ℕ)) (merged : List MapInfo)
      → P info
      → IsCopy merged info hit
      → ((id k : ℕ) → renumbered remap id ≡ some k → IsSent P merged id k)
      → (id k : ℕ) → renumbered ((info.id, hit) ∷ remap) id ≡ some k
      → IsSent P merged id k
  unfolding renumbered
  renumbered-cons info hit remap merged p copy old id k h = elim (Bool-cases (info.id == id)) [
    | inl e ↦ (
      info,
      p,
      ==→≡ info.id id e,
      subst (IsCopy merged info) (some-injective _ _ (rw e at h)) copy,
    )
    | inr e ↦ old id k (rw e at h)
  ]

  IsKnown-cons :
      (i hit : ℕ) (remap : List (ℕ × ℕ)) (id : ℕ) → IsKnown remap id → IsKnown ((i, hit) ∷ remap) id
  unfolding renumbered
  IsKnown-cons i hit remap id (k, h) = elim (Bool-cases (i == id)) [
    | inl e ↦ (hit, rw e refl)
    | inr e ↦ (k, rw e h)
  ]

  IsKnown-head : (i hit : ℕ) (remap : List (ℕ × ℕ)) → IsKnown ((i, hit) ∷ remap) i
  unfolding renumbered
  IsKnown-head i hit remap = (hit, rw (≡→== i i refl) refl)

  -- the map of a key that is not in the index
  add_map-IsStep :
      (info : MapInfo) (path : String) (s : Merge)
      → P info
      → IsMerge s
      → IsStep s (add_map info (map_key info path) s)
  unfolding add_map find same_geometry
  add_map-IsStep info path s p inv =
      let id = length s.merged in
      let new : MapInfo = record info { id = id } in
      let merged = s.merged ++ new ∷ [] in
      let grows : Grows s.merged merged = λ i m h. get_elem?-append_left s.merged (new ∷ []) i h in
      let last = get_elem?-last s.merged new in
      record {
        inv = record {
          entries = λ key k h. elim (Bool-cases (same_key (map_key info path) key)) [
            | inl e ↦ subst (IsEntry merged (key_name key)) (some-injective _ _ (rw e at h)) (
              new,
              last,
              sym (map_key-name info path) ∙ same_key-name (map_key info path) key e,
              refl,
            )
            | inr e ↦
                let (m, at_k, name, number) = inv.entries key k (rw e at h) in
                (m, grows k m at_k, name, number)
          ];
          sent =
              renumbered-cons info id s.remap merged p
                (new, last, refl, refl, same_geometry_refl info)
                λ i k h. IsSent-Grows P s.merged merged i k grows (inv.sent i k h);
        };
        grows = grows;
        keeps = λ i known. IsKnown-cons info.id id s.remap i known;
      }

  reuse_map-IsStep :
      (info : MapInfo) (path : String) (s : Merge) (hit : ℕ)
      → P info
      → IsMerge s
      → find s.index (map_key info path) ≡ some hit
      → Ensures (λ s'. IsStep s s' × IsKnown s'.remap info.id) (reuse_map info hit s)
  unfolding reuse_map
  reuse_map-IsStep info path s hit p inv found =
      let (m, at_hit, name, number) = inv.entries (map_key info path) hit found in
      Ensures-or_err _ (get_elem? s.merged hit) _ _ λ have e.
        Ensures-if _ (same_geometry have info) _ _
          (λ same. done (
            record {
              inv = record {
                entries = inv.entries;
                sent =
                    renumbered-cons info hit s.remap s.merged p
                      (
                        m,
                        at_hit,
                        number,
                        name ∙ map_key-name info path,
                        subst (λ h. same_geometry h info ≡ true)
                            (some-injective _ _ (sym e ∙ at_hit)) same,
                      )
                      inv.sent;
              };
              grows = λ i a h. h;
              keeps = λ i known. IsKnown-cons info.id hit s.remap i known;
            },
            IsKnown-head info.id hit s.remap,
          ))
          λ differs. failed

  merge_map-IsStep :
      (info : MapInfo) (path : String) (s : Merge)
      → P info
      → IsMerge s
      → Ensures (λ s'. IsStep s s' × IsKnown s'.remap info.id) (merge_map path info s)
  unfolding merge_map add_map
  merge_map-IsStep info path s p inv = elim (Option-cases (find s.index (map_key info path))) [
    | inl e ↦
        rw (e, merge_map)
          (done (add_map-IsStep info path s p inv, IsKnown-head info.id (length s.merged) s.remap))
    | inr (hit, e) ↦ rw (e, merge_map) (reuse_map-IsStep info path s hit p inv e)
  ]

  -- the whole of one load
  abbrev IsLoaded : Merge → List MapInfo → Merge → Type 0
  IsLoaded s maps s' =
      IsStep s s'
      × ((j : ℕ) (info : MapInfo) → get_elem? maps j ≡ some info → IsKnown s'.remap info.id)

  merge_load-IsLoaded :
      (path : String) (maps : List MapInfo) (s : Merge)
      → ((j : ℕ) (info : MapInfo) → get_elem? maps j ≡ some info → P info)
      → IsMerge s
      → Ensures (IsLoaded s maps) (merge_load path maps s)
  unfolding merge_load
  merge_load-IsLoaded path [] s all inv =
      done (record { inv = inv; grows = λ i m h. h; keeps = λ i known. known }, λ j info h. cc)
  merge_load-IsLoaded path (info ∷ maps) s all inv =
      Ensures-bind _ (λ s'. IsStep s s' × IsKnown s'.remap info.id) _ _
        (merge_map-IsStep info path s (all 0 info refl) inv)
        λ s1 (first, known).
          Ensures-weaken (IsLoaded s1 maps) _ _
            (λ s2 (rest, others). (
              record {
                inv = rest.inv;
                grows = λ i m h. rest.grows i m (first.grows i m h);
                keeps = λ i k. rest.keeps i (first.keeps i k);
              },
              in_front info maps s2.remap (rest.keeps info.id known) others,
            ))
            (merge_load-IsLoaded path maps s1 (λ j x h. all (suc j) x h) first.inv)
    where
      in_front :
          (x : MapInfo) (xs : List MapInfo) (remap : List (ℕ × ℕ))
          → IsKnown remap x.id
          → ((j : ℕ) (y : MapInfo) → get_elem? xs j ≡ some y → IsKnown remap y.id)
          → (j : ℕ) (y : MapInfo) → get_elem? (x ∷ xs) j ≡ some y
          → IsKnown remap y.id
      in_front x xs remap k f zero y h = subst (λ z. IsKnown remap z.id) (some-injective _ _ h) k
      in_front x xs remap k f (suc j) y h = f j y h

abbrev pub IsFrom : List MapInfo → MapInfo → Type 0
IsFrom maps info = (j : ℕ) × (get_elem? maps j ≡ some info)

-- The renumbering of one load: it knows every map of the load, and each number that it gives is that
-- of a copy of a map of the load with the number that is replaced.
pub record Renumbers (merged maps : List MapInfo) (remap : List (ℕ × ℕ)) : Type 0 where
  pub knows : (j : ℕ) (info : MapInfo) → get_elem? maps j ≡ some info → IsKnown remap info.id
  pub copies :
      (id k : ℕ)
      → renumbered remap id ≡ some k
      → (info : MapInfo) × IsFrom maps info × (info.id ≡ id) × IsCopy merged info k

-- The renumbering of each of the loads.
abbrev RenumbersAll : List Load → List MapInfo → List (List (ℕ × ℕ)) → Type 0
RenumbersAll loads merged remaps =
    (i : ℕ) (load : Load)
    → get_elem? loads i ≡ some load
    → (remap : List (ℕ × ℕ)) × (get_elem? remaps i ≡ some remap) × Renumbers merged load.maps remap

abbrev Entries : List MapInfo → List (LinkKey × ℕ) → Type 0
Entries merged index =
    (key : LinkKey) (k : ℕ) → find index key ≡ some k → IsEntry merged (key_name key) k

abbrev AllMerged : List MapInfo → List Load → List MapInfo × List (List (ℕ × ℕ)) → Type 0
AllMerged merged loads r = Grows merged r.0 × RenumbersAll loads r.0 r.1

nothing : (id k : ℕ) → renumbered [] id ≡ some k → ⊥
unfolding renumbered
nothing id k h = cc

abbrev start : List MapInfo → List (LinkKey × ℕ) → Merge
start merged index = record { merged = merged; index = index; remap = [] }

merge_loads-AllMerged :
    (loads : List Load) (merged : List MapInfo) (index : List (LinkKey × ℕ))
    → Entries merged index
    → Ensures (AllMerged merged loads) (merge_loads loads merged index)
unfolding merge_loads
merge_loads-AllMerged [] merged index entries = done (λ i m h. h, λ i load h. cc)
merge_loads-AllMerged (load ∷ loads) merged index entries =
    Ensures-bind _ (IsLoaded (IsFrom load.maps) (start merged index) load.maps) _ _
      (merge_load-IsLoaded (IsFrom load.maps) load.path load.maps (start merged index)
        (λ j info h. (j, h))
        (record { entries = entries; sent = λ id k h. absurd (nothing id k h) }))
      λ s (step, known).
        Ensures-bind _ (AllMerged s.merged loads) _ _
          (merge_loads-AllMerged loads s.merged s.index step.inv.entries)
          λ r (grows, others). done (
            λ i m h. grows i m (step.grows i m h),
            in_front load loads r.0 s.remap r.1
                (record {
                  knows = known;
                  copies = λ id k h.
                      IsSent-Grows (IsFrom load.maps) s.merged r.0 id k grows
                        (step.inv.sent id k h);
                })
                others,
          )
  where
    in_front :
        (load : Load) (loads : List Load) (merged : List MapInfo) (remap : List (ℕ × ℕ))
        (remaps : List (List (ℕ × ℕ)))
        → Renumbers merged load.maps remap
        → RenumbersAll loads merged remaps
        → RenumbersAll (load ∷ loads) merged (remap ∷ remaps)
    in_front load loads merged remap remaps r f zero l h =
        (remap, refl, subst (λ z. Renumbers merged z.maps remap) (some-injective _ _ h) r)
    in_front load loads merged remap remaps r f (suc i) l h = f i l h

-- When `_merge_maps` returns, each load has a renumbering that knows every map of the load; and each
-- number that it gives for an id is the position and the number of an entry of the merged maps with
-- the name, the type, the two sizes and the capacity of a map of the load with that id.
pub merge_maps-Renumbers :
    (loads : List Load) (merged : List MapInfo) (remaps : List (List (ℕ × ℕ))) (i : ℕ) (load : Load)
    → merge_maps loads ≡ ok (merged, remaps)
    → get_elem? loads i ≡ some load
    → (remap : List (ℕ × ℕ)) × (get_elem? remaps i ≡ some remap) × Renumbers merged load.maps remap
unfolding merge_maps find
merge_maps-Renumbers loads merged remaps i load e h =
    (Ensures-elim (AllMerged [] loads) _ (merged, remaps)
        (merge_loads-AllMerged loads [] [] λ key k f. cc) e).1
      i load h
