-- ===== src/Bpf/Link/Places.antt =====
-- The prog array that `link` puts each called program into.
use hor_net_nsdi.Common.{
  ℕ, zero, suc, ◌<◌, ◌≡◌, ◌≢◌, refl, sym, ◌∙◌, ap, subst, Bool, true, false, ≡→==, List, [], ◌∷◌,
  String, Option, some, none, get_elem?, get_elem?-lt, get_elem?-of_lt, arith, Bool-cases,
  Option-cases, inl, inr, any_b, filter_b,
}
use mathlib.Core.Option.{some-injective}
use hor_net_nsdi.Common.Result.{
  ok, Ensures, done, failed, Ensures-bind, Ensures-or_err, Ensures-elim,
}
use hor_net_nsdi.Bpf.Region.{ProgRegion}
use hor_net_nsdi.Bpf.Maps.{MapInfo}
use hor_net_nsdi.Bpf.Link.{
  Object, Plan, Program, TailSpec, is_prog_array, has_name, first_named, only_one, otherwise_named,
  prog_array_id, place_of, check_claims, behind_first, same_id, link,
}
use hor_net_nsdi.Bpf.Link.Whole.{link-IsLinked, linked-IsPlaced}

filter_b-get_elem? {ℓ} :
    {A : Type ℓ} (p : A → Bool) (xs : List A) (n : ℕ) (x : A)
    → get_elem? (filter_b p xs) n ≡ some x
    → (k : ℕ) × (get_elem? xs k ≡ some x) × (p x ≡ true)
filter_b-get_elem? p [] n x h = cc
filter_b-get_elem? p (y ∷ xs) n x h = elim (Bool-cases (p y)) [
  | inl e ↦ kept n e (λ m. filter_b-get_elem? p xs m x) (rw e at h)
  | inr e ↦ let (k, at, q) = filter_b-get_elem? p xs n x (rw e at h) in (suc k, at, q)
]
  where
    kept :
        (n : ℕ)
        → p y ≡ true
        → ((m : ℕ)
            → get_elem? (filter_b p xs) m ≡ some x
            → (k : ℕ) × (get_elem? xs k ≡ some x) × (p x ≡ true))
        → get_elem? (y ∷ filter_b p xs) n ≡ some x
        → (k : ℕ) × (get_elem? (y ∷ xs) k ≡ some x) × (p x ≡ true)
    kept zero e further h = (0, h, subst (λ z. p z ≡ true) (some-injective _ _ h) e)
    kept (suc n) e further h = let (k, at, q) = further n h in (suc k, at, q)

get_elem?-filter_b {ℓ} :
    {A : Type ℓ} (p : A → Bool) (xs : List A) (k : ℕ) (x : A)
    → get_elem? xs k ≡ some x
    → p x ≡ true
    → (n : ℕ) × (get_elem? (filter_b p xs) n ≡ some x)
get_elem?-filter_b p [] k x h q = cc
get_elem?-filter_b p (y ∷ xs) zero x h q =
    let e = some-injective _ _ h in (0, rw (subst (λ z. p z ≡ true) (sym e) q) h)
get_elem?-filter_b p (y ∷ xs) (suc k) x h q = elim (Bool-cases (p y)) [
  | inl e ↦ let (n, at) = get_elem?-filter_b p xs k x h q in (suc n, rw e at)
  | inr e ↦ let (n, at) = get_elem?-filter_b p xs k x h q in (n, rw e at)
]

first_named-get_elem? :
    (want : String) (maps : List MapInfo) (m : MapInfo)
    → first_named want maps ≡ some m
    → (n : ℕ) × (get_elem? maps n ≡ some m) × (has_name want m ≡ true)
unfolding first_named
first_named-get_elem? want [] m h = cc
first_named-get_elem? want (x ∷ maps) m h = elim (Bool-cases (has_name want x)) [
  | inl e ↦
      let same = some-injective _ _ (rw e at h) in
      (0, ap some same, subst (λ y. has_name want y ≡ true) same e)
  | inr e ↦ let (n, at, q) = first_named-get_elem? want maps m (rw e at h) in (suc n, at, q)
]

abbrev wanted : Option String → MapInfo → Bool
wanted none m = true
wanted (some want) m = has_name want m

-- The number of a prog array of the wanted name; without a name there is no other prog array.
pub record IsChosen (maps : List MapInfo) (want : Option String) (id : ℕ) : Type 0 where
  pub k : ℕ
  pub chosen : MapInfo
  pub at : get_elem? maps k ≡ some chosen
  pub id_lem : chosen.id ≡ id
  pub prog_array : is_prog_array chosen ≡ true
  pub named : wanted want chosen ≡ true
  pub alone :
      want ≡ none
      → (j : ℕ) (m : MapInfo) → get_elem? maps j ≡ some m
      → is_prog_array m ≡ true
      → m ≡ chosen

only_one-IsChosen :
    (maps found : List MapInfo)
    → filter_b is_prog_array maps ≡ found
    → Ensures (IsChosen maps none) (only_one found)
only_one-IsChosen maps [] e = failed
only_one-IsChosen maps (m ∷ n ∷ found) e = failed
only_one-IsChosen maps (m ∷ []) e =
    let (k, at, is) = filter_b-get_elem? is_prog_array maps 0 m (ap (λ l. get_elem? l 0) e) in
    done (record {
      k = k;
      chosen = m;
      at = at;
      id_lem = refl;
      prog_array = is;
      named = refl;
      alone = λ _ j x h q.
          let (n, found) = get_elem?-filter_b is_prog_array maps j x h q in
          single n x (sym (ap (λ l. get_elem? l n) e) ∙ found);
    })
  where
    single : (n : ℕ) (x : MapInfo) → get_elem? (m ∷ []) n ≡ some x → x ≡ m
    single zero x h = sym (some-injective _ _ h)
    single (suc n) x h = cc

otherwise_named-fails : (P : ℕ → Type 0) (o : Option MapInfo) → Ensures P (otherwise_named o)
otherwise_named-fails P none = failed
otherwise_named-fails P (some m) = failed

prog_array_id-IsChosen :
    (maps : List MapInfo) (want : Option String)
    → Ensures (IsChosen maps want) (prog_array_id maps want)
unfolding prog_array_id
prog_array_id-IsChosen maps none = only_one-IsChosen maps (filter_b is_prog_array maps) refl
prog_array_id-IsChosen maps (some want) =
    elim (Option-cases (first_named want (filter_b is_prog_array maps))) [
      | inl e ↦
          rw (e, prog_array_id)
            (otherwise_named-fails (IsChosen maps (some want)) (first_named want maps))
      | inr (m, e) ↦
          let (n, at, name) = first_named-get_elem? want (filter_b is_prog_array maps) m e in
          let (k, at', is) = filter_b-get_elem? is_prog_array maps n m at in
          rw (e, prog_array_id)
            (done (record {
              k = k;
              chosen = m;
              at = at';
              id_lem = refl;
              prog_array = is;
              named = name;
              alone = λ h. cc;
            }))
    ]

-- A program's place: its slot, and a prog array.
abbrev IsPlaceFor : Plan → TailSpec → Option ℕ × Option ℕ → Type 0
IsPlaceFor p tail place =
    (place.0 ≡ tail.slot) × ((id : ℕ) × (place.1 ≡ some id) × IsChosen p.maps tail.map_name id)

place_of-Ensures :
    (p : Plan) (j : ℕ) (tail : TailSpec)
    → get_elem? p.tails j ≡ some tail
    → Ensures (IsPlaceFor p tail) (place_of p (suc j))
unfolding place_of
place_of-Ensures p j tail h = Ensures-or_err (IsPlaceFor p tail) _ _ _ λ t found.
    Ensures-bind (IsPlaceFor p tail) (IsChosen p.maps t.map_name) _ _
      (prog_array_id-IsChosen p.maps t.map_name)
      λ id chosen.
        let same = some-injective _ _ (sym found ∙ h) in
        done (subst (λ u. IsPlaceFor p u (t.slot, some id)) same (refl, (id, refl, chosen)))

-- When `link` returns, the program of each tail is loaded at the tail's slot into a prog array of
-- the merged maps: the one that the tail names or, where it names none, the only one.
pub link-IsChosen :
    (objects : List Object) (tails : List TailSpec) (q : Program) (j : ℕ) (tail : TailSpec)
    → link objects tails ≡ ok q
    → get_elem? tails j ≡ some tail
    → (region : ProgRegion) × (id : ℕ) × (get_elem? q.progs (suc j) ≡ some region)
      × (region.slot ≡ tail.slot)
      × (region.map_id ≡ some id)
      × IsChosen q.maps tail.map_name id
link-IsChosen objects tails q j tail e h =
    let l = link-IsLinked objects tails q e in
    let (o, at) =
      get_elem?-of_lt objects (suc j) (omega (arith, l.sizes, get_elem?-lt tails j h)) in
    let p = linked-IsPlaced objects tails q l (suc j) o at in
    let (slot, (id, is_id, is)) =
      Ensures-elim _ _ (p.region.slot, p.region.map_id)
        (place_of-Ensures l.plan j tail (ap (λ ts. get_elem? ts j) l.tails_same ∙ h)) p.placed in
    (
      p.region,
      id,
      p.region_at,
      slot,
      is_id,
      subst (λ ms. IsChosen ms tail.map_name id) l.maps_same is,
    )

same_id-refl_of_eq : (a b : Option ℕ) → a ≡ b → same_id a b ≡ true
same_id-refl_of_eq none none e = refl
same_id-refl_of_eq none (some b) e = cc
same_id-refl_of_eq (some a) none e = cc
same_id-refl_of_eq (some a) (some b) e = ≡→== a b (some-injective _ _ e)

-- No id of the programs is among the claimed ones, or twice among the programs.
check_claims-fresh :
    (progs : List ProgRegion) (claimed : List (Option ℕ)) (j : ℕ) (r : ProgRegion)
    → check_claims progs claimed ≡ ok tt
    → get_elem? progs j ≡ some r
    → any_b (same_id r.map_id) claimed ≡ false
unfolding check_claims
check_claims-fresh [] claimed j r e h = cc
check_claims-fresh (x ∷ progs) claimed zero r e h =
    subst (λ (y : ProgRegion). any_b (same_id y.map_id) claimed ≡ false) (some-injective _ _ h)
      (elim (Bool-cases (any_b (same_id x.map_id) claimed)) [ inl c ↦ cc (rw c at e) | inr c ↦ c ])
check_claims-fresh (x ∷ progs) claimed (suc j) r e h =
    elim (Bool-cases (any_b (same_id x.map_id) claimed)) [
      | inl c ↦ cc (rw c at e)
      | inr c ↦ ground (arith, check_claims-fresh progs (x.map_id ∷ claimed) j r (rw c at e) h)
    ]

check_claims-distinct :
    (progs : List ProgRegion) (claimed : List (Option ℕ)) (i j : ℕ) (r s : ProgRegion)
    → check_claims progs claimed ≡ ok tt
    → i < j
    → get_elem? progs i ≡ some r
    → get_elem? progs j ≡ some s
    → s.map_id ≢ r.map_id
unfolding check_claims
check_claims-distinct [] claimed i j r s e lt h g = cc
check_claims-distinct (x ∷ progs) claimed i zero r s e lt h g = absurd (omega arith)
check_claims-distinct (x ∷ progs) claimed i (suc j) r s e lt h g =
    elim (Bool-cases (any_b (same_id x.map_id) claimed)) [
      | inl c ↦ cc (rw c at e)
      | inr c ↦
          behind i (rw c at e) (check_claims-fresh progs (x.map_id ∷ claimed) j s (rw c at e) g)
            (λ k at lt'.
              check_claims-distinct progs (x.map_id ∷ claimed) k j r s (rw c at e) lt' at g)
            lt h
    ]
  where
    behind :
        (i : ℕ)
        → check_claims progs (x.map_id ∷ claimed) ≡ ok tt
        → any_b (same_id s.map_id) (x.map_id ∷ claimed) ≡ false
        → ((k : ℕ) → get_elem? progs k ≡ some r → k < j → s.map_id ≢ r.map_id)
        → i < suc j
        → get_elem? (x ∷ progs) i ≡ some r
        → s.map_id ≢ r.map_id
    behind zero e fresh further lt h same =
        let same' : s.map_id ≡ x.map_id =
          same ∙ sym (ap (λ (y : ProgRegion). y.map_id) (some-injective _ _ h)) in
        ground (arith, same_id-refl_of_eq s.map_id x.map_id same')
    behind (suc k) e fresh further lt h same = further k h (omega arith) same

behind_first-get_elem? :
    (progs : List ProgRegion) (j : ℕ) (r : ProgRegion)
    → get_elem? progs (suc j) ≡ some r
    → get_elem? (behind_first progs) j ≡ some r
behind_first-get_elem? [] j r h = cc
behind_first-get_elem? (x ∷ progs) j r h = h

-- When `link` returns, no two of the called programs share a prog array.
pub link-distinct :
    (objects : List Object) (tails : List TailSpec) (q : Program) (i j : ℕ) (r s : ProgRegion)
    → link objects tails ≡ ok q
    → i < j
    → get_elem? q.progs (suc i) ≡ some r
    → get_elem? q.progs (suc j) ≡ some s
    → s.map_id ≢ r.map_id
link-distinct objects tails q i j r s e lt h g =
    check_claims-distinct (behind_first q.progs) [] i j r s (link-IsLinked objects tails q e).claims
      lt (behind_first-get_elem? q.progs i r h) (behind_first-get_elem? q.progs j s g)
