-- ===== src/Bpf/Globals/Laid.antt =====
-- Where the .rodata of each load stands in the merged bytes.
use hor_net_nsdi.Common.{
  ℕ, ◌-◌, ◌%◌, ◌≡◌, refl, sym, ◌∙◌, ap, ◌==◌, List, [], ◌∷◌, ◌++◌, some, zero, suc, get_elem?,
  length, String, length-append, take, drop, replicate, arith, Bool-cases, inl, inr, append_assoc,
  append-nil, subst,
}
use mathlib.Core.Option.{some-injective}
use hor_net_nsdi.Bpf.Globals.{
  Globals, Sym, pad, add_data, merge_bss, merge_rodata, merge_globals_from, merge_globals,
}

length-replicate {ℓ} : {A : Type ℓ} (n : ℕ) (a : A) → length (replicate n a) ≡ n
length-replicate zero a = refl
length-replicate (suc n) a = ap suc (length-replicate n a)

drop-append {ℓ} : {A : Type ℓ} (xs ys : List A) → drop (length xs) (xs ++ ys) ≡ ys
drop-append [] ys = refl
drop-append (x ∷ xs) ys = drop-append xs ys

take-append {ℓ} : {A : Type ℓ} (xs ys : List A) → take (length xs) (xs ++ ys) ≡ xs
take-append [] ys = refl
take-append (x ∷ xs) ys = ap (λ l. x ∷ l) (take-append xs ys)

-- The padded bytes go on from the bytes, and end on a multiple of 8.
pad_lem :
    (blob : List ℕ) → ((zeros : List ℕ) × (pad blob ≡ blob ++ zeros)) × (length (pad blob) % 8 ≡ 0)
unfolding pad
pad_lem blob = elim (Bool-cases (length blob % 8 == 0)) [
  | inl e ↦ rw e (([], sym (append-nil blob)), ground arith)
  | inr e ↦ (
    (replicate (8 - length blob % 8) 0, rw e refl),
    ground (
      arith,
      e,
      length-append blob (replicate (8 - length blob % 8) 0),
      length-replicate {A = ℕ} (8 - length blob % 8) 0,
    ),
  )
]

add_data_lem :
    (blob bytes : List ℕ)
    → length blob % 8 ≡ 0
    → ((zeros : List ℕ) × (add_data blob bytes ≡ blob ++ (bytes ++ zeros)))
      × (length (add_data blob bytes) % 8 ≡ 0)
unfolding add_data
add_data_lem blob [] h = (([], sym (append-nil blob)), h)
add_data_lem blob (b ∷ bytes) h =
    let ((zeros, e), even) = pad_lem (blob ++ b ∷ bytes) in
    ((zeros, e ∙ append_assoc blob (b ∷ bytes) zeros), even)

-- The bytes merged so far stay in front.
merge_globals_from-extends :
    (loads : List Globals) (bss syms : List (String × Sym)) (blob : List ℕ)
    → length blob % 8 ≡ 0
    → (rest : List ℕ) × ((merge_globals_from loads bss syms blob).blob ≡ blob ++ rest)
unfolding merge_globals_from
merge_globals_from-extends [] bss syms blob h = ([], sym (append-nil blob))
merge_globals_from-extends (load ∷ loads) bss syms blob h =
    let ((zeros, e), even) = add_data_lem blob load.rodata.data_bytes h in
    let (rest, f) =
      merge_globals_from-extends loads (merge_bss load.entry load.bss (bss, [])).0
        (merge_rodata load.entry (length blob) load.rodata.syms syms)
        (add_data blob load.rodata.data_bytes) even in
    (
      (load.rodata.data_bytes ++ zeros) ++ rest,
      f ∙ ap (λ l. l ++ rest) e ∙ append_assoc blob (load.rodata.data_bytes ++ zeros) rest,
    )

-- The bytes of a load stand at its base.
abbrev pub StandsAt : List ℕ → ℕ → List ℕ → Type 0
StandsAt bytes base blob = (base % 8 ≡ 0) × (take (length bytes) (drop base blob) ≡ bytes)

StandsAt-append :
    (before bytes zeros rest blob : List ℕ)
    → length before % 8 ≡ 0
    → blob ≡ (before ++ (bytes ++ zeros)) ++ rest
    → StandsAt bytes (length before) blob
StandsAt-append before bytes zeros rest blob even e =
    let whole = e ∙ append_assoc before (bytes ++ zeros) rest in
    (
      even,
      ap (λ l. take (length bytes) (drop (length before) l)) whole
          ∙ ap (take (length bytes))
              (drop-append before ((bytes ++ zeros) ++ rest) ∙ append_assoc bytes zeros rest)
          ∙ take-append bytes (zeros ++ rest),
    )

merge_globals_from-StandsAt :
    (loads : List Globals) (bss syms : List (String × Sym)) (blob : List ℕ)
    → length blob % 8 ≡ 0
    → (i : ℕ) (load : Globals) → get_elem? loads i ≡ some load
    → (base : ℕ) × (get_elem? (merge_globals_from loads bss syms blob).bases i ≡ some base)
      × StandsAt load.rodata.data_bytes base (merge_globals_from loads bss syms blob).blob
unfolding merge_globals_from
merge_globals_from-StandsAt [] bss syms blob even i load h = cc
merge_globals_from-StandsAt (l ∷ loads) bss syms blob even zero load h =
    let ((zeros, e), even') = add_data_lem blob l.rodata.data_bytes even in
    let (rest, f) =
      merge_globals_from-extends loads (merge_bss l.entry l.bss (bss, [])).0
        (merge_rodata l.entry (length blob) l.rodata.syms syms) (add_data blob l.rodata.data_bytes)
        even' in
    (
      length blob,
      refl,
      subst
          (λ (x : Globals).
            StandsAt x.rodata.data_bytes (length blob)
              (merge_globals_from loads (merge_bss l.entry l.bss (bss, [])).0
                (merge_rodata l.entry (length blob) l.rodata.syms syms)
                (add_data blob l.rodata.data_bytes)).blob)
          (some-injective _ _ h)
          (StandsAt-append blob l.rodata.data_bytes zeros rest _ even (f ∙ ap (λ x. x ++ rest) e)),
    )
merge_globals_from-StandsAt (l ∷ loads) bss syms blob even (suc i) load h =
    merge_globals_from-StandsAt loads (merge_bss l.entry l.bss (bss, [])).0
      (merge_rodata l.entry (length blob) l.rodata.syms syms) (add_data blob l.rodata.data_bytes)
      (add_data_lem blob l.rodata.data_bytes even).1 i load h

-- `_merge_globals` gives each load a base: a multiple of 8 at which the merged bytes are the bytes
-- of its .rodata, whatever stands before and behind.
pub merge_globals-StandsAt :
    (loads : List Globals) (i : ℕ) (load : Globals)
    → get_elem? loads i ≡ some load
    → (base : ℕ) × (get_elem? (merge_globals loads).bases i ≡ some base)
      × StandsAt load.rodata.data_bytes base (merge_globals loads).blob
unfolding merge_globals
merge_globals-StandsAt loads i load h = merge_globals_from-StandsAt loads [] [] [] refl i load h
