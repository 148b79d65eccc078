-- ===== src/M61/Derp/Tiling.antt =====
-- The blocks of m61-derp tile its buffer.
use cs61_f26_psets.Common.{
  ℕ, ◌+◌, ◌-◌, ◌%◌, ◌^◌, ◌≤◌, ◌<◌, ◌≡◌, inl, inr, refl, sym, ap, subst, ◌∙◌, true, false, none,
  some, [], ◌∷◌, arith, Bool-cases,
}
use cs61_f26_psets.Common.Bits.{set_low}
use cs61_f26_psets.M61.Derp.{AllocInfo, Blocks, aligned_size, first_fit, fits, set_block, split}

-- The blocks follow one another from `p` to `e`, their sizes are multiples of 16, and what is
-- allocated in one fits.
abbrev pub Tiles : ℕ → Blocks → ℕ → Type 0
Tiles p [] e = p ≡ e
Tiles p ((k, i) ∷ bs) e =
    (k ≡ p)
    × (0 < i.bsz)
    × (i.bsz % 16 ≡ 0)
    × (i.free ≡ false → i.usz ≤ i.bsz)
    × Tiles (p + i.bsz) bs e

pub Tiles-le : (p e : ℕ) (bs : Blocks) → Tiles p bs e → p ≤ e
Tiles-le p e [] h = omega (arith, h)
Tiles-le p e ((k, i) ∷ bs) (at, some_size, whole, room, h) =
    omega (arith, Tiles-le (p + i.bsz) e bs h)

set_block-front :
    (q e k : ℕ) (x : AllocInfo) (bs : Blocks)
    → Tiles q bs e
    → k < q
    → set_block k x bs ≡ (k, x) ∷ bs
unfolding set_block
set_block-front q e k x [] h lt = refl
set_block-front q e k x ((j, y) ∷ bs) (at, some_size, whole, room, h) lt = ground (arith, at, lt)

pub set_block-past :
    (j k : ℕ) (x y : AllocInfo) (bs : Blocks)
    → j < k
    → set_block k x ((j, y) ∷ bs) ≡ (j, y) ∷ set_block k x bs
unfolding set_block
set_block-past j k x y bs lt = ground (arith, lt)

pub set_block-here :
    (k : ℕ) (x y : AllocInfo) (bs : Blocks) → set_block k x ((k, y) ∷ bs) ≡ (k, x) ∷ bs
unfolding set_block
set_block-here k x y bs = ground arith

first_fit-here :
    (sz k : ℕ) (i : AllocInfo) (bs : Blocks)
    → fits i sz ≡ true
    → first_fit sz ((k, i) ∷ bs) ≡ some (k, i)
unfolding first_fit
first_fit-here sz k i bs e = rw (e) refl

pub first_fit-past :
    (sz k : ℕ) (i : AllocInfo) (bs : Blocks)
    → fits i sz ≡ false
    → first_fit sz ((k, i) ∷ bs) ≡ first_fit sz bs
unfolding first_fit
first_fit-past sz k i bs e = rw (e) refl

-- The blocks of an allocation that leaves a rest.
abbrev pub carve : ℕ → Blocks → Blocks
carve sz [] = []
carve sz ((k, i) ∷ bs) = elim (fits i sz) [
  | true ↦
      (k, record { bsz = aligned_size sz; usz = sz; free = false })
      ∷ (k + aligned_size sz, record { bsz = i.bsz - aligned_size sz; usz = 0; free = true })
      ∷ bs
  | false ↦ (k, i) ∷ carve sz bs
]

pub aligned_size-lem :
    (sz : ℕ)
    → sz < 2 ^ 63
    → (sz ≤ aligned_size sz)
      × (0 < aligned_size sz)
      × (aligned_size sz % 16 ≡ 0)
      × (aligned_size sz < 2 ^ 64)
unfolding aligned_size
aligned_size-lem sz lt = ground (arith, set_low 4 sz, lt)

pub nothing-found : {A : Type 0} (sz k : ℕ) (i : AllocInfo) → first_fit sz [] ≡ some (k, i) → A
unfolding first_fit
nothing-found sz k i found = absurd (ground (arith, found))

pub found-here :
    (sz j k : ℕ) (y i : AllocInfo) (bs : Blocks)
    → fits y sz ≡ true
    → first_fit sz ((j, y) ∷ bs) ≡ some (k, i)
    → ◌≡◌ {A = ℕ × AllocInfo} (j, y) (k, i)
found-here sz j k y i bs fit found =
    ap (λ o. elim o [ none ↦ (j, y) | some b ↦ b ]) (sym (first_fit-here sz j y bs fit) ∙ found)

pub first_fit-from :
    (sz p e k : ℕ) (i : AllocInfo) (bs : Blocks)
    → Tiles p bs e
    → first_fit sz bs ≡ some (k, i)
    → (p ≤ k) × (k + i.bsz ≤ e) × (fits i sz ≡ true)
first_fit-from sz p e k i [] h found = nothing-found sz k i found
first_fit-from sz p e k i ((j, y) ∷ bs) (at, some_size, whole, room, h) found =
    elim (Bool-cases (fits y sz)) [
      | inl fit ↦
          subst (λ b. (p ≤ b.0) × (b.0 + b.1.bsz ≤ e) × (fits b.1 sz ≡ true))
            (found-here sz j k y i bs fit found)
            (omega (arith, at), omega (arith, at, Tiles-le (p + y.bsz) e bs h), fit)
      | inr other ↦
          let (le, hi, fit) =
            first_fit-from sz (p + y.bsz) e k i bs h
              (sym (first_fit-past sz j y bs other) ∙ found) in
          (omega (arith, le), hi, fit)
    ]

pub carve-here :
    (sz k : ℕ) (i : AllocInfo) (bs : Blocks)
    → fits i sz ≡ true
    → carve sz ((k, i) ∷ bs)
      ≡ (k, record { bsz = aligned_size sz; usz = sz; free = false })
        ∷ (k + aligned_size sz, record { bsz = i.bsz - aligned_size sz; usz = 0; free = true })
        ∷ bs
carve-here sz k i bs fit = rw (carve, fit) refl

pub carve-past :
    (sz k : ℕ) (i : AllocInfo) (bs : Blocks)
    → fits i sz ≡ false
    → carve sz ((k, i) ∷ bs) ≡ (k, i) ∷ carve sz bs
carve-past sz k i bs other = rw (carve, other) refl

split-here :
    (sz p e k : ℕ) (i : AllocInfo) (bs : Blocks)
    → Tiles p ((k, i) ∷ bs) e
    → e < 2 ^ 64
    → 0 < aligned_size sz
    → fits i sz ≡ true
    → aligned_size sz < i.bsz
    → split sz k i ((k, i) ∷ bs) ≡ carve sz ((k, i) ∷ bs)
unfolding split
split-here sz p e k i bs (at, size, whole, room, h) small some_size fit more =
    let asz = aligned_size sz in
    let taken : AllocInfo = record { bsz = asz; usz = sz; free = false } in
    let left : AllocInfo = record { bsz = (i.bsz + 2 ^ 64 - asz) % 2 ^ 64; usz = 0; free = true } in
    let bound = Tiles-le (p + i.bsz) e bs h in
    ap (set_block k taken) (set_block-past k (k + asz) left i bs (omega (arith, some_size)))
    ∙ ap (λ r. set_block k taken ((k, i) ∷ r))
        (set_block-front (p + i.bsz) e (k + asz) left bs h (omega (arith, at, more)))
    ∙ set_block-here k taken i ((k + asz, left) ∷ bs)
    ∙ ap (λ n. (k, taken) ∷ (k + asz, record { bsz = n; usz = 0; free = true }) ∷ bs)
        (omega (arith, more, bound, small))
    ∙ sym (carve-here sz k i bs fit)

split-past :
    (sz j k : ℕ) (y i : AllocInfo) (bs : Blocks)
    → j < k
    → split sz k i ((j, y) ∷ bs) ≡ (j, y) ∷ split sz k i bs
unfolding split
split-past sz j k y i bs lt =
    let asz = aligned_size sz in
    let taken : AllocInfo = record { bsz = asz; usz = sz; free = false } in
    let left : AllocInfo = record { bsz = (i.bsz + 2 ^ 64 - asz) % 2 ^ 64; usz = 0; free = true } in
    ap (set_block k taken) (set_block-past j (k + asz) left y bs (omega (arith, lt)))
    ∙ set_block-past j k taken y (set_block (k + asz) left bs) lt

-- The two steps of a split carve the block.
pub split-carve :
    (sz p e k : ℕ) (i : AllocInfo) (bs : Blocks)
    → Tiles p bs e
    → e < 2 ^ 64
    → 0 < aligned_size sz
    → first_fit sz bs ≡ some (k, i)
    → aligned_size sz < i.bsz
    → split sz k i bs ≡ carve sz bs
split-carve sz p e k i [] h small some_size found more = nothing-found sz k i found
split-carve sz p e k i ((j, y) ∷ bs) (at, size, whole, room, h) small some_size found more =
    elim (Bool-cases (fits y sz)) [
      | inl fit ↦
          subst
            (λ b.
              aligned_size sz < b.1.bsz → split sz b.0 b.1 ((j, y) ∷ bs) ≡ carve sz ((j, y) ∷ bs))
            (found-here sz j k y i bs fit found)
            (split-here sz p e j y bs (at, size, whole, room, h) small some_size fit) more
      | inr other ↦
          let found' = sym (first_fit-past sz j y bs other) ∙ found in
          let (le, hi, fit) = first_fit-from sz (p + y.bsz) e k i bs h found' in
          split-past sz j k y i bs (omega (arith, at, size, le))
          ∙ ap (λ r. (j, y) ∷ r) (split-carve sz (p + y.bsz) e k i bs h small some_size found' more)
          ∙ sym (carve-past sz j y bs other)
    ]
