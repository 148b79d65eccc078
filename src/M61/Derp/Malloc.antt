-- ===== src/M61/Derp/Malloc.antt =====
-- m61_malloc and m61_free of m61-derp keep the tiling, and an exact fit loses the next block.
use native.Mathlib.Decide.{ℕ_discrete}
use cs61_f26_psets.Common.{
  ℕ, ◌+◌, ◌-◌, ◌%◌, ◌^◌, ◌≤◌, ◌<◌, ◌≡◌, ◌≢◌, inl, inr, refl, sym, ap, subst, ◌∙◌, true, false,
  Option, none, some, [], ◌∷◌, ◌==◌, arith, Bool-cases,
}
use cs61_f26_psets.M61.Derp.{
  AllocInfo, Blocks, Heap, aligned_size, count_free, count_malloc, first_fit, fits, initialized,
  lookup, m61_free, m61_malloc, set_block, split,
}
use cs61_f26_psets.M61.Derp.Tiling.{
  Tiles, aligned_size-lem, carve, carve-here, carve-past, first_fit-past, found-here, nothing-found,
  set_block-here, set_block-past, split-carve,
}

lookup-set_block : (k : ℕ) (x : AllocInfo) (bs : Blocks) → lookup k (set_block k x bs) ≡ some x
unfolding lookup set_block
lookup-set_block k x [] = ground arith
lookup-set_block k x ((j, y) ∷ bs) = ground (arith, lookup-set_block k x bs)

lookup-set_block_other :
    (j k : ℕ) (x : AllocInfo) (bs : Blocks) → j ≢ k → lookup j (set_block k x bs) ≡ lookup j bs
unfolding lookup set_block
lookup-set_block_other j k x [] ne = ground (arith, ne)
lookup-set_block_other j k x ((l, y) ∷ bs) ne =
    ground (arith, ne, lookup-set_block_other j k x bs ne)

lookup-from :
    (p e j : ℕ) (y : AllocInfo) (bs : Blocks) → Tiles p bs e → lookup j bs ≡ some y → p ≤ j
unfolding lookup
lookup-from p e j y [] h found = absurd (ground (arith, found))
lookup-from p e j y ((k, i) ∷ bs) (at, size, whole, room, h) found =
    ground (arith, at, size, found, lookup-from (p + i.bsz) e j y bs h)

carve-Tiles :
    (sz p e k : ℕ) (i : AllocInfo) (bs : Blocks)
    → Tiles p bs e
    → sz < 2 ^ 63
    → first_fit sz bs ≡ some (k, i)
    → aligned_size sz < i.bsz
    → Tiles p (carve sz bs) e
carve-Tiles sz p e k i [] h small found more = nothing-found sz k i found
carve-Tiles sz p e k i ((j, y) ∷ bs) (at, size, whole, room, h) small found more =
    elim (Bool-cases (fits y sz)) [
      | inl fit ↦
          let (enough, some_size, sixteens, bound) = aligned_size-lem sz small in
          let more' =
            subst (λ b. aligned_size sz < b.1.bsz) (sym (found-here sz j k y i bs fit found))
              more in
          subst (λ r. Tiles p r e) (sym (carve-here sz j y bs fit))
            (
              at,
              some_size,
              sixteens,
              λ used. enough,
              (
                ap (λ a. a + aligned_size sz) at,
                omega (arith, more'),
                omega (arith, more', whole, sixteens),
                λ used. absurd (ground (arith, used)),
                subst (λ q. Tiles q bs e) (omega (arith, more')) h,
              ),
            )
      | inr other ↦
          subst (λ r. Tiles p r e) (sym (carve-past sz j y bs other))
            (
              at,
              size,
              whole,
              room,
              carve-Tiles sz (p + y.bsz) e k i bs h small
                  (sym (first_fit-past sz j y bs other) ∙ found) more,
            )
    ]

fits-free : (i : AllocInfo) (sz : ℕ) → fits i sz ≡ true → i.free ≡ true
unfolding fits
fits-free i sz e = ground (arith, e)

lookup-here : (k : ℕ) (y : AllocInfo) (bs : Blocks) → lookup k ((k, y) ∷ bs) ≡ some y
unfolding lookup
lookup-here k y bs = ground arith

lookup-past : (j k : ℕ) (y : AllocInfo) (bs : Blocks) → j ≢ k → lookup j ((k, y) ∷ bs) ≡ lookup j bs
unfolding lookup
lookup-past j k y bs ne = ground (arith, ne)

info_of : Option AllocInfo → AllocInfo → AllocInfo
info_of none d = d
info_of (some i) d = i

-- What is found at the first key.
lookup-first :
    (j k : ℕ) (x y : AllocInfo) (bs : Blocks) → lookup j ((k, x) ∷ bs) ≡ some y → j ≡ k → x ≡ y
unfolding info_of
lookup-first j k x y bs found same =
    ap (λ o. info_of o x)
      (sym (lookup-here k x bs) ∙ ap (λ l. lookup l ((k, x) ∷ bs)) (sym same) ∙ found)

carve-keeps :
    (sz p e k j : ℕ) (i y : AllocInfo) (bs : Blocks)
    → Tiles p bs e
    → first_fit sz bs ≡ some (k, i)
    → aligned_size sz < i.bsz
    → lookup j bs ≡ some y
    → y.free ≡ false
    → lookup j (carve sz bs) ≡ some y
unfolding lookup
carve-keeps sz p e k j i y [] h found more at used = nothing-found sz k i found
carve-keeps sz p e k j i y ((l, x) ∷ bs) (here, size, whole, room, h) found more at used =
    elim (Bool-cases (fits x sz)) [
      | inl fit ↦
          let more' =
            subst (λ b. aligned_size sz < b.1.bsz) (sym (found-here sz l k x i bs fit found))
              more in
          elim (ℕ_discrete j l) [
            | yes same ↦ absurd (
                ground (
                  arith,
                  fits-free x sz fit,
                  ap (λ b. b.free) (lookup-first j l x y bs at same),
                  used,
                ))
            | no ne ↦
                let at' = sym (lookup-past j l x bs ne) ∙ at in
                let from = lookup-from (p + x.bsz) e j y bs h at' in
                rw (carve-here sz l x bs fit) (ground (arith, ne, at', from, more', here))
          ]
      | inr other ↦
          let rest =
            carve-keeps sz (p + x.bsz) e k j i y bs h (sym (first_fit-past sz l x bs other) ∙ found)
              more in
          rw (carve-past sz l x bs other) (ground (arith, at, used, rest))
    ]

split-new :
    (sz k : ℕ) (i : AllocInfo) (bs : Blocks)
    → lookup k (split sz k i bs) ≡ some (record { bsz = aligned_size sz; usz = sz; free = false })
unfolding split
split-new sz k i bs =
    let asz = aligned_size sz in
    lookup-set_block k (record { bsz = asz; usz = sz; free = false })
      (set_block (k + asz) (record { bsz = (i.bsz + 2 ^ 64 - asz) % 2 ^ 64; usz = 0; free = true })
        bs)

malloc-found :
    (buffer sz k : ℕ) (h : Heap) (i : AllocInfo)
    → first_fit sz (initialized buffer h).blocks ≡ some (k, i)
    → m61_malloc buffer h sz ≡ (
      some k,
      record {
        blocks = split sz k i (initialized buffer h).blocks;
        gs = count_malloc (initialized buffer h).gs sz;
      },
    )
unfolding m61_malloc
malloc-found buffer sz k h i found = rw (m61_malloc, found) refl

-- Where m61-derp finds a block for `sz` bytes that is larger than it needs, m61_malloc returns that
-- block. The blocks still tile the same buffer without gaps or overlaps, in sizes that are multiples
-- of 16; the block is marked as allocated with at least `sz` bytes, and every block that was
-- allocated is as it was. This holds for the first call, too, which makes the buffer.
pub m61_malloc_lem :
    (buffer e sz k : ℕ) (h : Heap) (i : AllocInfo)
    → Tiles buffer (initialized buffer h).blocks e
    → e < 2 ^ 64
    → sz < 2 ^ 63
    → first_fit sz (initialized buffer h).blocks ≡ some (k, i)
    → aligned_size sz < i.bsz
    → let r = m61_malloc buffer h sz in
      (r.0 ≡ some k)
      × Tiles buffer r.1.blocks e
      × (lookup k r.1.blocks ≡ some (record { bsz = aligned_size sz; usz = sz; free = false }))
      × ((j : ℕ) (y : AllocInfo)
          → lookup j (initialized buffer h).blocks ≡ some y
          → y.free ≡ false
          → lookup j r.1.blocks ≡ some y)
m61_malloc_lem buffer e sz k h i tiles small size found more =
    let bs = (initialized buffer h).blocks in
    let (enough, some_size, sixteens, bound) = aligned_size-lem sz size in
    let same = split-carve sz buffer e k i bs tiles small some_size found more in
    rw (malloc-found buffer sz k h i found) (
      refl,
      subst (λ r. Tiles buffer r e) (sym same)
          (carve-Tiles sz buffer e k i bs tiles size found more),
      split-new sz k i bs,
      λ j y at used.
          ap (lookup j) same ∙ carve-keeps sz buffer e k j i y bs tiles found more at used,
    )

lookup-nothing : {A : Type 0} (k : ℕ) (i : AllocInfo) → lookup k [] ≡ some i → A
unfolding lookup
lookup-nothing k i found = absurd (ground (arith, found))

set_block-Tiles :
    (p e k : ℕ) (i : AllocInfo) (bs : Blocks)
    → Tiles p bs e
    → lookup k bs ≡ some i
    → Tiles p (set_block k (record i { free = true }) bs) e
set_block-Tiles p e k i [] h found = lookup-nothing k i found
set_block-Tiles p e k i ((j, y) ∷ bs) (at, size, whole, room, h) found = elim (ℕ_discrete k j) [
  | yes same ↦
      let x_is = lookup-first k j y i bs found same in
      let entry : Tiles p ((j, record y { free = true }) ∷ bs) e =
        (at, size, whole, λ used. absurd (ground (arith, used)), h) in
      subst (λ r. Tiles p r e)
        (sym (
          ap (λ k. set_block k (record i { free = true }) ((j, y) ∷ bs)) same
          ∙ set_block-here j (record i { free = true }) y bs
          ∙ ap (λ z. (j, record z { free = true }) ∷ bs) (sym x_is)))
        entry
  | no ne ↦
      let found' = sym (lookup-past k j y bs ne) ∙ found in
      let from = lookup-from (p + y.bsz) e k i bs h found' in
      subst (λ r. Tiles p r e)
        (sym (set_block-past j k (record i { free = true }) y bs (omega (arith, at, size, from))))
        (at, size, whole, room, set_block-Tiles (p + y.bsz) e k i bs h found')
]

-- m61_free of an allocated block marks it as free and keeps the tiling and every other block.
pub m61_free_lem :
    (p e ptr : ℕ) (h : Heap) (i : AllocInfo)
    → Tiles p h.blocks e
    → ptr ≢ 0
    → lookup ptr h.blocks ≡ some i
    → i.free ≡ false
    → (h' : Heap) × (m61_free h ptr ≡ some h')
      × Tiles p h'.blocks e
      × (lookup ptr h'.blocks ≡ some (record i { free = true }))
      × ((j : ℕ) → j ≢ ptr → lookup j h'.blocks ≡ lookup j h.blocks)
unfolding m61_free
m61_free_lem p e ptr h i tiles ne found used =
    let h' : Heap = record {
      blocks = set_block ptr (record i { free = true }) h.blocks;
      gs = count_free h.gs i.usz;
    } in
    let nonzero : (ptr == 0) ≡ false = ground (arith, ne) in
    (
      h',
      rw (nonzero, found, used) refl,
      set_block-Tiles p e ptr i h.blocks tiles found,
      lookup-set_block ptr (record i { free = true }) h.blocks,
      λ j other. lookup-set_block_other j ptr (record i { free = true }) h.blocks other,
    )

-- Where the block that m61_malloc finds is exactly as large as it needs, the entry of the address
-- behind the block becomes an empty free block, whatever it was before: an allocated block
-- there is lost.
pub m61_malloc-exact_fit :
    (buffer sz k : ℕ) (h : Heap) (i : AllocInfo)
    → sz < 2 ^ 63
    → first_fit sz (initialized buffer h).blocks ≡ some (k, i)
    → i.bsz ≡ aligned_size sz
    → lookup (k + i.bsz) (m61_malloc buffer h sz).1.blocks
      ≡ some (record { bsz = 0; usz = 0; free = true })
unfolding split
m61_malloc-exact_fit buffer sz k h i size found exact =
    let asz = aligned_size sz in
    let (enough, some_size, sixteens, bound) = aligned_size-lem sz size in
    let bs = (initialized buffer h).blocks in
    let taken : AllocInfo = record { bsz = asz; usz = sz; free = false } in
    let left : AllocInfo = record { bsz = (i.bsz + 2 ^ 64 - asz) % 2 ^ 64; usz = 0; free = true } in
    rw (malloc-found buffer sz k h i found) (
      lookup-set_block_other (k + i.bsz) k taken (set_block (k + asz) left bs)
        (λ same. ground (arith, same, exact, some_size))
      ∙ ap (λ a. lookup a (set_block (k + asz) left bs)) (omega (arith, exact))
      ∙ lookup-set_block (k + asz) left bs
      ∙ ap (λ n. some (record { bsz = n; usz = 0; free = true })) (omega (arith, exact, bound)))
