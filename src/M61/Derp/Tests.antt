-- ===== src/M61/Derp/Tests.antt =====
-- m61-derp on its first calls.
use cs61_f26_psets.Common.{ℕ, ◌+◌, ◌-◌, ◌≡◌, ◌≢◌, refl, true, false, some, [], ◌∷◌, arith}
use cs61_f26_psets.M61.Derp.{
  AllocInfo, Heap, Statistics, aligned_size, buffer_size, first_fit, fits, initialized, lookup,
  m61_free, m61_malloc,
}
use cs61_f26_psets.M61.Derp.Tiling.{Tiles}
use cs61_f26_psets.M61.Derp.Malloc.{m61_malloc_lem, m61_free_lem, m61_malloc-exact_fit}

abbrev no_calls : Statistics
no_calls = record { active_count = 0; active_bytes = 0; total_count = 0; total_bytes = 0 }

abbrev empty_heap : Heap
empty_heap = record { blocks = []; gs = no_calls }

abbrev whole : AllocInfo
whole = record { bsz = buffer_size; usz = 0; free = true }

first_block : first_fit 10 (initialized 4096 empty_heap).blocks ≡ some (4096, whole)
unfolding first_fit fits initialized
first_block = refl

first_size : aligned_size 10 ≡ 16
unfolding aligned_size
first_size = refl

first-Tiles : Tiles 4096 (initialized 4096 empty_heap).blocks (4096 + buffer_size)
unfolding initialized
first-Tiles = (refl, omega arith, refl, λ used. omega arith, refl)

m61_malloc_example :
    let r = m61_malloc 4096 empty_heap 10 in
    (r.0 ≡ some 4096)
    × Tiles 4096 r.1.blocks (4096 + buffer_size)
    × (lookup 4096 r.1.blocks ≡ some (record { bsz = aligned_size 10; usz = 10; free = false }))
    × ((j : ℕ) (y : AllocInfo)
        → lookup j (initialized 4096 empty_heap).blocks ≡ some y
        → y.free ≡ false
        → lookup j r.1.blocks ≡ some y)
m61_malloc_example =
    m61_malloc_lem 4096 (4096 + buffer_size) 10 4096 empty_heap whole first-Tiles (omega arith)
      (omega arith) first_block (omega (arith, first_size))

-- Two blocks of 16 bytes are in use, and of these the first is free again.
abbrev one_hole : Heap
one_hole = record {
  blocks =
      (4096, record { bsz = 16; usz = 10; free = true })
      ∷ (4112, record { bsz = 16; usz = 16; free = false })
      ∷ (4128, record { bsz = buffer_size - 32; usz = 0; free = true })
      ∷ [];
  gs = no_calls;
}

one_hole-Tiles : Tiles 4096 one_hole.blocks (4096 + buffer_size)
one_hole-Tiles = (
  refl,
  omega arith,
  refl,
  λ used. omega arith,
  (
    refl,
    omega arith,
    refl,
    λ used. omega arith,
    (refl, omega arith, refl, λ used. omega arith, refl),
  ),
)

in_use : lookup 4112 one_hole.blocks ≡ some (record { bsz = 16; usz = 16; free = false })
unfolding lookup
in_use = refl

m61_free_example :
    (h' : Heap) × (m61_free one_hole 4112 ≡ some h')
    × Tiles 4096 h'.blocks (4096 + buffer_size)
    × (lookup 4112 h'.blocks ≡ some (record { bsz = 16; usz = 16; free = true }))
    × ((j : ℕ) → j ≢ 4112 → lookup j h'.blocks ≡ lookup j one_hole.blocks)
m61_free_example =
    m61_free_lem 4096 (4096 + buffer_size) 4112 one_hole
      (record { bsz = 16; usz = 16; free = false }) one_hole-Tiles (λ e. omega (arith, e)) in_use
      refl

hole-found :
    first_fit 12 (initialized 4096 one_hole).blocks
    ≡ some (4096, record { bsz = 16; usz = 10; free = true })
unfolding first_fit fits initialized
hole-found = refl

twelve : aligned_size 12 ≡ 16
unfolding aligned_size
twelve = refl

-- The block at 4112 is in use before the call.
exact_fit_example :
    lookup (4096 + 16) (m61_malloc 4096 one_hole 12).1.blocks
    ≡ some (record { bsz = 0; usz = 0; free = true })
exact_fit_example =
    m61_malloc-exact_fit 4096 12 4096 one_hole (record { bsz = 16; usz = 10; free = true })
      (omega arith) hole-found (omega (arith, twelve))
