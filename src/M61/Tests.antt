-- ===== src/M61/Tests.antt =====
-- The allocators of pset1b on a few calls.
use cs61_f26_psets.Common.{◌%◌, ◌^◌, ℕ, ◌+◌, ◌≡◌, refl, none, some, [], ◌∷◌, arith, ◌↔◌}
use cs61_f26_psets.M61.Derp.{buffer_size, count_free, count_malloc}
use cs61_f26_psets.M61.Bump.{allocated, buffer_malloc, cut, out_of_memory, Buffer}
use cs61_f26_psets.M61.Bump.Client.{Packed, after, frees, here, none_yet, size_at, takes, there}
use cs61_f26_psets.M61.Once
use cs61_f26_psets.M61.Once.Blocks as OnceBlocks
use cs61_f26_psets.M61.Lastalloc
use cs61_f26_psets.M61.Lastalloc.Blocks as LastallocBlocks
use cs61_f26_psets.M61.Lastalloc.Reuse.{free-malloc}
use cs61_f26_psets.M61.Reuseempty
use cs61_f26_psets.M61.Reuseempty.Blocks as ReuseemptyBlocks
use cs61_f26_psets.M61.Staff
use cs61_f26_psets.M61.Staff.Blocks as StaffBlocks
use cs61_f26_psets.M61.Staff.Zero.{malloc-zero_hides}

-- The buffer of the tests starts at 4096; `n` bytes of it are cut off.
abbrev cut_off : ℕ → Buffer
cut_off n = record { buffer = 4096 + n; end_buffer = 4096 + buffer_size }

abbrev last_at : ℕ → ℕ → Lastalloc.Heap
last_at n p = record { space = cut_off n; last_allocation = p }

-- Two blocks, of which the older one is freed.
lastalloc_run : LastallocBlocks.Reaches 4096 (last_at 30 4106) ((4106, 20) ∷ [])
unfolding Lastalloc.m61_malloc Lastalloc.m61_free buffer_malloc allocated out_of_memory cut
lastalloc_run =
    after
      (after (after {h' = last_at 10 4096} none_yet (takes 10 4096 (omega arith) refl))
        (takes {h' = last_at 30 4106} 20 4106 (omega arith) refl))
      (frees 4096 (there 4106 20 (here 4096 10 [] refl)) refl)

Reaches-Packed_example : Packed 4096 ((4106, 20) ∷ []) (4096 + buffer_size)
Reaches-Packed_example = LastallocBlocks.Reaches-Packed 4096 (omega arith) lastalloc_run

free-malloc_example : Lastalloc.m61_free (last_at 37 4126) 4126 ≡ last_at 30 0
unfolding Lastalloc.m61_malloc buffer_malloc allocated out_of_memory cut
free-malloc_example =
    free-malloc 4096 (last_at 30 4106) ((4106, 20) ∷ []) (omega arith)
      (LastallocBlocks.Reaches-IsValid 4096 (omega arith) lastalloc_run) 7 4126 (last_at 37 4126)
      refl

-- Two blocks, both freed.
abbrev reuse1 : Reuseempty.Heap
reuse1 = (Reuseempty.m61_malloc 4096 Reuseempty.start 10).1

abbrev reuse2 : Reuseempty.Heap
reuse2 = (Reuseempty.m61_malloc 4096 reuse1 20).1

abbrev reuse3 : Reuseempty.Heap
reuse3 = Reuseempty.m61_free reuse2 4096

reuse_run : ReuseemptyBlocks.Reaches 4096 reuse3 ((4106, 20) ∷ [])
unfolding Reuseempty.m61_malloc Reuseempty.m61_free buffer_malloc allocated out_of_memory cut
    Reuseempty.uncounted Reuseempty.emptied count_malloc
reuse_run =
    after
      (after (after {h' = reuse1} none_yet (takes 10 4096 (omega arith) refl))
        (takes {h' = reuse2} 20 4106 (omega arith) refl))
      (frees {h' = reuse3} 4096 (there 4106 20 (here 4096 10 [] refl)) refl)

abbrev reuse4 : Reuseempty.Heap
reuse4 = Reuseempty.m61_free reuse3 4106

reuse_run_empty : ReuseemptyBlocks.Reaches 4096 reuse4 []
reuse_run_empty = after reuse_run (frees 4106 (here 4106 20 [] refl) refl)

Reaches-reuses_example : (Reuseempty.m61_malloc 4096 reuse4 8000000).0 ≡ some 4096
Reaches-reuses_example =
    ReuseemptyBlocks.Reaches-reuses 4096 8000000 (omega arith) reuse_run_empty (omega arith)

-- Two blocks in the allocator with a map, of which one is freed.
abbrev staff1 : Staff.Heap
staff1 = (Staff.m61_malloc 4096 Staff.start 10).1

abbrev staff2 : Staff.Heap
staff2 = (Staff.m61_malloc 4096 staff1 20).1

abbrev staff3 : Staff.Heap
staff3 = StaffBlocks.freed staff2 4096 10

staff_run : StaffBlocks.Reaches 4096 staff3 ((4106, 20) ∷ [])
unfolding Staff.m61_malloc Staff.m61_free StaffBlocks.freed buffer_malloc allocated out_of_memory
    cut Staff.insert_size Staff.erase count_malloc count_free
staff_run =
    after
      (after (after {h' = staff1} none_yet (takes 10 4096 (omega arith) refl))
        (takes {h' = staff2} 20 4106 (omega arith) refl))
      (frees {h' = staff3} 4096 (there 4106 20 (here 4096 10 [] refl)) refl)

Reaches-summed_example :
    Packed 4096 ((4106, 20) ∷ []) (4096 + buffer_size)
    × (staff3.gs.active_count ≡ 1)
    × (staff3.gs.active_bytes ≡ 20)
Reaches-summed_example = StaffBlocks.Reaches-summed 4096 (omega arith) staff_run

-- The first block is free; its address is refused.
free-checks_example : (Staff.m61_free staff3 4096 ≡ none) ↔ (size_at 4096 ((4106, 20) ∷ []) ≡ none)
free-checks_example = StaffBlocks.free-checks 4096 4096 (omega arith) staff_run (omega arith)

abbrev staff4 : Staff.Heap
staff4 = (Staff.m61_malloc 4096 staff3 0).1

abbrev staff5 : Staff.Heap
staff5 = (Staff.m61_malloc 4096 staff4 5).1

-- A block of 0 bytes and one of 5; one of them is freed.
malloc-zero_hides_example :
    (◌≡◌ {A = ℕ} 4126 4126)
    × (staff5.active_allocs 4126 ≡ some 0)
    × ((StaffBlocks.freed staff5 4126 0).gs.active_bytes ≡ staff5.gs.active_bytes % 2 ^ 64)
    × (Staff.m61_free (StaffBlocks.freed staff5 4126 0) 4126 ≡ none)
unfolding Staff.m61_malloc Staff.m61_free StaffBlocks.freed buffer_malloc allocated out_of_memory
    cut Staff.insert_size Staff.erase count_malloc count_free
malloc-zero_hides_example =
    malloc-zero_hides 4096 5 4126 4126 staff3 staff4 staff5 (StaffBlocks.freed staff5 4126 0)
      ((4106, 20) ∷ []) (omega arith) (StaffBlocks.Reaches-IsValid 4096 (omega arith) staff_run)
      refl refl refl

-- m61-once never takes a block back.
once_run : OnceBlocks.Reaches 4096 (cut_off 30) ((4106, 20) ∷ [])
unfolding Once.m61_malloc Once.m61_free buffer_malloc allocated out_of_memory cut
once_run =
    after
      (after (after {h' = cut_off 10} none_yet (takes 10 4096 (omega arith) refl))
        (takes {h' = cut_off 30} 20 4106 (omega arith) refl))
      (frees 4096 (there 4106 20 (here 4096 10 [] refl)) refl)
