-- ===== src/Kernel/Vmiter/Tests.antt =====
-- A vmiter on small page tables.
use cs61_f26_psets.Common.{
  ℕ, ◌+◌, ◌*◌, ◌^◌, ◌≤◌, ◌<◌, ◌≡◌, ◌⊎◌, inl, inr, refl, true, false, some, arith,
}
use cs61_f26_psets.Common.Memory.{Memory, store_number}
use cs61_f26_psets.Kernel.State.{free, zero_regs, Kernel, page_size, n_pages}
use cs61_f26_psets.Kernel.Alloc.{allocatable_physical_address, is_free, round_down, round_up}
use cs61_f26_psets.Kernel.Vmiter.{
  Vmiter, at_root, descend, descend_all, down, pte, find_impl, goes_down, in_same_table, index,
  looks_uninitialized, va_is_canonical, vmiter,
}
use cs61_f26_psets.Kernel.Vmiter.Queries.{
  forward, last_va, pa, permissions, permits, present, range_size,
}
use cs61_f26_psets.Kernel.Vmiter.Step.{find_impl-vmiter}
use cs61_f26_psets.Kernel.Vmiter.Range.{forward-pa}
use cs61_f26_psets.Kernel.Vmiter.Map.{mapped, no_memory, may_map, try_map}
use cs61_f26_psets.Kernel.Vmiter.Map.Round.{IsOpen}
use cs61_f26_psets.Kernel.Vmiter.Map.Entry.{try_map_lem}

-- Four levels of tables at 0x50000: the pages 0 and 1 of virtual memory are mapped to 0x8000
-- and 0x9000.
abbrev four_tables : Memory
four_tables =
    store_number
      (store_number
        (store_number (store_number (store_number (λ a. 0) 0x50000 0x51007 8) 0x51000 0x52007 8)
          0x52000 0x53007 8)
        0x53000 0x8007 8)
      0x53008 0x9005 8

-- The iterator at address 0x123.
abbrev first_page : Vmiter
first_page = record { pt = 0x50000; pep = some 0x53000; lbits = 12; perm = 0xFFF; va = 0x123 }

first_page-found : vmiter four_tables 0x50000 0x123 ≡ some first_page
unfolding vmiter find_impl in_same_table va_is_canonical down descend_all goes_down descend pte
    index at_root looks_uninitialized
first_page-found = refl

-- The next page has another entry of the same table.
find_impl_example : find_impl four_tables first_page 0x1456 true ≡ vmiter four_tables 0x50000 0x1456
find_impl_example =
    find_impl-vmiter four_tables first_page 0x1456 true first_page-found refl (omega arith)
      (omega arith) refl

first_page-present : present four_tables first_page ≡ true
unfolding present permits permissions pte
first_page-present = refl

first_page-range : range_size first_page ≡ 0xEDD
unfolding range_size last_va
first_page-range = refl

forward_example :
    (0x123 + 0x100 < 2 ^ 64)
    × (forward four_tables first_page 0x100 ≡ some (record first_page { va = 0x223 }))
    × (pa four_tables (record first_page { va = 0x223 }) ≡ pa four_tables first_page + 0x100)
forward_example =
    forward-pa four_tables first_page 0x100 first_page-found refl (omega arith) first_page-present
      (omega (arith, first_page-range))

-- The tables are the kernel's, whose data end at 0x60000, and no page is in use.
abbrev kernel_tables : Kernel
kernel_tables = record {
  ptable = λ i. record { pagetable = 0; pid = i; state = free; regs = zero_regs };
  current = 0;
  refcount = λ j. 0;
  ticks = 1;
  memory = four_tables;
}

-- The iterator at 0x40000000, where the table of the second level has no entry.
abbrev unmapped : Vmiter
unmapped = record { pt = 0x50000; pep = some 0x51008; lbits = 30; perm = 0xFFF; va = 0x40000000 }

unmapped-found : vmiter four_tables 0x50000 0x40000000 ≡ some unmapped
unfolding vmiter find_impl in_same_table va_is_canonical down descend_all goes_down descend pte
    index at_root looks_uninitialized
unmapped-found = refl

unmapped-outside :
    (q : ℕ)
    → is_free 0x60000 kernel_tables q ≡ true
    → (0x51008 + 8 ≤ q * page_size) ⊎ (q * page_size + page_size ≤ 0x51008)
unfolding is_free allocatable_physical_address round_up round_down
unmapped-outside q h = ground (arith, h)

abbrev unmapped-IsOpen : IsOpen 0x60000 kernel_tables unmapped
unfolding pte
unmapped-IsOpen = record {
  at = 0x51008;
  is_at = refl;
  level = inr (inr (inl refl));
  absent = λ lt. refl;
  in_use = unmapped-outside;
}

may_map_all : may_map unmapped 0x7000 7 ≡ true
unfolding may_map
may_map_all = refl

try_map_example :
    ((k' : Kernel) × (v' : Vmiter) × (try_map 0x60000 kernel_tables unmapped 0x7000 7
        ≡ no_memory k' v')
      × ((j : ℕ) → j < n_pages → is_free 0x60000 k' j ≡ false))
    ⊎ ((k' : Kernel) × (v' : Vmiter) × (try_map 0x60000 kernel_tables unmapped 0x7000 7
          ≡ mapped k' v')
        × (v'.lbits ≡ 12)
        × (v'.va ≡ 0x40000000)
        × (pa k'.memory v' ≡ 0x7000)
        × (permissions k'.memory v' ≡ 7))
try_map_example =
    try_map_lem 0x60000 kernel_tables unmapped 0x7000 7 unmapped-IsOpen may_map_all refl
      (omega arith) (omega arith)
