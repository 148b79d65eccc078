-- ===== src/Kernel/Alloc.antt =====
-- pset3: kalloc (kernel.cc) over the tests of k-hardware.cc. The end of the kernel's data,
-- `_kernel_end`, is the linker's, and a parameter.
pub mod Search
use cs61_f26_psets.Common.{
  ℕ, zero, suc, ◌+◌, ◌-◌, ◌*◌, ◌%◌, Bool, true, false, not, ◌&&◌, ◌||◌, Option, none, some, ltb,
  leb, ◌==◌, if◌then◌else◌,
}
use cs61_f26_psets.CLib.Blocks.{memset}
use cs61_f26_psets.Kernel.State.{
  Kernel, page_size, memsize_physical, n_pages, kernel_start_addr, kernel_stack_top, count_page,
}

-- lib.hh: round_down and round_up, for an unsigned type and a sum that does not wrap.
unfoldable pub round_down : ℕ → ℕ → ℕ
round_down x m = x - x % m

unfoldable pub round_up : ℕ → ℕ → ℕ
unfolding round_down
round_up x m = round_down (x + m - 1) m

unfoldable pub reserved_physical_address : ℕ → Bool
reserved_physical_address pa = ltb pa page_size || (leb 0xA0000 pa && ltb pa 0x100000)

module _ (kernel_end : ℕ) where
  unfoldable pub allocatable_physical_address : ℕ → Bool
  unfolding reserved_physical_address round_up
  allocatable_physical_address pa =
      not (reserved_physical_address pa)
      && ((ltb pa kernel_start_addr || leb (round_up kernel_end page_size) pa)
          && ((ltb pa (kernel_stack_top - page_size) || leb kernel_stack_top pa)
              && ltb pa memsize_physical))

  -- The test of a page in `kalloc`'s loop.
  unfoldable pub is_free : Kernel → ℕ → Bool
  is_free k pageno = allocatable_physical_address (pageno * page_size) && k.refcount pageno == 0

  -- The page is counted and filled with 0xCC.
  unfoldable pub take_page : Kernel → ℕ → Kernel
  take_page k pageno = record k {
    refcount = count_page k.refcount pageno;
    memory = memset k.memory (pageno * page_size) 0xCC page_size;
  }

  -- The loop of `kalloc` with the `tries` that are left.
  unfoldable pub kalloc_from : ℕ → Kernel → ℕ → Option ℕ × Kernel
  kalloc_from zero k pageno = (none, k)
  kalloc_from (suc tries) k pageno = elim (is_free k pageno) [
    | true ↦ (some (pageno * page_size), take_page k pageno)
    | false ↦ kalloc_from tries k ((pageno + 1) % n_pages)
  ]

  pub kalloc : Kernel → ℕ → Option ℕ × Kernel
  kalloc k sz = if ltb page_size sz then (none, k) else kalloc_from n_pages k 0
