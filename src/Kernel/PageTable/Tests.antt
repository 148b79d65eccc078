-- ===== src/Kernel/PageTable/Tests.antt =====
-- The kernel's page table at 0x42000.
use cs61_f26_psets.Common.{ℕ, ◌-◌, ◌^◌, ◌≤◌, ◌<◌, ◌≡◌, ◌⊎◌, refl, some, arith}
use cs61_f26_psets.Common.Memory.{Memory}
use cs61_f26_psets.Kernel.State.{Kernel, free, memsize_physical, zero_regs}
use cs61_f26_psets.Kernel.PageTable.{init_kernel_memory}
use cs61_f26_psets.Kernel.PageTable.Answers.{Says}
use cs61_f26_psets.Kernel.PageTable.Loop.{with_memory}
use cs61_f26_psets.Kernel.PageTable.Check.{init_kernel_memory_lem}

-- Nothing runs, and no page is in use.
abbrev before_start : Kernel
before_start = record {
  ptable = λ i. record { pagetable = 0; pid = i; state = free; regs = zero_regs };
  current = 0;
  refcount = λ j. 0;
  ticks = 0;
  memory = λ a. 0xCC;
}

init_kernel_memory_example :
    (m : Memory) × (init_kernel_memory 0x48000 513 before_start 0x42000
      ≡ some (with_memory before_start m))
    × ((va : ℕ) → 4096 ≤ va → va < memsize_physical → Says m 0x42000 va va 7)
    × ((va : ℕ) → 2 ^ 30 ≤ va → va < 2 ^ 32 → Says m 0x42000 va va 0x83)
    × ((va : ℕ)
        → va < 2 ^ 22
        → (va < 4096) ⊎ (memsize_physical ≤ va)
        → Says m 0x42000 va (2 ^ 64 - 1) 0)
init_kernel_memory_example =
    init_kernel_memory_lem 0x48000 0x42000 513 before_start refl (omega arith) (omega arith)
