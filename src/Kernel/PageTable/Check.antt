-- ===== src/Kernel/PageTable/Check.antt =====
-- The kernel's page table as a whole, and check_pagetable on it.
use cs61_f26_psets.Common.{
  ℕ, ◌+◌, ◌-◌, ◌*◌, ◌%◌, ◌^◌, ◌≤◌, ◌<◌, ◌≡◌, ◌⊎◌, refl, ◌∙◌, true, some, arith, ◌==◌, ==_iff,
}
use cs61_f26_psets.Common.Memory.{Memory, load-same}
use cs61_f26_psets.Kernel.State.{Kernel, memsize_physical, page_size}
use cs61_f26_psets.Kernel.PageTable.{check_pagetable, init_kernel_memory, maps_to_itself}
use cs61_f26_psets.Kernel.PageTable.Tables.{IsMapped}
use cs61_f26_psets.Kernel.PageTable.Answers.{Says, device-Says, hole-Says, page-Says}
use cs61_f26_psets.Kernel.PageTable.Loop.{init_kernel_memory-maps, with_memory}

-- init_kernel_memory ends without a failed assertion or a panic, changes memory only, and leaves a
-- page table at `kp` that maps each address of physical memory behind the first page to itself, with
-- all three permissions, and each address from 1 GB to 4 GB to itself for the kernel alone. The first
-- page, and the addresses from the end of physical memory to 4 MB, are not mapped. The tables are
-- page-aligned and lie below 4 GB, and the loop is given a round for each page and one more.
pub init_kernel_memory_lem :
    (kernel_end kp fuel : ℕ) (k : Kernel)
    → kp % 4096 ≡ 0
    → kp + 5 * 4096 < 2 ^ 32
    → 512 < fuel
    → (m : Memory) × (init_kernel_memory kernel_end fuel k kp ≡ some (with_memory k m))
      × ((va : ℕ) → 4096 ≤ va → va < memsize_physical → Says m kp va va 7)
      × ((va : ℕ) → 2 ^ 30 ≤ va → va < 2 ^ 32 → Says m kp va va 0x83)
      × ((va : ℕ)
          → va < 2 ^ 22
          → (va < 4096) ⊎ (memsize_physical ≤ va)
          → Says m kp va (2 ^ 64 - 1) 0)
init_kernel_memory_lem kernel_end kp fuel k aligned low enough =
    let (m, e, h) = init_kernel_memory-maps kernel_end kp aligned low fuel k enough in
    (
      m,
      e,
      λ va pos lt. page-Says m kp 512 aligned low h (omega arith) va pos (omega arith),
      λ va from below. device-Says m kp 512 aligned low h va from below,
      λ va lt out. hole-Says m kp 512 aligned low h (omega arith) va lt (ground (arith, out)),
    )

Says-maps_to_itself :
    (m : Memory) (kp va perm : ℕ) → Says m kp va va perm → maps_to_itself m kp va ≡ true
unfolding maps_to_itself
Says-maps_to_itself m kp va perm (v, found, at, allows) =
    rw (maps_to_itself, found, at) ((==_iff va va).1 refl)

-- check_pagetable accepts the kernel's page table, if the table and the entry point of the exceptions
-- lie in physical memory behind the first page.
pub IsMapped-check_pagetable :
    (m : Memory) (kp exception_entry : ℕ)
    → kp % 4096 ≡ 0
    → 4096 ≤ kp
    → kp < memsize_physical
    → 4096 ≤ exception_entry
    → exception_entry < memsize_physical
    → IsMapped m kp 512
    → check_pagetable m kp exception_entry kp ≡ true
unfolding check_pagetable
IsMapped-check_pagetable m kp exception_entry aligned kp_pos kp_lt pos lt h =
    let itself = λ (va : ℕ) (from : 4096 ≤ va) (below : va < memsize_physical).
      Says-maps_to_itself m kp va 7
        (page-Says m kp 512 aligned (omega arith) h (omega arith) va from (omega arith)) in
    let entry = itself exception_entry pos lt in
    let table = itself kp kp_pos kp_lt in
    let whole : (kp % page_size == 0) ≡ true = ground (arith, aligned) in
    rw (whole, entry, table) refl

-- What happens outside the tables does not matter.
pub IsMapped-same :
    (m m' : Memory) (kp n : ℕ)
    → ((a : ℕ) → kp ≤ a → a < kp + 5 * 4096 → m' a ≡ m a)
    → IsMapped m kp n
    → IsMapped m' kp n
IsMapped-same m m' kp n same h =
    let entry = λ (a : ℕ) (from : kp ≤ a) (below : a + 8 ≤ kp + 5 * 4096).
      load-same m m' a 8 (λ b lo hi. same b (omega arith) (omega arith)) in
    record {
      root = entry kp (omega arith) (omega arith) ∙ h.root;
      second = entry (kp + 4096) (omega arith) (omega arith) ∙ h.second;
      third = entry (kp + 8192) (omega arith) (omega arith) ∙ h.third;
      fourth = entry (kp + 8200) (omega arith) (omega arith) ∙ h.fourth;
      device =
          λ i pos lt. entry (kp + 4096 + 8 * i) (omega arith) (omega arith) ∙ h.device i pos lt;
      leaf = λ j lt. entry (kp + 12288 + 8 * j) (omega arith) (omega arith) ∙ h.leaf j lt;
      beyond = λ j lt. entry (kp + 16384 + 8 * j) (omega arith) (omega arith) ∙ h.beyond j lt;
    }
