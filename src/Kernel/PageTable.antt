-- ===== src/Kernel/PageTable.antt =====
-- pset3/k-hardware.cc: the kernel's own page table, which init_kernel_memory builds, and the checks
-- of check_pagetable. `kernel_pagetable` is an array of five tables at the address `kp`; kptr2pa
-- does nothing in this kernel. The segment descriptors and the registers of the processor have no
-- effect on memory.
pub mod Entries
pub mod Tables
pub mod Identity
pub mod Answers
pub mod Loop
pub mod Remap
pub mod Check
mod Tests
use Prim.Native.Nat.{bit_or}
use cs61_f26_psets.Common.{
  ℕ, zero, suc, ◌+◌, ◌*◌, ◌%◌, ◌^◌, Bool, true, false, ◌&&◌, Option, none, some, ltb, ◌==◌, ◌>>=◌,
  if◌then◌else◌,
}
use cs61_f26_psets.Common.Memory.{Memory, store_number}
use cs61_f26_psets.CLib.Blocks.{memset}
use cs61_f26_psets.Kernel.State.{Kernel, memsize_physical, page_size}
use cs61_f26_psets.Kernel.Vmiter.{Vmiter, pte_p, pte_ps, pte_u, pte_w, vmiter}
use cs61_f26_psets.Kernel.Vmiter.Queries.{forward, pa}
use cs61_f26_psets.Kernel.Vmiter.Map.{failed, map, mapped, no_memory, try_map}

-- `kernel_pagetable[t].entry[i] = x`
abbrev pub set_table : ℕ → ℕ → ℕ → ℕ → Memory → Memory
set_table kp t i x m = store_number m (kp + (t * page_size + 8 * i)) x 8

-- `kptr2pa(&kernel_pagetable[t]) | PTE_P | PTE_W | PTE_U`
abbrev pub table_entry : ℕ → ℕ → ℕ
table_entry kp t = bit_or (bit_or (bit_or (kp + t * page_size) pte_p) pte_w) pte_u

-- `(nUL << 30) | PTE_P | PTE_W | PTE_PS`
abbrev pub device_entry : ℕ → ℕ
device_entry n = bit_or (bit_or (bit_or (n * 2 ^ 30) pte_p) pte_w) pte_ps

-- The tables before physical memory is mapped.
unfoldable pub link_tables : Memory → ℕ → Memory
link_tables m kp = set_table kp 1 3 (device_entry 3) (
    set_table kp 1 2 (device_entry 2) (
      set_table kp 1 1 (device_entry 1) (
        set_table kp 2 1 (table_entry kp 4) (
          set_table kp 2 0 (table_entry kp 3) (
            set_table kp 1 0 (table_entry kp 2)
              (set_table kp 0 0 (table_entry kp 1) (memset m kp 0 (5 * page_size))))))))

module _ (kernel_end : ℕ) where
  -- The body of the loop.
  unfoldable pub map_page : Kernel → Vmiter → Option (Kernel × Vmiter)
  map_page k it =
      if it.va == 0
      then some (k, it)
      else map kernel_end k it it.va (bit_or (bit_or pte_p pte_w) pte_u)

  -- The loop in `fuel` rounds; a round moves to the next page, so that `n_pages + 1` rounds are
  -- enough. A failed assertion or a panic is `none`.
  unfoldable pub map_pages : ℕ → Kernel → Vmiter → Option Kernel
  map_pages zero k it = none
  map_pages (suc fuel) k it = elim (ltb it.va memsize_physical) [
    | false ↦ some k
    | true ↦
        map_page k it >>= λ r. forward r.0.memory r.1 page_size >>= λ it'. map_pages fuel r.0 it'
  ]

  unfoldable pub init_kernel_memory : ℕ → Kernel → ℕ → Option Kernel
  init_kernel_memory fuel k kp =
      let k' : Kernel = record k { memory = link_tables k.memory kp } in
      vmiter k'.memory kp 0 >>= map_pages fuel k'

  -- kernel.cc, kernel_start: the identity mapping of the page at `addr` is installed again, and the
  -- assertion is that this succeeds.
  unfoldable pub install : Kernel → Vmiter → ℕ → Option Kernel
  install k it addr =
      elim (try_map kernel_end k it addr
        (if addr == 0 then 0 else bit_or (bit_or pte_p pte_w) pte_u)) [
          | mapped k' it' ↦ some k'
          | no_memory k' it' ↦ none
          | failed ↦ none
        ]

  unfoldable pub remap_page : Kernel → ℕ → ℕ → Option Kernel
  remap_page k kp addr = vmiter k.memory kp addr >>= λ it. install k it addr

  -- Its loop, with the rounds that are left.
  unfoldable pub remap_pages : ℕ → Kernel → ℕ → ℕ → Option Kernel
  remap_pages zero k kp addr = some k
  remap_pages (suc rounds) k kp addr =
      remap_page k kp addr >>= λ k'. remap_pages rounds k' kp (addr + page_size)

-- `vmiter(pt, va).pa() == kptr2pa(va)`; a panic of vmiter is a failed assertion, too
unfoldable pub maps_to_itself : Memory → ℕ → ℕ → Bool
maps_to_itself m pt va = elim (vmiter m pt va) [ none ↦ false | some v ↦ pa m v == va ]

-- `check_pagetable`: whether its assertions hold. `exception_entry` is the address of the kernel's
-- entry point in k-exception.S.
unfoldable pub check_pagetable : Memory → ℕ → ℕ → ℕ → Bool
check_pagetable m kp exception_entry pagetable =
    pagetable % page_size == 0
    && (maps_to_itself m pagetable exception_entry
        && (maps_to_itself m kp pagetable && maps_to_itself m pagetable kp))
