-- ===== src/Kernel/Boot.antt =====
-- pset3/kernel.cc: kernel_start. The hardware, the timer and the console have no effect on the
-- modelled state, but for the kernel's page table, whose address `kp` is a parameter.
pub mod Start
use cs61_f26_psets.Common.{
  ℕ, ◌+◌, ◌<◌, ◌≡◌, ◌≢◌, Bool, Option, none, some, ltb, if◌then◌else◌, ◌>>=◌, lt→ltb, ap, ◌∙◌, refl,
}
use cs61_f26_psets.Kernel.PageTable.{init_kernel_memory, remap_pages}
use cs61_f26_psets.Kernel.State.{n_pages, Kernel, free, runnable, max_n_proc}
use cs61_f26_psets.Kernel.Setup.{Image, process_setup}
use cs61_f26_psets.Kernel.Setup.Claims.{process_setup-SetsUp}
use cs61_f26_psets.Kernel.Dispatch.{Outcome, panicked, run}

-- The process descriptors before any program is loaded, and `ticks = 1`.
abbrev pub cleared : Kernel → Kernel
cleared k = record k {
  ptable =
      λ i. if ltb i max_n_proc then record (k.ptable i) { pid = i; state = free } else k.ptable i;
  ticks = 1;
}

-- The four programs that run without a command.
pub record Defaults : Type 0 where
  pub allocator : Image
  pub allocator2 : Image
  pub allocator3 : Image
  pub allocator4 : Image

-- The processes that are set up: the command's program, if there is one of that name, or the four.
unfoldable pub load_processes : Kernel → ℕ → Option Image → Defaults → Option Kernel
load_processes k kernel_pagetable (some pgm) defaults = process_setup k kernel_pagetable 1 pgm
load_processes k kernel_pagetable none defaults = do
  k₁ ← process_setup k kernel_pagetable 1 defaults.allocator
  k₂ ← process_setup k₁ kernel_pagetable 2 defaults.allocator2
  k₃ ← process_setup k₂ kernel_pagetable 3 defaults.allocator3
  process_setup k₃ kernel_pagetable 4 defaults.allocator4

-- What `kernel_start` does before `run`: the page table, the descriptors and the programs. A failed
-- assertion is `none`. The page table takes a round for each page and one more.
unfoldable pub start_up : ℕ → Kernel → ℕ → Option Image → Defaults → Option Kernel
start_up kernel_end k kp command defaults = do
  k₁ ← init_kernel_memory kernel_end (n_pages + 1) k kp
  k₂ ← remap_pages kernel_end n_pages k₁ kp 0
  load_processes (cleared k₂) kp command defaults

-- `kernel_start`
unfoldable pub kernel_start : ℕ → ℕ → Kernel → ℕ → Option Image → Defaults → Outcome
kernel_start kernel_end exception_entry k kp command defaults =
    elim (start_up kernel_end k kp command defaults) [
      | none ↦ panicked
      | some k' ↦ run kp exception_entry k' 1
    ]

-- When the kernel starts with the program of a command and its set-up returns, process 1 is the
-- only one that is not free, it is runnable at the program's entry point, and each other process
-- has its index as its identifier.
pub load_processes_lem :
    (k k' : Kernel) (kernel_pagetable : ℕ) (pgm : Image) (defaults : Defaults)
    → load_processes (cleared k) kernel_pagetable (some pgm) defaults ≡ some k'
    → ((k'.ptable 1).state ≡ runnable)
      × ((k'.ptable 1).regs.reg_rip ≡ pgm.entry)
      × ((j : ℕ) → j < max_n_proc → j ≢ 1 → ((k'.ptable j).state ≡ free) × ((k'.ptable j).pid ≡ j))
unfolding load_processes
load_processes_lem k k' kernel_pagetable pgm defaults h =
    let up = process_setup-SetsUp (cleared k) k' kernel_pagetable 1 pgm h in
    (
      up.now_runnable,
      up.at_entry,
      λ j lt ne.
          let kept = up.others_kept j ne in
          let in_table = lt→ltb j max_n_proc lt in
          (ap (λ p. p.state) kept ∙ rw (in_table) refl, ap (λ p. p.pid) kept ∙ rw (in_table) refl),
    )
