-- ===== src/Kernel/Setup.antt =====
-- pset3/kernel.cc: process_setup, and the allocations of a program's pages. The program images are
-- built into the kernel: the loadable segments and the entry point are parameters.
pub mod Claims
pub mod Success
use cs61_f26_psets.Common.{
  ℕ, zero, suc, ◌+◌, ◌-◌, ◌*◌, ◌/◌, Bool, true, false, Option, none, some, List, [], ◌∷◌, ltb, ◌==◌,
  if◌then◌else◌, ◌>>=◌,
}
use cs61_f26_psets.Common.Memory.{Memory}
use cs61_f26_psets.CLib.Blocks.{memset, memcpy}
use cs61_f26_psets.Kernel.State.{
  Kernel, Proc, ProcState, runnable, Regs, page_size, n_pages, proc_start_addr, set_proc,
  count_page, init_process,
}
use cs61_f26_psets.Kernel.Alloc.{round_down}

-- `program_image_segment`: the address of a segment, its size, and where its data stands.
pub record Segment : Type 0 where
  pub va : ℕ
  pub size : ℕ
  pub data_at : ℕ
  pub data_size : ℕ

-- `program_image`
pub record Image : Type 0 where
  pub segments : List Segment
  pub entry : ℕ

abbrev pub proc_size : ℕ
proc_size = 0x40000

-- `assert(physpages[page].refcount == 0); ++physpages[page].refcount;`, `none` for a failed
-- assertion or an index outside `physpages`
unfoldable pub claim_page : (ℕ → ℕ) → ℕ → Option (ℕ → ℕ)
claim_page refcount page =
    if ltb page n_pages
    then (if refcount page == 0 then some (count_page refcount page) else none)
    else none

-- The loop over the pages of one segment, from address `a` below `end`. It takes fuel.
unfoldable pub claim_pages : ℕ → (ℕ → ℕ) → ℕ → ℕ → Option (ℕ → ℕ)
claim_pages zero refcount a end = none
claim_pages (suc fuel) refcount a end = elim (ltb a end) [
  | true ↦ (do
    refcount' ← claim_page refcount (a / page_size)
    claim_pages fuel refcount' (a + page_size) end)
  | false ↦ some refcount
]

-- A page more than the segment has bytes is more rounds than the loop makes.
unfoldable pub claim_segments : (ℕ → ℕ) → List Segment → Option (ℕ → ℕ)
unfolding claim_pages
claim_segments refcount [] = some refcount
claim_segments refcount (seg ∷ segs) = do
  refcount' ←
      claim_pages (seg.size + page_size) refcount (round_down seg.va page_size) (seg.va + seg.size)
  claim_segments refcount' segs

-- The second loop: each segment is cleared, then its data is copied.
unfoldable pub load_segments : Memory → List Segment → Memory
load_segments m [] = m
load_segments m (seg ∷ segs) =
    load_segments (memcpy (memset m seg.va 0 seg.size) seg.va seg.data_at seg.data_size) segs

abbrev pub stack_addr : ℕ → ℕ
stack_addr pid = proc_start_addr + proc_size * pid - page_size

-- The process descriptor that `process_setup` leaves.
abbrev pub ready_proc : Proc → ℕ → ℕ → ℕ → Proc
ready_proc p kernel_pagetable entry pid =
    let q = init_process p 0 in
    record q {
      pagetable = kernel_pagetable;
      regs = record (q.regs) { reg_rip = entry; reg_rsp = stack_addr pid + page_size };
      state = runnable;
    }

-- The kernel with the program loaded, given the new counts.
abbrev pub finished : Kernel → ℕ → ℕ → Image → (ℕ → ℕ) → Kernel
finished k kernel_pagetable pid pgm refcount' = record k {
  ptable = set_proc k.ptable pid (ready_proc (k.ptable pid) kernel_pagetable pgm.entry pid);
  refcount = refcount';
  memory = load_segments k.memory pgm.segments;
}

unfoldable pub process_setup : Kernel → ℕ → ℕ → Image → Option Kernel
unfolding claim_segments claim_page
process_setup k kernel_pagetable pid pgm = do
  claimed ← claim_segments k.refcount pgm.segments
  refcount' ← claim_page claimed (stack_addr pid / page_size)
  some (finished k kernel_pagetable pid pgm refcount')
