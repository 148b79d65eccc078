-- ===== src/Kernel/Boot/Start.antt =====
-- The kernel starts and runs its first process.
use cs61_f26_psets.Common.{
  ℕ, ◌+◌, ◌*◌, ◌/◌, ◌%◌, ◌≤◌, ◌<◌, ◌≡◌, inl, refl, ◌∙◌, true, some, List, [], ◌∷◌, arith, All,
}
use cs61_f26_psets.Common.Memory.{Memory}
use cs61_f26_psets.CLib.Blocks.{memcpy, memset}
use cs61_f26_psets.CLib.Blocks.Copy.{memcpy-outside, memset_lem}
use cs61_f26_psets.Kernel.State.{
  Kernel, init_process, memsize_physical, n_pages, page_size, proc_start_addr,
}
use cs61_f26_psets.Kernel.Setup.{Image, Segment, finished, load_segments, process_setup, stack_addr}
use cs61_f26_psets.Kernel.Setup.Success.{
  AllUnused, Disjoint, IsUnused, Outside, process_setup-finished,
}
use cs61_f26_psets.Kernel.PageTable.{check_pagetable, init_kernel_memory, remap_pages}
use cs61_f26_psets.Kernel.PageTable.Tables.{IsMapped}
use cs61_f26_psets.Kernel.PageTable.Loop.{init_kernel_memory-maps, with_memory}
use cs61_f26_psets.Kernel.PageTable.Remap.{remap_pages_lem}
use cs61_f26_psets.Kernel.PageTable.Check.{IsMapped-check_pagetable, IsMapped-same}
use cs61_f26_psets.Kernel.Dispatch.{is_runnable, registers_ok, resumed, run}
use cs61_f26_psets.Kernel.Boot.{Defaults, cleared, kernel_start, load_processes, start_up}

-- The segments lie where applications do, and their data fits.
abbrev pub LoadsAbove : List Segment → Type 0
LoadsAbove segs = All (λ seg. (proc_start_addr ≤ seg.va) × (seg.data_size ≤ seg.size)) segs

-- Loading them leaves the kernel's memory alone.
load_segments-below :
    (m : Memory) (segs : List Segment) (a : ℕ)
    → LoadsAbove segs
    → a < proc_start_addr
    → load_segments m segs a ≡ m a
unfolding load_segments
load_segments-below m [] a above lt = refl
load_segments-below m (seg ∷ segs) a (here, above) lt =
    let cleared_segment = memset m seg.va 0 seg.size in
    load_segments-below (memcpy cleared_segment seg.va seg.data_at seg.data_size) segs a above lt
    ∙ memcpy-outside cleared_segment seg.va seg.data_at seg.data_size a (inl (omega (arith, here)))
    ∙ (memset_lem m seg.va 0 seg.size).1 a (inl (omega (arith, here)))

run-resumes :
    (k : Kernel) (kp exception_entry pid : ℕ)
    → is_runnable (k.ptable pid).state ≡ true
    → registers_ok (k.ptable pid).regs ≡ true
    → check_pagetable k.memory kp exception_entry (k.ptable pid).pagetable ≡ true
    → run kp exception_entry k pid ≡ resumed (record k { current = pid }) pid
unfolding run
run-resumes k kp exception_entry pid runs regs table = rw (runs, regs, table) refl

-- The registers of a process that was set up pass the checks.
registers_ok-finished :
    (k : Kernel) (kp : ℕ) (pgm : Image) (f : ℕ → ℕ)
    → registers_ok ((finished k kp 1 pgm f).ptable 1).regs ≡ true
unfolding registers_ok init_process
registers_ok-finished k kp pgm f = refl

kernel_start-some :
    (kernel_end exception_entry kp : ℕ) (k k' : Kernel) (pgm : Image) (defaults : Defaults)
    → start_up kernel_end k kp (some pgm) defaults ≡ some k'
    → kernel_start kernel_end exception_entry k kp (some pgm) defaults ≡ run kp exception_entry k' 1
unfolding kernel_start
kernel_start-some kernel_end exception_entry kp k k' pgm defaults e = rw (kernel_start, e) refl

start_up-some :
    (kernel_end kp : ℕ) (k k1 k2 k3 : Kernel) (pgm : Image) (defaults : Defaults)
    → init_kernel_memory kernel_end (n_pages + 1) k kp ≡ some k1
    → remap_pages kernel_end n_pages k1 kp 0 ≡ some k2
    → process_setup (cleared k2) kp 1 pgm ≡ some k3
    → start_up kernel_end k kp (some pgm) defaults ≡ some k3
unfolding start_up load_processes
start_up-some kernel_end kp k k1 k2 k3 pgm defaults one two three = rw (start_up, one, two) three

-- The kernel starts the program of a command: kernel_start builds a page table that passes every
-- check, sets the program up and resumes process 1 at its entry point, with the page table as
-- init_kernel_memory leaves it. The five tables are page-aligned and lie in the kernel's memory
-- behind the first page, as does the entry point of the exceptions; the pages of the program, which
-- lies in application memory, and its stack page are free, and the program's segments share no
-- page with each other or with the stack.
pub kernel_start-resumed :
    (kernel_end exception_entry kp : ℕ) (k : Kernel) (pgm : Image) (defaults : Defaults)
    → kp % page_size ≡ 0
    → page_size ≤ kp
    → kp + 5 * page_size ≤ proc_start_addr
    → page_size ≤ exception_entry
    → exception_entry < memsize_physical
    → AllUnused k.refcount pgm.segments
    → Disjoint pgm.segments
    → IsUnused k.refcount (stack_addr 1 / page_size)
    → Outside pgm.segments (stack_addr 1 / page_size)
    → LoadsAbove pgm.segments
    → (k' : Kernel) × (kernel_start kernel_end exception_entry k kp (some pgm) defaults
        ≡ resumed k' 1)
      × (k'.current ≡ 1)
      × ((k'.ptable 1).regs.reg_rip ≡ pgm.entry)
      × IsMapped k'.memory kp n_pages
kernel_start-resumed kernel_end exception_entry kp k pgm defaults aligned pos low entry_pos entry_lt
      unused apart stack_unused out above =
    let (m, one, h) =
      init_kernel_memory-maps kernel_end kp aligned (omega arith) (n_pages + 1) k (omega arith) in
    let (m', two, h') =
      remap_pages_lem kernel_end kp aligned (omega arith) n_pages 0 (with_memory k m) h
        (omega arith) in
    let k2 = with_memory k m' in
    let (f, three) = process_setup-finished (cleared k2) kp 1 pgm unused apart stack_unused out in
    let k3 = finished (cleared k2) kp 1 pgm f in
    let still =
      IsMapped-same m' (load_segments m' pgm.segments) kp 512
        (λ a from below. load_segments-below m' pgm.segments a above (omega arith)) h' in
    (
      record k3 { current = 1 },
      kernel_start-some kernel_end exception_entry kp k k3 pgm defaults
            (start_up-some kernel_end kp k (with_memory k m) k2 k3 pgm defaults one two three)
          ∙ run-resumes k3 kp exception_entry 1 refl (registers_ok-finished (cleared k2) kp pgm f) (
              IsMapped-check_pagetable (load_segments m' pgm.segments) kp exception_entry aligned
                (omega arith) (omega arith) (omega arith) (omega arith) still),
      refl,
      refl,
      still,
    )
