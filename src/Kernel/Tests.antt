-- ===== src/Kernel/Tests.antt =====
-- The kernel of pset3 at a small concrete state.
use cs61_f26_psets.Common.{
  ℕ, ◌*◌, ◌≤◌, ◌<◌, ◌≡◌, ◌≢◌, ◌⊎◌, refl, false, true, none, some, [], ◌∷◌, arith, ◌==◌,
  if◌then◌else◌,
}
use cs61_f26_psets.Kernel.State.{
  faulted, free, runnable, Regs, zero_regs, Kernel, page_size, n_pages, count_page,
}
use cs61_f26_psets.Kernel.Vmiter.{
  at_root, descend, descend_all, down, pte, find_impl, goes_down, in_same_table, index,
  looks_uninitialized, va_is_canonical, vmiter,
}
use cs61_f26_psets.Kernel.Vmiter.Queries.{pa}
use cs61_f26_psets.Kernel.Alloc.{round_down, is_free, kalloc}
use cs61_f26_psets.Kernel.Alloc.Search.{Takes, kalloc_lem}
use cs61_f26_psets.Kernel.Setup.{
  Image, finished, claim_page, claim_pages, claim_segments, process_setup,
}
use cs61_f26_psets.Kernel.Setup.Claims.{SetsUp, process_setup-SetsUp}
use cs61_f26_psets.Kernel.Setup.Success.{process_setup_succeeds}
use cs61_f26_psets.Kernel.Boot.{kernel_start, Defaults, cleared, load_processes}
use cs61_f26_psets.Kernel.Boot.Start.{kernel_start-resumed}
use cs61_f26_psets.Kernel.PageTable.Tables.{IsMapped}
use cs61_f26_psets.Common.Memory.{Memory, store_number}
use cs61_f26_psets.Kernel.PageTable.{check_pagetable, maps_to_itself}
use cs61_f26_psets.Kernel.Dispatch.{registers_ok, resumed, run, schedule, exception}
use cs61_f26_psets.Kernel.Dispatch.Schedule.{IsNext, schedule-IsNext}
use cs61_f26_psets.Kernel.Dispatch.Calls.{after_fault, exception-page_fault}

-- Nothing runs and no page is in use.
abbrev idle : Kernel
idle = record {
  ptable = λ i. record { pagetable = 0; pid = i; state = free; regs = zero_regs };
  current = 0;
  refcount = λ j. 0;
  ticks = 1;
  memory = λ a. 0;
}

-- Processes 2 and 3 are runnable, and 2 runs.
abbrev two_run : Kernel
two_run = record idle {
  ptable = λ i. record {
    pagetable = 0;
    pid = i;
    state = (if i == 2 then runnable else (if i == 3 then runnable else free));
    regs = zero_regs;
  };
  current = 2;
}

kalloc_example :
    (page_size < 100) × (kalloc 0x48000 idle 100 ≡ (none, idle))
    ⊎ (100 ≤ page_size)
      × (((q : ℕ) × (k' : Kernel) × (kalloc 0x48000 idle 100 ≡ (some (q * page_size), k'))
            × Takes 0x48000 idle q k')
          ⊎ (((j : ℕ) → j < n_pages → is_free 0x48000 idle j ≡ false)
              × (kalloc 0x48000 idle 100 ≡ (none, idle))))
kalloc_example = kalloc_lem 0x48000 idle 100

abbrev pgm : Image
pgm = record {
  segments = record { va = 0x100000; size = 10; data_at = 0x50000; data_size = 4 } ∷ [];
  entry = 0x100000;
}

abbrev loaded : Kernel
loaded = finished idle 0x1000 1 pgm (count_page (count_page (λ j. 0) 256) 319)

loads : process_setup idle 0x1000 1 pgm ≡ some loaded
unfolding process_setup claim_page claim_pages claim_segments round_down
loads = refl

process_setup_example : SetsUp idle 1 pgm loaded
process_setup_example = process_setup-SetsUp idle loaded 0x1000 1 pgm loads

schedule-IsNext_example :
    (next : ℕ) × IsNext two_run next
    × (schedule 0x42000 0x40100 20 two_run ≡ run 0x42000 0x40100 two_run next)
schedule-IsNext_example =
    schedule-IsNext 0x42000 0x40100 two_run 3 (omega arith) refl 20 (omega arith)

-- A user write to a missing page
abbrev fault_regs : Regs
fault_regs = record zero_regs { reg_intno = 14; reg_errcode = 6 }

-- A page table at 0x42000 that maps the first gigabyte to itself.
abbrev tables : Memory
tables = store_number (store_number (λ a. 0) 0x42000 0x43007 8) 0x43000 0x87 8

-- Two processes with that page table and a stack.
abbrev two_ready : Kernel
two_ready = record idle {
  ptable = λ i. record {
    pagetable = 0x42000;
    pid = i;
    state = (if i == 2 then runnable else (if i == 3 then runnable else free));
    regs = record zero_regs { reg_rsp = 0x140000; reg_cs = 3 };
  };
  current = 2;
  memory = tables;
}

table_accepted : check_pagetable tables 0x42000 0x40100 0x42000 ≡ true
unfolding check_pagetable maps_to_itself vmiter find_impl in_same_table va_is_canonical down
    descend_all goes_down descend pte index at_root looks_uninitialized pa
table_accepted = refl

page_fault_example :
    (next : ℕ) × (k' : Kernel) × (exception 0x42000 0x40100 16 two_ready fault_regs
      ≡ resumed k' next)
    × (next ≢ 2)
    × IsNext (after_fault two_ready fault_regs) next
    × (k'.current ≡ next)
    × ((k'.ptable 2).state ≡ faulted)
    × ((j : ℕ) → j ≢ 2 → k'.ptable j ≡ two_ready.ptable j)
unfolding registers_ok
page_fault_example =
    exception-page_fault 0x42000 0x40100 two_ready fault_regs 3 refl refl (omega arith)
      (omega arith) refl (λ j ne runs. (refl, table_accepted)) 16 (omega arith)

setup_succeeds_example : (k' : Kernel) × (process_setup idle 0x1000 1 pgm ≡ some k')
setup_succeeds_example =
    process_setup_succeeds idle 0x1000 1 pgm ((λ j inside. (omega arith, refl)), tt)
      ((λ j inside. tt), tt) (omega arith, refl) ((λ inside. omega arith), tt)

abbrev defaults : Defaults
defaults = record { allocator = pgm; allocator2 = pgm; allocator3 = pgm; allocator4 = pgm }

abbrev booted : Kernel
booted = finished (cleared idle) 0x1000 1 pgm (count_page (count_page (λ j. 0) 256) 319)

boots : load_processes (cleared idle) 0x1000 (some pgm) defaults ≡ some booted
unfolding load_processes process_setup claim_page claim_pages claim_segments round_down
boots = refl

start_example :
    (k' : Kernel) × (kernel_start 0x48000 0x40100 idle 0x42000 (some pgm) defaults ≡ resumed k' 1)
    × (k'.current ≡ 1)
    × ((k'.ptable 1).regs.reg_rip ≡ 0x100000)
    × IsMapped k'.memory 0x42000 n_pages
start_example =
    kernel_start-resumed 0x48000 0x40100 0x42000 idle pgm defaults refl (omega arith) (omega arith)
      (omega arith) (omega arith) ((λ j inside. (omega arith, refl)), tt) ((λ j inside. tt), tt)
      (omega arith, refl) ((λ inside. omega arith), tt) ((omega arith, omega arith), tt)
