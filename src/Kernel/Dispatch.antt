-- ===== src/Kernel/Dispatch.antt =====
-- pset3/kernel.cc: run, schedule, syscall, syscall_page_alloc and exception, with
-- check_process_registers of k-hardware.cc. The display (console_show_cursor, memshow), the log and
-- the keyboard have no effect on the state that is modelled. `kp` is the address of kernel_pagetable and
-- `exception_entry` that of the function in k-exception.S.
pub mod Schedule
pub mod Calls
use cs61_f26_psets.Common.{
  ℕ, zero, suc, ◌+◌, ◌-◌, ◌*◌, ◌/◌, ◌%◌, ◌^◌, Bool, true, false, ◌&&◌, Option, none, some, ltb, leb,
  ◌==◌, if◌then◌else◌,
}
use cs61_f26_psets.CLib.Blocks.{memset}
use cs61_f26_psets.Kernel.PageTable.{check_pagetable}
use cs61_f26_psets.Kernel.State.{
  Kernel, Proc, ProcState, free, runnable, blocked, faulted, Regs, page_size, n_pages,
  proc_start_addr, memsize_virtual, max_n_proc, set_proc, count_page,
}

-- How a kernel entry ends: back in process `pid` with its registers restored; in a call that
-- returns a value to `current` in %rax; in a panic or failed assertion; in an access outside
-- `physpages`; or still spinning in `schedule` when the fuel is used up.
pub data Outcome : Type 0 where
  resumed : Kernel → ℕ → Outcome
  returned : Kernel → ℕ → Outcome
  panicked : Outcome
  out_of_bounds : Outcome
  spinning : Outcome

abbrev pub is_runnable : ProcState → Bool
is_runnable runnable = true
is_runnable state = false

-- `check_process_registers`
unfoldable pub registers_ok : Regs → Bool
registers_ok r =
    leb proc_start_addr r.reg_rsp && (leb r.reg_rsp memsize_virtual && r.reg_cs % 4 == 3)

-- `current->regs = *regs`
unfoldable pub save_regs : Kernel → Regs → Kernel
save_regs k regs = record k {
  ptable = set_proc k.ptable k.current (record (k.ptable k.current) { regs = regs });
}

-- `current->state = s`
unfoldable pub set_state : Kernel → ProcState → Kernel
set_state k s = record k {
  ptable = set_proc k.ptable k.current (record (k.ptable k.current) { state = s });
}

-- `syscall_page_alloc`, whose result 0 is the value of the system call
unfoldable pub syscall_page_alloc : Kernel → ℕ → Outcome
syscall_page_alloc k addr =
    if ltb (addr / page_size) n_pages
    then (if k.refcount (addr / page_size) == 0
        then returned
            (record k {
              refcount = count_page k.refcount (addr / page_size);
              memory = memset k.memory addr 0 page_size;
            })
            0
        else panicked)
    else out_of_bounds

module _ (kp exception_entry : ℕ) where
  -- `run(&ptable[pid])`
  unfoldable pub run : Kernel → ℕ → Outcome
  run k pid =
      let p = k.ptable pid in
      if is_runnable p.state
        && (registers_ok p.regs && check_pagetable k.memory kp exception_entry p.pagetable)
      then resumed (record k { current = pid }) pid
      else panicked

  -- The loop of `schedule` behind process `pid`.
  unfoldable pub schedule_from : ℕ → Kernel → ℕ → Outcome
  schedule_from zero k pid = spinning
  schedule_from (suc fuel) k pid =
      let next = (pid + 1) % max_n_proc in
      elim (is_runnable (k.ptable next).state) [
        | true ↦ run k next
        | false ↦ schedule_from fuel k next
      ]

  unfoldable pub schedule : ℕ → Kernel → Outcome
  schedule fuel k = schedule_from fuel k (k.ptable k.current).pid

  -- SYSCALL_GETPID 1, SYSCALL_YIELD 2, SYSCALL_PANIC 3, SYSCALL_PAGE_ALLOC 4
  unfoldable pub syscall : ℕ → Kernel → Regs → Outcome
  syscall fuel k regs =
      let k' = save_regs k regs in
      if regs.reg_rax == 3
      then panicked
      else if regs.reg_rax == 1
      then returned k' (k'.ptable k'.current).pid
      else if regs.reg_rax == 2
      then schedule fuel (save_regs k (record regs { reg_rax = 0 }))
      else if regs.reg_rax == 4
      then syscall_page_alloc k' regs.reg_rdi
      else panicked

  -- INT_IRQ + IRQ_TIMER is 32 and INT_PF is 14; PTE_U is bit 2 of the error code.
  unfoldable pub exception : ℕ → Kernel → Regs → Outcome
  exception fuel k regs =
      let k' = save_regs k regs in
      if regs.reg_intno == 32
      then schedule fuel (record k' { ticks = (k'.ticks + 1) % 2 ^ 64 })
      else if regs.reg_intno == 14
      then (if regs.reg_errcode / 4 % 2 == 0
          then panicked
          else (let k'' = set_state k' faulted in
              if is_runnable (k''.ptable k''.current).state
              then run k'' k''.current
              else schedule fuel k''))
      else panicked
