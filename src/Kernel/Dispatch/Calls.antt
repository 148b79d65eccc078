-- ===== src/Kernel/Dispatch/Calls.antt =====
-- What exceptions and system calls do to the process that made them and to the others.
use cs61_f26_psets.Common.{
  ℕ, ◌+◌, ◌/◌, ◌%◌, ◌≤◌, ◌<◌, ◌≡◌, ◌≢◌, refl, sym, subst, inl, inr, true, false, arith, ◌∙◌,
}
use cs61_f26_psets.CLib.Blocks.{memset}
use cs61_f26_psets.CLib.Blocks.Copy.{memset_lem}
use cs61_f26_psets.Kernel.State.{Kernel, faulted, Regs, max_n_proc, n_pages, page_size, count_page}
use cs61_f26_psets.Kernel.PageTable.{check_pagetable}
use cs61_f26_psets.Kernel.Dispatch.{
  registers_ok, resumed, returned, is_runnable, save_regs, set_state, run, schedule, exception,
  syscall_page_alloc,
}
use cs61_f26_psets.Kernel.Dispatch.Schedule.{IsNext, is_next, schedule-IsNext}

-- The kernel after a user page fault with the registers `regs`.
abbrev pub after_fault : Kernel → Regs → Kernel
after_fault k regs = set_state (save_regs k regs) faulted

after_fault-other :
    (k : Kernel) (regs : Regs) (p : ℕ)
    → p ≢ k.current
    → ((after_fault k regs).ptable p) ≡ k.ptable p
unfolding set_state save_regs
after_fault-other k regs p ne = ground arith

after_fault-current :
    (k : Kernel) (regs : Regs) → is_runnable ((after_fault k regs).ptable k.current).state ≡ false
unfolding set_state save_regs
after_fault-current k regs = ground arith

IsNext-runnable : (k : Kernel) (next : ℕ) → IsNext k next → is_runnable (k.ptable next).state ≡ true
IsNext-runnable k next (is_next i lt e before here) = here

module _ (kp exception_entry : ℕ) where
  exception-fault :
      (fuel : ℕ) (k : Kernel) (regs : Regs)
      → regs.reg_intno ≡ 14
      → regs.reg_errcode / 4 % 2 ≡ 1
      → exception kp exception_entry fuel k regs
        ≡ schedule kp exception_entry fuel (after_fault k regs)
  unfolding exception set_state save_regs
  exception-fault fuel k regs is_pf is_user =
      let dead = after_fault-current k regs in ground (arith, is_pf, is_user, dead)

  -- What `run` asks of process `p`.
  abbrev pub MayRun : Kernel → ℕ → Type 0
  MayRun k p =
      (registers_ok (k.ptable p).regs ≡ true)
      × (check_pagetable k.memory kp exception_entry (k.ptable p).pagetable ≡ true)

  run-resumed :
      (k : Kernel) (p : ℕ)
      → is_runnable (k.ptable p).state ≡ true
      → MayRun k p
      → run kp exception_entry k p ≡ resumed (record k { current = p }) p
  unfolding run
  run-resumed k p runs (regs, table) = rw (runs, regs, table) refl

  after_fault-MayRun :
      (k : Kernel) (regs : Regs) (p : ℕ)
      → p ≢ k.current
      → MayRun k p
      → MayRun (after_fault k regs) p
  unfolding set_state save_regs
  after_fault-MayRun k regs p ne may =
      subst
        (λ q.
          (registers_ok q.regs ≡ true)
          × (check_pagetable k.memory kp exception_entry q.pagetable ≡ true))
        (sym (after_fault-other k regs p ne)) may

  -- A page fault in user mode does not stop the kernel: when another process than the one that
  -- faulted is runnable, and each other process that is runnable has the registers and the page
  -- table that `run` asks for, the kernel resumes the first runnable process behind the faulting
  -- one. It is another process, the one that faulted is marked as such, and the table entries of
  -- all others are as before.
  pub exception-page_fault :
      (k : Kernel) (regs : Regs) (p : ℕ)
      → regs.reg_intno ≡ 14
      → regs.reg_errcode / 4 % 2 ≡ 1
      → p < max_n_proc
      → p ≢ k.current
      → is_runnable (k.ptable p).state ≡ true
      → ((j : ℕ) → j ≢ k.current → is_runnable (k.ptable j).state ≡ true → MayRun k j)
      → (fuel : ℕ) → max_n_proc ≤ fuel
      → (next : ℕ) × (k' : Kernel) × (exception kp exception_entry fuel k regs ≡ resumed k' next)
        × (next ≢ k.current)
        × IsNext (after_fault k regs) next
        × (k'.current ≡ next)
        × ((k'.ptable k.current).state ≡ faulted)
        × ((j : ℕ) → j ≢ k.current → k'.ptable j ≡ k.ptable j)
  unfolding set_state save_regs
  exception-page_fault k regs p is_pf is_user lt ne found may fuel enough =
      let k' = after_fault k regs in
      let still =
        subst (λ q. is_runnable q.state ≡ true) (sym (after_fault-other k regs p ne)) found in
      let (next, first, e) = schedule-IsNext kp exception_entry k' p lt still fuel enough in
      let runs = IsNext-runnable k' next first in
      let other : next ≢ k.current = (λ same.
        let busy = subst (λ q. is_runnable (k'.ptable q).state ≡ true) same runs in
        let dead = after_fault-current k regs in ground (arith, busy, dead)) in
      let was =
        subst (λ q. is_runnable q.state ≡ true) (after_fault-other k regs next other) runs in
      (
        next,
        record k' { current = next },
        exception-fault fuel k regs is_pf is_user
            ∙ e
            ∙ run-resumed k' next runs (after_fault-MayRun k regs next other (may next other was)),
        other,
        first,
        refl,
        ground arith,
        λ j ne'. after_fault-other k regs j ne',
      )

-- What a page call at `addr` gives its caller.
pub record Grants (k : Kernel) (addr : ℕ) (k' : Kernel) : Type 0 where
  pub was_free : k.refcount (addr / page_size) ≡ 0
  pub in_use : k'.refcount (addr / page_size) ≡ 1
  pub others : (j : ℕ) → j ≢ addr / page_size → k'.refcount j ≡ k.refcount j
  pub zeroed : (i : ℕ) → i < page_size → k'.memory (addr + i) ≡ 0
  pub below : (a : ℕ) → a < addr → k'.memory a ≡ k.memory a
  pub behind : (a : ℕ) → addr + page_size ≤ a → k'.memory a ≡ k.memory a
  pub same_table : (j : ℕ) → k'.ptable j ≡ k.ptable j

-- For a page of physical memory that is not in use, the page call returns 0 and grants the page of
-- `addr`: its count is 1 and no other count changes, the 4096 bytes from `addr` are zero and no
-- other byte changes, and the process table is as before.
pub syscall_page_alloc_lem :
    (k : Kernel) (addr : ℕ)
    → addr / page_size < n_pages
    → k.refcount (addr / page_size) ≡ 0
    → (k' : Kernel) × (syscall_page_alloc k addr ≡ returned k' 0) × Grants k addr k'
unfolding syscall_page_alloc
syscall_page_alloc_lem k addr lt is_free =
    let (filled, kept) = memset_lem k.memory addr 0 page_size in
    (
      record k {
        refcount = count_page k.refcount (addr / page_size);
        memory = memset k.memory addr 0 page_size;
      },
      ground (arith, lt, is_free),
      record {
        was_free = is_free;
        in_use = ground (arith, is_free);
        others = λ j ne. ground (arith, ne);
        zeroed = λ i l. filled i l;
        below = λ a l. kept a (inl l);
        behind = λ a l. kept a (inr l);
        same_table = λ j. refl;
      },
    )
