-- ===== src/Kernel/State.antt =====
-- pset3: the kernel's state (kernel.hh, x86-64.h, kernel.cc), and init_process (k-hardware.cc).
use Prim.Native.Nat.{bit_and, bit_or}
use cs61_f26_psets.Common.{ℕ, ◌+◌, ◌-◌, ◌/◌, ◌%◌, ◌^◌, ◌==◌, if◌then◌else◌}
use cs61_f26_psets.Common.Memory.{Memory}

-- The process states P_FREE, P_RUNNABLE, P_BLOCKED and P_FAULTED.
pub data ProcState : Type 0 where
  free runnable blocked faulted : ProcState

-- `regstate`
pub record Regs : Type 0 where
  pub reg_rax : ℕ
  pub reg_rcx : ℕ
  pub reg_rdx : ℕ
  pub reg_rbx : ℕ
  pub reg_rbp : ℕ
  pub reg_rsi : ℕ
  pub reg_rdi : ℕ
  pub reg_r8 : ℕ
  pub reg_r9 : ℕ
  pub reg_r10 : ℕ
  pub reg_r11 : ℕ
  pub reg_r12 : ℕ
  pub reg_r13 : ℕ
  pub reg_r14 : ℕ
  pub reg_r15 : ℕ
  pub reg_fs : ℕ
  pub reg_gs : ℕ
  pub reg_intno : ℕ
  pub reg_swapgs : ℕ
  pub reg_errcode : ℕ
  pub reg_rip : ℕ
  pub reg_cs : ℕ
  pub reg_rflags : ℕ
  pub reg_rsp : ℕ
  pub reg_ss : ℕ

abbrev pub zero_regs : Regs
zero_regs = record {
  reg_rax = 0;
  reg_rcx = 0;
  reg_rdx = 0;
  reg_rbx = 0;
  reg_rbp = 0;
  reg_rsi = 0;
  reg_rdi = 0;
  reg_r8 = 0;
  reg_r9 = 0;
  reg_r10 = 0;
  reg_r11 = 0;
  reg_r12 = 0;
  reg_r13 = 0;
  reg_r14 = 0;
  reg_r15 = 0;
  reg_fs = 0;
  reg_gs = 0;
  reg_intno = 0;
  reg_swapgs = 0;
  reg_errcode = 0;
  reg_rip = 0;
  reg_cs = 0;
  reg_rflags = 0;
  reg_rsp = 0;
  reg_ss = 0;
}

-- `struct proc`; a page table is its address, 0 for nullptr.
pub record Proc : Type 0 where
  pub pagetable : ℕ
  pub pid : ℕ
  pub state : ProcState
  pub regs : Regs

abbrev pub page_size : ℕ
page_size = 4096

abbrev pub memsize_physical : ℕ
memsize_physical = 0x200000

abbrev pub n_pages : ℕ
n_pages = memsize_physical / page_size

abbrev pub memsize_virtual : ℕ
memsize_virtual = 0x300000

abbrev pub proc_start_addr : ℕ
proc_start_addr = 0x100000

abbrev pub kernel_start_addr : ℕ
kernel_start_addr = 0x40000

abbrev pub kernel_stack_top : ℕ
kernel_stack_top = 0x80000

abbrev pub max_n_proc : ℕ
max_n_proc = 16

-- The global variables: `ptable`, the index of `current` in it, the reference counts of
-- `physpages` (bytes), `ticks`, and memory. `physpages` has entries below `n_pages` only.
pub record Kernel : Type 0 where
  pub ptable : ℕ → Proc
  pub current : ℕ
  pub refcount : ℕ → ℕ
  pub ticks : ℕ
  pub memory : Memory

-- `ptable[i] = p`
abbrev pub set_proc : (ℕ → Proc) → ℕ → Proc → ℕ → Proc
set_proc f i p j = if j == i then p else f j

-- `++physpages[page].refcount`
abbrev pub count_page : (ℕ → ℕ) → ℕ → ℕ → ℕ
count_page f page j = if j == page then (f page + 1) % 256 else f j

-- `init_process`: the registers that it leaves. Its flags are two bits,
-- PROCINIT_ALLOW_PROGRAMMED_IO and PROCINIT_DISABLE_INTERRUPTS.
unfoldable pub init_regs : ℕ → Regs
init_regs flags =
    let rflags : ℕ = 0x200 in
    let io = (if flags % 2 == 1 then bit_or rflags 0x3000 else rflags) in
    let last = (if flags / 2 % 2 == 1 then bit_and io (2 ^ 64 - 1 - 0x200) else io) in
    record zero_regs {
      reg_cs = 0x18 + 3;
      reg_fs = 0x20 + 3;
      reg_gs = 0x20 + 3;
      reg_ss = 0x20 + 3;
      reg_rflags = last;
    }

unfoldable pub init_process : Proc → ℕ → Proc
unfolding init_regs
init_process p flags = record p { regs = init_regs flags }
