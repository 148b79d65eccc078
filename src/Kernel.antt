-- ===== src/Kernel.antt =====
-- pset3: the WeensyOS kernel: its state, page allocation, process set-up, scheduling, system calls
-- and exceptions.
pub mod State
pub mod Alloc
pub mod Vmiter
pub mod Setup
pub mod Dispatch
pub mod Boot
pub mod PageTable
mod Tests
