-- ===== src/Lib.antt =====
-- The CS 61 problem sets, cs61-f26-psets: a verification library for the WeensyOS C library and
-- kernel (pset3), for the command-line front end of the shell (pset4), for the byte input and
-- output of pset5, and for the allocators of pset1b.
--
-- Parts. The C library of pset3 (pset3/lib.cc, pset3/lib.hh) is linked into the WeensyOS kernel and
-- its applications. The kernel (pset3/kernel.cc, with the hardware support of
-- pset3/k-hardware.cc) clears and fills pages with its memset and memcpy: page allocation, process
-- set-up, system calls, exceptions and the scheduler share the process table and the page counts.
-- The shell (pset4/helpers.cc, pset4/sh61.hh, pset4/sh61.cc) reads a command line into regions
-- (conditionals, pipelines, commands) and a region into words; its parsers stand on its tokenizer.
--
-- Files. A module's comment names its functions.
--   Common          tests on numbers, lists with native lengths, binary digits, memory, integers
--   CLib/Blocks     memcpy, memmove, memset, memcmp, memchr        pset3/lib.cc
--   CLib/Ctype      isspace to toupper                             pset3/lib.hh
--   CLib/Strings    strlen to strstr                               pset3/lib.cc
--   CLib/Numbers    from_chars, to_chars, strtoul, strtol          pset3/lib.cc
--   CLib/Printer    vprintf, print_number, string_printer           pset3/lib.cc
--   CLib/Console    console_printer, console_puts, console_vprintf  pset3/lib.cc, lib.hh
--   CLib/Random     rand_engine and uniform_int_distribution        pset3/lib.cc, lib.hh
--   Io61            io61_read, io61_write and their parts           pset5/io61.cc
--   Io61/Utilities  cat61, blockcat61, reverse61, stridecat61       pset5/cat61.cc and so on
--   Kernel/State    proc, regstate, the globals, init_process      pset3/kernel.hh, kernel.cc
--   Kernel/Alloc    kalloc and the address tests                   pset3/kernel.cc, k-hardware.cc
--   Kernel/Vmiter   vmiter, its queries and try_map                 pset3/k-vmiter.cc, k-vmiter.hh
--   Kernel/PageTable init_kernel_memory, check_pagetable            pset3/k-hardware.cc
--   Kernel/Setup    process_setup                                  pset3/kernel.cc
--   Kernel/Boot     kernel_start                                   pset3/kernel.cc
--   Kernel/Dispatch run, schedule, syscall, exception              pset3/kernel.cc
--   M61/Derp        m61_malloc and m61_free of m61-derp             pset1b/m61-derp.cc, m61.hh
--   M61/Bump        what the allocators below share                pset1b/m61-once.cc and so on
--   M61/Once        m61-once, m61-section                           pset1b/m61-once.cc
--   M61/Lastalloc   m61-lastalloc                                   pset1b/m61-lastalloc.cc
--   M61/Reuseempty  m61-reuseempty                                  pset1b/m61-reuseempty.cc
--   M61/Staff       m61-staff                                       pset1b/m61-staff.cc
--   Shell/Tokenizer shell_tokenizer                                pset4/helpers.cc, sh61.hh
--   Shell/Words     shell_tokenizer::str, type_name, run_line      pset4/helpers.cc, sh61.cc
--   Shell/Parser    shell_parser and its masks                     pset4/helpers.cc, sh61.hh
--
-- State. Memory is a function from addresses to bytes; a pointer is a number, 0 is nullptr, and
-- pointer sums do not wrap. A byte is the number that it stands for as an unsigned char. The
-- kernel's globals are one record, `Kernel`, that each operation takes and returns; `Outcome` says
-- how a kernel entry ends, since the functions that resume a process do not return. A failed
-- assertion of process_setup is `none`.
--
-- Bounds and fuel. A loop with a counter recurs on the counter. A loop that ends at a byte of
-- memory takes fuel and answers `none` where that runs out: fuel above the length of the string,
-- the number of digits or the bytes of the region is enough, and each theorem states the amount.
-- to_chars takes 22 rounds for any unsigned long, since a round divides by 8 or more. schedule
-- takes 16 rounds, one for each entry of the process table, where a process is runnable. Words of
-- the machine are wrapped where the code can reach the bound: `x * base + digit` of from_chars,
-- `b2` and `b3` of to_chars, the negation of strtoul, the position of str, the counts of pages,
-- ticks.
--
-- vprintf takes fuel for its format and its strings; its arguments are a list of 64-bit words. A width
-- or a precision that overflows its int is `none`, and so is a console_printer that starts outside the
-- console: the cursor is an int that applications write, too.
-- vmiter::down goes down at most `lbits` times, since each table takes nine bits off. The loop of
-- init_kernel_memory takes a round for each of the 512 pages and one more. The loops of the
-- utilities take a round for each byte that they copy and one more at most.
--
-- Components meet in three places. kernel_start builds the page table with try_map, sets processes
-- up and calls run, which checks the page table that it built. The utilities call io61_read and
-- io61_write, and see their files through `Streams`, which says what the operating system does. A
-- client of an allocator of pset1b is a sequence of `Step`s, over the two operations of any of
-- them.
--
-- Not modelled. The memory viewer, ptiter, the boot loader, device registers and segment
-- descriptors; the applications of pset3; the calls that show the hardware cursor, invalidate the
-- TLB or order memory operations; the allocators of pset1 that only pass calls on; varblockcat61,
-- the other programs of pset5 and the parsing of their options, and all test programs.
-- `_kernel_end`, the addresses of kernel_pagetable and of exception_entry (the linker's) and the
-- program images (the build's) are parameters, and so are the addresses of the allocators' buffers
-- and the calls of the operating system that io61 makes. <cctype> in pset4 is that of the C locale.
pub mod CLib
pub mod Common
pub mod Io61
pub mod Kernel
pub mod M61
pub mod Shell
