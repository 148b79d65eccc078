-- ===== src/M61/Lastalloc.antt =====
-- pset1b/m61-lastalloc.cc: blocks are cut off the buffer, and the last one comes back when it is
-- freed before the next call of m61_malloc that succeeds.
pub mod Blocks
pub mod Reuse
use cs61_f26_psets.Common.{ℕ, Option, ◌==◌, ◌&&◌, not, if◌then◌else◌}
use cs61_f26_psets.M61.Bump.{Buffer, buffer_malloc, cut, no_buffer}

-- The globals.
pub record Heap : Type 0 where
  pub space : Buffer
  pub last_allocation : ℕ

abbrev pub start : Heap
start = record { space = no_buffer; last_allocation = 0 }

-- `m61_malloc`, with the answer of `malloc`
unfoldable pub m61_malloc : ℕ → Heap → ℕ → Option ℕ × Heap
m61_malloc base h sz =
    buffer_malloc (λ b. record h { space = b })
      (λ b n. record { space = cut b n; last_allocation = b.buffer }) base h.space sz

-- `m61_free`
unfoldable pub m61_free : Heap → ℕ → Heap
m61_free h ptr =
    if not (ptr == 0) && ptr == h.last_allocation
    then record { space = record h.space { buffer = h.last_allocation }; last_allocation = 0 }
    else h
