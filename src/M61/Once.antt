-- ===== src/M61/Once.antt =====
-- pset1b/m61-once.cc and pset1b/m61-section.cc, which are the same: blocks are cut off the buffer,
-- and never come back.
pub mod Blocks
use cs61_f26_psets.Common.{ℕ, Option}
use cs61_f26_psets.M61.Bump.{Buffer, buffer_malloc, cut}

-- `m61_malloc`, with the answer of `malloc`
unfoldable pub m61_malloc : ℕ → Buffer → ℕ → Option ℕ × Buffer
m61_malloc base b sz = buffer_malloc (λ b'. b') cut base b sz

-- `m61_free` does nothing.
unfoldable pub m61_free : Buffer → ℕ → Buffer
m61_free b ptr = b
