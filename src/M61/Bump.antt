-- ===== src/M61/Bump.antt =====
-- pset1b: what the allocators that cut their blocks off one buffer share, m61-once.cc,
-- m61-section.cc, m61-lastalloc.cc, m61-reuseempty.cc and m61-staff.cc.
pub mod Client
pub mod Arena
use cs61_f26_psets.Common.{
  ℕ, ◌+◌, ◌-◌, ◌%◌, ◌^◌, Bool, Option, none, some, ltb, ◌==◌, if◌then◌else◌,
}
use cs61_f26_psets.M61.Derp.{buffer_size}

-- `buffer` and `end_buffer`: the part of the buffer that is still to be allocated. Both are nullptr,
-- which is 0, before the first call.
pub record Buffer : Type 0 where
  pub buffer : ℕ
  pub end_buffer : ℕ

abbrev pub no_buffer : Buffer
no_buffer = record { buffer = 0; end_buffer = 0 }

-- The first call of m61_malloc allocates the buffer; `base` is the answer of `malloc`.
unfoldable pub allocated : ℕ → Buffer → Buffer
allocated base b =
    if b.buffer == 0 then record { buffer = base; end_buffer = base + buffer_size } else b

-- `sz > space`
unfoldable pub out_of_memory : Buffer → ℕ → Bool
out_of_memory b sz = ltb ((b.end_buffer + 2 ^ 64 - b.buffer) % 2 ^ 64) sz

-- `buffer += sz`
unfoldable pub cut : Buffer → ℕ → Buffer
cut b sz = record b { buffer = b.buffer + sz }

-- The steps of m61_malloc, which every allocator has; they differ in the globals that are left
-- when the memory is out (`full`) and when there is a block (`take`). `none` is nullptr.
unfoldable pub buffer_malloc :
    {H : Type 0} (full : Buffer → H) (take : Buffer → ℕ → H) (base : ℕ) (b : Buffer) (sz : ℕ)
    → Option ℕ × H
buffer_malloc full take base b sz =
    let b' = allocated base b in
    if out_of_memory b' sz then (none, full b') else (some b'.buffer, take b' sz)
