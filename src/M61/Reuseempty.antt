-- ===== src/M61/Reuseempty.antt =====
-- pset1b/m61-reuseempty.cc: blocks are cut off the buffer, and the whole buffer comes back when no
-- block is in use.
pub mod Blocks
use cs61_f26_psets.Common.{ℕ, ◌+◌, ◌-◌, ◌%◌, ◌^◌, Option, ◌==◌, if◌then◌else◌}
use cs61_f26_psets.M61.Derp.{Statistics, buffer_size, count_malloc}
use cs61_f26_psets.M61.Bump.{Buffer, buffer_malloc, cut, no_buffer}

-- The globals.
pub record Heap : Type 0 where
  pub space : Buffer
  pub gs : Statistics

abbrev pub no_calls : Statistics
no_calls = record { active_count = 0; active_bytes = 0; total_count = 0; total_bytes = 0 }

abbrev pub start : Heap
start = record { space = no_buffer; gs = no_calls }

-- `m61_malloc`, with the answer of `malloc`; the statistics are counted as in m61-derp
unfoldable pub m61_malloc : ℕ → Heap → ℕ → Option ℕ × Heap
m61_malloc base h sz =
    buffer_malloc (λ b. record h { space = b })
      (λ b n. record { space = cut b n; gs = count_malloc h.gs n }) base h.space sz

-- `--gs.active_count`
unfoldable pub uncounted : Heap → Heap
uncounted h = record h {
  gs = record h.gs { active_count = (h.gs.active_count + 2 ^ 64 - 1) % 2 ^ 64 };
}

-- No block is in use.
unfoldable pub emptied : Heap → Heap
emptied h = record {
  space = record h.space { buffer = h.space.end_buffer - buffer_size };
  gs = record h.gs { active_bytes = 0 };
}

-- `m61_free`
unfoldable pub m61_free : Heap → ℕ → Heap
m61_free h ptr =
    if ptr == 0
    then h
    else let h' = uncounted h in if h'.gs.active_count == 0 then emptied h' else h'
