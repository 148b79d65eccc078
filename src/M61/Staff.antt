-- ===== src/M61/Staff.antt =====
-- pset1b/m61-staff.cc: blocks are cut off the buffer, with a map of those in use and statistics.
pub mod Sizes
pub mod Blocks
pub mod Zero
use cs61_f26_psets.Common.{ℕ, Option, none, some, ◌==◌, if◌then◌else◌}
use cs61_f26_psets.M61.Derp.{Statistics, count_free, count_malloc}
use cs61_f26_psets.M61.Bump.{Buffer, buffer_malloc, cut, no_buffer}

-- `active_allocs`, a std::map: the size that stands at an address
abbrev pub Allocs : Type 0
Allocs = ℕ → Option ℕ

-- `active_allocs.insert({ k, n })`, which keeps an entry that is there
unfoldable pub insert_size : ℕ → ℕ → Allocs → Allocs
insert_size k n m j = if j == k then elim (m k) [ none ↦ some n | some old ↦ some old ] else m j

-- `active_allocs.erase(it)`
unfoldable pub erase : ℕ → Allocs → Allocs
erase k m j = if j == k then none else m j

-- The globals.
pub record Heap : Type 0 where
  pub space : Buffer
  pub gs : Statistics
  pub active_allocs : Allocs

abbrev pub start : Heap
start = record {
  space = no_buffer;
  gs = record { active_count = 0; active_bytes = 0; total_count = 0; total_bytes = 0 };
  active_allocs = λ j. none;
}

-- `m61_malloc`, with the answer of `malloc`; the statistics are counted as in m61-derp
unfoldable pub m61_malloc : ℕ → Heap → ℕ → Option ℕ × Heap
m61_malloc base h sz =
    buffer_malloc (λ b. record h { space = b })
      (λ b n. record {
        space = cut b n;
        gs = count_malloc h.gs n;
        active_allocs = insert_size b.buffer n h.active_allocs;
      })
      base h.space sz

-- `m61_free`; `none` is the failed assertion "invalid free"
unfoldable pub m61_free : Heap → ℕ → Option Heap
m61_free h ptr = if ptr == 0 then some h else elim (h.active_allocs ptr) [
  | none ↦ none
  | some n ↦ some (record h { gs = count_free h.gs n; active_allocs = erase ptr h.active_allocs })
]
