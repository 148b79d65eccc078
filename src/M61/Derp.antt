-- ===== src/M61/Derp.antt =====
-- pset1b/m61-derp.cc: the allocator that keeps free and allocated blocks in one std::map. The map is
-- the list of its entries in the order of their keys.
pub mod Tiling
pub mod Malloc
mod Tests
use Prim.Native.Nat.{bit_or}
use cs61_f26_psets.Common.{
  ℕ, zero, suc, ◌+◌, ◌-◌, ◌*◌, ◌/◌, ◌%◌, ◌^◌, Bool, true, false, not, ◌&&◌, ◌||◌, Option, none,
  some, List, [], ◌∷◌, ltb, leb, ◌==◌, if◌then◌else◌,
}

-- `m61_statistics`, whose numbers have 64 bits
pub record Statistics : Type 0 where
  pub active_count : ℕ
  pub active_bytes : ℕ
  pub total_count : ℕ
  pub total_bytes : ℕ

-- `allocinfo`
pub record AllocInfo : Type 0 where
  pub bsz : ℕ
  pub usz : ℕ
  pub free : Bool

abbrev pub Blocks : Type 0
Blocks = List (ℕ × AllocInfo)

-- The globals.
pub record Heap : Type 0 where
  pub blocks : Blocks
  pub gs : Statistics

-- `blocks[k] = x`
unfoldable pub set_block : ℕ → AllocInfo → Blocks → Blocks
set_block k x [] = (k, x) ∷ []
set_block k x ((j, y) ∷ bs) =
    let rest = set_block k x bs in
    if ltb k j then (k, x) ∷ (j, y) ∷ bs else if k == j then (k, x) ∷ bs else (j, y) ∷ rest

-- `blocks.find(k)`
unfoldable pub lookup : ℕ → Blocks → Option AllocInfo
lookup k [] = none
lookup k ((j, y) ∷ bs) = if k == j then some y else lookup k bs

-- `8 << 20`
abbrev pub buffer_size : ℕ
buffer_size = 8 * 2 ^ 20

unfoldable pub fits : AllocInfo → ℕ → Bool
fits i sz = not (not i.free || ltb i.bsz sz)

-- The search for a block.
unfoldable pub first_fit : ℕ → Blocks → Option (ℕ × AllocInfo)
first_fit sz [] = none
first_fit sz ((k, i) ∷ bs) = let rest = first_fit sz bs in if fits i sz then some (k, i) else rest

-- `asz`
unfoldable pub aligned_size : ℕ → ℕ
aligned_size sz = if not (sz == 0) && sz % 16 == 0 then sz else (bit_or sz 15 + 1) % 2 ^ 64

-- The new entry for the rest of a block, and the entry of the block itself.
unfoldable pub split : ℕ → ℕ → AllocInfo → Blocks → Blocks
split sz k i bs =
    let asz = aligned_size sz in
    set_block k (record { bsz = asz; usz = sz; free = false })
      (set_block (k + asz) (record { bsz = (i.bsz + 2 ^ 64 - asz) % 2 ^ 64; usz = 0; free = true })
        bs)

-- The statistics of an allocation and of a deallocation.
unfoldable pub count_malloc : Statistics → ℕ → Statistics
count_malloc gs sz = record {
  active_count = (gs.active_count + 1) % 2 ^ 64;
  active_bytes = (gs.active_bytes + sz) % 2 ^ 64;
  total_count = (gs.total_count + 1) % 2 ^ 64;
  total_bytes = (gs.total_bytes + sz) % 2 ^ 64;
}

unfoldable pub count_free : Statistics → ℕ → Statistics
count_free gs usz = record gs {
  active_count = (gs.active_count + 2 ^ 64 - 1) % 2 ^ 64;
  active_bytes = (gs.active_bytes + 2 ^ 64 - usz) % 2 ^ 64;
}

-- The buffer is allocated by the first call; its address, `buffer`, is the answer of `malloc`.
unfoldable pub initialized : ℕ → Heap → Heap
initialized buffer h = elim h.blocks [
  | [] ↦ record h { blocks = (buffer, record { bsz = buffer_size; usz = 0; free = true }) ∷ [] }
  | _ ↦ h
]

-- `m61_malloc`; `none` is nullptr
unfoldable pub m61_malloc : ℕ → Heap → ℕ → Option ℕ × Heap
m61_malloc buffer h sz =
    let h' = initialized buffer h in
    elim (first_fit sz h'.blocks) [
      | none ↦ (none, h')
      | some (k, i) ↦
          (some k, record { blocks = split sz k i h'.blocks; gs = count_malloc h'.gs sz })
    ]

-- `m61_free`; `none` is a failed assertion, and 0 is nullptr
unfoldable pub m61_free : Heap → ℕ → Option Heap
m61_free h ptr = if ptr == 0 then some h else elim (lookup ptr h.blocks) [
  | none ↦ none
  | some i ↦
      if i.free
      then none
      else some (record {
        blocks = set_block ptr (record i { free = true }) h.blocks;
        gs = count_free h.gs i.usz;
      })
]
