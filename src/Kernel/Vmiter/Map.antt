-- ===== src/Kernel/Vmiter/Map.antt =====
-- pset3/k-vmiter.cc: vmiter::try_map, which allocates the page tables that are missing above an
-- address and sets its entry.
pub mod Round
pub mod Entry
use Prim.Native.Nat.{bit_and, bit_or}
use cs61_f26_psets.Common.{
  ℕ, zero, suc, ◌+◌, ◌-◌, ◌*◌, ◌/◌, ◌%◌, ◌^◌, Bool, true, false, not, ◌&&◌, ◌||◌, Option, none,
  some, ltb, leb, ◌==◌, if◌then◌else◌,
}
use cs61_f26_psets.Common.Memory.{Memory, load, store_number}
use cs61_f26_psets.CLib.Blocks.{memset}
use cs61_f26_psets.Kernel.State.{Kernel, page_size}
use cs61_f26_psets.Kernel.Alloc.{kalloc}
use cs61_f26_psets.Kernel.Vmiter.{
  Vmiter, complement, down, pte, page_off_bits, pte_p, pte_pamask, pte_pwu,
}

-- try_map returns 0 or -1, or an assertion or a panic stops it.
pub data MapResult : Type 0 where
  mapped no_memory : Kernel → Vmiter → MapResult
  failed : MapResult

-- `*pep_ = v`; `zero_pe` is constant.
unfoldable pub set_entry : Kernel → Option ℕ → ℕ → Option Kernel
set_entry k none v = none
set_entry k (some a) v = some (record k { memory = store_number k.memory a v 8 })

-- The assertions.
unfoldable pub may_map : Vmiter → ℕ → ℕ → Bool
may_map v pa perm =
    v.va % page_size == 0
    && ((if bit_and perm pte_p == 0
          then bit_and pa pte_p == 0
          else (not (pa == 2 ^ 64 - 1) && bit_and pa pte_pamask == pa))
        && bit_and (bit_and perm (complement v.perm)) pte_pwu == 0)

-- The entry, if the iterator has reached the last level.
unfoldable pub finish_map : MapResult → ℕ → ℕ → MapResult
finish_map (mapped k v) pa perm =
    if v.lbits == page_off_bits
    then elim (set_entry k v.pep (bit_or pa perm)) [ none ↦ failed | some k' ↦ mapped k' v ]
    else mapped k v
finish_map r pa perm = r

module _ (kernel_end : ℕ) where
  -- The new table `pt` is cleared and linked, and the iterator goes down to it.
  unfoldable pub link_table : Kernel → Vmiter → ℕ → MapResult
  link_table k v pt =
      elim (set_entry (record k { memory = memset k.memory pt 0 page_size }) v.pep
        (bit_or pt pte_pwu)) [
          | none ↦ failed
          | some k' ↦ elim (down k'.memory v) [ none ↦ failed | some v' ↦ mapped k' v' ]
        ]

  -- One round of the loop.
  unfoldable pub new_table : Kernel → Vmiter → MapResult
  new_table k v =
      if not (bit_and (pte k.memory v.pep) pte_p == 0)
      then failed
      else let r = kalloc kernel_end k page_size in
        elim r.0 [ none ↦ no_memory r.1 v | some pt ↦ link_table r.1 v pt ]

  -- The loop in `fuel` rounds, of which the last only finds that nothing is left to do.
  unfoldable pub map_tables : ℕ → Kernel → Vmiter → ℕ → MapResult
  map_tables zero k v perm = failed
  map_tables (suc fuel) k v perm = elim (ltb page_off_bits v.lbits && not (perm == 0)) [
    | false ↦ mapped k v
    | true ↦ elim (new_table k v) [
      | mapped k' v' ↦ map_tables fuel k' v' perm
      | no_memory k' v' ↦ no_memory k' v'
      | failed ↦ failed
    ]
  ]

  -- `perm` is the bit pattern of an int that is not negative. A table takes nine bits off, so that
  -- `lbits` rounds are enough.
  unfoldable pub try_map : Kernel → Vmiter → ℕ → ℕ → MapResult
  try_map k v pa perm =
      let pa' = (if pa == 2 ^ 64 - 1 && perm == 0 then 0 else pa) in
      if may_map v pa' perm then finish_map (map_tables (suc v.lbits) k v perm) pa' perm else failed

  -- `map`, whose assertion is that try_map succeeds
  unfoldable pub map : Kernel → Vmiter → ℕ → ℕ → Option (Kernel × Vmiter)
  map k v pa perm = elim (try_map k v pa perm) [
    | mapped k' v' ↦ some (k', v')
    | no_memory k' v' ↦ none
    | failed ↦ none
  ]
