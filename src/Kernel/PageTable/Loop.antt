-- ===== src/Kernel/PageTable/Loop.antt =====
-- The loop of init_kernel_memory, which maps physical memory page by page.
use Prim.Native.Nat.{bit_and, bit_or}
use native.Mathlib.Decide.{dec_lt}
use cs61_f26_psets.Common.{
  ℕ, zero, suc, ◌+◌, ◌-◌, ◌*◌, ◌/◌, ◌%◌, ◌^◌, ◌≤◌, ◌<◌, ◌≡◌, refl, ap, subst, ◌∙◌, true, false,
  some, arith, ltb, ◌==◌, lt→ltb, ◌&&◌, if◌then◌else◌,
}
use cs61_f26_psets.Common.Bits.{join, mask_high, mask_low}
use cs61_f26_psets.Common.Memory.{Memory, store_number}
use cs61_f26_psets.Kernel.State.{Kernel, memsize_physical, page_size}
use cs61_f26_psets.Kernel.Vmiter.{Vmiter, index, pte_pamask, vmiter}
use cs61_f26_psets.Kernel.Vmiter.Queries.{forward}
use cs61_f26_psets.Kernel.Vmiter.Map.{map, map_tables, may_map, mapped, try_map}
use cs61_f26_psets.Kernel.Vmiter.Map.Entry.{finish_map-last}
use cs61_f26_psets.Kernel.Vmiter.Range.{find-walk}
use cs61_f26_psets.Kernel.PageTable.{init_kernel_memory, link_tables, map_page, map_pages}
use cs61_f26_psets.Kernel.PageTable.Entries.{index_lem, stands}
use cs61_f26_psets.Kernel.PageTable.Tables.{IsMapped, link_tables-IsMapped, next_page-IsMapped}
use cs61_f26_psets.Kernel.PageTable.Identity.{page_table, vmiter-low}

-- The vmiter at page `n`.
abbrev pub at_page : ℕ → ℕ → Vmiter
at_page kp n = stands kp (page_table kp (4096 * n)) 12 (4096 * n)

-- Kernel state with another memory.
abbrev pub with_memory : Kernel → Memory → Kernel
with_memory k m = record k { memory = m }

abbrev pub with_page : ℕ → ℕ → Memory → Memory
with_page kp n m = store_number m (kp + 12288 + 8 * n) (4096 * n + 7) 8

aligned_address : (n : ℕ) → n < 512 → bit_and (4096 * n) pte_pamask ≡ 4096 * n
aligned_address n lt =
    omega (arith, mask_high 12 (2 ^ 40 - 1) (4096 * n), mask_low 40 (4096 * n / 4096))

module _ (kernel_end kp : ℕ) (k : Kernel) where
  may_map-page : (n : ℕ) → n < 512 → may_map (at_page kp n) (4096 * n) 7 ≡ true
  unfolding may_map
  may_map-page n lt = ground (arith, aligned_address n lt, lt)

  -- The entry of page `n`.
  pub entry_of :
      (n : ℕ) → n < 512 → page_table kp (4096 * n) + 8 * index (4096 * n) 12 ≡ kp + 12288 + 8 * n
  entry_of n lt = omega (arith, index_lem (4096 * n) 12)

  pub try_map-page :
      (n : ℕ)
      → n < 512
      → try_map kernel_end k (at_page kp n) (4096 * n) 7
        ≡ mapped (with_memory k (with_page kp n k.memory)) (at_page kp n)
  unfolding try_map map_tables
  try_map-page n lt =
      let address : (if 4096 * n == 2 ^ 64 - 1 && 7 == 0 then 0 else 4096 * n) ≡ 4096 * n =
        ground arith in
      rw (address, may_map-page n lt)
        (finish_map-last k (at_page kp n) (page_table kp (4096 * n) + 8 * index (4096 * n) 12)
            (4096 * n) 7 refl refl
          ∙ ap (λ m. mapped (with_memory k m) (at_page kp n))
              (ap (λ a. store_number k.memory a (bit_or (4096 * n) 7) 8) (entry_of n lt)
                ∙ ap (λ e. store_number k.memory (kp + 12288 + 8 * n) e 8)
                    (join 12 n 7 (omega arith))))

  map-some :
      (v v' : Vmiter) (addr perm : ℕ) (k' : Kernel)
      → try_map kernel_end k v addr perm ≡ mapped k' v'
      → map kernel_end k v addr perm ≡ some (k', v')
  unfolding map
  map-some v v' addr perm k' e = rw (map, e) refl

  map_page-some :
      (n : ℕ)
      → 0 < n
      → n < 512
      → map_page kernel_end k (at_page kp n)
        ≡ some (with_memory k (with_page kp n k.memory), at_page kp n)
  unfolding map_page
  map_page-some n pos lt =
      let test : (4096 * n == 0) ≡ false = ground (arith, pos) in
      rw test (
        map-some (at_page kp n) (at_page kp n) (4096 * n) 7
          (with_memory k (with_page kp n k.memory)) (try_map-page n lt))

  map_page-first : map_page kernel_end k (at_page kp 0) ≡ some (k, at_page kp 0)
  unfolding map_page
  map_page-first = refl

module _ (kernel_end kp : ℕ) (aligned : kp % 4096 ≡ 0) (low : kp + 5 * 4096 < 2 ^ 32) where
  -- `it += PAGESIZE` moves to the next page.
  forward-page :
      (m : Memory) (i n : ℕ)
      → IsMapped m kp i
      → i ≤ 512
      → n < 512
      → forward m (at_page kp n) page_size ≡ some (at_page kp (suc n))
  unfolding forward
  forward-page m i n h bound lt =
      let found = vmiter-low m kp i aligned low h bound (4096 * n) (omega arith) in
      let found' = vmiter-low m kp i aligned low h bound (4096 * suc n) (omega arith) in
      find-walk m (at_page kp n) ((4096 * n + page_size) % 2 ^ 64) found aligned (omega arith)
        (omega arith)
      ∙ ap (vmiter m kp) {x = (4096 * n + page_size) % 2 ^ 64} {y = 4096 * suc n} (omega arith)
      ∙ found'

  map_pages-done :
      (fuel : ℕ) (k : Kernel) → map_pages kernel_end (suc fuel) k (at_page kp 512) ≡ some k
  unfolding map_pages
  map_pages-done fuel k = refl

  map_pages-round :
      (fuel n : ℕ) (k k' : Kernel)
      → n < 512
      → map_page kernel_end k (at_page kp n) ≡ some (k', at_page kp n)
      → forward k'.memory (at_page kp n) page_size ≡ some (at_page kp (suc n))
      → map_pages kernel_end (suc fuel) k (at_page kp n)
        ≡ map_pages kernel_end fuel k' (at_page kp (suc n))
  unfolding map_pages
  map_pages-round fuel n k k' lt one moved =
      let test : ltb (4096 * n) memsize_physical ≡ true = lt→ltb _ _ (omega arith) in
      rw (map_pages, test, one, moved) refl

  -- The rounds from page `n` on.
  map_pages_lem :
      (fuel n : ℕ) (k : Kernel)
      → IsMapped k.memory kp n
      → 0 < n
      → n ≤ 512
      → 512 < n + fuel
      → (m : Memory) × (map_pages kernel_end fuel k (at_page kp n) ≡ some (with_memory k m))
        × IsMapped m kp 512
  map_pages_lem zero n k h pos le enough = absurd (omega arith)
  map_pages_lem (suc fuel) n k h pos le enough = elim (dec_lt n 512) [
    | no last ↦
        let e : n ≡ 512 = omega arith in
        (k.memory, rw e (map_pages-done fuel k), subst (IsMapped k.memory kp) e h)
    | yes more ↦
        let m' = with_page kp n k.memory in
        let h' = next_page-IsMapped k.memory kp n h pos more in
        let (m, rest, all) =
          map_pages_lem fuel (suc n) (with_memory k m') h' (omega arith) (omega arith)
            (omega arith) in
        (
          m,
          map_pages-round fuel n k (with_memory k m') more
                (map_page-some kernel_end kp k n pos more)
                (forward-page m' (suc n) n h' (omega arith) more)
              ∙ rest,
          all,
        )
  ]

  started :
      (fuel : ℕ) (k : Kernel)
      → vmiter (link_tables k.memory kp) kp 0 ≡ some (at_page kp 0)
      → init_kernel_memory kernel_end (suc fuel) k kp
        ≡ map_pages kernel_end (suc fuel) (with_memory k (link_tables k.memory kp)) (at_page kp 0)
  unfolding init_kernel_memory
  started fuel k e = rw (init_kernel_memory, e) refl

  -- init_kernel_memory ends, after one round for each page of physical memory, without a failed
  -- assertion, and changes memory only.
  pub init_kernel_memory-maps :
      (fuel : ℕ) (k : Kernel)
      → 512 < fuel
      → (m : Memory) × (init_kernel_memory kernel_end fuel k kp ≡ some (with_memory k m))
        × IsMapped m kp 512
  init_kernel_memory-maps zero k enough = absurd (omega arith)
  init_kernel_memory-maps (suc fuel) k enough =
      let m1 = link_tables k.memory kp in
      let k1 = with_memory k m1 in
      let h1 = link_tables-IsMapped k.memory kp aligned low in
      let (m, rest, all) = map_pages_lem fuel 1 k1 h1 (omega arith) (omega arith) (omega arith) in
      (
        m,
        started fuel k (vmiter-low m1 kp 1 aligned low h1 (omega arith) 0 (omega arith))
            ∙ map_pages-round fuel 0 k1 k1 (omega arith) (map_page-first kernel_end kp k1)
                (forward-page m1 1 0 h1 (omega arith) (omega arith))
            ∙ rest,
        all,
      )
