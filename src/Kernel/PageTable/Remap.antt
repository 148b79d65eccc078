-- ===== src/Kernel/PageTable/Remap.antt =====
-- kernel_start installs the identity mapping once more: nothing changes.
use native.Mathlib.Decide.{ℕ_discrete}
use cs61_f26_psets.Common.{
  ℕ, zero, suc, ◌+◌, ◌*◌, ◌%◌, ◌^◌, ◌≤◌, ◌<◌, ◌≡◌, ◌≢◌, ◌⊎◌, inl, inr, refl, ap, subst, ◌∙◌, some,
  arith, ◌==◌, if◌then◌else◌,
}
use cs61_f26_psets.Common.Memory.{Memory, load-store_number, store_number}
use cs61_f26_psets.Kernel.State.{Kernel, page_size}
use cs61_f26_psets.Kernel.Vmiter.{index, vmiter}
use cs61_f26_psets.Kernel.Vmiter.Map.{map_tables, may_map, mapped, try_map}
use cs61_f26_psets.Kernel.Vmiter.Map.Entry.{finish_map-last}
use cs61_f26_psets.Kernel.PageTable.{install, remap_page, remap_pages}
use cs61_f26_psets.Kernel.PageTable.Tables.{IsMapped, load-other, page_entry}
use cs61_f26_psets.Kernel.PageTable.Identity.{page_table, vmiter-low}
use cs61_f26_psets.Kernel.PageTable.Loop.{at_page, entry_of, try_map-page, with_memory, with_page}

-- Writing an entry of the last table that is there already.
same_entry-IsMapped :
    (m : Memory) (kp n x : ℕ)
    → IsMapped m kp 512
    → n < 512
    → x ≡ page_entry 512 n
    → x < 2 ^ 64
    → IsMapped (store_number m (kp + 12288 + 8 * n) x 8) kp 512
same_entry-IsMapped m kp n x h lt is fits =
    let a = kp + 12288 + 8 * n in
    let other = load-other m a x in
    record {
      root = other kp (inl (omega arith)) ∙ h.root;
      second = other (kp + 4096) (inl (omega arith)) ∙ h.second;
      third = other (kp + 8192) (inl (omega arith)) ∙ h.third;
      fourth = other (kp + 8200) (inl (omega arith)) ∙ h.fourth;
      device = λ i pos lt. other (kp + 4096 + 8 * i) (inl (omega arith)) ∙ h.device i pos lt;
      leaf = λ j below. elim (ℕ_discrete j n) [
        | yes e ↦ rw e (load-store_number m a x 8 (omega arith) ∙ is)
        | no ne ↦ other (kp + 12288 + 8 * j) (apart j ne) ∙ h.leaf j below
      ];
      beyond = λ j small. other (kp + 16384 + 8 * j) (inr (omega arith)) ∙ h.beyond j small;
    }
  where
    apart :
        (j : ℕ)
        → j ≢ n
        → (kp + 12288 + 8 * j + 8 ≤ kp + 12288 + 8 * n)
          ⊎ (kp + 12288 + 8 * n + 8 ≤ kp + 12288 + 8 * j)
    apart j ne = ground (arith, ne)

module _ (kernel_end kp : ℕ) (aligned : kp % 4096 ≡ 0) (low : kp + 5 * 4096 < 2 ^ 32) where
  -- The first page is mapped to nothing again.
  try_map-first :
      (k : Kernel)
      → try_map kernel_end k (at_page kp 0) 0 0
        ≡ mapped (with_memory k (store_number k.memory (kp + 12288 + 8 * 0) 0 8)) (at_page kp 0)
  unfolding try_map map_tables may_map
  try_map-first k =
      finish_map-last k (at_page kp 0) (page_table kp 0 + 8 * index 0 12) 0 0 refl refl
      ∙ ap (λ a. mapped (with_memory k (store_number k.memory a 0 8)) (at_page kp 0))
          (entry_of kernel_end kp k 0 (omega arith))

  installed :
      (k k' : Kernel) (n : ℕ)
      → try_map kernel_end k (at_page kp n) (4096 * n) (if 4096 * n == 0 then 0 else 7)
        ≡ mapped k' (at_page kp n)
      → install kernel_end k (at_page kp n) (4096 * n) ≡ some k'
  unfolding install
  installed k k' n e = rw (install, e) refl

  remap_page-mapped :
      (k k' : Kernel) (n perm : ℕ)
      → vmiter k.memory kp (4096 * n) ≡ some (at_page kp n)
      → perm ≡ (if 4096 * n == 0 then 0 else 7)
      → try_map kernel_end k (at_page kp n) (4096 * n) perm ≡ mapped k' (at_page kp n)
      → remap_page kernel_end k kp (4096 * n) ≡ some k'
  unfolding remap_page
  remap_page-mapped k k' n perm found is e =
      rw (remap_page, found) (installed k k' n (subst MapsWith is e))
    where
      MapsWith : ℕ → Type 0
      MapsWith p = try_map kernel_end k (at_page kp n) (4096 * n) p ≡ mapped k' (at_page kp n)

  remap_page_lem :
      (k : Kernel) (n : ℕ)
      → IsMapped k.memory kp 512
      → n < 512
      → (m : Memory) × (remap_page kernel_end k kp (4096 * n) ≡ some (with_memory k m))
        × IsMapped m kp 512
  remap_page_lem k zero h lt = (
    store_number k.memory (kp + 12288 + 8 * 0) 0 8,
    remap_page-mapped k (with_memory k (store_number k.memory (kp + 12288 + 8 * 0) 0 8)) 0 0
        (vmiter-low k.memory kp 512 aligned low h (omega arith) 0 (omega arith)) refl
        (try_map-first k),
    same_entry-IsMapped k.memory kp 0 0 h lt refl (omega arith),
  )
  remap_page_lem k (suc n) h lt = (
    with_page kp (suc n) k.memory,
    remap_page-mapped k (with_memory k (with_page kp (suc n) k.memory)) (suc n) 7
        (vmiter-low k.memory kp 512 aligned low h (omega arith) (4096 * suc n) (omega arith))
        (ground arith) (try_map-page kernel_end kp k (suc n) lt),
    same_entry-IsMapped k.memory kp (suc n) (4096 * suc n + 7) h lt (ground (arith, lt))
        (omega arith),
  )

  remap_pages-next :
      (rounds addr addr' : ℕ) (k k' : Kernel)
      → remap_page kernel_end k kp addr ≡ some k'
      → addr + page_size ≡ addr'
      → remap_pages kernel_end (suc rounds) k kp addr ≡ remap_pages kernel_end rounds k' kp addr'
  unfolding remap_pages
  remap_pages-next rounds addr addr' k k' e same = rw (remap_pages, e, same) refl

  remap_pages-end : (k : Kernel) (addr : ℕ) → remap_pages kernel_end 0 k kp addr ≡ some k
  unfolding remap_pages
  remap_pages-end k addr = refl

  pub remap_pages_lem :
      (rounds n : ℕ) (k : Kernel)
      → IsMapped k.memory kp 512
      → n + rounds ≤ 512
      → (m : Memory) × (remap_pages kernel_end rounds k kp (4096 * n) ≡ some (with_memory k m))
        × IsMapped m kp 512
  remap_pages_lem zero n k h le = (k.memory, remap_pages-end k (4096 * n), h)
  remap_pages_lem (suc rounds) n k h le =
      let (m, one, h') = remap_page_lem k n h (omega arith) in
      let (m', rest, h'') = remap_pages_lem rounds (suc n) (with_memory k m) h' (omega arith) in
      (
        m',
        remap_pages-next rounds (4096 * n) (4096 * suc n) k (with_memory k m) one (omega arith)
            ∙ rest,
        h'',
      )
