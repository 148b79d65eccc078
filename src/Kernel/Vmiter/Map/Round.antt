-- ===== src/Kernel/Vmiter/Map/Round.antt =====
-- One round of try_map: a missing table is allocated, and the iterator goes down to it.
use Prim.Native.Nat.{bit_and, bit_or}
use native.Mathlib.Decide.{dec_lt}
use cs61_f26_psets.Common.{
  ℕ, ◌+◌, ◌-◌, ◌*◌, ◌/◌, ◌%◌, ◌^◌, ◌≤◌, ◌<◌, ◌≡◌, ◌≢◌, ◌⊎◌, inl, inr, refl, ap, subst, ◌∙◌, true,
  false, Option, some, ◌==◌, arith,
}
use cs61_f26_psets.Common.Bits.{mask_low, mask_high, join, mask_ends, set_low, set_high}
use cs61_f26_psets.Common.Memory.{
  Memory, load, load_zero, load-store_number, store_number, store_number-outside,
}
use cs61_f26_psets.CLib.Blocks.{memset}
use cs61_f26_psets.CLib.Blocks.Copy.{memset_lem}
use cs61_f26_psets.Kernel.State.{Kernel, page_size, n_pages}
use cs61_f26_psets.Kernel.Alloc.{is_free}
use cs61_f26_psets.Kernel.Alloc.Search.{Takes, is_free_lem, kalloc_lem}
use cs61_f26_psets.Kernel.Vmiter.{
  Vmiter, complement, descend, descend_all, down, pte, goes_down, index, looks_uninitialized,
  pte_pamask, pte_pwu,
}
use cs61_f26_psets.Kernel.Vmiter.Map.{mapped, no_memory, link_table, new_table, set_entry}
use cs61_f26_psets.Kernel.Vmiter.Walk.{pred_of, descend_all-go, descend_all-halt, index-bound}
use cs61_f26_psets.Kernel.Vmiter.Range.{down-found}
use cs61_f26_psets.Kernel.Vmiter.Step.{IsLevel, lower-IsLevel}

-- The entry of a new table: its page is below 2 ^ 21.
entry_value : (q : ℕ) → q < n_pages → bit_or (q * page_size) pte_pwu ≡ q * page_size + 7
entry_value q lt =
    let whole : 4096 * q ≡ q * page_size = omega arith in
    omega (arith, ap (λ t. bit_or t 7) whole, join 12 q 7 (omega arith))

pub all_ones : (x : ℕ) → x < 2 ^ 64 → x % 8 ≡ 7 → bit_or x (complement pte_pwu) ≡ 2 ^ 64 - 1
all_ones x lt e = omega (arith, set_high (2 ^ 61 - 1) x e, set_low 61 (x / 8))

entry_parts :
    (q : ℕ)
    → q < n_pages
    → let e = q * page_size + 7 in (bit_and e 0x81 ≡ 1) × (bit_and e pte_pamask ≡ q * page_size)
entry_parts q lt =
    let e = q * page_size + 7 in
    (omega (arith, mask_ends e), omega (arith, mask_high 12 (2 ^ 40 - 1) e, mask_low 40 (e / 4096)))

-- The entry of the iterator is in memory, outside every page that kalloc may return, and if it is
-- above the last level, it has no table.
pub record IsOpen (kernel_end : ℕ) (k : Kernel) (v : Vmiter) : Type 0 where
  pub at : ℕ
  pub is_at : v.pep ≡ some at
  pub level : IsLevel v.lbits
  pub absent : 12 < v.lbits → pte k.memory v.pep % 2 ≡ 0
  pub in_use :
      (q : ℕ)
      → is_free kernel_end k q ≡ true
      → (at + 8 ≤ q * page_size) ⊎ (q * page_size + page_size ≤ at)

-- The memory after page `q` was cleared and its entry was set at `a`.
module _ (m : Memory) (a q : ℕ) (lt : q < n_pages) where
  abbrev linked : Memory
  linked = store_number (memset m (q * page_size) 0 page_size) a (q * page_size + 7) 8

  linked-entry : load linked a 8 ≡ q * page_size + 7
  linked-entry =
      load-store_number (memset m (q * page_size) 0 page_size) a (q * page_size + 7) 8
        (omega (arith, lt))

  linked-byte :
      (a + 8 ≤ q * page_size) ⊎ (q * page_size + page_size ≤ a)
      → (i : ℕ) → i < page_size
      → linked (q * page_size + i) ≡ 0
  linked-byte out i small =
      store_number-outside (memset m (q * page_size) 0 page_size) a (q * page_size + 7) 8
        (q * page_size + i) (ground (arith, out, small))
      ∙ (memset_lem m (q * page_size) 0 page_size).0 i small

  linked-table :
      (a + 8 ≤ q * page_size) ⊎ (q * page_size + page_size ≤ a)
      → (i : ℕ) → i < 512
      → load linked (q * page_size + 8 * i) 8 ≡ 0
  linked-table out i small = load_zero linked (q * page_size + 8 * i) 8 (λ b lo hi.
      subst (λ c. linked c ≡ 0) {x = q * page_size + (b - q * page_size)} {y = b} (omega arith)
        (linked-byte out (b - q * page_size) (omega arith)))

zero_entry :
    (m : Memory) (v : Vmiter)
    → pte m v.pep ≡ 0
    → (goes_down m v ≡ false) × (looks_uninitialized m v ≡ false)
unfolding goes_down looks_uninitialized
zero_entry m v e = rw (e) (ground arith, refl)

-- Where the iterator goes down to.
abbrev below : Vmiter → ℕ → Vmiter
below v q = record v {
  lbits = v.lbits - 9;
  pep = some (q * page_size + 8 * index v.va (v.lbits - 9));
}

module _ (m : Memory) (v : Vmiter) (a q : ℕ) (lt : q < n_pages) (is_at : v.pep ≡ some a) where
  entry-linked : pte (linked m a q lt) v.pep ≡ q * page_size + 7
  unfolding pte
  entry-linked = rw (is_at) (linked-entry m a q lt)

  linked-goes_down : 12 < v.lbits → goes_down (linked m a q lt) v ≡ true
  unfolding goes_down
  linked-goes_down high = rw (entry-linked, (entry_parts q lt).0) (ground (arith, high))

  linked-descend : v.perm < 2 ^ 64 → descend (linked m a q lt) v ≡ below v q
  unfolding descend
  linked-descend small =
      rw
        (
          entry-linked,
          (entry_parts q lt).1,
          all_ones (q * page_size + 7) (omega (arith, lt)) (omega arith),
        )
        (ap (λ p. record (below v q) { perm = p }) (mask_low 64 v.perm ∙ omega (arith, small)))

  module _ (out : (a + 8 ≤ q * page_size) ⊎ (q * page_size + page_size ≤ a)) where
    below-entry : pte (linked m a q lt) (below v q).pep ≡ 0
    unfolding pte
    below-entry =
        linked-table m a q lt out (index v.va (v.lbits - 9)) (index-bound v.va (v.lbits - 9))

    linked-down : 12 < v.lbits → v.perm < 2 ^ 64 → down (linked m a q lt) v ≡ some (below v q)
    linked-down high small =
        let (f, e) = pred_of v.lbits (omega arith) in
        let m' = linked m a q lt in
        let (stop, safe) = zero_entry m' (below v q) below-entry in
        let walk : descend_all v.lbits m' v ≡ below v q =
          ap (λ n. descend_all n m' v) e
          ∙ descend_all-go f m' v (linked-goes_down high)
          ∙ ap (descend_all f m') (linked-descend small)
          ∙ descend_all-halt f m' (below v q) stop in
        down-found m' v (below v q) walk safe

-- A round has put a table below the iterator: nothing but the level and the entry has changed.
pub record GoesBelow (kernel_end : ℕ) (k : Kernel) (v : Vmiter) (k' : Kernel) (v' : Vmiter)
    : Type 0 where
  pub still_open : IsOpen kernel_end k' v'
  pub next_level : v'.lbits ≡ v.lbits - 9
  pub same_va : v'.va ≡ v.va
  pub same_pt : v'.pt ≡ v.pt
  pub same_perm : v'.perm ≡ v.perm

not_free :
    (kernel_end : ℕ) (k k' k'' : Kernel) (q j : ℕ)
    → Takes kernel_end k q k'
    → k''.refcount ≡ k'.refcount
    → is_free kernel_end k'' j ≡ true
    → j ≢ q
not_free kernel_end k k' k'' q j takes counts is same =
    ground (arith, (is_free_lem kernel_end k'' j is).1, takes.counted j, ap (λ f. f j) counts, same)

free-before :
    (kernel_end : ℕ) (k k' : Kernel) (q : ℕ)
    → Takes kernel_end k q k'
    → is_free kernel_end k q ≡ true
unfolding is_free
free-before kernel_end k k' q takes = ground (arith, takes.allocatable, takes.unused)

pub set_entry-some :
    (k : Kernel) (pep : Option ℕ) (a x : ℕ)
    → pep ≡ some a
    → set_entry k pep x ≡ some (record k { memory = store_number k.memory a x 8 })
unfolding set_entry
set_entry-some k pep a x e = rw (e) refl

link_table-to :
    (kernel_end : ℕ) (k : Kernel) (v : Vmiter) (pt : ℕ) (k' : Kernel) (v' : Vmiter)
    → set_entry (record k { memory = memset k.memory pt 0 page_size }) v.pep (bit_or pt pte_pwu)
      ≡ some k'
    → down k'.memory v ≡ some v'
    → link_table kernel_end k v pt ≡ mapped k' v'
unfolding link_table
link_table-to kernel_end k v pt k' v' e down_to = rw (link_table, e, down_to) refl

other_pages :
    (q j i : ℕ)
    → j ≢ q
    → i < 512
    → let a = q * page_size + 8 * i in (a + 8 ≤ j * page_size) ⊎ (j * page_size + page_size ≤ a)
other_pages q j i ne lt = elim (dec_lt j q) [
  | yes before ↦ inr (omega arith)
  | no not_before ↦ inl (omega (arith, ne))
]

link_table-lem :
    (kernel_end : ℕ) (k k' : Kernel) (v : Vmiter) (q : ℕ)
    → IsOpen kernel_end k v
    → Takes kernel_end k q k'
    → 12 < v.lbits
    → v.perm < 2 ^ 64
    → (k'' : Kernel) × (v' : Vmiter) × (link_table kernel_end k' v (q * page_size) ≡ mapped k'' v')
      × GoesBelow kernel_end k v k'' v'
link_table-lem kernel_end k k' v q h takes high small =
    let m = k'.memory in
    let lt = takes.in_range in
    let out = h.in_use q (free-before kernel_end k k' q takes) in
    let down_to = linked-down m v h.at q lt h.is_at out high small in
    let k'' : Kernel = record k' { memory = linked m h.at q lt } in
    (
      k'',
      below v q,
      link_table-to kernel_end k' v (q * page_size) k'' (below v q)
          (set_entry-some (record k' { memory = memset m (q * page_size) 0 page_size }) v.pep h.at
              (bit_or (q * page_size) pte_pwu) h.is_at
            ∙ ap
                (λ e. some (record k' {
                  memory = store_number (memset m (q * page_size) 0 page_size) h.at e 8;
                }))
                (entry_value q lt))
          down_to,
      record {
        still_open = record {
          at = q * page_size + 8 * index v.va (v.lbits - 9);
          is_at = refl;
          level = lower-IsLevel v.lbits h.level high;
          absent = λ more. omega (arith, below-entry m v h.at q lt h.is_at out);
          in_use = λ j free.
              other_pages q j (index v.va (v.lbits - 9))
                (not_free kernel_end k k' k'' q j takes refl free) (index-bound v.va (v.lbits - 9));
        };
        next_level = refl;
        same_va = refl;
        same_pt = refl;
        same_perm = refl;
      },
    )

pub new_table-lem :
    (kernel_end : ℕ) (k : Kernel) (v : Vmiter)
    → IsOpen kernel_end k v
    → 12 < v.lbits
    → v.perm < 2 ^ 64
    → (((j : ℕ) → j < n_pages → is_free kernel_end k j ≡ false)
        × (new_table kernel_end k v ≡ no_memory k v))
      ⊎ ((k' : Kernel) × (v' : Vmiter) × (new_table kernel_end k v ≡ mapped k' v')
          × GoesBelow kernel_end k v k' v')
unfolding new_table
new_table-lem kernel_end k v h high small =
    let here : (bit_and (pte k.memory v.pep) 1 == 0) ≡ true =
      ground (arith, mask_low 1 (pte k.memory v.pep), h.absent high) in
    elim (kalloc_lem kernel_end k page_size) [
      | inl (big, e) ↦ absurd (omega arith)
      | inr (fits, inr (none_free, e)) ↦
          inl (none_free, rw (here, ap (λ r. r.0) e, ap (λ r. r.1) e) refl)
      | inr (fits, inl (q, k', e, takes)) ↦
          let (k'', v', linked_to, goes) = link_table-lem kernel_end k k' v q h takes high small in
          inr (k'', v', rw (here, ap (λ r. r.0) e, ap (λ r. r.1) e) linked_to, goes)
    ]
