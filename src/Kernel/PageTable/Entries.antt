-- ===== src/Kernel/PageTable/Entries.antt =====
-- Entries of the kernel's page tables.
use Prim.Native.Nat.{bit_and, bit_or}
use cs61_f26_psets.Common.{
  ℕ, ◌+◌, ◌-◌, ◌*◌, ◌/◌, ◌%◌, ◌^◌, ◌<◌, ◌≡◌, refl, ap, ◌∙◌, true, false, some, arith,
}
use cs61_f26_psets.Common.Bits.{mask_low, mask_high, mask_ends, or-one, or-two, or-four}
use cs61_f26_psets.Common.Memory.{Memory, load}
use cs61_f26_psets.Kernel.State.{page_size}
use cs61_f26_psets.Kernel.Vmiter.{
  Vmiter, at_root, complement, descend, descend_all, down, pte, goes_down, index,
  looks_uninitialized, pte_pamask, vmiter, va_is_canonical,
}
use cs61_f26_psets.Kernel.Vmiter.Walk.{descend_all-go, descend_all-halt}
use cs61_f26_psets.Kernel.Vmiter.Step.{canonical-root}
use cs61_f26_psets.Kernel.Vmiter.Range.{down-found}
use cs61_f26_psets.Kernel.Vmiter.Map.Round.{all_ones}
use cs61_f26_psets.Kernel.PageTable.{table_entry}

-- The vmiter at the entry for `va` in `table`, when nothing has taken permissions off.
abbrev pub stands : ℕ → ℕ → ℕ → ℕ → Vmiter
stands kp table lbits va = record {
  pt = kp;
  pep = some (table + 8 * index va lbits);
  lbits = lbits;
  perm = 0xFFF;
  va = va;
}

-- An entry that links a table is its address with the three permissions.
pub table_entry_lem : (kp t : ℕ) → kp % 4096 ≡ 0 → table_entry kp t ≡ kp + t * page_size + 7
table_entry_lem kp t aligned =
    let a = kp + t * page_size in
    let one : bit_or a 1 ≡ a + 1 = or-one a (omega (arith, aligned)) in
    let two : bit_or (bit_or a 1) 2 ≡ a + 3 =
      omega (arith, or-two (bit_or a 1) (omega (arith, aligned, one)), one) in
    omega (arith, or-four (bit_or (bit_or a 1) 2) (omega (arith, aligned, two)), two)

pub linked_parts :
    (t : ℕ)
    → t % 4096 ≡ 0
    → t < 2 ^ 32
    → (bit_and (t + 7) 0x81 ≡ 1)
      × (bit_and (t + 7) pte_pamask ≡ t)
      × (bit_or (t + 7) (complement 7) ≡ 2 ^ 64 - 1)
linked_parts t aligned lt =
    let e = t + 7 in
    (
      omega (arith, mask_ends e),
      omega (arith, mask_high 12 (2 ^ 40 - 1) e, mask_low 40 (e / 4096)),
      all_ones e (omega (arith, lt)) (omega (arith, aligned)),
    )

-- A step down through such an entry.
module _ (m : Memory) (kp table lbits va t : ℕ) (high : 12 < lbits)
    (is : load m (table + 8 * index va lbits) 8 ≡ t + 7) (aligned : t % 4096 ≡ 0)
    (lt : t < 2 ^ 32) where
  pub goes_down-stands : goes_down m (stands kp table lbits va) ≡ true
  unfolding goes_down pte
  goes_down-stands =
      let bits : bit_and (load m (table + 8 * index va lbits) 8) 0x81 ≡ 1 =
        ap (λ e. bit_and e 0x81) is ∙ (linked_parts t aligned lt).0 in
      ground (arith, bits)

  pub descend-stands : descend m (stands kp table lbits va) ≡ stands kp t (lbits - 9) va
  unfolding descend pte
  descend-stands = let (bits, base, ones) = linked_parts t aligned lt in rw (is, base, ones) refl

-- The permissions of the leaves: a page with all three, no page, and a page of a device.
pub page_leaf :
    (a : ℕ)
    → a % 4096 ≡ 0
    → a < 2 ^ 32
    → (bit_and (a + 7) pte_pamask ≡ a) × (bit_and (a + 7) 1 ≡ 1) × (bit_and (a + 7) 0xFFF ≡ 7)
page_leaf a aligned lt =
    let e = a + 7 in
    (
      (linked_parts a aligned lt).1,
      omega (arith, mask_low 1 e, aligned),
      omega (arith, mask_low 12 e, aligned),
    )

-- An address below 2 ^ 39 is in the first entry of the root.
pub low_address : (va : ℕ) → va < 2 ^ 39 → (va_is_canonical va ≡ true) × (index va 39 ≡ 0)
unfolding va_is_canonical index
low_address va lt = (ground (arith, lt), omega (arith, mask_low 9 (va / 2 ^ 39), lt))

pub index_lem : (va l : ℕ) → index va l ≡ va / 2 ^ l % 512
unfolding index
index_lem va l = mask_low 9 (va / 2 ^ l)

-- The first entry of a table.
pub entry_at : (m : Memory) (x i e : ℕ) → i ≡ 0 → load m x 8 ≡ e → load m (x + 8 * i) 8 ≡ e
entry_at m x i e first_index is =
    ap (λ a. load m a 8) {x = x + 8 * i} {y = x} (omega (arith, first_index)) ∙ is

-- The way to the entry of an address below 1 GB, whose last table is `t`.
module _ (m : Memory) (kp va t : ℕ) (aligned : kp % 4096 ≡ 0) (low : kp + 5 * 4096 < 2 ^ 32)
    (small : va < 2 ^ 30) (first : load m kp 8 ≡ kp + 4096 + 7)
    (second : load m (kp + 4096) 8 ≡ kp + 8192 + 7)
    (third : load m (kp + 8192 + 8 * index va 21) 8 ≡ t + 7) (t_aligned : t % 4096 ≡ 0)
    (t_low : t < 2 ^ 32) where
  root-stands : at_root kp va ≡ stands kp kp 39 va
  unfolding at_root
  root-stands = refl

  last-stops : goes_down m (stands kp t 12 va) ≡ false
  unfolding goes_down
  last-stops = refl

  walk-leaf : descend_all 39 m (stands kp kp 39 va) ≡ stands kp t 12 va
  walk-leaf =
      let e1 =
        entry_at m kp (index va 39) (kp + 4096 + 7) (omega (arith, index_lem va 39, small)) first in
      let e2 =
        entry_at m (kp + 4096) (index va 30) (kp + 8192 + 7) (omega (arith, index_lem va 30, small))
          second in
      let go1 =
        goes_down-stands m kp kp 39 va (kp + 4096) (omega arith) e1 (omega arith) (omega arith) in
      let go2 =
        goes_down-stands m kp (kp + 4096) 30 va (kp + 8192) (omega arith) e2 (omega arith)
          (omega arith) in
      let go3 = goes_down-stands m kp (kp + 8192) 21 va t (omega arith) third t_aligned t_low in
      descend_all-go 38 m (stands kp kp 39 va) go1
      ∙ ap (descend_all 38 m)
          (descend-stands m kp kp 39 va (kp + 4096) (omega arith) e1 (omega arith) (omega arith))
      ∙ descend_all-go 37 m (stands kp (kp + 4096) 30 va) go2
      ∙ ap (descend_all 37 m) (
          descend-stands m kp (kp + 4096) 30 va (kp + 8192) (omega arith) e2 (omega arith)
            (omega arith))
      ∙ descend_all-go 36 m (stands kp (kp + 8192) 21 va) go3
      ∙ ap (descend_all 36 m)
          (descend-stands m kp (kp + 8192) 21 va t (omega arith) third t_aligned t_low)
      ∙ descend_all-halt 36 m (stands kp t 12 va) last-stops

  pub vmiter-leaf :
      looks_uninitialized m (stands kp t 12 va) ≡ false → vmiter m kp va ≡ some (stands kp t 12 va)
  vmiter-leaf safe =
      canonical-root m kp va (low_address va (omega (arith, small))).0
      ∙ ap (down m) root-stands
      ∙ down-found m (stands kp kp 39 va) (stands kp t 12 va) walk-leaf safe
