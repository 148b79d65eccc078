-- ===== src/Kernel/PageTable/Answers.antt =====
-- What vmiters over the kernel's page table say.
use Prim.Native.Nat.{bit_and}
use cs61_f26_psets.Common.{
  ℕ, zero, suc, ◌+◌, ◌-◌, ◌*◌, ◌/◌, ◌%◌, ◌^◌, ◌≤◌, ◌<◌, ◌≡◌, ◌⊎◌, refl, ap, ◌∙◌, false, some, arith,
}
use cs61_f26_psets.Common.Bits.{mask_low}
use cs61_f26_psets.Common.Memory.{Memory, load}
use cs61_f26_psets.Kernel.Vmiter.{
  Vmiter, at_root, descend_all, down, goes_down, index, looks_uninitialized, pte, pte_pamask,
  vmiter,
}
use cs61_f26_psets.Kernel.Vmiter.Queries.{pa, permissions}
use cs61_f26_psets.Kernel.Vmiter.Walk.{descend_all-go, descend_all-halt}
use cs61_f26_psets.Kernel.Vmiter.Step.{canonical-root}
use cs61_f26_psets.Kernel.Vmiter.Range.{down-found}
use cs61_f26_psets.Kernel.PageTable.Entries.{
  descend-stands, entry_at, goes_down-stands, index_lem, low_address, page_leaf, stands,
}
use cs61_f26_psets.Kernel.PageTable.Tables.{IsMapped, page_entry}
use cs61_f26_psets.Kernel.PageTable.Identity.{leaf_at, page_table, vmiter-low}

-- A vmiter of the table at `kp` finds the address `va`, and says that it is mapped to `addr` with
-- the permissions `perm`.
abbrev pub Says : Memory → ℕ → ℕ → ℕ → ℕ → Type 0
Says m kp va addr perm =
    (v : Vmiter) × (vmiter m kp va ≡ some v) × (pa m v ≡ addr) × (permissions m v ≡ perm)

-- The answers at an entry of the last level.
page_answers :
    (m : Memory) (kp table va a : ℕ)
    → load m (table + 8 * index va 12) 8 ≡ a + 7
    → a % 4096 ≡ 0
    → a < 2 ^ 32
    → (pa m (stands kp table 12 va) ≡ a + va % 4096) × (permissions m (stands kp table 12 va) ≡ 7)
unfolding pa permissions pte
page_answers m kp table va a is aligned lt =
    let (base, bit, perms) = page_leaf a aligned lt in
    (rw (is, bit, base) (omega (arith, mask_low 12 va)), rw (is, perms) refl)

no_answers :
    (m : Memory) (kp table va : ℕ)
    → load m (table + 8 * index va 12) 8 ≡ 0
    → (pa m (stands kp table 12 va) ≡ 2 ^ 64 - 1) × (permissions m (stands kp table 12 va) ≡ 0)
unfolding pa permissions pte
no_answers m kp table va is = (rw is refl, rw is refl)

module _ (m : Memory) (kp n : ℕ) (aligned : kp % 4096 ≡ 0) (low : kp + 5 * 4096 < 2 ^ 32)
    (h : IsMapped m kp n) (bound : n ≤ 512) where
  -- A page that is mapped.
  pub page-Says : (va : ℕ) → 4096 ≤ va → va / 4096 < n → Says m kp va va 7
  page-Says va pos below =
      let value : page_entry n (va / 4096) ≡ 4096 * (va / 4096) + 7 = ground (arith, pos, below) in
      let (at, perms) =
        page_answers m kp (page_table kp va) va (4096 * (va / 4096))
          (leaf_at m kp n aligned low h bound va (omega arith) ∙ value) (omega arith)
          (omega arith) in
      (
        stands kp (page_table kp va) 12 va,
        vmiter-low m kp n aligned low h bound va (omega arith),
        omega (arith, at),
        perms,
      )

  -- The first page, and the pages behind those that are mapped.
  pub hole-Says :
      (va : ℕ) → va < 2 ^ 22 → (va < 4096) ⊎ (n ≤ va / 4096) → Says m kp va (2 ^ 64 - 1) 0
  hole-Says va lt out =
      let value : page_entry n (va / 4096) ≡ 0 = ground (arith, out) in
      let (at, perms) =
        no_answers m kp (page_table kp va) va (leaf_at m kp n aligned low h bound va lt ∙ value) in
      (stands kp (page_table kp va) 12 va, vmiter-low m kp n aligned low h bound va lt, at, perms)

-- An entry that maps a page of 1 GB, with the address in it.
device_entry_lem :
    (i : ℕ)
    → 0 < i
    → i < 4
    → let e = i * 2 ^ 30 + 0x83 in
      (bit_and e 0x81 ≡ 0x81)
      × (bit_and (bit_and e pte_pamask) (2 ^ 64 - 1 - 0x1000) ≡ i * 2 ^ 30)
      × (bit_and e 1 ≡ 1)
      × (bit_and e 0xFFF ≡ 0x83)
device_entry_lem zero pos lt = absurd (omega arith)
device_entry_lem (suc zero) pos lt = (refl, refl, refl, refl)
device_entry_lem (suc (suc zero)) pos lt = (refl, refl, refl, refl)
device_entry_lem (suc (suc (suc zero))) pos lt = (refl, refl, refl, refl)
device_entry_lem (suc (suc (suc (suc i)))) pos lt = absurd (omega arith)

module _ (m : Memory) (kp n : ℕ) (aligned : kp % 4096 ≡ 0) (low : kp + 5 * 4096 < 2 ^ 32)
    (h : IsMapped m kp n) (va : ℕ) (from : 2 ^ 30 ≤ va) (below : va < 2 ^ 32) where
  device_at : load m (kp + 4096 + 8 * index va 30) 8 ≡ va / 2 ^ 30 * 2 ^ 30 + 0x83
  device_at =
      ap (λ i. load m (kp + 4096 + 8 * i) 8) {x = index va 30} {y = va / 2 ^ 30}
        (omega (arith, index_lem va 30))
      ∙ h.device (va / 2 ^ 30) (omega arith) (omega arith)

  device-stops : goes_down m (stands kp (kp + 4096) 30 va) ≡ false
  unfolding goes_down pte
  device-stops =
      let bits = (device_entry_lem (va / 2 ^ 30) (omega arith) (omega arith)).0 in
      rw (device_at, bits) refl

  device-walk : descend_all 39 m (stands kp kp 39 va) ≡ stands kp (kp + 4096) 30 va
  device-walk =
      let e = entry_at m kp (index va 39) (kp + 4096 + 7) (omega (arith, index_lem va 39)) h.root in
      let go =
        goes_down-stands m kp kp 39 va (kp + 4096) (omega arith) e (omega arith) (omega arith) in
      descend_all-go 38 m (stands kp kp 39 va) go
      ∙ ap (descend_all 38 m)
          (descend-stands m kp kp 39 va (kp + 4096) (omega arith) e (omega arith) (omega arith))
      ∙ descend_all-halt 38 m (stands kp (kp + 4096) 30 va) device-stops

  device-initialized : looks_uninitialized m (stands kp (kp + 4096) 30 va) ≡ false
  unfolding looks_uninitialized
  device-initialized = ground arith

  device-answers :
      (pa m (stands kp (kp + 4096) 30 va) ≡ va)
      × (permissions m (stands kp (kp + 4096) 30 va) ≡ 0x83)
  unfolding pa permissions pte
  device-answers =
      let (bits, base, bit, perms) = device_entry_lem (va / 2 ^ 30) (omega arith) (omega arith) in
      (rw (device_at, bit, base) (omega (arith, mask_low 30 va)), rw (device_at, perms) refl)

  root-stands : at_root kp va ≡ stands kp kp 39 va
  unfolding at_root
  root-stands = refl

  -- The three pages of devices, whose permissions PTE_P and PTE_W come with PTE_PS.
  pub device-Says : Says m kp va va 0x83
  device-Says = (
    stands kp (kp + 4096) 30 va,
    canonical-root m kp va (low_address va (omega (arith, below))).0
        ∙ ap (down m) root-stands
        ∙ down-found m (stands kp kp 39 va) (stands kp (kp + 4096) 30 va) device-walk
            device-initialized,
    device-answers.0,
    device-answers.1,
  )
