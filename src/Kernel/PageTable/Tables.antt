-- ===== src/Kernel/PageTable/Tables.antt =====
-- The entries of the kernel's page tables while init_kernel_memory runs.
use cs61_f26_psets.Common.{
  ℕ, zero, suc, ◌+◌, ◌-◌, ◌*◌, ◌%◌, ◌^◌, ◌≤◌, ◌<◌, ◌≡◌, ◌≢◌, ◌⊎◌, inl, inr, refl, ap, subst, ◌∙◌,
  false, arith, ltb, ==_iff, ◌==◌, ◌&&◌, if◌then◌else◌, List, [], ◌∷◌,
}
use native.Mathlib.Decide.{ℕ_discrete}
use cs61_f26_psets.Common.Memory.{
  Memory, load, load-same, load-store_number, load_zero, store_number, store_number-outside,
}
use cs61_f26_psets.CLib.Blocks.{memset}
use cs61_f26_psets.CLib.Blocks.Copy.{memset_lem}
use cs61_f26_psets.Kernel.State.{page_size}
use cs61_f26_psets.Kernel.PageTable.{device_entry, link_tables, table_entry}
use cs61_f26_psets.Kernel.PageTable.Entries.{table_entry_lem}

-- The entry of page `q` of physical memory, after the pages below `n` were mapped.
abbrev pub page_entry : ℕ → ℕ → ℕ
page_entry n q = if ltb 0 q && ltb q n then 4096 * q + 7 else 0

pub record IsMapped (m : Memory) (kp n : ℕ) : Type 0 where
  pub root : load m kp 8 ≡ kp + 4096 + 7
  pub second : load m (kp + 4096) 8 ≡ kp + 8192 + 7
  pub third : load m (kp + 8192) 8 ≡ kp + 12288 + 7
  pub fourth : load m (kp + 8200) 8 ≡ kp + 16384 + 7
  pub device : (i : ℕ) → 0 < i → i < 4 → load m (kp + 4096 + 8 * i) 8 ≡ i * 2 ^ 30 + 0x83
  pub leaf : (j : ℕ) → j < 512 → load m (kp + 12288 + 8 * j) 8 ≡ page_entry n j
  pub beyond : (j : ℕ) → j < 512 → load m (kp + 16384 + 8 * j) 8 ≡ 0

-- Entries that are written from `kp` on, the last one first, each with its offset.
abbrev write_all : ℕ → List (ℕ × ℕ) → Memory → Memory
write_all kp [] m = m
write_all kp ((o, x) ∷ ws) m = store_number (write_all kp ws m) (kp + o) x 8

abbrev written : ℕ → List (ℕ × ℕ) → ℕ → ℕ
written o [] d = d
written o ((o', x) ∷ ws) d = if o == o' then x else written o ws d

-- Whole entries, below the offset `end`.
abbrev AreEntries : ℕ → List (ℕ × ℕ) → Type 0
AreEntries end [] = Unit
AreEntries end ((o, x) ∷ ws) = (o % 8 ≡ 0) × (o < end) × (x < 2 ^ 64) × AreEntries end ws

pub load-other :
    (m : Memory) (a x b : ℕ)
    → (b + 8 ≤ a) ⊎ (a + 8 ≤ b)
    → load (store_number m a x 8) b 8 ≡ load m b 8
load-other m a x b apart =
    load-same m (store_number m a x 8) b 8
      (λ c lo hi. store_number-outside m a x 8 c (ground (arith, apart, lo, hi)))

load-write_all :
    (m : Memory) (kp o end : ℕ) (ws : List (ℕ × ℕ))
    → o % 8 ≡ 0
    → AreEntries end ws
    → load (write_all kp ws m) (kp + o) 8 ≡ written o ws (load m (kp + o) 8)
load-write_all m kp o end [] whole h = refl
load-write_all m kp o end ((o', x) ∷ ws) whole (whole', below, fits, h) = elim (ℕ_discrete o o') [
  | yes e ↦
      rw (e, (==_iff o' o').1 refl)
        (load-store_number (write_all kp ws m) (kp + o') x 8 (omega (arith, fits)))
  | no ne ↦ rw ((ne_test o o' ne)) (
      load-other (write_all kp ws m) (kp + o') x (kp + o) (apart o o' ne whole whole')
      ∙ load-write_all m kp o end ws whole h)
]
  where
    ne_test : (o o' : ℕ) → o ≢ o' → (o == o') ≡ false
    ne_test o o' ne = ground arith

    apart :
        (o o' : ℕ)
        → o ≢ o'
        → o % 8 ≡ 0
        → o' % 8 ≡ 0
        → (kp + o + 8 ≤ kp + o') ⊎ (kp + o' + 8 ≤ kp + o)
    apart o o' ne whole whole' = ground (arith, ne, whole, whole')

written-behind :
    (o end d : ℕ) (ws : List (ℕ × ℕ)) → AreEntries end ws → end ≤ o → written o ws d ≡ d
written-behind o end d [] h le = refl
written-behind o end d ((o', x) ∷ ws) (whole, below, fits, h) le =
    ground (arith, written-behind o end d ws h le)

-- What init_kernel_memory writes.
abbrev entries : ℕ → List (ℕ × ℕ)
entries kp =
    (4120, device_entry 3)
    ∷ (4112, device_entry 2)
    ∷ (4104, device_entry 1)
    ∷ (8200, table_entry kp 4)
    ∷ (8192, table_entry kp 3)
    ∷ (4096, table_entry kp 2)
    ∷ (0, table_entry kp 1)
    ∷ []

module _ (m : Memory) (kp : ℕ) (aligned : kp % 4096 ≡ 0) (low : kp + 5 * 4096 < 2 ^ 32) where
  blank : Memory
  blank = memset m kp 0 (5 * page_size)

  link_tables-writes : link_tables m kp ≡ write_all kp (entries kp) blank
  unfolding link_tables blank
  link_tables-writes = refl

  are_entries : AreEntries 12288 (entries kp)
  are_entries =
      let e1 = table_entry_lem kp 1 aligned in
      let e2 = table_entry_lem kp 2 aligned in
      let e3 = table_entry_lem kp 3 aligned in let e4 = table_entry_lem kp 4 aligned in omega arith

  blank-entry : (o : ℕ) → o + 8 ≤ 5 * 4096 → load blank (kp + o) 8 ≡ 0
  unfolding blank
  blank-entry o le = load_zero (memset m kp 0 (5 * page_size)) (kp + o) 8 (λ b lo hi.
      subst (λ c. memset m kp 0 (5 * page_size) c ≡ 0) {x = kp + (b - kp)} {y = b} (omega arith)
        ((memset_lem m kp 0 (5 * page_size)).0 (b - kp) (omega arith)))

  -- An entry as it was written, or 0.
  linked-entry :
      (o a x : ℕ)
      → o % 8 ≡ 0
      → o + 8 ≤ 5 * 4096
      → kp + o ≡ a
      → written o (entries kp) 0 ≡ x
      → load (link_tables m kp) a 8 ≡ x
  linked-entry o a x whole le at is =
      subst (λ b. load (link_tables m kp) b 8 ≡ x) at
        (ap (λ m'. load m' (kp + o) 8) link_tables-writes
          ∙ load-write_all blank kp o 12288 (entries kp) whole are_entries
          ∙ ap (written o (entries kp)) (blank-entry o le)
          ∙ is)

  linked-device :
      (i : ℕ) → 0 < i → i < 4 → load (link_tables m kp) (kp + 4096 + 8 * i) 8 ≡ i * 2 ^ 30 + 0x83
  linked-device zero pos lt = absurd (omega arith)
  linked-device (suc zero) pos lt = linked-entry 4104 _ _ refl (omega arith) (omega arith) refl
  linked-device (suc (suc zero)) pos lt =
      linked-entry 4112 _ _ refl (omega arith) (omega arith) refl
  linked-device (suc (suc (suc zero))) pos lt =
      linked-entry 4120 _ _ refl (omega arith) (omega arith) refl
  linked-device (suc (suc (suc (suc i)))) pos lt = absurd (omega arith)

  unmapped : (j : ℕ) → 0 ≡ page_entry 1 j
  unmapped j = ground arith

  linked-behind :
      (o a : ℕ)
      → o % 8 ≡ 0
      → 12288 ≤ o
      → o + 8 ≤ 5 * 4096
      → kp + o ≡ a
      → load (link_tables m kp) a 8 ≡ 0
  linked-behind o a whole behind le at =
      linked-entry o a 0 whole le at (written-behind o 12288 0 (entries kp) are_entries behind)

  pub link_tables-IsMapped : IsMapped (link_tables m kp) kp 1
  link_tables-IsMapped = record {
    root = linked-entry 0 kp _ refl (omega arith) (omega arith) (table_entry_lem kp 1 aligned);
    second =
        linked-entry 4096 (kp + 4096) _ refl (omega arith) refl
          (omega (arith, table_entry_lem kp 2 aligned));
    third =
        linked-entry 8192 (kp + 8192) _ refl (omega arith) refl
          (omega (arith, table_entry_lem kp 3 aligned));
    fourth =
        linked-entry 8200 (kp + 8200) _ refl (omega arith) refl
          (omega (arith, table_entry_lem kp 4 aligned));
    device = linked-device;
    leaf = λ j lt.
        linked-behind (12288 + 8 * j) (kp + 12288 + 8 * j) (omega arith) (omega arith) (omega arith)
          (omega arith)
        ∙ unmapped j;
    beyond = λ j lt.
        linked-behind (16384 + 8 * j) (kp + 16384 + 8 * j) (omega arith) (omega arith) (omega arith)
          (omega arith);
  }

-- Mapping the next page sets one more entry.
pub next_page-IsMapped :
    (m : Memory) (kp n : ℕ)
    → IsMapped m kp n
    → 0 < n
    → n < 512
    → IsMapped (store_number m (kp + 12288 + 8 * n) (4096 * n + 7) 8) kp (suc n)
next_page-IsMapped m kp n h pos lt =
    let a = kp + 12288 + 8 * n in
    let other = load-other m a (4096 * n + 7) in
    record {
      root = other kp (inl (omega arith)) ∙ h.root;
      second = other (kp + 4096) (inl (omega arith)) ∙ h.second;
      third = other (kp + 8192) (inl (omega arith)) ∙ h.third;
      fourth = other (kp + 8200) (inl (omega arith)) ∙ h.fourth;
      device = λ i pos lt. other (kp + 4096 + 8 * i) (inl (omega arith)) ∙ h.device i pos lt;
      leaf = λ j lt. elim (ℕ_discrete j n) [
        | yes e ↦ rw e (load-store_number m a (4096 * n + 7) 8 (omega arith) ∙ new_entry)
        | no ne ↦ other (kp + 12288 + 8 * j) (apart j ne) ∙ h.leaf j lt ∙ old_entry j ne
      ];
      beyond = λ j small. other (kp + 16384 + 8 * j) (inr (omega arith)) ∙ h.beyond j small;
    }
  where
    new_entry : 4096 * n + 7 ≡ page_entry (suc n) n
    new_entry = ground (arith, pos)

    old_entry : (j : ℕ) → j ≢ n → page_entry n j ≡ page_entry (suc n) j
    old_entry j ne = ground (arith, ne)

    apart :
        (j : ℕ)
        → j ≢ n
        → (kp + 12288 + 8 * j + 8 ≤ kp + 12288 + 8 * n)
          ⊎ (kp + 12288 + 8 * n + 8 ≤ kp + 12288 + 8 * j)
    apart j ne = ground (arith, ne)
