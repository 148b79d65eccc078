-- ===== src/Kernel/PageTable/Identity.antt =====
-- What init_kernel_memory leaves: physical memory is mapped to itself.
use native.Mathlib.Decide.{dec_lt}
use cs61_f26_psets.Common.{
  ℕ, ◌+◌, ◌-◌, ◌*◌, ◌/◌, ◌%◌, ◌^◌, ◌≤◌, ◌<◌, ◌≡◌, ◌⊎◌, inl, inr, refl, ap, ◌∙◌, false, some, arith,
  ltb, ◌&&◌, Bool-cases,
}
use cs61_f26_psets.Common.Memory.{Memory, load}
use cs61_f26_psets.Kernel.Vmiter.{index, looks_uninitialized, pte, vmiter}
use cs61_f26_psets.Kernel.PageTable.Entries.{index_lem, page_leaf, stands, vmiter-leaf}
use cs61_f26_psets.Kernel.PageTable.Tables.{IsMapped, page_entry}

-- The last table above an address below 4 MB.
abbrev pub page_table : ℕ → ℕ → ℕ
page_table kp va = kp + 12288 + 4096 * (va / 2 ^ 21)

-- The value of an entry is a page with its permissions, or 0.
pub page_entry-cases :
    (n q : ℕ)
    → ((0 < q) × (q < n) × (page_entry n q ≡ 4096 * q + 7))
      ⊎ (((q ≡ 0) ⊎ (n ≤ q)) × (page_entry n q ≡ 0))
page_entry-cases n q = elim (Bool-cases (ltb 0 q && ltb q n)) [
  | inl e ↦ inl (ground (arith, e), ground (arith, e), rw e refl)
  | inr e ↦ inr (ground (arith, e), rw e refl)
]

load_at : (m : Memory) (x y e : ℕ) → x ≡ y → load m y 8 ≡ e → load m x 8 ≡ e
load_at m x y e same is = ap (λ a. load m a 8) same ∙ is

module _ (m : Memory) (kp n : ℕ) (aligned : kp % 4096 ≡ 0) (low : kp + 5 * 4096 < 2 ^ 32)
    (h : IsMapped m kp n) (bound : n ≤ 512) where
  pub leaf_at :
      (va : ℕ)
      → va < 2 ^ 22
      → load m (page_table kp va + 8 * index va 12) 8 ≡ page_entry n (va / 4096)
  leaf_at va lt = elim (dec_lt va (2 ^ 21)) [
    | yes first ↦
        load_at m (page_table kp va + 8 * index va 12) (kp + 12288 + 8 * (va / 4096))
          (page_entry n (va / 4096)) (omega (arith, index_lem va 12))
          (h.leaf (va / 4096) (omega arith))
    | no second ↦
        load_at m (page_table kp va + 8 * index va 12) (kp + 16384 + 8 * (va / 4096 - 512))
          (page_entry n (va / 4096)) (omega (arith, index_lem va 12))
          (h.beyond (va / 4096 - 512) (omega arith) ∙ ground (arith, second))
  ]

  link_at : (va : ℕ) → va < 2 ^ 22 → load m (kp + 8192 + 8 * index va 21) 8 ≡ page_table kp va + 7
  link_at va lt = elim (dec_lt va (2 ^ 21)) [
    | yes first ↦
        load_at m (kp + 8192 + 8 * index va 21) (kp + 8192) (page_table kp va + 7)
          (omega (arith, index_lem va 21)) (h.third ∙ omega arith)
    | no second ↦
        load_at m (kp + 8192 + 8 * index va 21) (kp + 8200) (page_table kp va + 7)
          (omega (arith, index_lem va 21)) (h.fourth ∙ omega arith)
  ]

  leaf-initialized :
      (va : ℕ) → va < 2 ^ 22 → looks_uninitialized m (stands kp (page_table kp va) 12 va) ≡ false
  unfolding looks_uninitialized pte
  leaf-initialized va lt =
      let e = leaf_at va lt in
      elim (page_entry-cases n (va / 4096)) [
        | inl (pos, below, is) ↦
            let parts = page_leaf (4096 * (va / 4096)) (omega arith) (omega arith) in
            rw (e ∙ is, parts.0) (ground (arith, lt))
        | inr (out, is) ↦ rw (e ∙ is) refl
      ]

  -- Where the vmiter of an address below 4 MB stands.
  pub vmiter-low :
      (va : ℕ) → va < 2 ^ 22 → vmiter m kp va ≡ some (stands kp (page_table kp va) 12 va)
  vmiter-low va lt =
      vmiter-leaf m kp va (page_table kp va) aligned low (omega arith) h.root h.second
        (link_at va lt) (omega arith) (omega arith) (leaf-initialized va lt)
