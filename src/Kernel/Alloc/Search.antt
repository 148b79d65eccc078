-- ===== src/Kernel/Alloc/Search.antt =====
-- kalloc returns the first page that is free and allocatable, and fails only where there is none.
use native.Mathlib.Decide.{ℕ_discrete, dec_lt}
use cs61_f26_psets.Common.{
  ℕ, zero, suc, ◌+◌, ◌*◌, ◌%◌, ◌≤◌, ◌<◌, ◌≡◌, refl, ◌⊎◌, inl, inr, true, false, Option, none, some,
  ◌==◌, if◌then◌else◌, arith, Bool-cases, lt→ltb, le→ltb, subst,
}
use cs61_f26_psets.Common.Memory.{SameOutside}
use cs61_f26_psets.CLib.Blocks.Copy.{memset_lem}
use cs61_f26_psets.Kernel.State.{Kernel, page_size, n_pages}
use cs61_f26_psets.Kernel.Alloc.{
  allocatable_physical_address, is_free, take_page, kalloc_from, kalloc,
}

-- The outcome of a search of the pages from `p` up to the last.
abbrev Searched : ℕ → Kernel → ℕ → Option ℕ × Kernel → Type 0
Searched kernel_end k p r =
    ((q : ℕ) × (p ≤ q)
      × (q < n_pages)
      × (is_free kernel_end k q ≡ true)
      × ((j : ℕ) → p ≤ j → j < q → is_free kernel_end k j ≡ false)
      × (r ≡ (some (q * page_size), take_page kernel_end k q)))
    ⊎ (((j : ℕ) → p ≤ j → j < n_pages → is_free kernel_end k j ≡ false) × (r ≡ (none, k)))

-- The pages from `p` on fail the test if `p` does and those behind it do.
extend :
    (kernel_end : ℕ) (k : Kernel) (p hi : ℕ)
    → is_free kernel_end k p ≡ false
    → ((j : ℕ) → p + 1 ≤ j → j < hi → is_free kernel_end k j ≡ false)
    → (j : ℕ) → p ≤ j
    → j < hi
    → is_free kernel_end k j ≡ false
extend kernel_end k p hi taken rest j lo lt = elim (ℕ_discrete j p) [
  | yes e ↦ rw e taken
  | no ne ↦ rest j (omega arith) lt
]

Searched-step :
    (kernel_end : ℕ) (k : Kernel) (p : ℕ) (r : Option ℕ × Kernel)
    → is_free kernel_end k p ≡ false
    → Searched kernel_end k (p + 1) r
    → Searched kernel_end k p r
Searched-step kernel_end k p r taken (inl (q, lo, hi, free_page, before, e)) =
    inl (q, omega arith, hi, free_page, extend kernel_end k p q taken before, e)
Searched-step kernel_end k p r taken (inr (full, e)) =
    inr (extend kernel_end k p n_pages taken full, e)

-- With no try left the page number does not matter.
kalloc_from_lem :
    (kernel_end tries : ℕ) (k : Kernel) (p pageno : ℕ)
    → p + tries ≡ n_pages
    → (tries ≡ 0) ⊎ (pageno ≡ p)
    → Searched kernel_end k p (kalloc_from kernel_end tries k pageno)
unfolding kalloc_from
kalloc_from_lem kernel_end zero k p pageno e at = inr (λ j lo hi. absurd (omega arith), refl)
kalloc_from_lem kernel_end (suc tries) k p pageno e at =
    let same : pageno ≡ p = omega arith in
    rw same (elim (Bool-cases (is_free kernel_end k p)) [
      | inl yes_free ↦ inl (
        p,
        omega arith,
        omega arith,
        yes_free,
        λ j lo lt. absurd (omega arith),
        rw (yes_free, kalloc_from),
      )
      | inr taken ↦ subst (Searched kernel_end k p) (rw (taken, kalloc_from)) (
          Searched-step kernel_end k p _ taken (
            kalloc_from_lem kernel_end tries k (p + 1) ((p + 1) % n_pages) (omega arith)
              (next_page tries p (omega arith))))
    ])
  where
    next_page : (t i : ℕ) → i + suc t ≡ n_pages → (t ≡ 0) ⊎ ((i + 1) % n_pages ≡ i + 1)
    next_page t i e = omega arith

-- A page that the test admits lies in physical memory, is not page 0, the I/O hole, the kernel or
-- its stack, and is not in use.
pub is_free_lem :
    (kernel_end : ℕ) (k : Kernel) (q : ℕ)
    → is_free kernel_end k q ≡ true
    → (allocatable_physical_address kernel_end (q * page_size) ≡ true) × (k.refcount q ≡ 0)
unfolding is_free
is_free_lem kernel_end k q h = ground arith

-- Page `q` was the first free page of `k`, and `k'` is `k` with that page taken: counted once,
-- filled with 0xCC, and no other count, byte or variable changed.
pub record Takes (kernel_end : ℕ) (k : Kernel) (q : ℕ) (k' : Kernel) : Type 0 where
  pub in_range : q < n_pages
  pub allocatable : allocatable_physical_address kernel_end (q * page_size) ≡ true
  pub unused : k.refcount q ≡ 0
  pub first : (j : ℕ) → j < q → is_free kernel_end k j ≡ false
  pub counted : (j : ℕ) → k'.refcount j ≡ (if j == q then 1 else k.refcount j)
  pub filled : (i : ℕ) → i < page_size → k'.memory (q * page_size + i) ≡ 0xCC
  pub kept : SameOutside k.memory k'.memory (q * page_size) page_size
  pub same_processes : (k'.ptable ≡ k.ptable) × (k'.current ≡ k.current) × (k'.ticks ≡ k.ticks)

take_page-Takes :
    (kernel_end : ℕ) (k : Kernel) (q : ℕ)
    → q < n_pages
    → is_free kernel_end k q ≡ true
    → ((j : ℕ) → j < q → is_free kernel_end k j ≡ false)
    → Takes kernel_end k q (take_page kernel_end k q)
unfolding take_page
take_page-Takes kernel_end k q lt yes_free before =
    let (allocatable, unused) = is_free_lem kernel_end k q yes_free in
    let (filled, kept) = memset_lem k.memory (q * page_size) 0xCC page_size in
    record {
      in_range = lt;
      allocatable = allocatable;
      unused = unused;
      first = before;
      counted = λ j. ground arith;
      filled = filled;
      kept = kept;
      same_processes = (refl, refl, refl);
    }

-- kalloc refuses more than a page. Otherwise it takes the first page that is allocatable and not
-- in use and returns its address. It returns nullptr and changes nothing exactly where it refuses
-- or no page of physical memory is allocatable and not in use.
pub kalloc_lem :
    (kernel_end : ℕ) (k : Kernel) (sz : ℕ)
    → ((page_size < sz) × (kalloc kernel_end k sz ≡ (none, k)))
      ⊎ ((sz ≤ page_size)
          × (((q : ℕ) × (k' : Kernel) × (kalloc kernel_end k sz ≡ (some (q * page_size), k'))
                × Takes kernel_end k q k')
              ⊎ (((j : ℕ) → j < n_pages → is_free kernel_end k j ≡ false)
                  × (kalloc kernel_end k sz ≡ (none, k)))))
unfolding kalloc
kalloc_lem kernel_end k sz = elim (dec_lt page_size sz) [
  | yes big ↦ inl (big, rw (lt→ltb page_size sz big))
  | no fits ↦ inr (
    omega arith,
    rw (le→ltb page_size sz (omega arith))
        (outcome (kalloc_from_lem kernel_end n_pages k 0 0 refl (inr refl))),
  )
]
  where
    outcome :
        Searched kernel_end k 0 (kalloc_from kernel_end n_pages k 0)
        → ((q : ℕ) × (k' : Kernel) × (kalloc_from kernel_end n_pages k 0
              ≡ (some (q * page_size), k'))
            × Takes kernel_end k q k')
          ⊎ (((j : ℕ) → j < n_pages → is_free kernel_end k j ≡ false)
              × (kalloc_from kernel_end n_pages k 0 ≡ (none, k)))
    outcome (inl (q, lo, hi, yes_free, before, e)) = inl (
      q,
      take_page kernel_end k q,
      e,
      take_page-Takes kernel_end k q hi yes_free (λ j lt. before j (omega arith) lt),
    )
    outcome (inr (full, e)) = inr ((λ j lt. full j (omega arith) lt), e)
