-- ===== src/Kernel/Setup/Success.antt =====
-- process_setup returns when the pages of the program and its stack page are free.
use native.Mathlib.Decide.{dec_lt}
use cs61_f26_psets.Common.{
  ℕ, zero, suc, ◌+◌, ◌*◌, ◌/◌, ◌<◌, ◌≡◌, refl, some, List, [], ◌∷◌, arith, All, ◌∙◌,
}
use cs61_f26_psets.Kernel.State.{Kernel, page_size, n_pages, count_page}
use cs61_f26_psets.Kernel.Setup.{
  Segment, Image, claim_page, claim_pages, claim_segments, process_setup, finished, stack_addr,
}
use cs61_f26_psets.Kernel.Setup.Claims.{
  Touches, InSegment, claim_pages_step, claim_pages_stop, round_down_page,
}

-- Page `j` of physical memory is not in use.
abbrev pub IsUnused : (ℕ → ℕ) → ℕ → Type 0
IsUnused f j = (j < n_pages) × (f j ≡ 0)

-- Page `j` belongs to none of the segments.
abbrev pub Outside : List Segment → ℕ → Type 0
Outside segs j = All (λ seg. ¬ InSegment seg j) segs

-- The segments share no page.
abbrev pub Disjoint : List Segment → Type 0
Disjoint [] = Unit
Disjoint (seg ∷ segs) = ((j : ℕ) → InSegment seg j → Outside segs j) × Disjoint segs

-- The pages of the segments are not in use.
abbrev pub AllUnused : (ℕ → ℕ) → List Segment → Type 0
AllUnused f segs = All (λ seg. (j : ℕ) → InSegment seg j → IsUnused f j) segs

claim_page_succeeds :
    (f : ℕ → ℕ) (page : ℕ) → IsUnused f page → claim_page f page ≡ some (count_page f page)
unfolding claim_page
claim_page_succeeds f page (lt, unused) = ground (arith, lt, unused)

-- With more rounds than bytes the loop claims its pages and no other.
claim_pages_succeed :
    (fuel first end : ℕ) (f : ℕ → ℕ)
    → ((j : ℕ) → Touches first end j → IsUnused f j)
    → 0 < fuel
    → end < first * page_size + fuel
    → (g : ℕ → ℕ) × (claim_pages fuel f (first * page_size) end ≡ some g)
      × ((j : ℕ) → ¬ Touches first end j → g j ≡ f j)
claim_pages_succeed zero first end f unused some_fuel enough = elim some_fuel [ ]
claim_pages_succeed (suc fuel) first end f unused some_fuel enough =
    elim (dec_lt (first * page_size) end) [
      | no stop ↦ (f, claim_pages_stop fuel first end f (omega arith), λ j out. refl)
      | yes more ↦
          let f' = count_page f first in
          let claimed = claim_page_succeeds f first (unused first (omega arith, more)) in
          let still : (j : ℕ) → Touches (first + 1) end j → IsUnused f' j = (λ j (lo, hi).
            let (lt, e) = unused j (omega arith, hi) in (lt, ground (arith, e, lo))) in
          let (g, runs, kept) =
            claim_pages_succeed fuel (first + 1) end f' still (omega arith) (omega arith) in
          (
            g,
            claim_pages_step fuel first end f more ∙ rw (claimed) runs,
            λ j out. kept j (λ (lo, hi). out (omega arith, hi)) ∙ ground (arith, out, more),
          )
    ]

AllUnused-kept :
    (f f' : ℕ → ℕ) (seg : Segment) (segs : List Segment)
    → ((j : ℕ) → ¬ InSegment seg j → f' j ≡ f j)
    → ((j : ℕ) → InSegment seg j → Outside segs j)
    → AllUnused f segs
    → AllUnused f' segs
AllUnused-kept f f' seg [] kept apart unused = tt
AllUnused-kept f f' seg (s ∷ segs) kept apart (here, unused) = (
  λ j inside. let (lt, e) = here j inside in (lt, kept j (λ in_seg. (apart j in_seg).0 inside) ∙ e),
  AllUnused-kept f f' seg segs kept (λ j in_seg. (apart j in_seg).1) unused,
)

claim_segments_succeed :
    (f : ℕ → ℕ) (segs : List Segment)
    → AllUnused f segs
    → Disjoint segs
    → (g : ℕ → ℕ) × (claim_segments f segs ≡ some g) × ((j : ℕ) → Outside segs j → g j ≡ f j)
unfolding claim_segments
claim_segments_succeed f [] unused apart = (f, refl, λ j out. refl)
claim_segments_succeed f (seg ∷ segs) (unused, rest_unused) (apart, rest_apart) =
    let first = seg.va / page_size in
    let end = seg.va + seg.size in
    let (f', one, kept) =
      claim_pages_succeed (seg.size + page_size) first end f unused (omega arith) (omega arith) in
    let (g, rest, kept') =
      claim_segments_succeed f' segs (AllUnused-kept f f' seg segs kept apart rest_unused)
        rest_apart in
    (g, rw (round_down_page seg.va, one) rest, λ j (out, outs). kept' j outs ∙ kept j out)

-- The state that process_setup leaves when it returns.
pub process_setup-finished :
    (k : Kernel) (kernel_pagetable pid : ℕ) (pgm : Image)
    → AllUnused k.refcount pgm.segments
    → Disjoint pgm.segments
    → IsUnused k.refcount (stack_addr pid / page_size)
    → Outside pgm.segments (stack_addr pid / page_size)
    → (f : ℕ → ℕ) × (process_setup k kernel_pagetable pid pgm
        ≡ some (finished k kernel_pagetable pid pgm f))
unfolding process_setup
process_setup-finished k kernel_pagetable pid pgm unused apart (lt, stack_unused) out =
    let (f, claimed, kept) = claim_segments_succeed k.refcount pgm.segments unused apart in
    let page = stack_addr pid / page_size in
    let last = claim_page_succeeds f page (lt, kept page out ∙ stack_unused) in
    (count_page f page, rw (claimed, last) refl)

-- If every page of the program's segments is not in use, the segments share no page, and the stack
-- page is not in use and in no segment, then process_setup returns: no assertion fails.
pub process_setup_succeeds :
    (k : Kernel) (kernel_pagetable pid : ℕ) (pgm : Image)
    → AllUnused k.refcount pgm.segments
    → Disjoint pgm.segments
    → IsUnused k.refcount (stack_addr pid / page_size)
    → Outside pgm.segments (stack_addr pid / page_size)
    → (k' : Kernel) × (process_setup k kernel_pagetable pid pgm ≡ some k')
process_setup_succeeds k kernel_pagetable pid pgm unused apart stack_unused out =
    let (f, e) = process_setup-finished k kernel_pagetable pid pgm unused apart stack_unused out in
    (finished k kernel_pagetable pid pgm f, e)
