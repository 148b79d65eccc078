-- ===== src/Kernel/Setup/Claims.antt =====
-- What process_setup claims: pages that nobody used, each once.
use native.Mathlib.Decide.{ℕ_discrete, dec_lt}
use cs61_f26_psets.Common.{
  ℕ, zero, suc, ◌+◌, ◌*◌, ◌/◌, ◌≤◌, ◌<◌, ◌≡◌, ◌≢◌, refl, ◌⊎◌, inl, inr, none, some, List, [], ◌∷◌,
  ltb, ◌==◌, if◌then◌else◌, ◌>>=◌, arith, Bool-cases, some_inj, lt→ltb, >>=-eq-some, All, subst,
  sym, ◌∙◌,
}
use cs61_f26_psets.Kernel.State.{Kernel, runnable, page_size, n_pages, count_page}
use cs61_f26_psets.Kernel.Alloc.{round_down}
use cs61_f26_psets.Kernel.Setup.{
  Segment, Image, claim_page, claim_pages, claim_segments, process_setup, finished, stack_addr,
}

-- The counts only go from 0 to 1: a page in use keeps its count.
abbrev pub ClaimsFree : (ℕ → ℕ) → (ℕ → ℕ) → Type 0
ClaimsFree f g = (j : ℕ) → (g j ≡ f j) ⊎ ((f j ≡ 0) × (g j ≡ 1))

ClaimsFree-trans : {f g h : ℕ → ℕ} → ClaimsFree f g → ClaimsFree g h → ClaimsFree f h
ClaimsFree-trans p q j = ground (arith, p j, q j)

claim_page_inv :
    (f g : ℕ → ℕ) (page : ℕ)
    → claim_page f page ≡ some g
    → (page < n_pages) × (f page ≡ 0) × (count_page f page ≡ g)
unfolding claim_page
claim_page_inv f g page h = elim (Bool-cases (ltb page n_pages)) [
  | inr out ↦ absurd (none-ne-some (rw out at h))
  | inl inside ↦
      let h' : (if f page == 0 then some (count_page f page) else none) ≡ some g = rw inside at h in
      elim (Bool-cases (f page == 0)) [
        | inr used ↦ absurd (none-ne-some (rw used at h'))
        | inl unused ↦
            (ground arith, ground arith, some_inj (count_page f page) g (rw unused at h'))
      ]
]
  where
    none-ne-some : none ≡ some g → ⊥
    none-ne-some e = cc

claim_page_lem :
    (f g : ℕ → ℕ) (page : ℕ)
    → claim_page f page ≡ some g
    → ClaimsFree f g × (f page ≡ 0) × (g page ≡ 1) × (page < n_pages)
claim_page_lem f g page h =
    let (lt, unused, same) = claim_page_inv f g page h in
    subst (λ g. ClaimsFree f g × (f page ≡ 0) × (g page ≡ 1) × (page < n_pages)) same
      (λ j. ground arith, unused, ground arith, lt)

claim_page-some :
    (f : ℕ → ℕ) (page : ℕ)
    → page < n_pages
    → f page ≡ 0
    → claim_page f page ≡ some (count_page f page)
unfolding claim_page
claim_page-some f page lt unused = ground arith

-- The pages that an address range below `end` touches, from page `first` on.
abbrev pub Touches : ℕ → ℕ → ℕ → Type 0
Touches first end j = (first ≤ j) × (j * page_size < end)

-- What a run of claims over a range leaves.
abbrev pub ClaimsRange : (ℕ → ℕ) → (ℕ → ℕ) → ℕ → ℕ → Type 0
ClaimsRange f g first end =
    ClaimsFree f g × ((j : ℕ) → Touches first end j → (f j ≡ 0) × (g j ≡ 1) × (j < n_pages))

ClaimsRange-step :
    (f g h : ℕ → ℕ) (first end : ℕ)
    → claim_page f first ≡ some g
    → ClaimsRange g h (first + 1) end
    → ClaimsRange f h first end
ClaimsRange-step f g h first end one (free_rest, rest) =
    let (free_one, unused, counted, lt) = claim_page_lem f g first one in
    (
      ClaimsFree-trans free_one free_rest,
      λ j touched. elim (ℕ_discrete j first) [
        | yes e ↦ rw e (unused, ground (arith, free_rest first), lt)
        | no ne ↦ ground (arith, rest j (omega arith, touched.1), free_one j)
      ],
    )

out_of_fuel :
    (first end : ℕ) (f g : ℕ → ℕ) → claim_pages zero f (first * page_size) end ≡ some g → ⊥
unfolding claim_pages
out_of_fuel first end f g h = cc

pub claim_pages_stop :
    (fuel first end : ℕ) (f : ℕ → ℕ)
    → end ≤ first * page_size
    → claim_pages (suc fuel) f (first * page_size) end ≡ some f
unfolding claim_pages
claim_pages_stop fuel first end f le = ground arith

pub claim_pages_step :
    (fuel first end : ℕ) (f : ℕ → ℕ)
    → first * page_size < end
    → claim_pages (suc fuel) f (first * page_size) end
      ≡ (claim_page f first >>= λ g. claim_pages fuel g ((first + 1) * page_size) end)
unfolding claim_pages
claim_pages_step fuel first end f lt =
    let page : first * page_size / page_size ≡ first = omega arith in
    let next : first * page_size + page_size ≡ (first + 1) * page_size = omega arith in
    rw (lt→ltb (first * page_size) end lt, claim_pages, page, next)

claim_pages_lem :
    (fuel first end : ℕ) (f g : ℕ → ℕ)
    → claim_pages fuel f (first * page_size) end ≡ some g
    → ClaimsRange f g first end
claim_pages_lem zero first end f g h = absurd (out_of_fuel first end f g h)
claim_pages_lem (suc fuel) first end f g h = elim (dec_lt (first * page_size) end) [
  | no stop ↦
      let same = some_inj f g (sym (claim_pages_stop fuel first end f (omega arith)) ∙ h) in
      subst (λ g. ClaimsRange f g first end) same
        (λ j. inl refl, λ j touched. absurd (omega (arith, touched)))
  | yes more ↦
      let (f', one, rest) =
        >>=-eq-some (claim_page f first) (λ g. claim_pages fuel g ((first + 1) * page_size) end)
          (sym (claim_pages_step fuel first end f more) ∙ h) in
      ClaimsRange-step f f' g first end one (claim_pages_lem fuel (first + 1) end f' g rest)
]

-- The pages of a segment, from the one that holds its first byte.
abbrev pub InSegment : Segment → ℕ → Type 0
InSegment seg j = Touches (seg.va / page_size) (seg.va + seg.size) j

-- Every page of every segment was free and is counted once.
abbrev pub ClaimsSegments : (ℕ → ℕ) → (ℕ → ℕ) → List Segment → Type 0
ClaimsSegments f g segs =
    All (λ seg. (j : ℕ) → InSegment seg j → (f j ≡ 0) × (g j ≡ 1) × (j < n_pages)) segs

ClaimsSegments-mono :
    (f f' g : ℕ → ℕ) (segs : List Segment)
    → ClaimsFree f f'
    → ClaimsSegments f' g segs
    → ClaimsSegments f g segs
ClaimsSegments-mono f f' g [] free h = tt
ClaimsSegments-mono f f' g (seg ∷ segs) free (h, t) =
    ((λ j inside. ground (arith, h j inside, free j)), ClaimsSegments-mono f f' g segs free t)

pub round_down_page : (a : ℕ) → round_down a page_size ≡ a / page_size * page_size
unfolding round_down
round_down_page a = omega arith

claim_segments_lem :
    (f g : ℕ → ℕ) (segs : List Segment)
    → claim_segments f segs ≡ some g
    → ClaimsFree f g × ClaimsSegments f g segs
unfolding claim_segments
claim_segments_lem f g [] h =
    subst (λ g. ClaimsFree f g × Unit {0}) (some_inj f g h) (λ j. inl refl, tt)
claim_segments_lem f g (seg ∷ segs) h =
    let first = seg.va / page_size in
    let end = seg.va + seg.size in
    let (f', one, rest) =
      >>=-eq-some (claim_pages (seg.size + page_size) f (round_down seg.va page_size) end)
        (λ r. claim_segments r segs) h in
    let (free, range) =
      claim_pages_lem (seg.size + page_size) first end f f' (rw (round_down_page seg.va) at one) in
    let (free', others) = claim_segments_lem f' g segs rest in
    (
      ClaimsFree-trans free free',
      (
        λ j inside. ground (arith, range j inside, free' j),
        ClaimsSegments-mono f f' g segs free others,
      ),
    )

ClaimsSegments-later :
    (f g g' : ℕ → ℕ) (segs : List Segment)
    → ClaimsFree g g'
    → ClaimsSegments f g segs
    → ClaimsSegments f g' segs
ClaimsSegments-later f g g' [] free h = tt
ClaimsSegments-later f g g' (seg ∷ segs) free (h, t) =
    ((λ j inside. ground (arith, h j inside, free j)), ClaimsSegments-later f g g' segs free t)

-- What process_setup does to the kernel's state.
pub record SetsUp (k : Kernel) (pid : ℕ) (pgm : Image) (k' : Kernel) : Type 0 where
  pub claims_free : ClaimsFree k.refcount k'.refcount
  pub claims_segments : ClaimsSegments k.refcount k'.refcount pgm.segments
  pub claims_stack :
      (k.refcount (stack_addr pid / page_size) ≡ 0) × (k'.refcount (stack_addr pid / page_size) ≡ 1)
  pub now_runnable : (k'.ptable pid).state ≡ runnable
  pub at_entry : (k'.ptable pid).regs.reg_rip ≡ pgm.entry
  pub at_stack_top : (k'.ptable pid).regs.reg_rsp ≡ stack_addr pid + page_size
  pub others_kept : (i : ℕ) → i ≢ pid → k'.ptable i ≡ k.ptable i
  pub still_current : k'.current ≡ k.current

-- If process_setup returns, then every page that it claims - the pages of the segments and the
-- stack page - had a count of 0 and now has a count of 1; every page that was in use keeps its
-- count. The process is runnable at the program's entry point with the stack pointer at the top of
-- its stack page, and neither another process descriptor nor `current` changes.
pub process_setup-SetsUp :
    (k k' : Kernel) (kernel_pagetable pid : ℕ) (pgm : Image)
    → process_setup k kernel_pagetable pid pgm ≡ some k'
    → SetsUp k pid pgm k'
unfolding process_setup
process_setup-SetsUp k k' kernel_pagetable pid pgm h =
    let (claimed, one, rest) =
      >>=-eq-some (claim_segments k.refcount pgm.segments)
        (λ c. claim_page c (stack_addr pid / page_size) >>= λ r.
          some (finished k kernel_pagetable pid pgm r))
        h in
    let (refcount', two, last) =
      >>=-eq-some (claim_page claimed (stack_addr pid / page_size))
        (λ r. some (finished k kernel_pagetable pid pgm r)) rest in
    let (free, segments) = claim_segments_lem k.refcount claimed pgm.segments one in
    let (free', unused, counted, lt) =
      claim_page_lem claimed refcount' (stack_addr pid / page_size) two in
    subst (SetsUp k pid pgm) (some_inj (finished k kernel_pagetable pid pgm refcount') k' last)
      (record {
        claims_free = ClaimsFree-trans free free';
        claims_segments =
            ClaimsSegments-later k.refcount claimed refcount' pgm.segments free' segments;
        claims_stack = (ground (arith, free (stack_addr pid / page_size)), counted);
        now_runnable = ground arith;
        at_entry = ground arith;
        at_stack_top = ground arith;
        others_kept = λ i ne. ground arith;
        still_current = refl;
      })
