-- ===== src/M61/Staff/Zero.antt =====
-- A block of 0 bytes in m61-staff.
use cs61_f26_psets.Common.{ℕ, ◌%◌, ◌^◌, ◌<◌, ◌≡◌, ap, subst, sym, ◌∙◌, none, some, some_inj, arith}
use cs61_f26_psets.M61.Derp.{count_free}
use cs61_f26_psets.M61.Bump.{allocated, cut}
use cs61_f26_psets.M61.Bump.Client.{Live}
use cs61_f26_psets.M61.Bump.Arena.{
  IsBase, IsCut-base_le, allocated-IsCut, allocated-again, malloc-some_inv,
}
use cs61_f26_psets.M61.Staff.{Allocs, Heap, erase, insert_size, m61_free, m61_malloc}
use cs61_f26_psets.M61.Staff.Blocks.{IsValid, free-found, free-missing, freed}
use cs61_f26_psets.M61.Staff.Sizes.{size_at-behind}

insert_size-new : (k n : ℕ) (s : Allocs) → s k ≡ none → insert_size k n s k ≡ some n
unfolding insert_size
insert_size-new k n s new = ground arith

insert_size-old : (k n v : ℕ) (s : Allocs) → s k ≡ some v → insert_size k n s k ≡ some v
unfolding insert_size
insert_size-old k n v s old = ground arith

erase_self : (k : ℕ) (s : Allocs) → erase k s k ≡ none
unfolding erase
erase_self k s = ground arith

-- What a call that succeeds leaves of the buffer and of the map.
malloc-leaves :
    (base sz p : ℕ) (h h' : Heap)
    → m61_malloc base h sz ≡ (some p, h')
    → ((allocated base h.space).buffer ≡ p)
      × (h'.space ≡ cut (allocated base h.space) sz)
      × (h'.active_allocs ≡ insert_size (allocated base h.space).buffer sz h.active_allocs)
unfolding m61_malloc
malloc-leaves base sz p h h' e =
    let (room, at, left) = malloc-some_inv _ _ base h.space sz e in
    (at, ap (λ g. g.space) (sym left), ap (λ g. g.active_allocs) (sym left))

freed-erases : (h : Heap) (p n : ℕ) → (freed h p n).active_allocs p ≡ none
unfolding freed
freed-erases h p n = erase_self p h.active_allocs

freed-nothing : (h : Heap) (p : ℕ) → (freed h p 0).gs.active_bytes ≡ h.gs.active_bytes % 2 ^ 64
unfolding freed count_free
freed-nothing h p = omega arith

-- In any valid state, a block of 0 bytes has the address of the block that is allocated next, which
-- is not entered in the map: the entry there keeps the size 0. When the client frees one of the two,
-- m61_free takes no bytes off active_bytes, and it cannot free the other: m61_free fails its assertion.
pub malloc-zero_hides :
    (base n p q : ℕ) (h h1 h2 h3 : Heap) (l : Live)
    → IsBase base
    → IsValid base h l
    → m61_malloc base h 0 ≡ (some p, h1)
    → m61_malloc base h1 n ≡ (some q, h2)
    → m61_free h2 p ≡ some h3
    → (q ≡ p)
      × (h2.active_allocs q ≡ some 0)
      × (h3.gs.active_bytes ≡ h2.gs.active_bytes % 2 ^ 64)
      × (m61_free h3 q ≡ none)
unfolding cut
malloc-zero_hides base n p q h h1 h2 h3 l m v e1 e2 e3 =
    let b = allocated base h.space in
    let c = allocated-IsCut base h.space l m v.sound in
    let (at1, space1, map1) = malloc-leaves base 0 p h h1 e1 in
    let start1 : h1.space.buffer ≡ p = omega (arith, at1, ap (λ s. s.buffer) space1) in
    let pos : 0 < p = omega (arith, m, at1, IsCut-base_le base b l c) in
    let same = allocated-again base h1.space (omega (arith, start1, pos)) in
    let (at2, space2, map2) = malloc-leaves base n q h1 h2 e2 in
    let k : (allocated base h1.space).buffer ≡ p = ap (λ s. s.buffer) same ∙ start1 in
    let new : h.active_allocs p ≡ none =
      v.mapped p ∙ size_at-behind p base b.buffer l c.packed (omega (arith, at1)) in
    let here1 : h1.active_allocs p ≡ some 0 =
      ap (λ s. s p) map1
      ∙ subst (λ j. insert_size j 0 h.active_allocs p ≡ some 0) (sym at1)
          (insert_size-new p 0 h.active_allocs new) in
    let here2 : h2.active_allocs p ≡ some 0 =
      ap (λ s. s p) map2
      ∙ subst (λ j. insert_size j n h1.active_allocs p ≡ some 0) (sym k)
          (insert_size-old p n 0 h1.active_allocs here1) in
    let left : freed h2 p 0 ≡ h3 = some_inj _ _ (sym (free-found h2 p 0 pos here2) ∙ e3) in
    let shared : q ≡ p = sym at2 ∙ k in
    (
      shared,
      ap h2.active_allocs shared ∙ here2,
      ap (λ g. g.gs.active_bytes) (sym left) ∙ freed-nothing h2 p,
      rw shared (
          free-missing h3 p pos (subst (λ g. g.active_allocs p ≡ none) left (freed-erases h2 p 0))),
    )
