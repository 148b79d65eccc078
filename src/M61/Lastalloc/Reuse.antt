-- ===== src/M61/Lastalloc/Reuse.antt =====
-- What m61-lastalloc does with the block that it allocated last.
use cs61_f26_psets.Common.{ℕ, ◌<◌, ◌≡◌, ap, subst, sym, ◌∙◌, some, arith}
use cs61_f26_psets.M61.Bump.{allocated, cut}
use cs61_f26_psets.M61.Bump.Client.{Live}
use cs61_f26_psets.M61.Bump.Arena.{
  IsBase, IsCut-base_le, allocated-IsCut, allocated-again, malloc-some_inv,
}
use cs61_f26_psets.M61.Lastalloc.{Heap, m61_free, m61_malloc}
use cs61_f26_psets.M61.Lastalloc.Blocks.{IsValid, free-last}

-- A call that succeeds, when there is a buffer.
malloc-again :
    (base sz p : ℕ) (g g' : Heap)
    → 0 < g.space.buffer
    → m61_malloc base g sz ≡ (some p, g')
    → (p ≡ g.space.buffer)
      × (g' ≡ record { space = cut g.space sz; last_allocation = g.space.buffer })
unfolding m61_malloc
malloc-again base sz p g g' pos e =
    let (room, at, left) = malloc-some_inv _ _ base g.space sz e in
    let same = allocated-again base g.space pos in
    (
      sym at ∙ ap (λ b. b.buffer) same,
      sym left ∙ ap (λ b. record { space = cut b sz; last_allocation = b.buffer }) same,
    )

-- The block that was allocated last, at `p`, and the state behind it.
module _ (base : ℕ) (h : Heap) (l : Live) (m : IsBase base) (v : IsValid base h l) where
  allocated-pos : 0 < (allocated base h.space).buffer
  allocated-pos = omega (
    arith,
    m,
    IsCut-base_le base (allocated base h.space) l (allocated-IsCut base h.space l m v.sound),
  )

  -- A block that is freed before the next allocation is undone: m61_malloc and m61_free of its
  -- answer leave the buffer as it was, with no last allocation.
  pub free-malloc :
      (sz p : ℕ) (h' : Heap)
      → m61_malloc base h sz ≡ (some p, h')
      → m61_free h' p ≡ record { space = allocated base h.space; last_allocation = 0 }
  unfolding m61_malloc cut
  free-malloc sz p h' e =
      let b = allocated base h.space in
      let (room, at, left) = malloc-some_inv _ _ base h.space sz e in
      subst (λ g. m61_free g p ≡ record { space = b; last_allocation = 0 }) left
        (free-last (record { space = cut b sz; last_allocation = b.buffer }) p
          (subst (λ q. 0 < q) at allocated-pos) (sym at))

  malloc-state :
      (sz p : ℕ) (h' : Heap)
      → m61_malloc base h sz ≡ (some p, h')
      → (p ≡ (allocated base h.space).buffer)
        × (h' ≡ record {
          space = cut (allocated base h.space) sz;
          last_allocation = (allocated base h.space).buffer;
        })
  unfolding m61_malloc
  malloc-state sz p h' e =
      let (room, at, left) = malloc-some_inv _ _ base h.space sz e in (sym at, sym left)

  -- A block of 0 bytes has the address of the block that is allocated next. When the client frees
  -- it after that, the other block, which is still in use, is allocated once more.
  pub malloc-zero_shares :
      (p q r n k : ℕ) (h1 h2 h3 : Heap)
      → m61_malloc base h 0 ≡ (some p, h1)
      → m61_malloc base h1 n ≡ (some q, h2)
      → m61_malloc base (m61_free h2 p) k ≡ (some r, h3)
      → (q ≡ p) × (r ≡ q)
  unfolding cut
  malloc-zero_shares p q r n k h1 h2 h3 e1 e2 e3 =
      let first = malloc-state 0 p h1 e1 in
      let pos : 0 < h1.space.buffer =
        omega (arith, allocated-pos, ap (λ g. g.space.buffer) first.1) in
      let second = malloc-again base n q h1 h2 pos e2 in
      let same : q ≡ p = omega (arith, first.0, second.0, ap (λ g. g.space.buffer) first.1) in
      let last : p ≡ h2.last_allocation =
        omega (arith, same, second.0, ap (λ g. g.last_allocation) second.1) in
      let freed = free-last h2 p (omega (arith, first.0, allocated-pos)) last in
      let back = ap (λ g. g.space.buffer) freed in
      let third =
        malloc-again base k r (m61_free h2 p) h3 (omega (arith, back, last, first.0, allocated-pos))
          e3 in
      (same, omega (arith, third.0, back, last, same))
