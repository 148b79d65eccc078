-- ===== src/M61/Lastalloc/Blocks.antt =====
-- The blocks of m61-lastalloc.
use cs61_f26_psets.Common.{
  ℕ, ◌+◌, ◌≤◌, ◌<◌, ◌≡◌, ◌≢◌, ◌⊎◌, some, none, inl, inr, refl, subst, sym, ◌∙◌, arith, some_inj, [],
  ◌∷◌,
}
use native.Mathlib.Decide.{ℕ_discrete}
use cs61_f26_psets.M61.Derp.{buffer_size}
use cs61_f26_psets.M61.Bump.{Buffer, allocated}
use cs61_f26_psets.M61.Bump.Client.{
  Live, Packed, Packed-widen, Reach, Removes, Removes-below, here, there, none_yet, after, takes,
  refused, frees, frees_null,
}
use cs61_f26_psets.M61.Bump.Arena.{
  IsBase, IsCut, IsSound, Removes-IsCut, Removes-sound, allocated-IsCut, cut-IsCut, malloc-some_inv,
  malloc-none_inv,
}
use cs61_f26_psets.M61.Lastalloc.{Heap, m61_malloc, m61_free, start}

-- The newest block in use stands at `p`.
abbrev pub IsNewest : ℕ → Live → Type 0
IsNewest p [] = ⊥
IsNewest p ((q, n) ∷ l) = q ≡ p

-- The buffer is sound, and `last_allocation` is nullptr or the newest block.
pub record IsValid (base : ℕ) (h : Heap) (l : Live) : Type 0 where
  pub sound : IsSound base h.space l
  pub newest : (h.last_allocation ≡ 0) ⊎ IsNewest h.last_allocation l

m61_malloc-IsValid-some :
    (base sz p : ℕ) (h h' : Heap) (l : Live)
    → IsBase base
    → IsValid base h l
    → 0 < sz
    → m61_malloc base h sz ≡ (some p, h')
    → IsValid base h' ((p, sz) ∷ l)
unfolding m61_malloc
m61_malloc-IsValid-some base sz p h h' l m v some_bytes e =
    let b = allocated base h.space in
    let (room, at, left) = malloc-some_inv _ _ base h.space sz e in
    subst (λ q. IsValid base h' ((q, sz) ∷ l)) at
      (subst (λ g. IsValid base g ((b.buffer, sz) ∷ l)) left
        (record {
          sound =
              inr (
                cut-IsCut base sz b l m (allocated-IsCut base h.space l m v.sound) some_bytes room);
          newest = inr refl;
        }))

m61_malloc-IsValid-none :
    (base sz : ℕ) (h h' : Heap) (l : Live)
    → IsBase base
    → IsValid base h l
    → m61_malloc base h sz ≡ (none, h')
    → IsValid base h' l
unfolding m61_malloc
m61_malloc-IsValid-none base sz h h' l m v e =
    subst (λ g. IsValid base g l) (malloc-none_inv _ _ base h.space sz e)
      (record { sound = inr (allocated-IsCut base h.space l m v.sound); newest = v.newest })

-- The list that loses a block which is not the newest keeps the newest.
Removes-IsNewest : (p q : ℕ) {l l' : Live} → Removes p l l' → IsNewest q l → p ≢ q → IsNewest q l'
Removes-IsNewest p q (here r n l e) new other = absurd (other (sym e ∙ new))
Removes-IsNewest p q (there r n k) new other = new

-- The newest block is the last, so that the others end where it starts.
Removes-newest :
    (p lo hi : ℕ) {l l' : Live} → Removes p l l' → IsNewest p l → Packed lo l hi → Packed lo l' p
Removes-newest p lo hi (here q n l e) new (some_bytes, below, k) = subst (Packed lo l) e k
Removes-newest p lo hi (there q n {l} {l'} r) new (some_bytes, below, k) =
    absurd (omega (arith, new, Removes-below p lo q r k))

pub free-last :
    (h : Heap) (p : ℕ)
    → 0 < p
    → p ≡ h.last_allocation
    → m61_free h p
      ≡ record { space = record h.space { buffer = h.last_allocation }; last_allocation = 0 }
unfolding m61_free
free-last h p pos e = ground arith

free-other : (h : Heap) (p : ℕ) → p ≢ h.last_allocation → m61_free h p ≡ h
unfolding m61_free
free-other h p other = ground arith

pub free-null : (h : Heap) → m61_free h 0 ≡ h
unfolding m61_free
free-null h = refl

-- Freeing the newest block gives its bytes back.
given_back-IsCut :
    (base p : ℕ) (b : Buffer) {l l' : Live}
    → IsCut base b l
    → Removes p l l'
    → IsNewest p l
    → IsCut base (record b { buffer = p }) l'
given_back-IsCut base p b c r new = record {
  ends = c.ends;
  within = omega (arith, c.within, Removes-below p base b.buffer r c.packed);
  packed = Removes-newest p base b.buffer r new c.packed;
}

m61_free-IsValid :
    (base p : ℕ) (h : Heap) {l l' : Live}
    → IsBase base
    → IsValid base h l
    → Removes p l l'
    → IsValid base (m61_free h p) l'
m61_free-IsValid base p h {l} {l'} m v r =
    let c = Removes-sound base p h.space r v.sound in
    let above = Removes-below p base h.space.buffer r c.packed in
    elim (ℕ_discrete p h.last_allocation) [
      | yes e ↦
          let new = newest_of e above.0 in
          rw (free-last h p (omega (arith, m, above)) e) (record {
            sound = inr (
                subst (λ q. IsCut base (record h.space { buffer = q }) l') e
                  (given_back-IsCut base p h.space c r new));
            newest = inl refl;
          })
      | no other ↦
          rw (free-other h p other) (record {
            sound = inr (Removes-IsCut base p h.space r c);
            newest = still other v.newest;
          })
    ]
  where
    newest_of : p ≡ h.last_allocation → base ≤ p → IsNewest p l
    newest_of e le = elim v.newest [
      | inl none_last ↦ absurd (omega (arith, m, e, le, none_last))
      | inr new ↦ subst (λ q. IsNewest q l) (sym e) new
    ]

    still :
        p ≢ h.last_allocation
        → (h.last_allocation ≡ 0) ⊎ IsNewest h.last_allocation l
        → (h.last_allocation ≡ 0) ⊎ IsNewest h.last_allocation l'
    still other (inl e) = inl e
    still other (inr new) = inr (Removes-IsNewest p h.last_allocation r new other)

-- The steps of a client of m61-lastalloc.
abbrev pub Reaches : ℕ → Heap → Live → Type 0
Reaches base h l = Reach (m61_malloc base) (λ h p. some (m61_free h p)) start h l

pub Reaches-IsValid :
    (base : ℕ) {h : Heap} {l : Live} → IsBase base → Reaches base h l → IsValid base h l
Reaches-IsValid base m none_yet = record { sound = inl (refl, refl); newest = inl refl }
Reaches-IsValid base m (after {h} {h'} {l} {l'} r (takes sz p some_bytes e)) =
    m61_malloc-IsValid-some base sz p h h' l m (Reaches-IsValid base m r) some_bytes e
Reaches-IsValid base m (after {h} {h'} {l} {l'} r (refused sz e)) =
    m61_malloc-IsValid-none base sz h h' l m (Reaches-IsValid base m r) e
Reaches-IsValid base m (after {h} {h'} {l} {l'} r (frees p k e)) =
    subst (λ g. IsValid base g l') (some_inj _ _ e)
      (m61_free-IsValid base p h m (Reaches-IsValid base m r) k)
Reaches-IsValid base m (after {h} {h'} {l} {l'} r (frees_null e)) =
    subst (λ g. IsValid base g l) (sym (free-null h) ∙ some_inj _ _ e) (Reaches-IsValid base m r)

-- However a client that asks for blocks of at least one byte allocates and frees, the blocks that it
-- holds lie between the start and the end of the buffer of 8 MB, and no two of them overlap.
pub Reaches-Packed :
    (base : ℕ) {h : Heap} {l : Live}
    → IsBase base
    → Reaches base h l
    → Packed base l (base + buffer_size)
Reaches-Packed base {h} {l} m r = elim (Reaches-IsValid base m r).sound [
  | inl (e, none_live) ↦ rw none_live (omega arith)
  | inr c ↦ Packed-widen base h.space.buffer (base + buffer_size) l c.packed c.within
]
