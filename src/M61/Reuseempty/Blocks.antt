-- ===== src/M61/Reuseempty/Blocks.antt =====
-- The blocks of m61-reuseempty.
use cs61_f26_psets.Common.{
  ℕ, suc, ◌+◌, ◌-◌, ◌^◌, ◌≤◌, ◌<◌, ◌≡◌, ◌≢◌, some, none, inl, inr, refl, ap, subst, sym, ◌∙◌, arith,
  Bool-cases, some_inj, true, false, [], ◌∷◌, ◌==◌, ==_iff, le→ltb,
}
use cs61_f26_psets.M61.Derp.{buffer_size, count_malloc}
use cs61_f26_psets.M61.Bump.{Buffer, allocated, cut, out_of_memory}
use cs61_f26_psets.M61.Bump.Client.{
  Live, Packed, Packed-widen, Reach, Removes, Removes-below, Removes-blocks, blocks-bytes,
  blocks_of, bytes-fit, none_yet, after, takes, refused, frees, frees_null,
}
use cs61_f26_psets.M61.Bump.Arena.{
  IsBase, IsCut, IsCut-base_le, IsSound, Removes-IsCut, Removes-sound, allocated-IsCut,
  out_of_memory_lem, malloc-takes, allocated-again, cut-IsCut, malloc-some_inv, malloc-none_inv,
}
use cs61_f26_psets.M61.Reuseempty.{Heap, emptied, m61_malloc, m61_free, start, uncounted}

-- The buffer is sound, the blocks in use are counted, and with none in use the buffer is whole.
pub record IsValid (base : ℕ) (h : Heap) (l : Live) : Type 0 where
  pub sound : IsSound base h.space l
  pub counted : h.gs.active_count ≡ blocks_of l
  pub whole : l ≡ [] → (allocated base h.space).buffer ≡ base

-- There are fewer blocks than addresses.
blocks-lt : (base : ℕ) (b : Buffer) (l : Live) → IsBase base → IsCut base b l → blocks_of l < 2 ^ 64
blocks-lt base b l m c =
    omega (
      arith,
      m,
      c.within,
      blocks-bytes base b.buffer l c.packed,
      bytes-fit base b.buffer l c.packed,
    )

m61_malloc-IsValid-some :
    (base sz p : ℕ) (h h' : Heap) (l : Live)
    → IsBase base
    → IsValid base h l
    → 0 < sz
    → m61_malloc base h sz ≡ (some p, h')
    → IsValid base h' ((p, sz) ∷ l)
unfolding m61_malloc count_malloc
m61_malloc-IsValid-some base sz p h h' l m v some_bytes e =
    let b = allocated base h.space in
    let (room, at, left) = malloc-some_inv _ _ base h.space sz e in
    let c = cut-IsCut base sz b l m (allocated-IsCut base h.space l m v.sound) some_bytes room in
    subst (λ q. IsValid base h' ((q, sz) ∷ l)) at
      (subst (λ g. IsValid base g ((b.buffer, sz) ∷ l)) left
        (record {
          sound = inr c;
          counted = omega (arith, v.counted, blocks-lt base (cut b sz) ((b.buffer, sz) ∷ l) m c);
          whole = λ none_live. cc;
        }))

m61_malloc-IsValid-none :
    (base sz : ℕ) (h h' : Heap) (l : Live)
    → IsBase base
    → IsValid base h l
    → m61_malloc base h sz ≡ (none, h')
    → IsValid base h' l
unfolding m61_malloc
m61_malloc-IsValid-none base sz h h' l m v e =
    let b = allocated base h.space in
    let c = allocated-IsCut base h.space l m v.sound in
    subst (λ g. IsValid base g l) (malloc-none_inv _ _ base h.space sz e)
      (record {
        sound = inr c;
        counted = v.counted;
        whole = λ none_live.
            ap (λ x. x.buffer) (allocated-again base b (omega (arith, m, IsCut-base_le base b l c)))
            ∙ v.whole none_live;
      })

free-emptied :
    (h : Heap) (p : ℕ)
    → 0 < p
    → ((uncounted h).gs.active_count == 0) ≡ true
    → m61_free h p ≡ emptied (uncounted h)
unfolding m61_free
free-emptied h p pos e = ground arith

free-counted :
    (h : Heap) (p : ℕ)
    → 0 < p
    → ((uncounted h).gs.active_count == 0) ≡ false
    → m61_free h p ≡ uncounted h
unfolding m61_free
free-counted h p pos e = ground arith

free-null : (h : Heap) → m61_free h 0 ≡ h
unfolding m61_free
free-null h = refl

uncounted_lem :
    (n : ℕ) (h : Heap) → h.gs.active_count ≡ suc n → n < 2 ^ 64 → (uncounted h).gs.active_count ≡ n
unfolding uncounted
uncounted_lem n h e lt = omega (arith, e, lt)

uncounted-IsValid :
    (base : ℕ) (h : Heap) (l : Live)
    → IsCut base h.space l
    → (uncounted h).gs.active_count ≡ blocks_of l
    → l ≢ []
    → IsValid base (uncounted h) l
unfolding uncounted
uncounted-IsValid base h l c e used = record {
  sound = inr c;
  counted = e;
  whole = λ none_live. absurd (used none_live);
}

emptied-IsValid :
    (base : ℕ) (h : Heap) {l : Live}
    → IsBase base
    → IsCut base h.space l
    → (uncounted h).gs.active_count ≡ 0
    → IsValid base (emptied (uncounted h)) []
unfolding uncounted emptied
emptied-IsValid base h m c e =
    let back : h.space.end_buffer - buffer_size ≡ base = omega (arith, c.ends) in
    record {
      sound =
          inr
            (record { ends = c.ends; within = omega (arith, back); packed = omega (arith, back) });
      counted = e;
      whole = λ none_live.
          ap (λ x. x.buffer)
            (allocated-again base (record h.space { buffer = h.space.end_buffer - buffer_size })
              (omega (arith, m, back)))
          ∙ back;
    }

no_blocks : (l : Live) → blocks_of l ≡ 0 → l ≡ []
no_blocks [] e = refl
no_blocks (x ∷ l) e = absurd (omega (arith, e))

m61_free-IsValid :
    (base p : ℕ) (h : Heap) {l l' : Live}
    → IsBase base
    → IsValid base h l
    → Removes p l l'
    → IsValid base (m61_free h p) l'
m61_free-IsValid base p h {l} {l'} m v r =
    let c = Removes-sound base p h.space r v.sound in
    let c' = Removes-IsCut base p h.space r c in
    let pos : 0 < p = omega (arith, m, Removes-below p base h.space.buffer r c.packed) in
    let count : (uncounted h).gs.active_count ≡ blocks_of l' =
      uncounted_lem (blocks_of l') h (v.counted ∙ Removes-blocks p r)
        (blocks-lt base h.space l' m c') in
    elim (Bool-cases ((uncounted h).gs.active_count == 0)) [
      | inl e ↦
          let zero_left = (==_iff _ 0).0 e in
          rw (free-emptied h p pos e) (
            subst (λ k. IsValid base (emptied (uncounted h)) k)
              (sym (no_blocks l' (sym count ∙ zero_left))) (emptied-IsValid base h m c' zero_left))
      | inr e ↦ rw (free-counted h p pos e) (
          uncounted-IsValid base h l' c' count
            (λ none_live. ground (arith, e, count, ap blocks_of none_live)))
    ]

-- The steps of a client of m61-reuseempty.
abbrev pub Reaches : ℕ → Heap → Live → Type 0
Reaches base h l = Reach (m61_malloc base) (λ h p. some (m61_free h p)) start h l

pub Reaches-IsValid :
    (base : ℕ) {h : Heap} {l : Live} → IsBase base → Reaches base h l → IsValid base h l
unfolding allocated
Reaches-IsValid base m none_yet = record {
  sound = inl (refl, refl);
  counted = refl;
  whole = λ none_live. refl;
}
Reaches-IsValid base m (after {h} {h'} {l} {l'} r (takes sz p some_bytes e)) =
    m61_malloc-IsValid-some base sz p h h' l m (Reaches-IsValid base m r) some_bytes e
Reaches-IsValid base m (after {h} {h'} {l} {l'} r (refused sz e)) =
    m61_malloc-IsValid-none base sz h h' l m (Reaches-IsValid base m r) e
Reaches-IsValid base m (after {h} {h'} {l} {l'} r (frees p k e)) =
    subst (λ g. IsValid base g l') (some_inj _ _ e)
      (m61_free-IsValid base p h m (Reaches-IsValid base m r) k)
Reaches-IsValid base m (after {h} {h'} {l} {l'} r (frees_null e)) =
    subst (λ g. IsValid base g l) (sym (free-null h) ∙ some_inj _ _ e) (Reaches-IsValid base m r)

-- However a client that asks for blocks of at least one byte allocates and frees, the blocks that it
-- holds lie in the buffer and do not overlap, and active_count is their number.
pub Reaches-counted :
    (base : ℕ) {h : Heap} {l : Live}
    → IsBase base
    → Reaches base h l
    → Packed base l (base + buffer_size) × (h.gs.active_count ≡ blocks_of l)
Reaches-counted base {h} {l} m r =
    let v = Reaches-IsValid base m r in
    (
      elim v.sound [
        | inl (e, none_live) ↦ rw none_live (omega arith)
        | inr c ↦ Packed-widen base h.space.buffer (base + buffer_size) l c.packed c.within
      ],
      v.counted,
    )

-- Whatever a client did before that only asks for blocks of at least one byte, once it has freed
-- every block, m61_malloc answers with the start of the buffer to any request of at most 8 MB.
pub Reaches-reuses :
    (base sz : ℕ) {h : Heap}
    → IsBase base
    → Reaches base h []
    → sz ≤ buffer_size
    → (m61_malloc base h sz).0 ≡ some base
unfolding m61_malloc
Reaches-reuses base sz {h} m r fits =
    let v = Reaches-IsValid base m r in
    let b = allocated base h.space in
    let c = allocated-IsCut base h.space [] m v.sound in
    let room : out_of_memory b sz ≡ false =
      out_of_memory_lem base sz b [] m c ∙ le→ltb _ _ (omega (arith, v.whole refl, fits)) in
    ap (λ r. r.0) (malloc-takes _ _ base h.space sz room) ∙ ap some (v.whole refl)
