-- ===== src/M61/Staff/Blocks.antt =====
-- The blocks of m61-staff, and its statistics.
use cs61_f26_psets.Common.{
  ℕ, ◌+◌, ◌^◌, ◌<◌, ◌≡◌, some, none, inl, inr, refl, subst, sym, ◌∙◌, false, arith, some_inj,
  Option-cases, ◌↔◌, ◌∷◌, ◌==◌, if◌then◌else◌,
}
use cs61_f26_psets.M61.Derp.{buffer_size, count_free, count_malloc}
use cs61_f26_psets.M61.Bump.{Buffer, allocated, cut}
use cs61_f26_psets.M61.Bump.Client.{
  Live, Packed, Packed-widen, Reach, Removes, Removes-below, Removes-blocks, blocks-bytes,
  blocks_of, bytes-fit, bytes_of, none_yet, after, takes, refused, frees, frees_null, size_at,
}
use cs61_f26_psets.M61.Bump.Arena.{
  IsBase, IsCut, IsSound, Removes-IsCut, Removes-sound, allocated-IsCut, cut-IsCut, malloc-some_inv,
  malloc-none_inv,
}
use cs61_f26_psets.M61.Staff.{Allocs, Heap, erase, insert_size, m61_malloc, m61_free, start}
use cs61_f26_psets.M61.Staff.Sizes.{size_at-after, size_at-behind, size_at-removed}

-- The buffer is sound, the map has the blocks in use, and these are counted.
pub record IsValid (base : ℕ) (h : Heap) (l : Live) : Type 0 where
  pub sound : IsSound base h.space l
  pub mapped : (j : ℕ) → h.active_allocs j ≡ size_at j l
  pub counted : h.gs.active_count ≡ blocks_of l
  pub summed : h.gs.active_bytes ≡ bytes_of l

-- There are fewer blocks, and fewer bytes in them, than addresses.
bytes-lt :
    (base : ℕ) (b : Buffer) (l : Live)
    → IsBase base
    → IsCut base b l
    → (blocks_of l < 2 ^ 64) × (bytes_of l < 2 ^ 64)
bytes-lt base b l m c =
    omega (
      arith,
      m,
      c.within,
      blocks-bytes base b.buffer l c.packed,
      bytes-fit base b.buffer l c.packed,
    )

insert_size_lem :
    (k n j : ℕ) (s : Allocs) (l : Live)
    → ((j : ℕ) → s j ≡ size_at j l)
    → size_at k l ≡ none
    → insert_size k n s j ≡ size_at j ((k, n) ∷ l)
unfolding insert_size size_at
insert_size_lem k n j s l same new = ground (arith, same j, same k)

m61_malloc-IsValid-some :
    (base sz p : ℕ) (h h' : Heap) (l : Live)
    → IsBase base
    → IsValid base h l
    → 0 < sz
    → m61_malloc base h sz ≡ (some p, h')
    → IsValid base h' ((p, sz) ∷ l)
unfolding m61_malloc count_malloc
m61_malloc-IsValid-some base sz p h h' l m v some_bytes e =
    let b = allocated base h.space in
    let (room, at, left) = malloc-some_inv _ _ base h.space sz e in
    let old = allocated-IsCut base h.space l m v.sound in
    let c = cut-IsCut base sz b l m old some_bytes room in
    let fit = bytes-lt base (cut b sz) ((b.buffer, sz) ∷ l) m c in
    subst (λ q. IsValid base h' ((q, sz) ∷ l)) at
      (subst (λ g. IsValid base g ((b.buffer, sz) ∷ l)) left
        (record {
          sound = inr c;
          mapped = λ j.
              insert_size_lem b.buffer sz j h.active_allocs l v.mapped
                (size_at-behind b.buffer base b.buffer l old.packed (omega arith));
          counted = omega (arith, v.counted, fit);
          summed = omega (arith, v.summed, fit);
        }))

m61_malloc-IsValid-none :
    (base sz : ℕ) (h h' : Heap) (l : Live)
    → IsBase base
    → IsValid base h l
    → m61_malloc base h sz ≡ (none, h')
    → IsValid base h' l
unfolding m61_malloc
m61_malloc-IsValid-none base sz h h' l m v e =
    subst (λ g. IsValid base g l) (malloc-none_inv _ _ base h.space sz e)
      (record {
        sound = inr (allocated-IsCut base h.space l m v.sound);
        mapped = v.mapped;
        counted = v.counted;
        summed = v.summed;
      })

-- What freeing a block of `n` bytes leaves.
unfoldable pub freed : Heap → ℕ → ℕ → Heap
freed h p n = record h { gs = count_free h.gs n; active_allocs = erase p h.active_allocs }

-- A pointer that is not nullptr.
not_null : (p : ℕ) → 0 < p → (p == 0) ≡ false
not_null p pos = ground arith

pub free-found :
    (h : Heap) (p n : ℕ) → 0 < p → h.active_allocs p ≡ some n → m61_free h p ≡ some (freed h p n)
unfolding m61_free freed
free-found h p n pos e = rw (not_null p pos, e) refl

pub free-missing : (h : Heap) (p : ℕ) → 0 < p → h.active_allocs p ≡ none → m61_free h p ≡ none
unfolding m61_free
free-missing h p pos e = rw (not_null p pos, e) refl

free-null : (h : Heap) → m61_free h 0 ≡ some h
unfolding m61_free
free-null h = refl

erase_lem :
    (p j : ℕ) (s : Allocs) (l l' : Live)
    → s j ≡ size_at j l
    → size_at j l' ≡ (if j == p then none else size_at j l)
    → erase p s j ≡ size_at j l'
unfolding erase
erase_lem p j s l l' same rest = ground arith

freed-IsValid :
    (base p n : ℕ) (h : Heap) {l l' : Live}
    → IsBase base
    → IsValid base h l
    → Removes p l l'
    → bytes_of l ≡ n + bytes_of l'
    → IsValid base (freed h p n) l'
unfolding freed count_free
freed-IsValid base p n h {l} {l'} m v r sum =
    let c = Removes-sound base p h.space r v.sound in
    let fit = bytes-lt base h.space l m c in
    record {
      sound = inr (Removes-IsCut base p h.space r c);
      mapped = λ j.
          erase_lem p j h.active_allocs l l' (v.mapped j)
            (size_at-after p base h.space.buffer r c.packed j);
      counted = omega (arith, v.counted, fit, Removes-blocks p r);
      summed = omega (arith, v.summed, fit, sum);
    }

-- Freeing a block in use succeeds.
m61_free-IsValid :
    (base p : ℕ) (h : Heap) {l l' : Live}
    → IsBase base
    → IsValid base h l
    → Removes p l l'
    → (h' : Heap) × (m61_free h p ≡ some h') × IsValid base h' l'
m61_free-IsValid base p h {l} {l'} m v r =
    let c = Removes-sound base p h.space r v.sound in
    let (n, at, sum) = size_at-removed p base h.space.buffer r c.packed in
    let pos : 0 < p = omega (arith, m, Removes-below p base h.space.buffer r c.packed) in
    (freed h p n, free-found h p n pos (v.mapped p ∙ at), freed-IsValid base p n h m v r sum)

-- The steps of a client of m61-staff.
abbrev pub Reaches : ℕ → Heap → Live → Type 0
Reaches base h l = Reach (m61_malloc base) m61_free start h l

pub Reaches-IsValid :
    (base : ℕ) {h : Heap} {l : Live} → IsBase base → Reaches base h l → IsValid base h l
unfolding size_at
Reaches-IsValid base m none_yet = record {
  sound = inl (refl, refl);
  mapped = λ j. refl;
  counted = refl;
  summed = refl;
}
Reaches-IsValid base m (after {h} {h'} {l} {l'} r (takes sz p some_bytes e)) =
    m61_malloc-IsValid-some base sz p h h' l m (Reaches-IsValid base m r) some_bytes e
Reaches-IsValid base m (after {h} {h'} {l} {l'} r (refused sz e)) =
    m61_malloc-IsValid-none base sz h h' l m (Reaches-IsValid base m r) e
Reaches-IsValid base m (after {h} {h'} {l} {l'} r (frees p k e)) =
    let (g, at, v) = m61_free-IsValid base p h m (Reaches-IsValid base m r) k in
    subst (λ g. IsValid base g l') (some_inj _ _ (sym at ∙ e)) v
Reaches-IsValid base m (after {h} {h'} {l} {l'} r (frees_null e)) =
    subst (λ g. IsValid base g l) (some_inj _ _ (sym (free-null h) ∙ e)) (Reaches-IsValid base m r)

-- However a client that asks for blocks of at least one byte allocates and frees, the blocks that it
-- holds lie in the buffer and do not overlap, active_count is their number, and active_bytes is the
-- sum of their sizes.
pub Reaches-summed :
    (base : ℕ) {h : Heap} {l : Live}
    → IsBase base
    → Reaches base h l
    → Packed base l (base + buffer_size)
      × (h.gs.active_count ≡ blocks_of l)
      × (h.gs.active_bytes ≡ bytes_of l)
Reaches-summed base {h} {l} m r =
    let v = Reaches-IsValid base m r in
    (
      elim v.sound [
        | inl (e, none_live) ↦ rw none_live (omega arith)
        | inr c ↦ Packed-widen base h.space.buffer (base + buffer_size) l c.packed c.within
      ],
      v.counted,
      v.summed,
    )

-- In a state that such a client reaches, m61_free accepts an address other than nullptr exactly when
-- a block that the client holds starts there: any other address fails the assertion.
pub free-checks :
    (base p : ℕ) {h : Heap} {l : Live}
    → IsBase base
    → Reaches base h l
    → 0 < p
    → (m61_free h p ≡ none) ↔ (size_at p l ≡ none)
free-checks base p {h} {l} m r pos =
    let same = (Reaches-IsValid base m r).mapped p in
    (
      λ e. elim (Option-cases (h.active_allocs p)) [
        | inl missing ↦ sym same ∙ missing
        | inr (n, found) ↦ cc (free-found h p n pos found)
      ],
      λ missing. free-missing h p pos (same ∙ missing),
    )
