-- ===== src/M61/Bump/Arena.antt =====
-- The buffer of the allocators, between two calls.
use cs61_f26_psets.Common.{
  ℕ, ◌+◌, ◌-◌, ◌^◌, ◌≤◌, ◌<◌, ◌≡◌, ◌⊎◌, inl, inr, true, false, [], ◌∷◌, arith, Bool-cases, some,
  none, refl, sym, ap, some_inj, ◌∙◌, ltb,
}
use cs61_f26_psets.M61.Derp.{buffer_size}
use cs61_f26_psets.M61.Bump.{Buffer, allocated, buffer_malloc, cut, out_of_memory}
use cs61_f26_psets.M61.Bump.Client.{
  Live, Packed, Packed-le, Packed-Removes, Removes, Removes-blocks, blocks_of,
}

-- `malloc` answers with a buffer that lies in memory.
abbrev pub IsBase : ℕ → Type 0
IsBase base = (0 < base) × (base + buffer_size < 2 ^ 64)

-- The blocks in use lie in the part of the buffer that is already cut off.
pub record IsCut (base : ℕ) (b : Buffer) (l : Live) : Type 0 where
  pub ends : b.end_buffer ≡ base + buffer_size
  pub within : b.buffer ≤ base + buffer_size
  pub packed : Packed base l b.buffer

-- Before the first call there is no buffer, and no block.
abbrev pub IsSound : ℕ → Buffer → Live → Type 0
IsSound base b l = ((b.buffer ≡ 0) × (l ≡ [])) ⊎ IsCut base b l

-- The buffer when it is new.
abbrev whole_buffer : ℕ → Buffer
whole_buffer base = record { buffer = base; end_buffer = base + buffer_size }

pub IsCut-base_le : (base : ℕ) (b : Buffer) (l : Live) → IsCut base b l → base ≤ b.buffer
IsCut-base_le base b l c = Packed-le base b.buffer l c.packed

allocated-first : (base : ℕ) (b : Buffer) → b.buffer ≡ 0 → allocated base b ≡ whole_buffer base
unfolding allocated
allocated-first base b e = rw e refl

pub allocated-again : (base : ℕ) (b : Buffer) → 0 < b.buffer → allocated base b ≡ b
unfolding allocated
allocated-again base b pos = ground arith

pub allocated-IsCut :
    (base : ℕ) (b : Buffer) (l : Live)
    → IsBase base
    → IsSound base b l
    → IsCut base (allocated base b) l
allocated-IsCut base b l m (inl (e, none_live)) =
    rw (allocated-first base b e, none_live)
      (record { ends = refl; within = omega arith; packed = omega arith })
allocated-IsCut base b l m (inr c) =
    rw (allocated-again base b (omega (arith, m, IsCut-base_le base b l c))) c

-- The space is what is left up to the end.
pub out_of_memory_lem :
    (base sz : ℕ) (b : Buffer) (l : Live)
    → IsBase base
    → IsCut base b l
    → out_of_memory b sz ≡ ltb (base + buffer_size - b.buffer) sz
unfolding out_of_memory
out_of_memory_lem base sz b l m c =
    ap (λ n. ltb n sz) (omega (arith, m, c.ends, c.within, IsCut-base_le base b l c))

-- A block that is cut off is behind all others.
pub cut-IsCut :
    (base sz : ℕ) (b : Buffer) (l : Live)
    → IsBase base
    → IsCut base b l
    → 0 < sz
    → out_of_memory b sz ≡ false
    → IsCut base (cut b sz) ((b.buffer, sz) ∷ l)
unfolding cut
cut-IsCut base sz b l m c some_bytes room = record {
  ends = c.ends;
  within =
      let fits = sym (out_of_memory_lem base sz b l m c) ∙ room in ground (arith, fits, c.within);
  packed = (some_bytes, omega arith, c.packed);
}

pub Removes-IsCut :
    (base p : ℕ) (b : Buffer) {l l' : Live} → Removes p l l' → IsCut base b l → IsCut base b l'
Removes-IsCut base p b r c = record {
  ends = c.ends;
  within = c.within;
  packed = Packed-Removes p base b.buffer r c.packed;
}

module _ {H : Type 0} (full : Buffer → H) (take : Buffer → ℕ → H) (base : ℕ) (b : Buffer)
    (sz : ℕ) where
  pub malloc-full :
      out_of_memory (allocated base b) sz ≡ true
      → buffer_malloc full take base b sz ≡ (none, full (allocated base b))
  unfolding buffer_malloc
  malloc-full e = rw e refl

  pub malloc-takes :
      out_of_memory (allocated base b) sz ≡ false
      → buffer_malloc full take base b sz
        ≡ (some (allocated base b).buffer, take (allocated base b) sz)
  unfolding buffer_malloc
  malloc-takes e = rw e refl

  -- What a call that succeeds answers and leaves.
  pub malloc-some_inv :
      {p : ℕ} {h' : H}
      → buffer_malloc full take base b sz ≡ (some p, h')
      → (out_of_memory (allocated base b) sz ≡ false)
        × ((allocated base b).buffer ≡ p)
        × (take (allocated base b) sz ≡ h')
  malloc-some_inv e = elim (Bool-cases (out_of_memory (allocated base b) sz)) [
    | inl no_room ↦ cc (malloc-full no_room)
    | inr room ↦
        let f = sym (malloc-takes room) ∙ e in
        (room, some_inj _ _ (ap (λ r. r.0) f), ap (λ r. r.1) f)
  ]

  -- What a call that fails leaves.
  pub malloc-none_inv :
      {h' : H} → buffer_malloc full take base b sz ≡ (none, h') → full (allocated base b) ≡ h'
  malloc-none_inv e = elim (Bool-cases (out_of_memory (allocated base b) sz)) [
    | inl no_room ↦ ap (λ r. r.1) (sym (malloc-full no_room) ∙ e)
    | inr room ↦ cc (malloc-takes room)
  ]

-- A client that holds a block has seen the buffer.
pub Removes-sound :
    (base p : ℕ) (b : Buffer) {l l' : Live} → Removes p l l' → IsSound base b l → IsCut base b l
Removes-sound base p b {l} {l'} r (inl (e, none_live)) =
    absurd (omega (arith, Removes-blocks p r, ap blocks_of none_live))
Removes-sound base p b r (inr c) = c
