-- ===== src/M61/Once/Blocks.antt =====
-- The blocks of m61-once never overlap.
use cs61_f26_psets.Common.{ℕ, ◌≡◌, some, inl, inr, refl, subst, ◌∷◌, some_inj}
use cs61_f26_psets.M61.Bump.{allocated, no_buffer, Buffer}
use cs61_f26_psets.M61.Bump.Client.{Live, Reach, none_yet, after, takes, refused, frees, frees_null}
use cs61_f26_psets.M61.Bump.Arena.{
  IsBase, IsSound, Removes-IsCut, Removes-sound, allocated-IsCut, cut-IsCut, malloc-none_inv,
  malloc-some_inv,
}
use cs61_f26_psets.M61.Once.{m61_free, m61_malloc}

-- The steps of a client of m61-once.
abbrev pub Reaches : ℕ → Buffer → Live → Type 0
Reaches base b l = Reach (m61_malloc base) (λ h p. some (m61_free h p)) no_buffer b l

free-same : (b b' : Buffer) (p : ℕ) → some (m61_free b p) ≡ some b' → b ≡ b'
unfolding m61_free
free-same b b' p e = some_inj _ _ e

-- However a client that asks for blocks of at least one byte allocates and frees, the blocks that it
-- holds lie in the part of the buffer of 8 MB that is cut off, and no two of them overlap.
pub Reaches-IsSound :
    (base : ℕ) {b : Buffer} {l : Live} → IsBase base → Reaches base b l → IsSound base b l
unfolding m61_malloc
Reaches-IsSound base m none_yet = inl (refl, refl)
Reaches-IsSound base m (after {h = b} {h' = b'} {l} {l'} r (takes sz p some_bytes e)) =
    let (room, at, left) = malloc-some_inv _ _ base b sz e in
    let c = allocated-IsCut base b l m (Reaches-IsSound base m r) in
    subst (λ q. IsSound base b' ((q, sz) ∷ l)) at
      (subst (λ g. IsSound base g (((allocated base b).buffer, sz) ∷ l)) left
        (inr (cut-IsCut base sz (allocated base b) l m c some_bytes room)))
Reaches-IsSound base m (after {h = b} {h' = b'} {l} {l'} r (refused sz e)) =
    subst (λ g. IsSound base g l) (malloc-none_inv _ _ base b sz e)
      (inr (allocated-IsCut base b l m (Reaches-IsSound base m r)))
Reaches-IsSound base m (after {h = b} {h' = b'} {l} {l'} r (frees p k e)) =
    subst (λ g. IsSound base g l') (free-same b b' p e)
      (inr (Removes-IsCut base p b k (Removes-sound base p b k (Reaches-IsSound base m r))))
Reaches-IsSound base m (after {h = b} {h' = b'} {l} {l'} r (frees_null e)) =
    subst (λ g. IsSound base g l) (free-same b b' 0 e) (Reaches-IsSound base m r)
