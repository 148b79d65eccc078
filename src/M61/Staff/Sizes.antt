-- ===== src/M61/Staff/Sizes.antt =====
-- The sizes of blocks that do not overlap, by their addresses.
use cs61_f26_psets.Common.{
  ℕ, ◌+◌, ◌≤◌, ◌≡◌, ◌≢◌, none, some, [], ◌∷◌, refl, ◌∙◌, arith, ◌==◌, if◌then◌else◌,
}
use cs61_f26_psets.M61.Bump.Client.{
  Live, Packed, Removes, Removes-below, bytes_of, here, size_at, there,
}

pub size_at-newest : (p n : ℕ) (l : Live) → size_at p ((p, n) ∷ l) ≡ some n
unfolding size_at
size_at-newest p n l = ground arith

pub size_at-older : (j p n : ℕ) (l : Live) → j ≢ p → size_at j ((p, n) ∷ l) ≡ size_at j l
unfolding size_at
size_at-older j p n l other = ground arith

-- No block stands behind the range.
pub size_at-behind : (j lo hi : ℕ) (l : Live) → Packed lo l hi → hi ≤ j → size_at j l ≡ none
unfolding size_at
size_at-behind j lo hi [] k le = refl
size_at-behind j lo hi ((p, n) ∷ l) (some_bytes, below, k) le =
    size_at-older j p n l (λ e. omega (arith, e))
    ∙ size_at-behind j lo p l k (omega (arith, some_bytes, below, le))

-- The block that is removed is the one that stands at its address.
pub size_at-removed :
    (p lo hi : ℕ) {l l' : Live}
    → Removes p l l'
    → Packed lo l hi
    → (n : ℕ) × (size_at p l ≡ some n) × (bytes_of l ≡ n + bytes_of l')
size_at-removed p lo hi (here q n l e) k = (n, rw (← e) (size_at-newest q n l), refl)
size_at-removed p lo hi (there q n {l} {l'} r) (some_bytes, below, k) =
    let (size, at, sum) = size_at-removed p lo q r k in
    let before = Removes-below p lo q r k in
    (size, size_at-older p q n l (λ e. omega (arith, e, before)) ∙ at, omega (arith, sum))

-- The others stay.
pub size_at-after :
    (p lo hi : ℕ) {l l' : Live}
    → Removes p l l'
    → Packed lo l hi
    → (j : ℕ) → size_at j l' ≡ (if j == p then none else size_at j l)
unfolding size_at
size_at-after p lo hi (here q n l e) (some_bytes, below, k) j =
    ground (arith, e, size_at-behind j lo q l k)
size_at-after p lo hi (there q n {l} {l'} r) (some_bytes, below, k) j =
    ground (arith, size_at-after p lo q r k j, Removes-below p lo q r k)
