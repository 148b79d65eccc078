-- ===== src/M61/Bump/Client.antt =====
-- A client of an allocator: the blocks that it holds, and what it may do.
use cs61_f26_psets.Common.{
  ℕ, suc, ◌+◌, ◌≤◌, ◌<◌, ◌≡◌, Option, none, some, List, [], ◌∷◌, arith, ◌==◌, if◌then◌else◌,
}

-- The address and the size of each block that is in use, the newest first.
abbrev pub Live : Type 0
Live = List (ℕ × ℕ)

-- The list loses one block at the address `p`.
pub data Removes (p : ℕ) : Live → Live → Type 0 where
  here : (q n : ℕ) (l : Live) → q ≡ p → Removes p ((q, n) ∷ l) l
  there : (q n : ℕ) {l l' : Live} → Removes p l l' → Removes p ((q, n) ∷ l) ((q, n) ∷ l')

-- The blocks have bytes, lie between `lo` and `hi`, and each ends before any newer one starts.
abbrev pub Packed : ℕ → Live → ℕ → Type 0
Packed lo [] hi = lo ≤ hi
Packed lo ((p, n) ∷ l) hi = (0 < n) × (p + n ≤ hi) × Packed lo l p

abbrev pub blocks_of : Live → ℕ
blocks_of [] = 0
blocks_of (x ∷ l) = suc (blocks_of l)

abbrev pub bytes_of : Live → ℕ
bytes_of [] = 0
bytes_of ((p, n) ∷ l) = n + bytes_of l

-- The size of the block at an address.
unfoldable pub size_at : ℕ → Live → Option ℕ
size_at p [] = none
size_at p ((q, n) ∷ l) = if p == q then some n else size_at p l

-- An allocator by its two operations; a free that fails ends the program.
module _ {H : Type 0} (malloc : H → ℕ → Option ℕ × H) (free : H → ℕ → Option H) where
  -- The client asks for a block of at least one byte, frees a block that it holds, or frees nullptr.
  pub data Step : H → Live → H → Live → Type 0 where
    takes :
        {h h' : H} {l : Live} (sz p : ℕ)
        → 0 < sz
        → malloc h sz ≡ (some p, h')
        → Step h l h' ((p, sz) ∷ l)
    refused : {h h' : H} {l : Live} (sz : ℕ) → malloc h sz ≡ (none, h') → Step h l h' l
    frees : {h h' : H} {l l' : Live} (p : ℕ) → Removes p l l' → free h p ≡ some h' → Step h l h' l'
    frees_null : {h h' : H} {l : Live} → free h 0 ≡ some h' → Step h l h' l

  -- What a client can reach from `start`, holding no block.
  pub data Reach (start : H) : H → Live → Type 0 where
    none_yet : Reach start start []
    after : {h h' : H} {l l' : Live} → Reach start h l → Step h l h' l' → Reach start h' l'

pub Packed-le : (lo hi : ℕ) (l : Live) → Packed lo l hi → lo ≤ hi
Packed-le lo hi [] k = k
Packed-le lo hi ((p, n) ∷ l) (some_bytes, below, k) = omega (arith, Packed-le lo p l k)

pub Packed-widen : (lo hi hi' : ℕ) (l : Live) → Packed lo l hi → hi ≤ hi' → Packed lo l hi'
Packed-widen lo hi hi' [] k le = omega (arith, k, le)
Packed-widen lo hi hi' ((p, n) ∷ l) (some_bytes, below, k) le =
    (some_bytes, omega (arith, below, le), k)

pub Packed-Removes : (p lo hi : ℕ) {l l' : Live} → Removes p l l' → Packed lo l hi → Packed lo l' hi
Packed-Removes p lo hi (here q n l e) (some_bytes, below, k) =
    Packed-widen lo q hi l k (omega (arith, below))
Packed-Removes p lo hi (there q n r) (some_bytes, below, k) =
    (some_bytes, below, Packed-Removes p lo q r k)

-- A block starts inside the range, below its end.
pub Removes-below :
    (p lo hi : ℕ) {l l' : Live} → Removes p l l' → Packed lo l hi → (lo ≤ p) × (p < hi)
Removes-below p lo hi (here q n l e) (some_bytes, below, k) =
    omega (arith, e, some_bytes, below, Packed-le lo q l k)
Removes-below p lo hi (there q n {l} {l'} r) (some_bytes, below, k) =
    omega (arith, some_bytes, below, Removes-below p lo q r k)

pub Removes-blocks : (p : ℕ) {l l' : Live} → Removes p l l' → blocks_of l ≡ suc (blocks_of l')
Removes-blocks p (here q n l e) = omega arith
Removes-blocks p (there q n r) = omega (arith, Removes-blocks p r)

pub blocks-bytes : (lo hi : ℕ) (l : Live) → Packed lo l hi → blocks_of l ≤ bytes_of l
blocks-bytes lo hi [] k = omega arith
blocks-bytes lo hi ((p, n) ∷ l) (some_bytes, below, k) =
    omega (arith, some_bytes, blocks-bytes lo p l k)

-- Disjoint blocks have no more bytes than the range.
pub bytes-fit : (lo hi : ℕ) (l : Live) → Packed lo l hi → lo + bytes_of l ≤ hi
bytes-fit lo hi [] k = omega (arith, k)
bytes-fit lo hi ((p, n) ∷ l) (some_bytes, below, k) = omega (arith, below, bytes-fit lo p l k)
