-- ===== src/CLib/Blocks/Compare.antt =====
-- What memcmp and memchr find.
use cs61_f26_psets.Common.{
  ℕ, zero, suc, ◌+◌, ◌%◌, ◌<◌, ◌≡◌, ◌≢◌, inl, inr, refl, ◌↔◌, arith, none, some, Option, Bool-cases,
  ==_iff, ◌==◌,
}
use cs61_f26_psets.Common.Int.{pos}
use cs61_f26_psets.Common.Memory.{Memory, shift, start, agree-next}
use cs61_f26_psets.CLib.Blocks.{memcmp, memchr, sign_of}

-- The blocks agree below `i` and differ at `i`.
abbrev pub FirstDifference : Memory → ℕ → ℕ → ℕ → Type 0
FirstDifference m a b i = ((j : ℕ) → j < i → m (a + j) ≡ m (b + j)) × (m (a + i) ≢ m (b + i))

memcmp-differs :
    (m : Memory) (a b n i : ℕ)
    → i < n
    → FirstDifference m a b i
    → memcmp m a b n ≡ sign_of (m (a + i)) (m (b + i))
unfolding memcmp
memcmp-differs m a b zero i lt h = elim lt [ ]
memcmp-differs m a b (suc n) zero lt (same, ne) =
    rw (start m a, start m b) (ground (arith, start m a, start m b))
memcmp-differs m a b (suc n) (suc i) lt (same, ne) =
    rw (shift m a i, shift m b i)
      (ground (
        arith,
        same 0,
        start m a,
        start m b,
        memcmp-differs m (a + 1) (b + 1) n i (omega arith)
            (agree-next m m a b i same, rw (← shift m a i, ← shift m b i) ne),
      ))

memcmp-same :
    (m : Memory) (a b n : ℕ) → ((j : ℕ) → j < n → m (a + j) ≡ m (b + j)) → memcmp m a b n ≡ pos 0
unfolding memcmp
memcmp-same m a b zero same = refl
memcmp-same m a b (suc n) same = ground (
  arith,
  same 0,
  start m a,
  start m b,
  memcmp-same m (a + 1) (b + 1) n (agree-next m m a b n same),
)

memcmp-zero : (m : Memory) (a b n j : ℕ) → j < n → memcmp m a b n ≡ pos 0 → m (a + j) ≡ m (b + j)
unfolding memcmp
memcmp-zero m a b zero j lt e = elim lt [ ]
memcmp-zero m a b (suc n) zero lt e = rw (start m a, start m b) (ground arith)
memcmp-zero m a b (suc n) (suc j) lt e =
    rw (shift m a j, shift m b j) (ground (arith, memcmp-zero m (a + 1) (b + 1) n j))

-- memcmp returns zero exactly when the two blocks hold the same bytes.
pub memcmp-eq-zero :
    (m : Memory) (a b n : ℕ) → (memcmp m a b n ≡ pos 0) ↔ ((j : ℕ) → j < n → m (a + j) ≡ m (b + j))
memcmp-eq-zero m a b n = (λ e j lt. memcmp-zero m a b n j lt e, memcmp-same m a b n)

-- At the first byte where two blocks differ, memcmp gives the order of those bytes as unsigned
-- numbers: 1 if the first block's is greater, and -1 if it is less.
pub memcmp-FirstDifference :
    (m : Memory) (a b n i : ℕ)
    → i < n
    → FirstDifference m a b i
    → memcmp m a b n ≡ sign_of (m (a + i)) (m (b + i))
memcmp-FirstDifference = memcmp-differs

-- Where `c` as a byte first stands in the `n` bytes at `s`.
abbrev pub FirstByte : Memory → ℕ → ℕ → ℕ → Option ℕ → Type 0
FirstByte m s c n none = (j : ℕ) → j < n → m (s + j) ≢ c % 256
FirstByte m s c n (some p) =
    (i : ℕ) × (p ≡ s + i) × (i < n) × (m p ≡ c % 256) × ((j : ℕ) → j < i → m (s + j) ≢ c % 256)

absent-cons :
    (m : Memory) (s c n : ℕ)
    → m s ≢ c % 256
    → ((j : ℕ) → j < n → m (s + 1 + j) ≢ c % 256)
    → (j : ℕ) → j < suc n
    → m (s + j) ≢ c % 256
absent-cons m s c n ne rest zero lt = rw (start m s) ne
absent-cons m s c n ne rest (suc j) lt = rw (shift m s j) (rest j (omega arith))

FirstByte-cons :
    (m : Memory) (s c n : ℕ) (r : Option ℕ)
    → m s ≢ c % 256
    → FirstByte m (s + 1) c n r
    → FirstByte m s c (suc n) r
FirstByte-cons m s c n none ne rest = absent-cons m s c n ne rest
FirstByte-cons m s c n (some p) ne (i, at, lt, found, before) =
    (suc i, omega arith, omega arith, found, absent-cons m s c i ne before)

-- memchr returns a pointer to the first of the `n` bytes that equals the low byte of `c`, or none
-- if no byte does.
pub memchr-FirstByte : (m : Memory) (s c n : ℕ) → FirstByte m s c n (memchr m s c n)
unfolding memchr
memchr-FirstByte m s c zero = λ j lt. elim lt [ ]
memchr-FirstByte m s c (suc n) = elim (Bool-cases (m s == c % 256)) [
  | inl e ↦
      rw (e, memchr)
        (0, omega arith, omega arith, (==_iff (m s) (c % 256)).0 e, λ j lt. elim lt [ ])
  | inr e ↦
      rw (e, memchr) (FirstByte-cons m s c n _ (ground arith) (memchr-FirstByte m (s + 1) c n))
]
