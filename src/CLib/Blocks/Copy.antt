-- ===== src/CLib/Blocks/Copy.antt =====
-- What memcpy, memmove and memset leave in memory.
use cs61_f26_psets.Common.{ℕ, zero, suc, ◌+◌, ◌-◌, ◌%◌, ◌≤◌, ◌<◌, ◌≡◌, refl, ap, ◌⊎◌, arith}
use cs61_f26_psets.Common.Memory.{Memory, store, SameOutside}
use cs61_f26_psets.CLib.Blocks.{memcpy, move_down, move_up, memmove, memset}

-- `m'` is `m` with the `n` bytes from `s` on copied to `d`, whatever their overlap.
abbrev pub IsCopy : Memory → Memory → ℕ → ℕ → ℕ → Type 0
IsCopy m m' d s n = ((i : ℕ) → i < n → m' (d + i) ≡ m (s + i)) × SameOutside m m' d n

pub memcpy-outside : (m : Memory) (d s n a : ℕ) → (a < d) ⊎ (d + n ≤ a) → memcpy m d s n a ≡ m a
unfolding memcpy
memcpy-outside m d s zero a h = refl
memcpy-outside m d s (suc n) a h =
    ground (arith, memcpy-outside (store m d (m s)) (d + 1) (s + 1) n a)

pub memcpy-inside :
    (m : Memory) (d s n i : ℕ) → (d ≤ s) ⊎ (s + n ≤ d) → i < n → memcpy m d s n (d + i) ≡ m (s + i)
unfolding memcpy
memcpy-inside m d s zero i h lt = elim lt [ ]
memcpy-inside m d s (suc n) zero h lt =
    ground (arith, memcpy-outside (store m d (m s)) (d + 1) (s + 1) n (d + 0))
memcpy-inside m d s (suc n) (suc i) h lt =
    shift (d + suc i) (s + suc i) (omega arith) (omega arith)
      (memcpy-inside (store m d (m s)) (d + 1) (s + 1) n i (omega arith) (omega arith))
  where
    shift :
        (a b : ℕ)
        → a ≡ d + 1 + i
        → b ≡ s + 1 + i
        → memcpy (store m d (m s)) (d + 1) (s + 1) n (d + 1 + i) ≡ store m d (m s) (s + 1 + i)
        → memcpy (store m d (m s)) (d + 1) (s + 1) n a ≡ m b
    shift a b p q e = ground arith

-- The upward loop of memmove is memcpy's.
move_up-memcpy : (m : Memory) (d s n : ℕ) → move_up m d s n ≡ memcpy m d s n
unfolding memcpy move_up
move_up-memcpy m d s zero = refl
move_up-memcpy m d s (suc n) = move_up-memcpy (store m d (m s)) (d + 1) (s + 1) n

move_down-outside :
    (m : Memory) (d s n a : ℕ) → n ≤ d → (a + n < d) ⊎ (d ≤ a) → move_down m d s n a ≡ m a
unfolding move_down
move_down-outside m d s zero a le h = refl
move_down-outside m d s (suc n) a le h =
    ground (arith, move_down-outside (store m (d - 1) (m (s - 1))) (d - 1) (s - 1) n a)

move_down-inside :
    (m : Memory) (e f d s n i : ℕ)
    → e ≡ d + n
    → f ≡ s + n
    → s < d
    → i < n
    → move_down m e f n (d + i) ≡ m (s + i)
unfolding move_down
move_down-inside m e f d s zero i p q lt h = elim h [ ]
move_down-inside m e f d s (suc n) i p q lt h = ground (
  arith,
  move_down-inside (store m (e - 1) (m (f - 1))) (e - 1) (f - 1) d s n i,
  move_down-outside (store m (e - 1) (m (f - 1))) (e - 1) (f - 1) n (d + i),
)

-- memmove leaves exactly the `n` source bytes at the destination and changes no other byte,
-- however the two blocks overlap.
pub memmove-IsCopy : (m : Memory) (d s n : ℕ) → IsCopy m (memmove m d s n) d s n
unfolding memmove
memmove-IsCopy m d s n = (
  λ i lt. ground (
    arith,
    move_down-inside m (d + n) (s + n) d s n i,
    memcpy-inside m d s n i,
    ap (λ (f : Memory). f (d + i)) (move_up-memcpy m d s n),
  ),
  λ a h. ground (
    arith,
    move_down-outside m (d + n) (s + n) n a,
    memcpy-outside m d s n a,
    ap (λ (f : Memory). f a) (move_up-memcpy m d s n),
  ),
)

-- memcpy is a block copy where the destination does not begin inside the source behind its first
-- byte; memmove then computes the same memory.
pub memcpy-IsCopy :
    (m : Memory) (d s n : ℕ) → (d ≤ s) ⊎ (s + n ≤ d) → IsCopy m (memcpy m d s n) d s n
memcpy-IsCopy m d s n h =
    (λ i lt. memcpy-inside m d s n i h lt, λ a out. memcpy-outside m d s n a out)

pub memset-outside : (m : Memory) (p c n a : ℕ) → (a < p) ⊎ (p + n ≤ a) → memset m p c n a ≡ m a
unfolding memset
memset-outside m p c zero a h = refl
memset-outside m p c (suc n) a h =
    ground (arith, memset-outside (store m p (c % 256)) (p + 1) c n a)

memset-inside : (m : Memory) (p c n a : ℕ) → p ≤ a → a < p + n → memset m p c n a ≡ c % 256
unfolding memset
memset-inside m p c zero a lo hi = absurd (omega arith)
memset-inside m p c (suc n) a lo hi = ground (
  arith,
  memset-inside (store m p (c % 256)) (p + 1) c n a,
  memset-outside (store m p (c % 256)) (p + 1) c n a,
)

-- memset writes the low byte of `c` to each of the `n` bytes and to no other.
pub memset_lem :
    (m : Memory) (p c n : ℕ)
    → ((i : ℕ) → i < n → memset m p c n (p + i) ≡ c % 256) × SameOutside m (memset m p c n) p n
memset_lem m p c n = (
  λ i lt. memset-inside m p c n (p + i) (omega arith) (omega arith),
  λ a. memset-outside m p c n a,
)
