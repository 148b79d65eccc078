-- ===== src/CLib/Blocks.antt =====
-- pset3/lib.cc: memcpy, memmove, memset, memcmp, memchr. A block function takes the memory and
-- returns the new one; the returned pointer `dst` is the argument. A loop `for (; n > 0; --n)` is
-- recursion on `n`, with its running pointers as arguments.
pub mod Copy
pub mod Compare
use cs61_f26_psets.Common.{
  ℕ, zero, suc, ◌+◌, ◌-◌, ◌%◌, Bool, true, false, ◌&&◌, Option, none, some, ltb, ◌==◌,
  if◌then◌else◌,
}
use cs61_f26_psets.Common.Memory.{Memory, store}
use cs61_f26_psets.Common.Int.{ℤ, pos, negsuc}

unfoldable pub memcpy : Memory → ℕ → ℕ → ℕ → Memory
memcpy m d s zero = m
memcpy m d s (suc n) = memcpy (store m d (m s)) (d + 1) (s + 1) n

-- `while (n-- > 0) { *--d = *--s; }` from the two ends
move_down : Memory → ℕ → ℕ → ℕ → Memory
move_down m d s zero = m
move_down m d s (suc n) = move_down (store m (d - 1) (m (s - 1))) (d - 1) (s - 1) n

-- `while (n-- > 0) { *d++ = *s++; }`
move_up : Memory → ℕ → ℕ → ℕ → Memory
move_up m d s zero = m
move_up m d s (suc n) = move_up (store m d (m s)) (d + 1) (s + 1) n

pub memmove : Memory → ℕ → ℕ → ℕ → Memory
unfolding move_down move_up
memmove m d s n =
    if ltb s d && ltb d (s + n) then move_down m (d + n) (s + n) n else move_up m d s n

-- `c` is converted to `char`.
unfoldable pub memset : Memory → ℕ → ℕ → ℕ → Memory
memset m p c zero = m
memset m p c (suc n) = memset (store m p (c % 256)) (p + 1) c n

-- `(a > b) - (a < b)`
abbrev pub sign_of : ℕ → ℕ → ℤ
sign_of a b = if ltb b a then pos 1 else if ltb a b then negsuc 0 else pos 0

pub memcmp : Memory → ℕ → ℕ → ℕ → ℤ
memcmp m a b zero = pos 0
memcmp m a b (suc n) = elim (m a == m b) [
  | true ↦ memcmp m (a + 1) (b + 1) n
  | false ↦ sign_of (m a) (m b)
]

unfoldable pub memchr : Memory → ℕ → ℕ → ℕ → Option ℕ
memchr m s c zero = none
memchr m s c (suc n) = elim (m s == c % 256) [ true ↦ some s | false ↦ memchr m (s + 1) c n ]
