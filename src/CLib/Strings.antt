-- ===== src/CLib/Strings.antt =====
-- pset3/lib.cc: the NUL-terminated string functions. A loop that ends at a NUL takes fuel, and
-- answers `none` where the fuel runs out first.
pub mod Length
pub mod Copy
pub mod Compare
pub mod Search
use cs61_f26_psets.Common.{
  ℕ, zero, suc, ◌+◌, ◌-◌, ◌%◌, Bool, true, false, not, ◌&&◌, ◌||◌, Option, none, some, ltb, ◌==◌,
  if◌then◌else◌, ◌>>=◌,
}
use cs61_f26_psets.Common.Int.{ℤ}
use cs61_f26_psets.Common.Memory.{Memory, store}
use cs61_f26_psets.CLib.Blocks.{memcpy, sign_of}
use cs61_f26_psets.CLib.Ctype.{tolower}

-- `n` is the loop's counter, `s` its pointer.
strlen_from : ℕ → Memory → ℕ → ℕ → Option ℕ
strlen_from zero m s n = none
strlen_from (suc fuel) m s n = elim (m s == 0) [
  | true ↦ some n
  | false ↦ strlen_from fuel m (s + 1) (n + 1)
]

pub strlen : ℕ → Memory → ℕ → Option ℕ
unfolding strlen_from
strlen fuel m s = strlen_from fuel m s 0

-- The first argument is `maxlen - n`, the rounds that are left.
strnlen_from : ℕ → Memory → ℕ → ℕ → ℕ
strnlen_from zero m s n = n
strnlen_from (suc left) m s n = elim (m s == 0) [
  | true ↦ n
  | false ↦ strnlen_from left m (s + 1) (n + 1)
]

pub strnlen : Memory → ℕ → ℕ → ℕ
unfolding strnlen_from
strnlen m s maxlen = strnlen_from maxlen m s 0

pub strcpy : ℕ → Memory → ℕ → ℕ → Option Memory
strcpy zero m d s = none
strcpy (suc fuel) m d s =
    let m' = store m d (m s) in
    elim (m' d == 0) [ true ↦ some m' | false ↦ strcpy fuel m' (d + 1) (s + 1) ]

-- the second loop of `strncpy`
pad_zero : Memory → ℕ → ℕ → Memory
pad_zero m d zero = m
pad_zero m d (suc left) = pad_zero (store m d 0) (d + 1) left

pub strncpy : Memory → ℕ → ℕ → ℕ → Memory
unfolding pad_zero
strncpy m d s zero = m
strncpy m d s (suc left) = elim (m s == 0) [
  | true ↦ pad_zero m d (suc left)
  | false ↦ strncpy (store m d (m s)) (d + 1) (s + 1) left
]

-- The result is the new memory and the returned length.
pub strlcpy : ℕ → Memory → ℕ → ℕ → ℕ → Option (Memory × ℕ)
strlcpy fuel m d s maxlen = do
  n ← strlen fuel m s
  let nn = if ltb (maxlen - 1) n then maxlen - 1 else n
  some (if maxlen == 0 then m else store (memcpy m d s nn) (d + nn) 0, n)

-- The loop of strcmp and strcasecmp, `fold` the identity or `tolower`.
compare_from : (ℕ → ℕ) → ℕ → Memory → ℕ → ℕ → Option ℤ
compare_from fold zero m a b = none
compare_from fold (suc fuel) m a b =
    let ac = fold (m a) in
    let bc = fold (m b) in
    elim (ac == 0 || bc == 0 || not (ac == bc)) [
      | true ↦ some (sign_of ac bc)
      | false ↦ compare_from fold fuel m (a + 1) (b + 1)
    ]

pub strcmp : ℕ → Memory → ℕ → ℕ → Option ℤ
unfolding compare_from
strcmp = compare_from (λ c. c)

pub strcasecmp : ℕ → Memory → ℕ → ℕ → Option ℤ
unfolding compare_from tolower
strcasecmp = compare_from tolower

-- The loop of strncmp and strncasecmp: at `n == 0` both bytes read as NUL, which ends it.
compare_upto : (ℕ → ℕ) → Memory → ℕ → ℕ → ℕ → ℤ
compare_upto fold m a b zero = sign_of 0 0
compare_upto fold m a b (suc n) =
    let ac = fold (m a) in
    let bc = fold (m b) in
    elim (ac == 0 || bc == 0 || not (ac == bc)) [
      | true ↦ sign_of ac bc
      | false ↦ compare_upto fold m (a + 1) (b + 1) n
    ]

pub strncmp : Memory → ℕ → ℕ → ℕ → ℤ
unfolding compare_upto
strncmp = compare_upto (λ c. c)

pub strncasecmp : Memory → ℕ → ℕ → ℕ → ℤ
unfolding compare_upto tolower
strncasecmp = compare_upto tolower

-- The outer option is the fuel, the inner one the returned pointer, `none` for nullptr.
pub strchr : ℕ → Memory → ℕ → ℕ → Option (Option ℕ)
strchr zero m s c = none
strchr (suc fuel) m s c = elim (not (m s == 0) && not (m s == c % 256)) [
  | true ↦ strchr fuel m (s + 1) c
  | false ↦ some (if m s == c % 256 then some s else none)
]

strstr_from : ℕ → Memory → ℕ → ℕ → ℕ → ℕ → Option (Option ℕ)
strstr_from zero m hs ns i j = none
strstr_from (suc fuel) m hs ns i j =
    let matched = strstr_from fuel m hs ns i (j + 1) in
    let moved = strstr_from fuel m hs ns (i + 1) 0 in
    if not (m (hs + i) == 0) && not (m (ns + j) == 0)
    then (if m (hs + i + j) == m (ns + j) then matched else moved)
    else some (if m (ns + j) == 0 then some (hs + i) else none)

pub strstr : ℕ → Memory → ℕ → ℕ → Option (Option ℕ)
unfolding strstr_from
strstr fuel m hs ns = strstr_from fuel m hs ns 0 0
