-- ===== src/CLib/Strings/Length.antt =====
-- strlen and strnlen against the string that memory holds.
use cs61_f26_psets.Common.{ℕ, zero, suc, ◌+◌, ◌<◌, ◌≡◌, List, [], ◌∷◌, some, arith, length}
use Prim.Native.Nat.{min}
use cs61_f26_psets.Common.Memory.{Memory, IsString}
use cs61_f26_psets.CLib.Strings.{strlen, strlen_from, strnlen, strnlen_from}

strlen_from_lem :
    (fuel : ℕ) (m : Memory) (s n : ℕ) (xs : List ℕ)
    → IsString m s xs
    → length xs < fuel
    → strlen_from fuel m s n ≡ some (n + length xs)
unfolding strlen_from
strlen_from_lem zero m s n xs h lt = elim lt [ ]
strlen_from_lem (suc fuel) m s n [] h lt = ground arith
strlen_from_lem (suc fuel) m s n (x ∷ xs) (h, ne, t) lt =
    ground (arith, strlen_from_lem fuel m (s + 1) (n + 1) xs t)

-- With fuel above its length, strlen returns the length of the string at `s`.
pub strlen_lem :
    (fuel : ℕ) (m : Memory) (s : ℕ) (xs : List ℕ)
    → IsString m s xs
    → length xs < fuel
    → strlen fuel m s ≡ some (length xs)
unfolding strlen
strlen_lem fuel m s xs h lt = ground (arith, strlen_from_lem fuel m s 0 xs h lt)

strnlen_from_lem :
    (left : ℕ) (m : Memory) (s n : ℕ) (xs : List ℕ)
    → IsString m s xs
    → strnlen_from left m s n ≡ n + min left (length xs)
unfolding strnlen_from
strnlen_from_lem zero m s n xs h = omega arith
strnlen_from_lem (suc left) m s n [] h = ground arith
strnlen_from_lem (suc left) m s n (x ∷ xs) (h, ne, t) =
    ground (arith, strnlen_from_lem left m (s + 1) (n + 1) xs t)

-- strnlen returns the length of the string at `s`, or `maxlen` if that is less.
pub strnlen_lem :
    (m : Memory) (s maxlen : ℕ) (xs : List ℕ)
    → IsString m s xs
    → strnlen m s maxlen ≡ min maxlen (length xs)
unfolding strnlen
strnlen_lem m s maxlen xs h = omega (arith, strnlen_from_lem maxlen m s 0 xs h)
