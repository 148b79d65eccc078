-- ===== src/CLib/Tests.antt =====
-- The strings and numbers of pset3/lib.cc at concrete inputs.
use mathlib.Core.List.{map}
use cs61_f26_psets.Common.{
  ℕ, ◌+◌, ◌*◌, ◌≤◌, ◌<◌, ◌≡◌, ◌↔◌, inr, refl, true, false, some, [], ◌∷◌, ◌++◌, arith, codes,
  get_or,
}
use cs61_f26_psets.Common.Memory.{Memory, IsString}
use cs61_f26_psets.CLib.Blocks.{memmove}
use cs61_f26_psets.CLib.Blocks.Copy.{IsCopy, memmove-IsCopy}
use cs61_f26_psets.CLib.Numbers.{from_chars, to_chars, ok}
use cs61_f26_psets.CLib.Numbers.Numerals.{from_chars_lem}
use cs61_f26_psets.CLib.Numbers.RoundTrip.{from_chars-to_chars}
use cs61_f26_psets.CLib.Printer.{digit_byte, vsnprintf}
use cs61_f26_psets.CLib.Printer.Buffer.{Formats, vsnprintf_lem}
use cs61_f26_psets.CLib.Random.{next_seed, number_of, per, uniform}
use cs61_f26_psets.CLib.Random.Range.{seed_after, uniform_lem}

-- "abc" at 0 and "aBd" at 4
abbrev words : Memory
words a = get_or (codes "abc" ++ 0 ∷ codes "aBd") a 0

abc-IsString : IsString words 0 (codes "abc")
abc-IsString = ground arith

abd-IsString : IsString words 4 (codes "aBd")
abd-IsString = ground arith

-- "bc", the end of "abc"
bc-IsString : IsString words 1 (codes "bc")
bc-IsString = ground arith

memmove_example : IsCopy words (memmove words 1 0 3) 1 0 3
memmove_example = memmove-IsCopy words 1 0 3

-- "42;"
abbrev number : Memory
number a = get_or (codes "42;") a 0

from_chars_example : from_chars 5 number 0 3 7 10 ≡ some (record { ptr = 2; ec = ok; value = 42 })
from_chars_example =
    from_chars_lem 5 number 0 3 7 10 (4 ∷ 2 ∷ []) (omega arith) (omega arith) (ground arith)
      (inr ((λ d lt is. ground (arith, lt, is)), ground arith)) (inr (omega arith)) (omega arith)

round_trip_example :
    (m' : Memory) × (e : ℕ) × (to_chars number 4 80 255 16 ≡ some (m', e, ok))
    × (from_chars 65 m' 4 e 0 16 ≡ some (record { ptr = e; ec = ok; value = 255 }))
round_trip_example =
    from_chars-to_chars number 4 80 255 0 16 (omega arith) (omega arith) (omega arith) (omega arith)

uniform_example :
    (v : ℕ) × (uniform 3 1 6 42 ≡ some (v, seed_after 1 42))
    × (1 ≤ v)
    × (v ≤ 6)
    × ((u : ℕ)
        → (v ≡ 1 + u) ↔ (
            (u * per 6 ≤ number_of (seed_after 1 42))
            × (number_of (seed_after 1 42) < (u + 1) * per 6)))
unfolding next_seed number_of
uniform_example =
    uniform_lem 3 1 6 42 0 (omega arith) (omega arith) (λ j lt. omega arith) (omega arith)
      (omega arith)

vsnprintf_example : Formats words 20 4 (codes "hello") (vsnprintf words 20 4 (codes "hello"))
vsnprintf_example = vsnprintf_lem words 20 4 (codes "hello")

-- The entries of `upper_digits` and `lower_digits`.
digit_byte_tables :
    (map (digit_byte true) (0 ∷ 9 ∷ 10 ∷ 15 ∷ []) ≡ codes "09AF")
    × (map (digit_byte false) (0 ∷ 9 ∷ 10 ∷ 15 ∷ []) ≡ codes "09af")
digit_byte_tables = (refl, refl)
