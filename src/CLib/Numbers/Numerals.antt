-- ===== src/CLib/Numbers/Numerals.antt =====
-- from_chars on a numeral: digits and letters of either case.
use cs61_f26_psets.Common.{
  ℕ, ◌+◌, ◌-◌, ◌≤◌, ◌<◌, ◌≡◌, ◌⊎◌, inl, inr, some, List, [], ◌∷◌, arith, length, Option-cases,
}
use cs61_f26_psets.Common.Memory.{Memory}
use cs61_f26_psets.CLib.Numbers.{digit_of, from_chars}
use cs61_f26_psets.CLib.Numbers.Parse.{Before, Reads, Stops, from_chars-Reads, reading}

-- The character `c` stands for the digit `d`: 0 to 9, a to z, A to Z.
abbrev pub IsNumeral : ℕ → ℕ → Type 0
IsNumeral c d =
    ((d < 10) × (c ≡ b'0' + d))
    ⊎ ((10 ≤ d) × (d < 36) × ((c ≡ b'a' + (d - 10)) ⊎ (c ≡ b'A' + (d - 10))))

-- The byte is none of those between '9' and '0' + base, which from_chars takes for digits in a base
-- above 10.
abbrev pub NotMisread : ℕ → ℕ → Type 0
NotMisread base c = (c ≤ b'9') ⊎ (b'0' + base ≤ c)

-- The bytes from `s` on are the digits `ds` of a number in the given base.
abbrev pub Numeral : ℕ → Memory → ℕ → List ℕ → Type 0
Numeral base m s [] = Unit
Numeral base m s (d ∷ ds) =
    ((d < base) × IsNumeral (m s) d × NotMisread base (m s)) × Numeral base m (s + 1) ds

-- The numeral ends at `e`, by `last` or by a byte that is no digit in this base.
abbrev pub Ends : ℕ → Memory → ℕ → ℕ → Type 0
Ends base m last e =
    (e ≡ last) ⊎ (((d : ℕ) → d < base → IsNumeral (m e) d → ⊥) × NotMisread base (m e))

digit_of-numeral :
    (base c d : ℕ)
    → base ≤ 36
    → d < base
    → IsNumeral c d
    → NotMisread base c
    → digit_of base c ≡ some d
unfolding digit_of
digit_of-numeral base c d small lt is fine = ground (arith, is, fine)

digit_of-IsNumeral :
    (base c d : ℕ)
    → base ≤ 36
    → NotMisread base c
    → digit_of base c ≡ some d
    → (d < base) × IsNumeral c d
unfolding digit_of
digit_of-IsNumeral base c d small fine e = ground (arith, fine, e)

Numeral-Reads :
    (base : ℕ) (m : Memory) (s : ℕ) (ds : List ℕ)
    → base ≤ 36
    → Numeral base m s ds
    → Reads base m s ds
Numeral-Reads base m s [] small h = tt
Numeral-Reads base m s (d ∷ ds) small ((lt, is, fine), t) =
    (digit_of-numeral base (m s) d small lt is fine, Numeral-Reads base m (s + 1) ds small t)

Ends-Stops :
    (base : ℕ) (m : Memory) (last e : ℕ) → base ≤ 36 → Ends base m last e → Stops base m last e
Ends-Stops base m last e small (inl at) = inl at
Ends-Stops base m last e small (inr (no_digit, fine)) = elim (Option-cases (digit_of base (m e))) [
  | inl is ↦ inr is
  | inr (d, is) ↦
      let (lt, numeral) = digit_of-IsNumeral base (m e) d small fine is in
      absurd (no_digit d lt numeral)
]

-- In a base from 1 to 36, with fuel above the number of digits, from_chars stops behind the digits
-- (0 to 9, and letters of either case) at the start of the text. It returns their value if that fits
-- an unsigned long, E_RANGE if it does not, and E_INVAL if there is no digit; on an error it leaves
-- `value` alone. In a base above 10, neither the digits nor the byte behind them are among the
-- characters between '9' and '0' + base, which from_chars takes for other digits.
pub from_chars_lem :
    (fuel : ℕ) (m : Memory) (first last value base : ℕ) (ds : List ℕ)
    → 0 < base
    → base ≤ 36
    → Numeral base m first ds
    → Ends base m last (first + length ds)
    → Before last first (first + length ds)
    → length ds < fuel
    → from_chars fuel m first last value base ≡ some (reading base value (first + length ds) ds)
from_chars_lem fuel m first last value base ds some_base small h stop before lt =
    from_chars-Reads fuel m first last value base ds some_base
      (Numeral-Reads base m first ds small h)
      (Ends-Stops base m last (first + length ds) small stop) before lt
