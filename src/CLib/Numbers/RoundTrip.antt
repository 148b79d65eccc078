-- ===== src/CLib/Numbers/RoundTrip.antt =====
-- from_chars reads back what to_chars writes.
use native.Mathlib.Nat.{pow-le-pow_left, pow-le-pow_right}
use native.Mathlib.Decide.{dec_lt}
use cs61_f26_psets.Common.{
  ℕ, ◌+◌, ◌-◌, ◌≤◌, ◌<◌, ◌≡◌, ◌⊎◌, inl, inr, some, List, [], ◌∷◌, arith, length, ap, ◌∙◌,
}
use cs61_f26_psets.Common.Memory.{Memory, SameOutside}
use cs61_f26_psets.CLib.Numbers.{ok, overflow, Parsed, ulong_max, from_chars, to_chars}
use cs61_f26_psets.CLib.Numbers.Parse.{horner, Reads, reading, from_chars-Reads}
use cs61_f26_psets.CLib.Numbers.Digits.{digits_of, length-digits_of, IsDigitCount}
use cs61_f26_psets.CLib.Numbers.Print.{to_chars_lem}

-- No unsigned long has more than 64 digits.
digits-le-64 : (base v k : ℕ) → 2 ≤ base → v ≤ ulong_max → IsDigitCount base v k → k ≤ 64
digits-le-64 base v k two fits (one, below, inl e) = omega arith
digits-le-64 base v k two fits (one, below, inr least) = elim (dec_lt 64 k) [
  | yes more ↦ absurd (
      omega (
        arith,
        pow-le-pow_left two (k - 1),
        pow-le-pow_right {n = 2} (omega arith) {i = 64} {j = k - 1} (omega arith),
      ))
  | no few ↦ omega arith
]

reading-ok :
    (base value e v : ℕ) (ds : List ℕ)
    → 1 ≤ length ds
    → horner base 0 ds ≡ v
    → v ≤ ulong_max
    → reading base value e ds ≡ record { ptr = e; ec = ok; value = v }
reading-ok base value e v [] one h fits = absurd (omega arith)
reading-ok base value e v (d ∷ ds) one h fits = ground arith

-- For a base from 2 to 36 and a buffer of 64 bytes or more, to_chars succeeds, and from_chars on
-- exactly the characters that it wrote returns the number and their end.
pub from_chars-to_chars :
    (m : Memory) (first last v w base : ℕ)
    → 2 ≤ base
    → base ≤ 36
    → v ≤ ulong_max
    → first + 64 ≤ last
    → (m' : Memory) × (e : ℕ) × (to_chars m first last v base ≡ some (m', e, ok))
      × (from_chars 65 m' first e w base ≡ some (record { ptr = e; ec = ok; value = v }))
from_chars-to_chars m first last v w base two small fits room =
    finish (to_chars_lem m first last v base two small fits)
  where
    finish :
        (k : ℕ) × IsDigitCount base v k
          × ((last - first < k) × (to_chars m first last v base ≡ some (m, last, overflow))
              ⊎ (k ≤ last - first)
                × ((m' : Memory) × (to_chars m first last v base ≡ some (m', first + k, ok))
                    × Reads base m' first (digits_of base k v)
                    × (horner base 0 (digits_of base k v) ≡ v)
                    × SameOutside m m' first k))
        → (m' : Memory) × (e : ℕ) × (to_chars m first last v base ≡ some (m', e, ok))
          × (from_chars 65 m' first e w base ≡ some (record { ptr = e; ec = ok; value = v }))
    finish (k, count, inl (short, run)) =
        absurd (omega (arith, digits-le-64 base v k two fits count))
    finish (k, count, inr (enough, (m', run, reads, value, same))) =
        let ds = digits_of base k v in
        let n = length-digits_of base k v in
        let e = first + k in
        (
          m',
          e,
          run,
          from_chars-Reads 65 m' first e w base ds (omega arith) reads (inl (omega arith))
                (inr (omega arith)) (omega (arith, digits-le-64 base v k two fits count))
              ∙ rw n
                  (ap (λ (p : Parsed). some p) (reading-ok base w e v ds (omega arith) value fits)),
        )
