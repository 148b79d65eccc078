-- ===== src/CLib/Numbers/Print.antt =====
-- What to_chars writes: the digits of the number, with no zero in front.
use native.Mathlib.Nat.{
  zero-add, div-lt_iff_lt-mul, le-div_iff_mul-le, pow-zero, pow-suc, mul-le-mul, mul-le-mul_left,
}
use native.Mathlib.Decide.{dec_lt}
use cs61_f26_psets.Common.{
  ℕ, zero, suc, ◌+◌, ◌-◌, ◌*◌, ◌/◌, ◌%◌, ◌^◌, ◌≤◌, ◌<◌, ◌≡◌, ◌⊎◌, inl, inr, some, arith, ltb,
  if◌then◌else◌, lt→ltb, le→ltb, ap, ◌∙◌,
}
use cs61_f26_psets.Common.Memory.{Memory, SameOutside}
use cs61_f26_psets.CLib.Numbers.{ok, overflow, ulong_max, count_digits, unparse, to_chars}
use cs61_f26_psets.CLib.Numbers.Parse.{horner, Reads}
use cs61_f26_psets.CLib.Numbers.Digits.{
  IsDigitCount, digits_of, horner-digits_of, unparse-outside, unparse-Reads,
}

small_powers :
    (base : ℕ)
    → base ≤ 36
    → (base * base % 2 ^ 32 ≡ base * base)
      × (base * base % 2 ^ 32 * base % 2 ^ 32 ≡ base * base * base)
small_powers base small =
    let two : base * base ≤ 1296 = mul-le-mul small small in
    let three : base * base * base ≤ 46656 = mul-le-mul two small in
    let e : base * base % 2 ^ 32 ≡ base * base = omega arith in (e, rw e (omega arith))

pow-one : (base : ℕ) → base ^ 1 ≡ base
pow-one base = pow-suc base 0 ∙ rw (pow-zero base) (omega arith)

pow-two : (base : ℕ) → base ^ 2 ≡ base * base
pow-two base = pow-suc base 1 ∙ rw (pow-one base)

pow-three : (base : ℕ) → base ^ 3 ≡ base * base * base
pow-three base = pow-suc base 2 ∙ rw (pow-two base)

pow_add_three : (base k : ℕ) → base ^ (k + 3) ≡ base ^ k * (base * base * base)
pow_add_three base k =
    ap (λ n. base ^ n) (omega arith)
    ∙ pow-suc base (suc (suc k))
    ∙ rw (pow-suc base (suc k), pow-suc base k) (grind arith)

cube_pos : (base : ℕ) → 2 ≤ base → 8 ≤ base * base * base
cube_pos base two = mul-le-mul (mul-le-mul two two) two

-- Three digits more than the quotient by the cube of the base.
IsDigitCount-step :
    (base v k : ℕ)
    → 2 ≤ base
    → base * base * base ≤ v
    → IsDigitCount base (v / (base * base * base)) k
    → IsDigitCount base v (k + 3)
IsDigitCount-step base v k two big (one, below, least) =
    let pos_cube : 0 < base * base * base = omega (arith, cube_pos base two) in
    (
      omega arith,
      rw (pow_add_three base k) ((div-lt_iff_lt-mul pos_cube).0 below),
      inr (high pos_cube least),
    )
  where
    high :
        0 < base * base * base
        → (k ≡ 1) ⊎ (base ^ (k - 1) ≤ v / (base * base * base))
        → base ^ (k + 3 - 1) ≤ v
    high pos_cube (inl e) = let q : k + 3 - 1 ≡ 3 = omega arith in rw (q, pow-three base) big
    high pos_cube (inr le) =
        let q : k + 3 - 1 ≡ k - 1 + 3 = omega arith in
        rw (q, pow_add_three base (k - 1)) ((le-div_iff_mul-le pos_cube).0 le)

IsDigitCount-small :
    (base v : ℕ)
    → v < base * base * base
    → IsDigitCount base v (if ltb v base then 1 else if ltb v (base * base) then 2 else 3)
IsDigitCount-small base v lt = ground (arith, pow-one base, pow-two base, pow-three base)

abbrev short_count : ℕ → ℕ → ℕ
short_count base v = if ltb v base then 1 else if ltb v (base * base) then 2 else 3

count_stop :
    (fuel base v n : ℕ)
    → base ≤ 36
    → v < base * base * base
    → count_digits (suc fuel) base v n ≡ some (n + short_count base v)
unfolding count_digits
count_stop fuel base v n small lt = ground (arith, small_powers base small)

count_more :
    (fuel base v n : ℕ)
    → 2 ≤ base
    → base ≤ 36
    → base * base * base ≤ v
    → count_digits (suc fuel) base v n ≡ count_digits fuel base (v / (base * base * base)) (n + 3)
unfolding count_digits
count_more fuel base v n two small le =
    let square : base * base ≤ base * base * base = grind arith in
    let line : base ≤ base * base = grind arith in ground (arith, small_powers base small)

fuel_pos : (fuel q : ℕ) → 1 ≤ q → q < 8 ^ fuel → 1 ≤ fuel
fuel_pos zero q one lt = absurd (omega (arith, pow-zero 8))
fuel_pos (suc fuel) q one lt = omega arith

-- The first loop of to_chars counts the digits of a number that its fuel covers.
count_digits_lem :
    (fuel base v n : ℕ)
    → 2 ≤ base
    → base ≤ 36
    → 1 ≤ fuel
    → v < 8 ^ fuel
    → (k : ℕ) × (count_digits fuel base v n ≡ some (n + k)) × IsDigitCount base v k
count_digits_lem zero base v n two small one lt = absurd (omega arith)
count_digits_lem (suc fuel) base v n two small one lt = elim (dec_lt v (base * base * base)) [
  | yes stop ↦
      (short_count base v, count_stop fuel base v n small stop, IsDigitCount-small base v stop)
  | no more ↦
      let cube = base * base * base in
      let le : cube ≤ v = omega arith in
      let pos_cube : 0 < cube = omega (arith, cube_pos base two) in
      let below : v / cube < 8 ^ fuel =
        (div-lt_iff_lt-mul pos_cube).1
          (omega (arith, pow-suc 8 fuel, mul-le-mul_left (8 ^ fuel) (cube_pos base two))) in
      let least : 1 ≤ v / cube = (le-div_iff_mul-le pos_cube).1 (omega arith) in
      let (k, run, count) =
        count_digits_lem fuel base (v / cube) (n + 3) two small
          (fuel_pos fuel (v / cube) least below) below in
      (
        k + 3,
        count_more fuel base v n two small le ∙ run ∙ ap (λ (j : ℕ). some j) (omega arith),
        IsDigitCount-step base v k two le count,
      )
]

to_chars_short :
    (m : Memory) (first last value base k : ℕ)
    → count_digits 22 base value 0 ≡ some k
    → last - first < k
    → to_chars m first last value base ≡ some (m, last, overflow)
unfolding to_chars
to_chars_short m first last value base k run short = rw (run, lt→ltb (last - first) k short)

to_chars_room :
    (m : Memory) (first last value base k : ℕ)
    → count_digits 22 base value 0 ≡ some k
    → k ≤ last - first
    → to_chars m first last value base ≡ some (unparse m base first k value, first + k, ok)
unfolding to_chars
to_chars_room m first last value base k run room = rw (run, le→ltb (last - first) k room)

-- For a base from 2 to 36 to_chars finds the number of digits of `value`. If the buffer is shorter
-- it returns E_OVERFLOW and `last` and writes nothing. Otherwise it returns the end of the digits,
-- which spell `value` in that base with no zero in front, and writes no other byte.
pub to_chars_lem :
    (m : Memory) (first last value base : ℕ)
    → 2 ≤ base
    → base ≤ 36
    → value ≤ ulong_max
    → (k : ℕ) × IsDigitCount base value k
      × ((last - first < k) × (to_chars m first last value base ≡ some (m, last, overflow))
          ⊎ (k ≤ last - first)
            × ((m' : Memory) × (to_chars m first last value base ≡ some (m', first + k, ok))
                × Reads base m' first (digits_of base k value)
                × (horner base 0 (digits_of base k value) ≡ value)
                × SameOutside m m' first k))
to_chars_lem m first last value base two small fits =
    let (k, run, count) = count_digits_lem 22 base value 0 two small (omega arith) (omega arith) in
    let pb : 0 < base = omega arith in
    let run' = run ∙ ap (λ (j : ℕ). some j) (zero-add k) in
    (
      k,
      count,
      elim (dec_lt (last - first) k) [
        | yes short ↦ inl (short, to_chars_short m first last value base k run' short)
        | no room ↦ inr (
          omega arith,
          (
            unparse m base first k value,
            to_chars_room m first last value base k run' (omega arith),
            unparse-Reads m base first k value pb small,
            horner-digits_of base k value pb count.1,
            unparse-outside m base first k value,
          ),
        )
      ],
    )
