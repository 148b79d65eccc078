-- ===== src/Common/Bits/Step.antt =====
-- The native operations on binary digits, one digit at a time.
use Prim.Native.Nat
use native.Mathlib.Omega.{arith}
use mathlib.Core.Path.{◌≡◌, refl, sym, ap, ◌∙◌}
use Prim.Native.Nat.{
  ℕ, zero, suc, ◌+◌, ◌-◌, ◌*◌, ◌/◌, ◌%◌, ◌≤◌, min, max, differ, bit_and, bit_or, bit_xor,
}

-- An operation on digits: `f` of the lowest digits, and `z` of the second number where the first is 0.
module _ (z : ℕ → ℕ) (f : ℕ → ℕ → ℕ) (at_zero : (b : ℕ) → z b ≡ 2 * z (b / 2) + f 0 (b % 2)) where
  abbrev on_digits : ℕ → ℕ → ℕ → ℕ
  on_digits = Nat.digits z f

  -- A count of digits that covers the first number may grow by one.
  one_more : (a b n : ℕ) → a ≤ n → on_digits n a b ≡ on_digits (suc n) a b
  one_more zero b zero le = refl
  one_more zero b (suc n) le = refl
  one_more (suc a) b zero le = absurd (omega (arith, le))
  one_more (suc a) b (suc n) le =
      let rest = one_more (suc a / 2) (b / 2) n (omega (arith, le)) in
      ap (λ high. high * 2 + f (suc a % 2) (b % 2)) rest

  -- And by any number.
  longer : (d a b n : ℕ) → a ≤ n → on_digits n a b ≡ on_digits (d + n) a b
  longer zero a b n le = ap (λ m. on_digits m a b) (omega arith)
  longer (suc d) a b n le =
      longer d a b n le
      ∙ one_more a b (d + n) (omega (arith, le))
      ∙ ap (λ m. on_digits m a b) {x = suc (d + n)} (omega arith)

  peel : (a b : ℕ) → on_digits a a b ≡ 2 * on_digits (a / 2) (a / 2) (b / 2) + f (a % 2) (b % 2)
  peel zero b = at_zero b
  peel (suc a) b =
      let half = suc a / 2 in
      let rest : on_digits half half (b / 2) ≡ on_digits a half (b / 2) =
        longer (a - half) half (b / 2) half (omega arith)
        ∙ ap (λ m. on_digits m half (b / 2)) (omega arith) in
      omega (arith, rest)

pub bit_or_step : (a b : ℕ) → bit_or a b ≡ 2 * bit_or (a / 2) (b / 2) + max (a % 2) (b % 2)
bit_or_step a b =
    Nat.bit_or-bitwise a b
    ∙ peel (λ y. y) max (λ y. omega arith) a b
    ∙ ap (λ high. 2 * high + max (a % 2) (b % 2)) (sym (Nat.bit_or-bitwise (a / 2) (b / 2)))

pub bit_xor_step : (a b : ℕ) → bit_xor a b ≡ 2 * bit_xor (a / 2) (b / 2) + differ (a % 2) (b % 2)
bit_xor_step a b =
    Nat.bit_xor-bitwise a b
    ∙ peel (λ y. y) differ (λ y. omega arith) a b
    ∙ ap (λ high. 2 * high + differ (a % 2) (b % 2)) (sym (Nat.bit_xor-bitwise (a / 2) (b / 2)))

pub bit_and_step : (a b : ℕ) → bit_and a b ≡ 2 * bit_and (a / 2) (b / 2) + min (a % 2) (b % 2)
bit_and_step a b =
    Nat.bit_and-bitwise a b
    ∙ peel (λ y. 0) min (λ y. omega arith) a b
    ∙ ap (λ high. 2 * high + min (a % 2) (b % 2)) (sym (Nat.bit_and-bitwise (a / 2) (b / 2)))

pub nothing-and : (b : ℕ) → bit_and 0 b ≡ 0
nothing-and b = Nat.bit_and-bitwise 0 b
