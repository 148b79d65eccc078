-- ===== src/Common/Bits.antt =====
-- Binary digits: masks and shifts as arithmetic.
mod Step
use Prim.Native.Nat.{
  ℕ, zero, suc, ◌+◌, ◌-◌, ◌*◌, ◌/◌, ◌%◌, ◌^◌, ◌≤◌, ◌<◌, min, max, differ, bit_and, bit_or, bit_xor,
}
use mathlib.Core.Path.{◌≡◌, refl, sym, ap, ap₂, ◌∙◌}
use native.Mathlib.Nat.{
  div-div-eq-div-mul, div-add-mod, one-le-pow, mul_assoc, mul-div_right, zero-div, mod-eq_of_lt,
  div-lt_iff_lt-mul,
}
use native.Mathlib.Omega.{arith}
use cs61_f26_psets.Common.Bits.Step.{bit_and_step, bit_or_step, bit_xor_step, nothing-and}

power_pos : (k : ℕ) → 1 ≤ 2 ^ k
power_pos k = one-le-pow k 2 (omega arith)

pub div-power : (k x : ℕ) → x / 2 ^ suc k ≡ x / 2 / 2 ^ k
div-power k x = ap (λ m. x / m) (omega arith) ∙ sym (div-div-eq-div-mul x 2 (2 ^ k))

mod-power : (k x : ℕ) → x % 2 ^ suc k ≡ x / 2 % 2 ^ k * 2 + x % 2
mod-power k x =
    let whole = div-add-mod x (2 ^ suc k) in
    let half = div-add-mod (x / 2) (2 ^ k) in
    let same : 2 ^ suc k * (x / 2 ^ suc k) ≡ 2 * (2 ^ k * (x / 2 / 2 ^ k)) =
      ap (λ q. 2 ^ suc k * q) (div-power k x)
      ∙ ap (λ m. m * (x / 2 / 2 ^ k)) (omega arith)
      ∙ mul_assoc 2 (2 ^ k) (x / 2 / 2 ^ k) in
    omega (arith, whole, half, same)

div_one : (x : ℕ) → x / 1 ≡ x
div_one x = omega arith

mod_one : (x : ℕ) → x % 1 ≡ 0
mod_one x = omega arith

mul_one : (x : ℕ) → 1 * x ≡ x
mul_one x = omega arith

half_ones : (n : ℕ) → (2 ^ suc n - 1) / 2 ≡ 2 ^ n - 1
half_ones n = omega (arith, power_pos n)

double : (k m : ℕ) → 2 ^ suc k * m ≡ 2 ^ k * m * 2
double k m = ap (λ p. p * m) (omega arith) ∙ mul_assoc 2 (2 ^ k) m ∙ omega arith

half_double : (k m : ℕ) → 2 ^ suc k * m / 2 ≡ 2 ^ k * m
half_double k m = omega (arith, double k m)

-- The digits of zero.
no_digits : (n x : ℕ) → x ≤ n → (bit_and x 0 ≡ 0) × (bit_or x 0 ≡ x)
no_digits zero zero le = (refl, refl)
no_digits zero (suc x) le = absurd (omega arith)
no_digits (suc n) x le =
    let (a, o) = no_digits n (x / 2) (omega arith) in
    (omega (arith, bit_and_step x 0, a), omega (arith, bit_or_step x 0, o))

pub and-odd : (a b : ℕ) → bit_and a b % 2 ≡ min (a % 2) (b % 2)
and-odd a b = omega (arith, bit_and_step a b)

pub and_none : (x : ℕ) → bit_and x 0 ≡ 0
and_none x = (no_digits x x (omega arith)).0

-- `x & mask` for a mask of the low `n` digits
pub mask_low : (n x : ℕ) → bit_and x (2 ^ n - 1) ≡ x % 2 ^ n
mask_low zero x = (no_digits x x (omega arith)).0 ∙ sym (mod_one x)
mask_low (suc n) x = omega (
  arith,
  bit_and_step x (2 ^ suc n - 1),
  ap (bit_and (x / 2)) (half_ones n),
  mask_low n (x / 2),
  mod-power n x,
  power_pos n,
)

-- `x & mask` for a mask without the low `k` digits
pub mask_high : (k m x : ℕ) → bit_and x (2 ^ k * m) ≡ 2 ^ k * bit_and (x / 2 ^ k) m
mask_high zero m x =
    ap (bit_and x) (mul_one m)
    ∙ ap (λ t. bit_and t m) (sym (div_one x))
    ∙ sym (mul_one (bit_and (x / 1) m))
mask_high (suc k) m x = omega (
  arith,
  bit_and_step x (2 ^ suc k * m),
  ap (bit_and (x / 2)) (half_double k m),
  double k m,
  mask_high k m (x / 2),
  double k (bit_and (x / 2 ^ suc k) m),
  ap (λ t. 2 ^ k * bit_and t m) (div-power k x),
)

differ_bits : (x y : ℕ) → x < 2 → y < 2 → (differ x y < 2) × (differ x y ≡ 0 → x ≡ y)
differ_bits zero y lx ly = (ly, λ e. sym e)
differ_bits (suc zero) zero lx ly = (lx, λ e. absurd (omega (arith, e)))
differ_bits (suc zero) (suc zero) lx ly = (omega arith, λ e. refl)
differ_bits (suc zero) (suc (suc y)) lx ly = absurd (omega arith)
differ_bits (suc (suc x)) y lx ly = absurd (omega arith)

half_xor : (a b : ℕ) → bit_xor a b / 2 ≡ bit_xor (a / 2) (b / 2)
half_xor a b =
    let (digit, same) = differ_bits (a % 2) (b % 2) (omega arith) (omega arith) in
    omega (arith, bit_xor_step a b, digit)

-- `(a ^ b) >> k`
pub xor-shift : (k a b : ℕ) → bit_xor a b / 2 ^ k ≡ bit_xor (a / 2 ^ k) (b / 2 ^ k)
xor-shift zero a b = div_one (bit_xor a b) ∙ ap₂ bit_xor (sym (div_one a)) (sym (div_one b))
xor-shift (suc k) a b =
    div-power k (bit_xor a b)
    ∙ ap (λ t. t / 2 ^ k) (half_xor a b)
    ∙ xor-shift k (a / 2) (b / 2)
    ∙ ap₂ bit_xor (sym (div-power k a)) (sym (div-power k b))

xor-below : (n a b : ℕ) → a < 2 ^ n → b < 2 ^ n → bit_xor a b < 2 ^ n
xor-below zero zero zero la lb = la
xor-below zero (suc a) b la lb = absurd (omega (arith, la))
xor-below zero a (suc b) la lb = absurd (omega (arith, lb))
xor-below (suc n) a b la lb =
    let (digit, same) = differ_bits (a % 2) (b % 2) (omega arith) (omega arith) in
    omega (arith, bit_xor_step a b, digit, xor-below n (a / 2) (b / 2) (omega arith) (omega arith))

pub and-below : (n a b : ℕ) → a < 2 ^ n → bit_and a b < 2 ^ n
and-below zero zero b lt = omega (arith, nothing-and b)
and-below zero (suc a) b lt = absurd (omega (arith, lt))
and-below (suc n) a b lt =
    omega (arith, bit_and_step a b, and-below n (a / 2) (b / 2) (omega arith))

xor-zero : (n a b : ℕ) → a ≤ n → b ≤ n → bit_xor a b ≡ 0 → a ≡ b
xor-zero zero a b la lb e = omega arith
xor-zero (suc n) a b la lb e =
    let (digit, same) = differ_bits (a % 2) (b % 2) (omega arith) (omega arith) in
    let high =
      xor-zero n (a / 2) (b / 2) (omega arith) (omega arith) (omega (arith, bit_xor_step a b, e)) in
    omega (arith, bit_xor_step a b, e, same (omega (arith, bit_xor_step a b, e)), high)

-- `x | mask` for a mask of the low `n` digits
pub set_low : (n x : ℕ) → bit_or x (2 ^ n - 1) + 1 ≡ 2 ^ n * (x / 2 ^ n) + 2 ^ n
set_low zero x = omega (arith, (no_digits x x (omega arith)).1, mul_one (x / 1), div_one x)
set_low (suc n) x = omega (
  arith,
  bit_or_step x (2 ^ suc n - 1),
  ap (bit_or (x / 2)) (half_ones n),
  power_pos n,
  set_low n (x / 2),
  double n (x / 2 ^ suc n),
  ap (λ t. 2 ^ n * t) (div-power n x),
)

-- `x | y` for numbers that have no digit in common
pub join : (k q r : ℕ) → r < 2 ^ k → bit_or (2 ^ k * q) r ≡ 2 ^ k * q + r
join zero q zero lt = (no_digits (1 * q) (1 * q) (omega arith)).1 ∙ omega arith
join zero q (suc r) lt = absurd (omega (arith, lt))
join (suc k) q r lt = omega (
  arith,
  bit_or_step (2 ^ suc k * q) r,
  double k q,
  ap (λ t. bit_or t (r / 2)) (half_double k q),
  join k q (r / 2) (omega arith),
)

-- Two numbers of `k + n` digits that differ in none but the low `k`.
pub same_prefix :
    (k n a b : ℕ)
    → a < 2 ^ n * 2 ^ k
    → b < 2 ^ n * 2 ^ k
    → bit_and (bit_xor a b) (2 ^ k * (2 ^ n - 1)) ≡ 0
    → a / 2 ^ k ≡ b / 2 ^ k
same_prefix k n a b la lb e =
    let a' = a / 2 ^ k in
    let b' = b / 2 ^ k in
    let kept : 2 ^ k * (bit_xor a' b' % 2 ^ n) ≡ 0 =
      ap (λ t. 2 ^ k * t)
        (sym (mask_low n (bit_xor a' b')) ∙ ap (λ t. bit_and t (2 ^ n - 1)) (sym (xor-shift k a b)))
      ∙ sym (mask_high k (2 ^ n - 1) (bit_xor a b))
      ∙ e in
    let none_left =
      sym (mul-div_right (bit_xor a' b' % 2 ^ n) (power_pos k))
      ∙ ap (λ t. t / 2 ^ k) kept
      ∙ zero-div (2 ^ k) in
    let la' = (div-lt_iff_lt-mul (power_pos k)).1 la in
    let lb' = (div-lt_iff_lt-mul (power_pos k)).1 lb in
    let small = mod-eq_of_lt (xor-below n a' b' la' lb') in
    xor-zero (a' + b') a' b' (omega arith) (omega arith) (sym small ∙ none_left)

-- `x & 0x81`
pub mask_ends : (x : ℕ) → bit_and x 0x81 ≡ x % 2 + 128 * (x / 128 % 2)
mask_ends x = omega (arith, bit_and_step x 0x81, mask_high 6 1 (x / 2), mask_low 1 (x / 2 / 64))

-- `x | mask` for a mask without the low three digits, which are set in `x`
pub set_high : (y x : ℕ) → x % 8 ≡ 7 → bit_or x (8 * y) ≡ 8 * bit_or (x / 8) y + 7
set_high y x e =
    let (p, p') : (8 * y / 2 ≡ 4 * y) × (4 * y / 2 ≡ 2 * y) = (omega arith, omega arith) in
    let r : 2 * y / 2 ≡ y = omega arith in
    let x' : x / 2 / 2 / 2 ≡ x / 8 = omega arith in
    omega (
      arith,
      e,
      bit_or_step x (8 * y),
      ap (bit_or (x / 2)) p,
      bit_or_step (x / 2) (4 * y),
      ap (bit_or (x / 2 / 2)) p',
      bit_or_step (x / 2 / 2) (2 * y),
      ap₂ bit_or x' r,
    )

-- `|` with 1, 2 and 4, where the digit is not set
pub or-one : (x : ℕ) → x % 2 ≡ 0 → bit_or x 1 ≡ x + 1
or-one x even =
    let whole : 2 * (x / 2) ≡ x = omega (arith, even) in
    omega (arith, ap (λ t. bit_or t 1) whole, join 1 (x / 2) 1 (omega arith))

pub or-two : (x : ℕ) → x % 4 ≡ 1 → bit_or x 2 ≡ x + 2
or-two x e = omega (arith, bit_or_step x 2, or-one (x / 2) (omega (arith, e)))

pub or-four : (x : ℕ) → x % 8 ≡ 3 → bit_or x 4 ≡ x + 4
or-four x e = omega (arith, bit_or_step x 4, or-two (x / 2) (omega (arith, e)))
