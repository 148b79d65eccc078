-- ===== src/CLib/Numbers/Digits.antt =====
-- The digits of a number, and how they read back.
use native.Mathlib.Nat.{div-lt_iff_lt-mul, pow-zero, pow-suc}
use cs61_f26_psets.Common.{
  ℕ, zero, suc, ◌+◌, ◌-◌, ◌*◌, ◌/◌, ◌%◌, ◌^◌, ◌≤◌, ◌<◌, ◌≡◌, ◌⊎◌, inr, refl, some, List, [], ◌∷◌,
  ◌++◌, arith, length, length-append, ap, ◌∙◌,
}
use cs61_f26_psets.Common.Memory.{Memory, store, SameOutside}
use cs61_f26_psets.CLib.Numbers.{digit_of, digit_char, unparse}
use cs61_f26_psets.CLib.Numbers.Parse.{horner, Reads}

-- The `n` lowest digits of a number, the highest first.
abbrev pub digits_of : ℕ → ℕ → ℕ → List ℕ
digits_of base zero v = []
digits_of base (suc n) v = digits_of base n (v / base) ++ v % base ∷ []

pub length-digits_of : (base n v : ℕ) → length (digits_of base n v) ≡ n
length-digits_of base zero v = refl
length-digits_of base (suc n) v = omega (
  arith,
  length-append (digits_of base n (v / base)) (v % base ∷ []),
  length-digits_of base n (v / base),
)

pub horner-append :
    (base x d : ℕ) (ds : List ℕ) → horner base x (ds ++ d ∷ []) ≡ horner base x ds * base + d
horner-append base x d [] = refl
horner-append base x d (e ∷ ds) = horner-append base (x * base + e) d ds

-- A number below `base ^ n` is the value of its `n` digits.
pub horner-digits_of :
    (base n v : ℕ) → 0 < base → v < base ^ n → horner base 0 (digits_of base n v) ≡ v
horner-digits_of base zero v pb lt = omega (arith, pow-zero base)
horner-digits_of base (suc n) v pb lt =
    let below : v < base ^ n * base = rw (pow-suc base n) at lt in
    let ih = horner-digits_of base n (v / base) pb ((div-lt_iff_lt-mul pb).1 below) in
    horner-append base 0 (v % base) (digits_of base n (v / base)) ∙ rw ih (grind arith)

pub digit_of-digit_char :
    (base d : ℕ) → base ≤ 36 → d < base → digit_of base (digit_char d) ≡ some d
unfolding digit_of
digit_of-digit_char base d small lt = ground arith

pub unparse-outside :
    (m : Memory) (base first n v : ℕ) → SameOutside m (unparse m base first n v) first n
unfolding unparse
unparse-outside m base first zero v a out = refl
unparse-outside m base first (suc n) v a out =
    ground (
      arith,
      unparse-outside (store m (first + n) (digit_char (v % base))) base first n (v / base) a,
    )

pub Reads-append :
    (base : ℕ) (m : Memory) (s d : ℕ) (ds : List ℕ)
    → Reads base m s ds
    → digit_of base (m (s + length ds)) ≡ some d
    → Reads base m s (ds ++ d ∷ [])
Reads-append base m s d [] h e = (ap (λ a. digit_of base (m a)) (omega arith) ∙ e, tt)
Reads-append base m s d (x ∷ ds) (h, t) e =
    (h, Reads-append base m (s + 1) d ds t (ap (λ a. digit_of base (m a)) (omega arith) ∙ e))

-- The characters that the second loop leaves read back as the digits.
pub unparse-Reads :
    (m : Memory) (base first n v : ℕ)
    → 0 < base
    → base ≤ 36
    → Reads base (unparse m base first n v) first (digits_of base n v)
unfolding unparse
unparse-Reads m base first zero v pb small = tt
unparse-Reads m base first (suc n) v pb small =
    let m' = store m (first + n) (digit_char (v % base)) in
    Reads-append base (unparse m' base first n (v / base)) first (v % base)
      (digits_of base n (v / base)) (unparse-Reads m' base first n (v / base) pb small)
      (rw
        (
          length-digits_of base n (v / base),
          unparse-outside m' base first n (v / base) (first + n) (inr (omega arith)),
        )
        (ground (arith, digit_of-digit_char base (v % base))))

-- `k` is the number of digits of `v`.
abbrev pub IsDigitCount : ℕ → ℕ → ℕ → Type 0
IsDigitCount base v k = (1 ≤ k) × (v < base ^ k) × ((k ≡ 1) ⊎ (base ^ (k - 1) ≤ v))
