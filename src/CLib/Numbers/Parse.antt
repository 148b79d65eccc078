-- ===== src/CLib/Numbers/Parse.antt =====
-- What from_chars reads: the value of the digits at the start of the text.
use native.Mathlib.Nat.{div-lt_iff_lt-mul}
use cs61_f26_psets.Common.{
  ℕ, zero, suc, ◌+◌, ◌-◌, ◌*◌, ◌/◌, ◌%◌, ◌^◌, ◌≤◌, ◌<◌, ◌≡◌, ◌≢◌, ◌↔◌, ◌⊎◌, inl, inr, refl, Bool,
  true, false, ◌||◌, none, some, List, [], ◌∷◌, arith, ltb, leb, if◌then◌else◌, length, Bool-cases,
}
use cs61_f26_psets.Common.Memory.{Memory}
use cs61_f26_psets.CLib.Numbers.{ok, invalid, range, Parsed, ulong_max, digit_of, scan, from_chars}

-- The digits `ds` continue the number `x` in the given base.
abbrev pub horner : ℕ → ℕ → List ℕ → ℕ
horner base x [] = x
horner base x (d ∷ ds) = horner base (x * base + d) ds

-- The bytes from `s` on are the digits `ds`.
abbrev pub Reads : ℕ → Memory → ℕ → List ℕ → Type 0
Reads base m s [] = Unit
Reads base m s (d ∷ ds) = (digit_of base (m s) ≡ some d) × Reads base m (s + 1) ds

-- The text ends at `e`, by `last` or by a byte that is no digit.
abbrev pub Stops : ℕ → Memory → ℕ → ℕ → Type 0
Stops base m last e = (e ≡ last) ⊎ (digit_of base (m e) ≡ none)

-- No pointer from `s` up to but not including `e` is `last`.
abbrev pub Before : ℕ → ℕ → ℕ → Type 0
Before last s e = (last < s) ⊎ (e ≤ last)

digit_of-lt : (base c d : ℕ) → digit_of base c ≡ some d → d < 256
unfolding digit_of
digit_of-lt base c d h = ground arith

pub le-horner : (base : ℕ) (ds : List ℕ) (x : ℕ) → 0 < base → x ≤ horner base x ds
le-horner base [] x h = omega arith
le-horner base (d ∷ ds) x h = grind (arith, le-horner base ds (x * base + d) h)

-- The overflow test of the loop is exact.
full_iff :
    (x base d : ℕ)
    → 0 < base
    → d < 256
    → (ltb ((ulong_max - d) / base) x ≡ true) ↔ (ulong_max < x * base + d)
full_iff x base d pb pd = (
  λ h.
      let lt : (ulong_max - d) / base < x = ground arith in
      omega (arith, (div-lt_iff_lt-mul {k = base} {x = ulong_max - d} {y = x} pb).0 lt),
  λ h.
      let lt = (div-lt_iff_lt-mul {k = base} {x = ulong_max - d} {y = x} pb).1 (omega arith) in
      ground (arith, lt),
)

module _ (m : Memory) (last base : ℕ) (pos_base : 0 < base) where
  scan_stop :
      (fuel s x : ℕ) (over : Bool)
      → Stops base m last s
      → scan (suc fuel) m s last base x over ≡ some (s, x, over)
  unfolding scan
  scan_stop fuel s x over (inl e) = ground arith
  scan_stop fuel s x over (inr e) = ground arith

  scan_step :
      (fuel s x d : ℕ) (over : Bool)
      → digit_of base (m s) ≡ some d
      → s ≢ last
      → scan (suc fuel) m s last base x over ≡ (
          let full = ltb ((ulong_max - d) / base) x in
          scan fuel m
            (s + 1)
            last
            base
            (if full then x else (x * base + d) % 2 ^ 64)
            (full || over))
  unfolding scan
  scan_step fuel s x d over h ne = ground arith

  -- Once set, `overflow` stays set.
  scan_over :
      (fuel s e x : ℕ) (ds : List ℕ)
      → e ≡ s + length ds
      → Reads base m s ds
      → Stops base m last e
      → Before last s e
      → length ds < fuel
      → (y : ℕ) × (scan fuel m s last base x true ≡ some (e, y, true))
  scan_over zero s e x ds at h stop before lt = elim lt [ ]
  scan_over (suc fuel) s e x [] at h stop before lt =
      let same : s ≡ e = omega arith in (x, rw same (scan_stop fuel e x true stop))
  scan_over (suc fuel) s e x (d ∷ ds) at (h, t) stop before lt =
      let full = ltb ((ulong_max - d) / base) x in
      let (y, run) =
        scan_over fuel (s + 1) e (if full then x else (x * base + d) % 2 ^ 64) ds (omega arith) t
          stop (omega arith) (omega arith) in
      (y, ground (arith, scan_step fuel s x d true h, run))

  scan_fits :
      (fuel s e x : ℕ) (ds : List ℕ)
      → e ≡ s + length ds
      → Reads base m s ds
      → Stops base m last e
      → Before last s e
      → length ds < fuel
      → horner base x ds ≤ ulong_max
      → scan fuel m s last base x false ≡ some (e, horner base x ds, false)
  scan_fits zero s e x ds at h stop before lt fits = elim lt [ ]
  scan_fits (suc fuel) s e x [] at h stop before lt fits =
      let same : s ≡ e = omega arith in rw same (scan_stop fuel e x false stop)
  scan_fits (suc fuel) s e x (d ∷ ds) at (h, t) stop before lt fits = ground (
    arith,
    scan_step fuel s x d false h,
    (full_iff x base d pos_base (digit_of-lt base (m s) d h)).0,
    le-horner base ds (x * base + d) pos_base,
    scan_fits fuel (s + 1) e (x * base + d) ds,
  )

  scan_exceeds :
      (fuel s e x : ℕ) (ds : List ℕ)
      → e ≡ s + length ds
      → Reads base m s ds
      → Stops base m last e
      → Before last s e
      → length ds < fuel
      → x ≤ ulong_max
      → ulong_max < horner base x ds
      → (y : ℕ) × (scan fuel m s last base x false ≡ some (e, y, true))
  scan_exceeds zero s e x ds at h stop before lt le exceeds = elim lt [ ]
  scan_exceeds (suc fuel) s e x [] at h stop before lt le exceeds = absurd (omega arith)
  scan_exceeds (suc fuel) s e x (d ∷ ds) at (h, t) stop before lt le exceeds =
      elim (Bool-cases (ltb ((ulong_max - d) / base) x)) [
        | inl full ↦
            let (y, run) =
              scan_over fuel (s + 1) e x ds (omega arith) t stop (omega arith) (omega arith) in
            (y, rw (scan_step fuel s x d false h (omega arith), full) run)
        | inr room ↦
            let fits : x * base + d ≤ ulong_max =
              ground (arith, (full_iff x base d pos_base (digit_of-lt base (m s) d h)).1) in
            let (y, run) =
              scan_exceeds fuel (s + 1) e (x * base + d) ds (omega arith) t stop (omega arith)
                (omega arith) fits exceeds in
            (y, ground (arith, scan_step fuel s x d false h, run))
      ]

-- What from_chars makes of the digits `ds` that stand before `e`.
abbrev pub reading : ℕ → ℕ → ℕ → List ℕ → Parsed
reading base value e ds = elim ds [
  | [] ↦ record { ptr = e; ec = invalid; value = value }
  | d ∷ r ↦
      if leb (horner base 0 (d ∷ r)) ulong_max
      then record { ptr = e; ec = ok; value = horner base 0 (d ∷ r) }
      else record { ptr = e; ec = range; value = value }
]

-- from_chars on the bytes that the scan takes for digits.
pub from_chars-Reads :
    (fuel : ℕ) (m : Memory) (first last value base : ℕ) (ds : List ℕ)
    → 0 < base
    → Reads base m first ds
    → Stops base m last (first + length ds)
    → Before last first (first + length ds)
    → length ds < fuel
    → from_chars fuel m first last value base ≡ some (reading base value (first + length ds) ds)
unfolding from_chars
from_chars-Reads fuel m first last value base [] pb h stop before lt =
    ground (arith, scan_fits m last base pb fuel first (first + 0) 0 [] refl h stop before lt)
from_chars-Reads fuel m first last value base (d ∷ ds) pb h stop before lt =
    let e = first + length (d ∷ ds) in
    elim (Bool-cases (leb (horner base 0 (d ∷ ds)) ulong_max)) [
      | inl fits ↦
          ground (arith, scan_fits m last base pb fuel first e 0 (d ∷ ds) refl h stop before lt)
      | inr exceeds ↦
          let (y, run) =
            scan_exceeds m last base pb fuel first e 0 (d ∷ ds) refl h stop before lt (omega arith)
              (ground arith) in
          ground (arith, run)
    ]
