-- ===== src/CLib/Printer/Format/Readers.antt =====
-- The readers of a directive of vprintf end at a later part of the format, and take at most one
-- argument each.
use cs61_f26_psets.Common.{
  ℕ, zero, suc, ◌+◌, ◌-◌, ◌*◌, ◌%◌, ◌^◌, ◌≤◌, ◌<◌, ◌≡◌, ◌≢◌, inl, inr, refl, subst, ◌&&◌, ◌||◌,
  Option, none, some, List, [], ◌∷◌, leb, ltb, ◌∙◌, true, false, if◌then◌else◌, ◌==◌, arith,
  Bool-cases, Option-cases, length,
}
use cs61_f26_psets.Common.Int.{pos, negsuc}
use cs61_f26_psets.Common.Memory.{Memory, IsString}
use cs61_f26_psets.CLib.Printer.Format.{
  Flags, flag_of, int_of, at_least_zero, read_flags, read_length, read_number, read_precision,
  read_width, int_max,
}

-- The digits at the start of a list.
abbrev pub digits_run : List ℕ → ℕ
digits_run [] = 0
digits_run (x ∷ xs) = if leb b'0' x && leb x b'9' then suc (digits_run xs) else 0

-- No more than nine digits follow each other.
abbrev pub FewDigits : List ℕ → Type 0
FewDigits [] = Unit
FewDigits (x ∷ xs) = (digits_run (x ∷ xs) < 10) × FewDigits xs

-- A string of at most `n` characters whose numbers have at most nine digits is at `p`.
abbrev pub Reads : Memory → ℕ → ℕ → Type 0
Reads m p n = (xs : List ℕ) × IsString m p xs × (length xs ≤ n) × FewDigits xs

pub Reads-next : (m : Memory) (p n : ℕ) → Reads m p n → m p ≢ 0 → (0 < n) × Reads m (p + 1) (n - 1)
Reads-next m p n ([], h, le, few) ne = absurd (ne h)
Reads-next m p n (x ∷ xs, (at, nz, h), le, (few, fews)) ne =
    (omega (arith, le), (xs, h, omega (arith, le), fews))

pub Reads-more : (m : Memory) (p n n' : ℕ) → n ≤ n' → Reads m p n → Reads m p n'
Reads-more m p n n' le (xs, h, short, few) = (xs, h, omega (arith, le, short), few)

-- A reader ends at a later part of the string.
abbrev pub Later : {A : Type 0} → Memory → ℕ → Option (ℕ × A) → Type 0
Later {A} m n o = (p' : ℕ) × (a : A) × (o ≡ some (p', a)) × Reads m p' n

flag_of-nonzero : (c : ℕ) (f f' : Flags) → flag_of c f ≡ some f' → c ≢ 0
unfolding flag_of
flag_of-nonzero c f f' e zero_c = ground (arith, e, zero_c)

pub read_flags_ends :
    (fuel : ℕ) (m : Memory) (p n : ℕ) (f : Flags)
    → Reads m p n
    → n < fuel
    → Later m n (read_flags fuel m p f)
unfolding read_flags
read_flags_ends zero m p n f r lt = absurd (omega (arith, lt))
read_flags_ends (suc fuel) m p n f r lt = elim (Option-cases (flag_of (m p) f)) [
  | inl e ↦ (p, f, rw (read_flags, e) refl, r)
  | inr (f', e) ↦
      let (more, r') = Reads-next m p n r (flag_of-nonzero (m p) f f' e) in
      let (p', a, e', r'') =
        read_flags_ends fuel m (p + 1) (n - 1) f' r' (omega (arith, more, lt)) in
      (p', a, rw (read_flags, e) e', Reads-more m p' (n - 1) n (omega arith) r'')
]

-- `10 ^ i`
abbrev pow10 : ℕ → ℕ
pow10 zero = 1
pow10 (suc i) = 10 * pow10 i

pow10-le : (i : ℕ) → i < 9 → pow10 i ≤ 100000000
pow10-le zero lt = omega arith
pow10-le (suc zero) lt = omega arith
pow10-le (suc (suc zero)) lt = omega arith
pow10-le (suc (suc (suc zero))) lt = omega arith
pow10-le (suc (suc (suc (suc zero)))) lt = omega arith
pow10-le (suc (suc (suc (suc (suc zero))))) lt = omega arith
pow10-le (suc (suc (suc (suc (suc (suc zero)))))) lt = omega arith
pow10-le (suc (suc (suc (suc (suc (suc (suc zero))))))) lt = omega arith
pow10-le (suc (suc (suc (suc (suc (suc (suc (suc zero)))))))) lt = omega arith
pow10-le (suc (suc (suc (suc (suc (suc (suc (suc (suc i))))))))) lt = absurd (omega (arith, lt))

read_number-stop :
    (fuel : ℕ) (m : Memory) (p k : ℕ)
    → (leb b'0' (m p) && leb (m p) b'9') ≡ false
    → read_number (suc fuel) m p k ≡ some (p, k)
unfolding read_number
read_number-stop fuel m p k e = rw (read_number, e) refl

read_number-digit :
    (fuel : ℕ) (m : Memory) (p k : ℕ)
    → (leb b'0' (m p) && leb (m p) b'9') ≡ true
    → k < 100000000
    → read_number (suc fuel) m p k ≡ read_number fuel m (p + 1) (10 * k + m p - b'0')
unfolding read_number
read_number-digit fuel m p k e small =
    let fits : ltb int_max (10 * k + m p) ≡ false = ground (arith, e, small) in
    rw (read_number, e, fits) refl

-- `k` is a number of `i` digits that were read.
read_digits_end :
    (fuel : ℕ) (m : Memory) (p k i : ℕ) (xs : List ℕ)
    → IsString m p xs
    → FewDigits xs
    → k < pow10 i
    → i + digits_run xs < 10
    → length xs < fuel
    → Later m (length xs) (read_number fuel m p k)
read_digits_end zero m p k i xs h few small room lt = absurd (omega (arith, lt))
read_digits_end (suc fuel) m p k i [] h few small room lt =
    (p, k, read_number-stop fuel m p k (ground (arith, h)), ([], h, omega arith, tt))
read_digits_end (suc fuel) m p k i (x ∷ xs) (at, nz, h) (few, fews) small room lt =
    elim (Bool-cases (leb b'0' x && leb x b'9')) [
      | inr other ↦ (
        p,
        k,
        read_number-stop fuel m p k (ground (arith, at, other)),
        (x ∷ xs, (at, nz, h), omega arith, (few, fews)),
      )
      | inl digit ↦
          let run : suc (i + digits_run xs) < 10 = ground (arith, room, digit) in
          let bound = pow10-le i (omega (arith, run)) in
          let (p', a, e, (ys, h', short, few')) =
            read_digits_end fuel m (p + 1) (10 * k + m p - b'0') (suc i) xs h fews
              (ground (arith, small, digit, at)) (omega (arith, run)) (omega (arith, lt)) in
          (
            p',
            a,
            read_number-digit fuel m p k (ground (arith, at, digit)) (omega (arith, bound, small))
                ∙ e,
            (ys, h', omega (arith, short), few'),
          )
    ]

FewDigits-run : (xs : List ℕ) → FewDigits xs → digits_run xs < 10
FewDigits-run [] few = omega arith
FewDigits-run (x ∷ xs) (few, fews) = few

pub read_number_ends :
    (fuel : ℕ) (m : Memory) (p n : ℕ) → Reads m p n → n < fuel → Later m n (read_number fuel m p 0)
read_number_ends fuel m p n (xs, h, le, few) lt =
    let (p', a, e, r) =
      read_digits_end fuel m p 0 0 xs h few (omega arith) (omega (arith, FewDigits-run xs few))
        (omega (arith, le, lt)) in
    (p', a, e, Reads-more m p' (length xs) n le r)

-- A reader that may take an argument.
abbrev pub Takes : {A : Type 0} → Memory → ℕ → List ℕ → Option (A × ℕ × List ℕ) → Type 0
Takes {A} m n args o =
    (a : A) × (p' : ℕ) × (args' : List ℕ) × (o ≡ some (a, p', args'))
    × Reads m p' n
    × (length args ≤ suc (length args'))

pub read_width_ends :
    (fuel : ℕ) (m : Memory) (p n : ℕ) (args : List ℕ)
    → Reads m p n
    → n < fuel
    → 0 < length args
    → Takes m n args (read_width fuel m p args)
unfolding read_width
read_width_ends fuel m p n [] r lt some_arg = absurd (omega (arith, some_arg))
read_width_ends fuel m p n (a ∷ args) r lt some_arg =
    elim (Bool-cases (leb b'1' (m p) && leb (m p) b'9')) [
      | inl digit ↦
          let (p', k, e, r') = read_number_ends fuel m p n r lt in
          (pos k, p', a ∷ args, rw (digit, e) refl, r', omega arith)
      | inr other ↦ elim (Bool-cases (m p == b'*')) [
        | inl star ↦
            let (more, r') = Reads-next m p n r (λ z. ground (arith, star, z)) in
            (
              int_of (a % 2 ^ 64),
              p + 1,
              args,
              rw (other, star) refl,
              Reads-more m (p + 1) (n - 1) n (omega arith) r',
              omega arith,
            )
        | inr none_given ↦ (negsuc 0, p, a ∷ args, rw (other, none_given) refl, r, omega arith)
      ]
    ]

pub read_precision_ends :
    (fuel : ℕ) (m : Memory) (p n : ℕ) (args : List ℕ)
    → Reads m p n
    → n < fuel
    → 0 < length args
    → Takes m n args (read_precision fuel m p args)
unfolding read_precision
read_precision_ends fuel m p n [] r lt some_arg = absurd (omega (arith, some_arg))
read_precision_ends fuel m p n (a ∷ args) r lt some_arg = elim (Bool-cases (m p == b'.')) [
  | inr no_dot ↦ (none, p, a ∷ args, rw (no_dot) refl, r, omega arith)
  | inl dot ↦
      let (more, r') = Reads-next m p n r (λ z. ground (arith, dot, z)) in
      let longer = Reads-more m (p + 1) (n - 1) n (omega arith) r' in
      elim (Bool-cases (leb b'0' (m (p + 1)) && leb (m (p + 1)) b'9')) [
        | inl digit ↦
            let (p', k, e, r'') = read_number_ends fuel m (p + 1) n longer lt in
            (some k, p', a ∷ args, rw (dot, digit, e) refl, r'', omega arith)
        | inr other ↦ elim (Bool-cases (m (p + 1) == b'*')) [
          | inl star ↦
              let (more', r'') = Reads-next m (p + 1) n longer (λ z. ground (arith, star, z)) in
              let two = subst (λ q. Reads m q (n - 1)) (omega arith) r'' in
              (
                some (at_least_zero (int_of (a % 2 ^ 64))),
                p + 2,
                args,
                rw (dot, other, star) refl,
                Reads-more m (p + 2) (n - 1) n (omega arith) two,
                omega arith,
              )
          | inr none_given ↦
              (some 0, p + 1, a ∷ args, rw (dot, other, none_given) refl, longer, omega arith)
        ]
      ]
]

pub read_length_ends : (m : Memory) (p n : ℕ) → Reads m p n → Reads m (read_length m p).1 n
unfolding read_length
read_length_ends m p n r = elim (Bool-cases (m p == b'l' || (m p == b't' || m p == b'z'))) [
  | inl long ↦
      let (more, r') = Reads-next m p n r (λ z. ground (arith, long, z)) in
      rw (long) (Reads-more m (p + 1) (n - 1) n (omega arith) r')
  | inr other ↦ elim (Bool-cases (m p == b'h')) [
    | inl short ↦
        let (more, r') = Reads-next m p n r (λ z. ground (arith, short, z)) in
        rw (other, short) (Reads-more m (p + 1) (n - 1) n (omega arith) r')
    | inr no_length ↦ rw (other, no_length) r
  ]
]
