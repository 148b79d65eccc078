-- ===== src/CLib/Numbers.antt =====
-- pset3/lib.cc: from_chars, to_chars, strtoul, strtol. An `unsigned long` is a number below 2 ^ 64.
-- A loop takes fuel, and answers `none` where the fuel runs out first.
pub mod Parse
pub mod Numerals
pub mod Digits
pub mod Print
pub mod RoundTrip
use cs61_f26_psets.Common.{
  ℕ, zero, suc, ◌+◌, ◌-◌, ◌*◌, ◌/◌, ◌%◌, ◌^◌, Bool, true, false, not, not, ◌&&◌, ◌||◌, Option, none,
  some, ltb, leb, ◌==◌, if◌then◌else◌, ◌>>=◌,
}
use cs61_f26_psets.Common.Int.{ℤ, pos, negsuc}
use cs61_f26_psets.Common.Memory.{Memory, store}
use cs61_f26_psets.CLib.Ctype.{isspace}

-- The codes that a conversion returns beside its pointer: 0, E_INVAL, E_RANGE, E_OVERFLOW.
pub data Ec : Type 0 where
  ok invalid range overflow : Ec

-- `from_chars_result` with the `value` that the call leaves.
pub record Parsed : Type 0 where
  pub ptr : ℕ
  pub ec : Ec
  pub value : ℕ

abbrev pub ulong_max : ℕ
ulong_max = 2 ^ 64 - 1

-- `*s >= lo && *s < hi` on a signed `char`, negative from 128 on
abbrev pub between : ℕ → ℕ → ℕ → Bool
between lo hi c = ltb c 128 && (leb lo c && ltb c hi)

-- The digit that a byte stands for in `from_chars`, `none` where the scan breaks off.
unfoldable pub digit_of : ℕ → ℕ → Option ℕ
digit_of base c =
    if between b'0' (b'0' + base) c
    then some (c - b'0')
    else if between b'a' (b'a' + base - 10) c
    then some (c - b'a' + 10)
    else if between b'A' (b'A' + base - 10) c
    then some (c - b'A' + 10)
    else none

-- The loop of `from_chars`: where it stops, its `x` and its `overflow`.
pub scan : ℕ → Memory → ℕ → ℕ → ℕ → ℕ → Bool → Option (ℕ × ℕ × Bool)
scan zero m s last base x over = none
scan (suc fuel) m s last base x over = elim (s == last) [
  | true ↦ some (s, x, over)
  | false ↦ elim (digit_of base (m s)) [
    | none ↦ some (s, x, over)
    | some digit ↦
        let full = ltb ((ulong_max - digit) / base) x in
        scan fuel m (s + 1) last base (if full then x else (x * base + digit) % 2 ^ 64)
          (full || over)
  ]
]

-- What `from_chars` returns once its loop has stopped.
abbrev pub conclude : ℕ → ℕ → ℕ × ℕ × Bool → Parsed
conclude first value (s, x, over) =
    if s == first
    then record { ptr = s; ec = invalid; value = value }
    else if over
    then record { ptr = s; ec = range; value = value }
    else record { ptr = s; ec = ok; value = x }

pub from_chars : ℕ → Memory → ℕ → ℕ → ℕ → ℕ → Option Parsed
unfolding scan
from_chars fuel m first last value base = do
  r ← scan fuel m first last base 0 false
  some (conclude first value r)

-- How many characters the first loop of `to_chars` finds `value` to take.
pub count_digits : ℕ → ℕ → ℕ → ℕ → Option ℕ
count_digits zero base v n = none
count_digits (suc fuel) base v n =
    let b2 = base * base % 2 ^ 32 in
    let b3 = b2 * base % 2 ^ 32 in
    let n' = (if ltb v base then n + 1 else if ltb v b2 then n + 2 else n + 3) in
    elim (ltb v b3) [ true ↦ some n' | false ↦ count_digits fuel base (v / b3) n' ]

-- `digit < 10 ? '0' + digit : 'a' + digit - 10`
abbrev pub digit_char : ℕ → ℕ
digit_char digit = if ltb digit 10 then b'0' + digit else b'a' + digit - 10

-- The second loop: the `n` characters from `first` on, the last one first.
pub unparse : Memory → ℕ → ℕ → ℕ → ℕ → Memory
unparse m base first zero value = m
unparse m base first (suc n) value =
    unparse (store m (first + n) (digit_char (value % base))) base first n (value / base)

-- 22 rounds divide any `unsigned long` by at least 8 each. The result is the new memory, the
-- returned pointer and the code.
pub to_chars : Memory → ℕ → ℕ → ℕ → ℕ → Option (Memory × ℕ × Ec)
unfolding count_digits unparse
to_chars m first last value base = do
  n ← count_digits 22 base value 0
  some (
      if ltb (last - first) n
      then (m, last, overflow)
      else (unparse m base first n value, first + n, ok))

-- `strtol_fix_base`: the new `t` and `base`.
pub fix_base : Memory → ℕ → ℕ → ℕ × ℕ
fix_base m t base =
    let x = m (t + 1) in
    if base == 0
    then (if m t == b'0'
        then (if x == b'x' || x == b'X'
            then (t + 2, 16)
            else if x == b'o' || x == b'O'
            then (t + 2, 8)
            else if x == b'b' || x == b'B'
            then (t + 2, 2)
            else (t, 8))
        else (t, 10))
    else if base == 16 && (m t == b'0' && (x == b'x' || x == b'X'))
    then (t + 2, 16)
    else (t, base)

-- A negative `char` is no space, and `isspace` of a byte from 128 on is false too.
pub skip_spaces : ℕ → Memory → ℕ → Option ℕ
skip_spaces zero m t = none
skip_spaces (suc fuel) m t = elim (isspace (m t)) [
  | true ↦ skip_spaces fuel m (t + 1)
  | false ↦ some t
]

-- What strtoul and strtol share: `negative`, and the result of `from_chars` behind the spaces, the
-- sign and the prefix. `last` is nullptr, which no `s` reaches.
pub record Signed : Type 0 where
  pub negative : Bool
  pub parsed : Parsed

pub parse_signed : ℕ → Memory → ℕ → ℕ → Option Signed
unfolding skip_spaces fix_base from_chars isspace
parse_signed fuel m s base = do
  t ← skip_spaces fuel m s
  let negative = m t == b'-'
  let t' = (if negative || m t == b'+' then t + 1 else t)
  let (u, base') = fix_base m t' base
  p ← from_chars fuel m u 0 0 base'
  some (record { negative = negative; parsed = p })

-- `*endptr`
abbrev pub end_of : ℕ → Parsed → ℕ
end_of s p = elim p.ec [ invalid ↦ s | _ ↦ p.ptr ]

-- `-x` of an `unsigned long`
abbrev pub negate : ℕ → ℕ
negate x = (2 ^ 64 - x) % 2 ^ 64

-- The returned value and `*endptr`.
pub strtoul : ℕ → Memory → ℕ → ℕ → Option (ℕ × ℕ)
unfolding parse_signed
strtoul fuel m s base = do
  r ← parse_signed fuel m s base
  let x : ℕ = elim r.parsed.ec [ range ↦ ulong_max | _ ↦ r.parsed.value ]
  some (if r.negative then negate x else x, end_of s r.parsed)

-- `long(w)`: the number that a word stands for
abbrev pub signed64 : ℕ → ℤ
signed64 w = if ltb w (2 ^ 63) then pos w else negsuc (2 ^ 64 - w - 1)

abbrev pub long_bound : Bool → ℕ
long_bound negative = if negative then 2 ^ 63 else 2 ^ 63 - 1

pub strtol : ℕ → Memory → ℕ → ℕ → Option (ℤ × ℕ)
unfolding parse_signed
strtol fuel m s base = do
  r ← parse_signed fuel m s base
  let bound = long_bound r.negative
  let over : Bool = elim r.parsed.ec [ range ↦ true | _ ↦ ltb bound r.parsed.value ]
  let x = (if over then bound else r.parsed.value)
  some (signed64 (if r.negative then negate x else x), end_of s r.parsed)

-- `from_chars` for a `long`: the pointer, the code, and the `value` that the call leaves.
pub from_chars_long : ℕ → Memory → ℕ → ℕ → ℤ → ℕ → Option (ℕ × Ec × ℤ)
unfolding from_chars
from_chars_long fuel m first last value base = do
  let negative = not (first == last) && m first == b'-'
  p ← from_chars fuel m (if negative then first + 1 else first) last 0 base
  let over : Bool = elim p.ec [ range ↦ true | _ ↦ ltb (long_bound negative) p.value ]
  some (elim p.ec [
    | invalid ↦ (first, invalid, value)
    | _ ↦
        if over
        then (p.ptr, range, value)
        else (p.ptr, ok, signed64 (if negative then negate p.value else p.value))
  ])

-- `to_chars` of a `long`
pub to_chars_long : Memory → ℕ → ℕ → ℤ → ℕ → Option (Memory × ℕ × Ec)
unfolding to_chars
to_chars_long m first last value base =
    if first == last then some (m, last, overflow) else (elim value [
      | negsuc n ↦ to_chars (store m first b'-') (first + 1) last (n + 1) base
      | pos n ↦ to_chars m first last n base
    ])
