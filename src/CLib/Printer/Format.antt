-- ===== src/CLib/Printer/Format.antt =====
-- pset3/lib.cc: printer::vprintf. It reads the format and its strings in memory, takes its arguments
-- as 64-bit words, of which `va_arg` reads the low bits of its type, and hands characters to `putc`
-- and colors to `color_`. A loop takes fuel; a missing argument is `none` too.
pub mod Plain
pub mod Readers
pub mod Ends
use cs61_f26_psets.Common.{
  ℕ, zero, suc, ◌+◌, ◌-◌, ◌*◌, ◌/◌, ◌%◌, ◌^◌, Bool, true, false, not, ◌&&◌, ◌||◌, Option, none,
  some, List, [], ◌∷◌, ◌++◌, ltb, leb, ◌==◌, if◌then◌else◌, ◌>>=◌, codes, length, take, replicate,
}
use mathlib.Core.List.{map}
use cs61_f26_psets.Common.Int.{ℤ, pos, negsuc}
use cs61_f26_psets.Common.Memory.{Memory, bytes_at}
use cs61_f26_psets.CLib.Numbers.{signed64, negate}
use cs61_f26_psets.CLib.Strings.{strlen, strnlen}
use cs61_f26_psets.CLib.Printer.{print_number}

-- What the printer is told: `putc(c)`, or `color_ = c`.
pub data Event : Type 0 where
  put : ℕ → Event
  set_color : ℕ → Event

-- The flags of a directive, in the order of `flag_chars`: # 0 - space + '
pub record Flags : Type 0 where
  pub alt : Bool
  pub zero_fill : Bool
  pub left_justify : Bool
  pub space_positive : Bool
  pub plus_positive : Bool
  pub thousands : Bool

abbrev pub no_flags : Flags
no_flags = record {
  alt = false;
  zero_fill = false;
  left_justify = false;
  space_positive = false;
  plus_positive = false;
  thousands = false;
}

-- `flags |= 1 << (flagc - flag_chars)` for a character of `flag_chars`
unfoldable pub flag_of : ℕ → Flags → Option Flags
flag_of c f =
    if c == b'#'
    then some (record f { alt = true })
    else if c == b'0'
    then some (record f { zero_fill = true })
    else if c == b'-'
    then some (record f { left_justify = true })
    else if c == b' '
    then some (record f { space_positive = true })
    else if c == b'+'
    then some (record f { plus_positive = true })
    else if c == b'\''
    then some (record f { thousands = true })
    else none

-- The loop over the flags: no flag is NUL.
unfoldable pub read_flags : ℕ → Memory → ℕ → Flags → Option (ℕ × Flags)
read_flags zero m format f = none
read_flags (suc fuel) m format f = elim (flag_of (m format) f) [
  | none ↦ some (format, f)
  | some f' ↦ read_flags fuel m (format + 1) f'
]

-- `INT_MAX`
abbrev pub int_max : ℕ
int_max = 2 ^ 31 - 1

-- The loop over the digits of a width or a precision, ints whose overflow is undefined: `none`.
unfoldable pub read_number : ℕ → Memory → ℕ → ℕ → Option (ℕ × ℕ)
read_number zero m format n = none
read_number (suc fuel) m format n = elim (leb b'0' (m format) && leb (m format) b'9') [
  | true ↦ elim (ltb int_max (10 * n + m format)) [
    | true ↦ none
    | false ↦ read_number fuel m (format + 1) (10 * n + m format - b'0')
  ]
  | false ↦ some (format, n)
]

-- `va_arg(val, unsigned long)` and the arguments behind it
abbrev pub next_arg : List ℕ → Option (ℕ × List ℕ)
next_arg [] = none
next_arg (a ∷ args) = some (a % 2 ^ 64, args)

-- `int` and `long` values of a word
abbrev pub int_of : ℕ → ℤ
int_of w = if ltb (w % 2 ^ 32) (2 ^ 31) then pos (w % 2 ^ 32) else negsuc (2 ^ 32 - w % 2 ^ 32 - 1)

-- The width, -1 if there is none, the format behind it and the arguments that are left.
unfoldable pub read_width : ℕ → Memory → ℕ → List ℕ → Option (ℤ × ℕ × List ℕ)
read_width fuel m format args =
    if leb b'1' (m format) && leb (m format) b'9'
    then (do (format', n) ← read_number fuel m format 0; some (pos n, format', args))
    else if m format == b'*'
    then (do (a, args') ← next_arg args; some (int_of a, format + 1, args'))
    else some (negsuc 0, format, args)

-- A precision below 0 counts as 0.
abbrev pub at_least_zero : ℤ → ℕ
at_least_zero (pos n) = n
at_least_zero (negsuc n) = 0

-- The precision, `none` for -1.
unfoldable pub read_precision : ℕ → Memory → ℕ → List ℕ → Option (Option ℕ × ℕ × List ℕ)
read_precision fuel m format args =
    if not (m format == b'.')
    then some (none, format, args)
    else if leb b'0' (m (format + 1)) && leb (m (format + 1)) b'9'
    then (do (format', n) ← read_number fuel m (format + 1) 0; some (some n, format', args))
    else if m (format + 1) == b'*'
    then (do (a, args') ← next_arg args; some (some (at_least_zero (int_of a)), format + 2, args'))
    else some (some 0, format + 1, args)

-- `length`, and the format behind it
unfoldable pub read_length : Memory → ℕ → Bool × ℕ
read_length m format =
    if m format == b'l' || (m format == b't' || m format == b'z')
    then (true, format + 1)
    else if m format == b'h'
    then (false, format + 1)
    else (false, format)

-- A conversion: a number with its sign and base, a string in memory or in `numbuf`, or a color. The
-- base is 10, or 16 with lower or upper case digits; `force_alt` is FLAG_ALT | FLAG_ALT2.
pub data Conversion : Type 0 where
  signed_number : Bool → ℕ → Conversion
  decimal_number : ℕ → Conversion
  hex_number : Bool → Bool → ℕ → Conversion
  text : List ℕ → Conversion
  string_at : ℕ → Conversion
  color : ℕ → Conversion

-- `numbuf` with one character
abbrev pub one_char : ℕ → List ℕ
one_char c = if c == 0 then [] else c ∷ []

abbrev pub magnitude : ℤ → Conversion
magnitude (pos n) = signed_number false n
magnitude (negsuc n) = signed_number true (n + 1)

abbrev pub unsigned_of : Bool → ℕ → ℕ
unsigned_of long a = if long then a else a % 2 ^ 32

-- The switch over the conversion character.
unfoldable pub convert : Bool → ℕ → List ℕ → Option (Conversion × List ℕ)
convert long c args =
    if c == b'd' || c == b'i'
    then (do
      (a, args') ← next_arg args
      some (magnitude (if long then signed64 a else int_of a), args'))
    else if c == b'u'
    then (do (a, args') ← next_arg args; some (decimal_number (unsigned_of long a), args'))
    else if c == b'x'
    then (do (a, args') ← next_arg args; some (hex_number false false (unsigned_of long a), args'))
    else if c == b'X'
    then (do (a, args') ← next_arg args; some (hex_number true false (unsigned_of long a), args'))
    else if c == b'p'
    then (do (a, args') ← next_arg args; some (hex_number false true a, args'))
    else if c == b's'
    then (do (a, args') ← next_arg args; some (string_at a, args'))
    else if c == b'C'
    then (do (a, args') ← next_arg args; some (color (a % 2 ^ 32), args'))
    else if c == b'c'
    then (do (a, args') ← next_arg args; some (text (one_char (a % 256)), args'))
    else some (text (one_char (if c == 0 then b'%' else c)), args)

-- The digits that `print_number` leaves in a `numbuf` of 32 bytes, up to its NUL.
unfoldable pub number_text : ℕ → Bool → Bool → ℕ → List ℕ
number_text base upper thousands n =
    let (m, at) = print_number (λ a. 0) 0 32 n base upper thousands in bytes_at m at (31 - at)

-- `data`, cut to `datalen`.
unfoldable pub data_of : ℕ → Memory → Flags → Option ℕ → Conversion → Option (List ℕ)
data_of fuel m f precision (signed_number negative n) = some (number_text 10 true f.thousands n)
data_of fuel m f precision (decimal_number n) = some (number_text 10 true f.thousands n)
data_of fuel m f precision (hex_number upper force n) = some (number_text 16 upper f.thousands n)
data_of fuel m f none (text bytes) = some bytes
data_of fuel m f (some n) (text bytes) = some (take n bytes)
data_of fuel m f none (string_at p) = do n ← strlen fuel m p; some (bytes_at m p n)
data_of fuel m f (some n) (string_at p) = some (bytes_at m p (strnlen m p n))
data_of fuel m f precision (color c) = some []

-- `flags & FLAG_NUMERIC`
abbrev pub numeric : Conversion → Bool
numeric (signed_number negative n) = true
numeric (decimal_number n) = true
numeric (hex_number upper force n) = true
numeric conversion = false

unfoldable pub prefix_of : Flags → Conversion → List ℕ
prefix_of f (signed_number true n) = codes "-"
prefix_of f (signed_number false n) =
    if f.plus_positive then codes "+" else if f.space_positive then codes " " else []
prefix_of f (hex_number upper force n) =
    if (f.alt || force) && (not (n == 0) || force) then codes (if upper then "0X" else "0x") else []
prefix_of f conversion = []

-- `unsigned long(n)` of an int
abbrev pub word_of : ℤ → ℕ
word_of (pos n) = n % 2 ^ 64
word_of (negsuc n) = (2 ^ 64 - (n + 1)) % 2 ^ 64

-- `width - n` where `n < width`, and else 0
abbrev pub short_of : ℤ → ℤ → ℕ
short_of (pos w) (pos n) = w - n
short_of (pos w) (negsuc n) = w + n + 1
short_of (negsuc w) (pos n) = 0
short_of (negsuc w) (negsuc n) = n - w

-- `zeros`, for a prefix and data of `n` characters together, of which `datalen` are data
unfoldable pub zeros_of : Flags → ℤ → Option ℕ → Bool → ℤ → ℤ → ℕ
zeros_of f width precision false n datalen = 0
zeros_of f width (some p) true n datalen = short_of (pos p) datalen
zeros_of f width none true n datalen =
    if f.zero_fill && not f.left_justify then short_of width n else 0

-- `width -= datalen + zeros + strlen(prefix)`, computed as an unsigned long and cut to an int: the
-- spaces that are printed.
unfoldable pub padding : ℤ → ℕ → ℕ
padding width n = at_least_zero (int_of (word_of width + 2 ^ 64 - n % 2 ^ 64))

-- What one conversion hands to `putc`. `datalen` is an int.
unfoldable pub layout : Flags → ℤ → Option ℕ → Bool → List ℕ → List ℕ → List ℕ
layout f width precision is_numeric prefix bytes =
    let datalen = int_of (length bytes) in
    let n = int_of (word_of datalen + length prefix) in
    let zeros = zeros_of f width precision is_numeric n datalen in
    let pad = replicate (padding width (word_of datalen + zeros + length prefix)) b' ' in
    let body = prefix ++ (replicate zeros b'0' ++ take (at_least_zero datalen) bytes) in
    if f.left_justify then body ++ pad else pad ++ body

unfoldable pub print_conversion :
    ℕ → Memory → Flags → ℤ → Option ℕ → Conversion → Option (List Event)
print_conversion fuel m f width precision (color c) = some (set_color c ∷ [])
print_conversion fuel m f width precision conversion = do
  bytes ← data_of fuel m f precision conversion
  some (map put (layout f width precision (numeric conversion) (prefix_of f conversion) bytes))

-- One directive, from the character behind its `%`: its events, the format behind it and the
-- arguments that are left. A `%` that ends the format leaves its NUL to the loop.
unfoldable pub directive : ℕ → Memory → ℕ → List ℕ → Option (List Event × ℕ × List ℕ)
directive fuel m format args = do
  (p, f) ← read_flags fuel m format no_flags
  (width, p₁, args₁) ← read_width fuel m p args
  (precision, p₂, args₂) ← read_precision fuel m p₁ args₁
  let (long, p₃) = read_length m p₂
  (conversion, args₃) ← convert long (m p₃) args₂
  es ← print_conversion fuel m f width precision conversion
  some (es, if m p₃ == 0 then p₃ else p₃ + 1, args₃)

-- `printer::vprintf`
unfoldable pub vprintf : ℕ → Memory → ℕ → List ℕ → Option (List Event)
vprintf zero m format args = none
vprintf (suc fuel) m format args = elim (m format == 0) [
  | true ↦ some []
  | false ↦ elim (m format == b'%') [
    | true ↦ (do
      (es, format', args') ← directive fuel m (format + 1) args
      rest ← vprintf fuel m format' args'
      some (es ++ rest))
    | false ↦ (do rest ← vprintf fuel m (format + 1) args; some (put (m format) ∷ rest))
  ]
]
