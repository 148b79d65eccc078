-- ===== src/CLib/Ctype.antt =====
-- pset3/lib.hh, character traits. The argument is an `int` that holds a byte, 0 to 255; the
-- unsigned differences wrap modulo 2 ^ 32.
use Prim.Native.Nat.{bit_or}
use cs61_f26_psets.Common.{
  ℕ, ◌+◌, ◌-◌, ◌%◌, ◌^◌, ◌≤◌, ◌<◌, ◌≡◌, Bool, true, ◌&&◌, ◌||◌, ◌↔◌, arith, ltb, leb, ◌==◌,
  if◌then◌else◌,
}

-- `unsigned(a) - unsigned(b)`
abbrev sub_unsigned : ℕ → ℕ → ℕ
sub_unsigned a b = (a + 2 ^ 32 - b) % 2 ^ 32

unfoldable pub isspace : ℕ → Bool
isspace c = (leb b'\t' c && leb c b'\r') || c == b' '

unfoldable pub isdigit : ℕ → Bool
isdigit c = ltb (sub_unsigned c b'0') 10

unfoldable pub islower : ℕ → Bool
islower c = ltb (sub_unsigned c b'a') 26

unfoldable pub isupper : ℕ → Bool
isupper c = ltb (sub_unsigned c b'A') 26

unfoldable pub isalpha : ℕ → Bool
isalpha c = ltb (sub_unsigned (bit_or c 0x20) b'a') 26

unfoldable pub isalnum : ℕ → Bool
unfolding isalpha isdigit
isalnum c = isalpha c || isdigit c

unfoldable pub tolower : ℕ → ℕ
unfolding isupper
tolower c = if isupper c then c + b'a' - b'A' else c

unfoldable pub toupper : ℕ → ℕ
unfolding islower
toupper c = if islower c then c + b'A' - b'a' else c

-- For a byte the wrapped difference tests the range of the digits.
pub isdigit_iff : (c : ℕ) → c < 256 → (isdigit c ≡ true) ↔ ((b'0' ≤ c) × (c ≤ b'9'))
unfolding isdigit
isdigit_iff c h = ground arith
