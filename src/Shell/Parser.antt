-- ===== src/Shell/Parser.antt =====
-- pset4/helpers.cc and sh61.hh: shell_parser and its subtypes. A parser is a region `[s, stop)` of
-- the text up to `end`. A loop over tokens takes fuel, and answers `none` where that runs out.
pub mod Members
pub mod Delimiters
pub mod Regions
use cs61_f26_psets.Common.{
  ℕ, zero, suc, ◌+◌, ◌-◌, Bool, true, false, not, ◌&&◌, ◌||◌, Option, none, some, ◌==◌,
  if◌then◌else◌, ◌>>=◌,
}
use cs61_f26_psets.Common.Memory.{Memory}
use cs61_f26_psets.Shell.Tokenizer.{
  Kind, normal, redirect_op, sequence, eol, background, pipe, and, or, lparen, rparen, other,
  Tokenizer, is_space, skip_shell_space, advance, tokenize,
}

pub record Parser : Type 0 where
  pub s : ℕ
  pub stop : ℕ
  pub end : ℕ

-- The TYPEMASK_ constants.
pub data Mask : Type 0 where
  conditional pipeline command : Mask

-- `(fl & (1 << type)) != 0` at a type that is not negative
unfoldable pub in_mask : Mask → Kind → Bool
in_mask mask sequence = true
in_mask mask eol = true
in_mask mask background = true
in_mask conditional and = false
in_mask pipeline and = true
in_mask command and = true
in_mask conditional or = false
in_mask pipeline or = true
in_mask command or = true
in_mask conditional pipe = false
in_mask pipeline pipe = false
in_mask command pipe = true
in_mask mask kind = false

-- `type() >= 0`
abbrev pub nonnegative : Kind → Bool
nonnegative other = false
nonnegative normal = true
nonnegative kind = true

-- `shell_parser(first, stop, last)`
unfoldable pub parser : Memory → ℕ → ℕ → ℕ → Parser
parser m first stop last = record { s = skip_shell_space m first stop; stop = stop; end = last }

-- `empty` and `operator bool`
abbrev pub empty : Parser → Bool
empty p = p.s == p.stop

-- `next_op`
unfoldable pub next_op : Memory → Parser → Kind
next_op m p = (tokenize m p.stop p.end).type

-- `token_begin`
abbrev pub token_begin : Memory → Parser → Tokenizer
token_begin m p = tokenize m p.s p.stop

-- `while (it.type() >= 0 && (fl & (1 << it.type())) == 0) { ++it; }`
unfoldable pub skip_tokens : ℕ → Memory → Mask → Tokenizer → Option Tokenizer
skip_tokens zero m fl it = none
skip_tokens (suc fuel) m fl it = elim (nonnegative it.type && not (in_mask fl it.type)) [
  | true ↦ skip_tokens fuel m fl (advance m it)
  | false ↦ some it
]

-- `while (it._s > _s && isspace(it._s[-1])) { --it._s; }`, for `it._s - _s` bytes
unfoldable pub trim : Memory → ℕ → ℕ → ℕ
trim m zero p = p
trim m (suc n) p = elim (is_space (m (p - 1))) [ true ↦ trim m n (p - 1) | false ↦ p ]

-- `first_delimited`
unfoldable pub first_delimited : ℕ → Memory → Mask → Parser → Option Parser
first_delimited fuel m fl p = do
  it ← skip_tokens fuel m fl (tokenize m p.s p.stop)
  some (parser m p.s (trim m (it.s - p.s) it.s) p.stop)

-- The rest of `next_delimited` from the token `it` on.
region_from : ℕ → Memory → Mask → ℕ → Tokenizer → Option Parser
region_from fuel m fl end it = do
  it' ← skip_tokens fuel m fl it
  some (record { s = it.s; stop = trim m (it'.s - it.s) it'.s; end = end })

-- `next_delimited`
pub next_delimited : ℕ → Memory → Mask → Parser → Option Parser
next_delimited fuel m fl p =
    let t = tokenize m p.stop p.end in
    region_from fuel m fl p.end (if nonnegative t.type && in_mask fl t.type then advance m t else t)
