-- ===== src/Shell/Parser/Delimiters.antt =====
-- The tokens that delimit the regions of pset4/helpers.cc.
use cs61_f26_psets.Common.{◌≡◌, ◌≢◌, ◌⊎◌, true, false, not, ◌&&◌, arith}
use cs61_f26_psets.Common.Memory.{Memory}
use cs61_f26_psets.Shell.Tokenizer.{
  Kind, sequence, background, and, or, pipe, other, eol, Tokenizer, advance,
}
use cs61_f26_psets.Shell.Parser.{Mask, conditional, command, in_mask, nonnegative}

-- The operators that end a region: those of a list end every region, `&&` and `||` end pipelines and
-- commands, and `|` ends commands.
abbrev pub Delimits : Mask → Kind → Type 0
Delimits fl k =
    (k ≡ sequence)
    ⊎ (k ≡ background)
    ⊎ (k ≡ eol)
    ⊎ ((fl ≢ conditional) × ((k ≡ and) ⊎ (k ≡ or)))
    ⊎ ((fl ≡ command) × (k ≡ pipe))

-- The tokens from the first tokenizer up to the second do not delimit, and the second does, or is a
-- token that is no part of a command line.
pub data Passes (m : Memory) (fl : Mask) : Tokenizer → Tokenizer → Type 0 where
  stops_at : (it : Tokenizer) → (it.type ≡ other) ⊎ Delimits fl it.type → Passes m fl it it
  goes_on :
      (it it' : Tokenizer)
      → it.type ≢ other
      → (Delimits fl it.type → ⊥)
      → Passes m fl (advance m it) it'
      → Passes m fl it it'

pub goes_on_lem :
    (fl : Mask) (k : Kind)
    → (nonnegative k && not (in_mask fl k)) ≡ true
    → (k ≢ other) × (Delimits fl k → ⊥)
unfolding in_mask
goes_on_lem fl k h = (λ e. ground (arith, h, e), λ d. ground (arith, h, d))

pub stops_lem :
    (fl : Mask) (k : Kind)
    → (nonnegative k && not (in_mask fl k)) ≡ false
    → (k ≡ other) ⊎ Delimits fl k
unfolding in_mask
stops_lem fl k h = ground (arith, h)

pub operator_lem : (fl : Mask) (k : Kind) → (nonnegative k && in_mask fl k) ≡ true → Delimits fl k
unfolding in_mask
operator_lem fl k h = ground (arith, h)

pub no_operator_lem :
    (fl : Mask) (k : Kind) → (nonnegative k && in_mask fl k) ≡ false → Delimits fl k → ⊥
unfolding in_mask
no_operator_lem fl k h d = ground (arith, h, d)
