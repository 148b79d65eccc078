-- ===== src/CLib/Printer/Digits.antt =====
-- print_number leaves the digits of its number at the end of the buffer.
use cs61_f26_psets.Common.{
  ℕ, ◌+◌, ◌-◌, ◌≤◌, ◌<◌, ◌≡◌, Bool, List, [], ◌∷◌, ◌⊎◌, if◌then◌else◌, length,
}
use cs61_f26_psets.Common.Memory.{Memory, SameOutside}
use cs61_f26_psets.CLib.Numbers.Parse.{horner}

-- The character `c` stands for the digit `d` in upper or lower case.
abbrev pub IsDigit : Bool → ℕ → ℕ → Type 0
IsDigit upper c d =
    ((d < 10) × (c ≡ b'0' + d))
    ⊎ ((10 ≤ d) × (d < 36) × (c ≡ (if upper then b'A' else b'a') + (d - 10)))

-- The bytes from `s` on are the digits `ds` of a number in the given base.
abbrev pub Written : ℕ → Bool → Memory → ℕ → List ℕ → Type 0
Written base upper m s [] = Unit
Written base upper m s (d ∷ ds) =
    ((d < base) × IsDigit upper (m s) d) × Written base upper m (s + 1) ds

-- `r` holds the digits of `value` from its pointer up to `buf + left`, and no other byte is new.
pub record Spells (m : Memory) (upper : Bool) (buf base left value : ℕ) (r : Memory × ℕ)
    : Type 0 where
  pub digits : List ℕ
  pub some_digit : 0 < length digits
  pub ends : r.1 + length digits ≡ buf + left
  pub inside : buf ≤ r.1
  pub written : Written base upper r.0 r.1 digits
  pub value_of : horner base 0 digits ≡ value
  pub nothing_else : SameOutside m r.0 buf left
