-- ===== src/CLib/Printer/Format/Plain.antt =====
-- A format without a `%` is printed as it stands.
use cs61_f26_psets.Common.{
  ℕ, zero, suc, ◌+◌, ◌<◌, ◌≡◌, ◌≢◌, some, List, [], ◌∷◌, arith, length, All,
}
use mathlib.Core.List.{map}
use cs61_f26_psets.Common.Memory.{Memory, IsString}
use cs61_f26_psets.CLib.Printer.Format.{put, vprintf}

-- For a format without a `%` and with fuel above its length, vprintf hands every character of it
-- to `putc` in order, reads no argument and does nothing else.
pub vprintf_plain :
    (fuel : ℕ) (m : Memory) (format : ℕ) (args xs : List ℕ)
    → IsString m format xs
    → All (λ c. c ≢ b'%') xs
    → length xs < fuel
    → vprintf fuel m format args ≡ some (map put xs)
unfolding vprintf
vprintf_plain zero m format args xs h plain lt = ground arith
vprintf_plain (suc fuel) m format args [] h plain lt = ground (arith, h)
vprintf_plain (suc fuel) m format args (x ∷ xs) (h, ne, t) (other, plain) lt =
    ground (arith, h, ne, other, vprintf_plain fuel m (format + 1) args xs t plain)
