-- ===== src/CLib/Printer/Format/Ends.antt =====
-- vprintf ends: fuel for the format and the longest string is enough, and so are three arguments
-- for each character of the format.
use cs61_f26_psets.Common.{ℕ, suc, ◌≤◌, ◌<◌, ◌≡◌, Option, some, List, length}
use cs61_f26_psets.Common.Memory.{Memory, IsString}
use cs61_f26_psets.CLib.Printer.Format.{Conversion}

abbrev Converts : List ℕ → Option (Conversion × List ℕ) → Type 0
Converts args o =
    (v : Conversion) × (args' : List ℕ) × (o ≡ some (v, args')) × (length args ≤ suc (length args'))

-- Every address begins a string of fewer than `k` characters.
abbrev pub ShortStrings : Memory → ℕ → Type 0
ShortStrings m k = (q : ℕ) → (xs : List ℕ) × IsString m q xs × (length xs < k)
