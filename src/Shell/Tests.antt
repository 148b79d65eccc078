-- ===== src/Shell/Tests.antt =====
-- The tokenizer and parsers of pset4 at concrete command lines.
use cs61_f26_psets.Common.{◌+◌, ◌≤◌, ◌≡◌, false, some, arith, codes, get_or}
use cs61_f26_psets.Common.Memory.{Memory}
use cs61_f26_psets.Shell.Tokenizer.{Tokenizer, normal, advance, tokenize}
use cs61_f26_psets.Shell.Tokenizer.Bounds.{AdvancesTo, advance_lem}
use cs61_f26_psets.Shell.Words.{str}
use cs61_f26_psets.Shell.Words.Quote.{single_quoted, str-single_quoted}
use cs61_f26_psets.Shell.Parser.{Parser, command, next_delimited}
use cs61_f26_psets.Shell.Parser.Regions.{RegionAt, StartsAt, next_delimited_lem}

abbrev line : Memory
line a = get_or (codes "ls -l | wc ; date") a 0

abbrev first_token : Tokenizer
first_token = record { s = 0; end = 17; type = normal; quoted = false; len = 2 }

advance_example : AdvancesTo line first_token (advance line first_token)
advance_example = advance_lem line first_token (omega arith)

abbrev whole_line : Parser
whole_line = record { s = 0; stop = 17; end = 17 }

abbrev first_region : Parser
first_region = record { s = 0; stop = 5; end = 17 }

next_delimited_example :
    (r : Parser) × (it it' : Tokenizer) × (next_delimited 20 line command first_region ≡ some r)
    × StartsAt line command first_region it
    × RegionAt line command it it' r
    × (r.end ≡ 17)
    × (5 ≤ r.s)
next_delimited_example = next_delimited_lem 20 line command first_region (omega arith) (omega arith)

abbrev quoted_word : Memory
quoted_word a = get_or (single_quoted (codes "a b")) a 0

str_example :
    let t = tokenize quoted_word 0 5 in
    (t.type ≡ normal) × (t.s + t.len ≡ 5) × (str 6 quoted_word t ≡ some (codes "a b"))
str_example =
    str-single_quoted 6 quoted_word 0 5 (codes "a b") (ground arith) (ground arith) (omega arith)
      (omega arith) (omega arith)
