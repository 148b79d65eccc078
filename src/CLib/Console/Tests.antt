-- ===== src/CLib/Console/Tests.antt =====
-- The console of pset3/lib.cc at small concrete texts.
use mathlib.Core.List.{map}
use cs61_f26_psets.Common.{ℕ, ◌≡◌, refl, none, some, codes, get_or, List, [], ◌∷◌, ◌++◌, arith, All}
use cs61_f26_psets.Common.Int.{pos, negsuc}
use cs61_f26_psets.Common.Memory.{Holds, Memory, SameOutside}
use cs61_f26_psets.CLib.Ctype.{isdigit}
use cs61_f26_psets.CLib.Console.{
  ConsolePrinter, Screen, color_after, escape_char, color_gray, console_columns, console_printer,
  console_puts, end_cpos, put_all, read_colors, scroll, scroll_on, scroll_off, scroll_blank,
}
use cs61_f26_psets.CLib.Console.Rows.{Chooses}
use cs61_f26_psets.CLib.Console.Scroll.{Scrolls, scroll-Scrolls}
use cs61_f26_psets.CLib.Console.Bounds.{Prints, console_puts-Prints}
use cs61_f26_psets.CLib.Console.Text.{cell_of, console_puts_lem}
use cs61_f26_psets.CLib.Console.Escape.{IsParameter}

abbrev blank_screen : Screen
blank_screen = record { cells = λ j. 0; cursorpos = pos 1999 }

-- The printer at the end of the screen.
abbrev full_printer : ConsolePrinter
full_printer = record {
  cells = λ j. j;
  cursorpos = pos 0;
  cell = 2000;
  scroll_mode = scroll_on;
  blank_row = none;
  color = 0x0700;
  escape = [];
}

scroll_example :
    (top : ℕ) × Chooses full_printer.cells scroll_on none top (scroll full_printer).blank_row
    × Scrolls full_printer top (scroll full_printer)
scroll_example = scroll-Scrolls full_printer (λ e. ground (arith, e)) tt

-- At the last cell, a newline and another character scroll the screen.
console_puts-Prints_example :
    (r : Screen × ℕ) × (console_puts blank_screen (negsuc 0) 0x0F00 (b'a' ∷ b'\n' ∷ b'b' ∷ [])
      ≡ some r)
    × Prints blank_screen (negsuc 0) r
console_puts-Prints_example =
    console_puts-Prints blank_screen (negsuc 0) 0x0F00 (b'a' ∷ b'\n' ∷ b'b' ∷ []) (omega arith)

console_puts_example :
    (r : Screen × ℕ) × (console_puts blank_screen (pos 80) 0x0700 (b'h' ∷ b'i' ∷ []) ≡ some r)
    × Holds r.0.cells 80 (map (cell_of 0x0700) (b'h' ∷ b'i' ∷ []))
    × SameOutside blank_screen.cells r.0.cells 80 2
    × (r.1 ≡ 82)
    × (r.0.cursorpos ≡ pos 1999)
console_puts_example =
    console_puts_lem blank_screen 80 0x0700 (b'h' ∷ b'i' ∷ []) (ground arith) (omega arith)

-- CS_ERROR of lib.hh
error_sequence-taken :
    put_all full_printer (27 ∷ b'[' ∷ (b'4' ∷ b'1' ∷ b';' ∷ b'1' ∷ []) ++ b'm' ∷ [])
    ≡ record full_printer { color = 0x4F00; escape = [] }
unfolding put_all cs61_f26_psets.CLib.Console.putc escape_char isdigit read_colors color_after
error_sequence-taken = refl

parameters_taken : All IsParameter (b'4' ∷ b'1' ∷ b';' ∷ b'1' ∷ [])
unfolding isdigit
parameters_taken = (refl, (refl, (refl, (refl, tt))))

-- "%d"
abbrev integer_format : Memory
integer_format a = get_or (codes "%d") a 0
