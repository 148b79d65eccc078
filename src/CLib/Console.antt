-- ===== src/CLib/Console.antt =====
-- pset3/lib.cc, lib.hh: console_printer, which draws on the 80 * 25 cells of the CGA console, scrolls
-- them, and reads the escape sequences of colors (ansi_escape_buffer). A cell is a 16-bit number; a
-- color is the bit pattern of an int.
pub mod Rows
pub mod Scroll
pub mod Draws
pub mod Bounds
pub mod Text
pub mod Escape
pub mod Formatted
mod Tests
use Prim.Native.Nat.{bit_and, bit_or}
use cs61_f26_psets.Common.{
  ℕ, zero, suc, ◌+◌, ◌-◌, ◌*◌, ◌/◌, ◌%◌, ◌^◌, Bool, true, false, not, ◌&&◌, ◌||◌, Option, none,
  some, List, [], ◌∷◌, ◌++◌, ltb, leb, ◌==◌, if◌then◌else◌, length, drop, ◌>>=◌, get_or,
}
use cs61_f26_psets.Common.Int.{ℤ, pos, negsuc}
use cs61_f26_psets.Common.Memory.{Memory, store}
use cs61_f26_psets.CLib.Ctype.{isdigit}
use cs61_f26_psets.CLib.Printer.Format.{Event, put, set_color, vprintf}

abbrev pub console_columns : ℕ
console_columns = 80

abbrev pub console_rows : ℕ
console_rows = 25

abbrev pub end_cpos : ℕ
end_cpos = console_rows * console_columns

abbrev pub color_gray : ℕ
color_gray = 0x0700

pub data ScrollMode : Type 0 where
  scroll_off scroll_on scroll_blank : ScrollMode

-- `console` and `cursorpos`, an int that applications write, too
pub record Screen : Type 0 where
  pub cells : ℕ → ℕ
  pub cursorpos : ℤ

-- `console_printer` with the globals that it writes. `cell` is `cell_ - console`, `blank_row` is
-- `scroll_blank_` (`none` for -1), and `escape` is what `ebuf_` has collected.
pub record ConsolePrinter : Type 0 where
  pub cells : ℕ → ℕ
  pub cursorpos : ℤ
  pub cell : ℕ
  pub scroll_mode : ScrollMode
  pub blank_row : Option ℕ
  pub color : ℕ
  pub escape : List ℕ

-- `console_clear`, without the call that shows the cursor
unfoldable pub clear_from : ℕ → (ℕ → ℕ) → ℕ → ℕ → ℕ → ℕ
clear_from zero cells i v = cells
clear_from (suc n) cells i v = clear_from n (store cells i v) (i + 1) v

unfoldable pub console_clear : Screen → Screen
console_clear screen = record {
  cells = clear_from end_cpos screen.cells 0 (bit_or b' ' 0x0700);
  cursorpos = pos 0;
}

-- Where `cell_` starts; `none` for a cursor outside the console, where it points outside the array.
abbrev pub first_cell : Screen → ℤ → Option ℕ
first_cell screen (pos n) = some (if leb n end_cpos then n else 0)
first_cell screen (negsuc n) = elim screen.cursorpos [
  | pos p ↦ if leb p end_cpos then some p else none
  | negsuc q ↦ none
]

abbrev pub printer_at : Screen → ScrollMode → ℕ → ConsolePrinter
printer_at screen mode cell = record {
  cells = screen.cells;
  cursorpos = screen.cursorpos;
  cell = cell;
  scroll_mode = mode;
  blank_row = none;
  color = color_gray;
  escape = [];
}

-- `console_printer(cpos, scroll_mode)`
unfoldable pub console_printer : Screen → ℤ → ScrollMode → Option ConsolePrinter
console_printer screen cpos mode = do
  cell ← first_cell screen cpos
  some (printer_at screen mode cell)

-- `console_line_is_blank`, for the cells that are left of the row
unfoldable pub cells_blank : (ℕ → ℕ) → ℕ → ℕ → Bool
cells_blank cells cpos zero = true
cells_blank cells cpos (suc n) = elim (bit_and (cells cpos) 0xF0DF == 0) [
  | true ↦ cells_blank cells (cpos + 1) n
  | false ↦ false
]

unfoldable pub console_line_is_blank : (ℕ → ℕ) → ℕ → Bool
console_line_is_blank cells row = cells_blank cells (row * console_columns) console_columns

-- `while (row > 0 && !console_line_is_blank(row - 1)) --row;`, and the same for blank lines
unfoldable pub skip_text_rows : (ℕ → ℕ) → ℕ → ℕ
skip_text_rows cells zero = 0
skip_text_rows cells (suc row) = elim (console_line_is_blank cells row) [
  | true ↦ suc row
  | false ↦ skip_text_rows cells row
]

unfoldable pub skip_blank_rows : (ℕ → ℕ) → ℕ → ℕ
skip_blank_rows cells zero = 0
skip_blank_rows cells (suc row) = elim (console_line_is_blank cells row) [
  | true ↦ skip_blank_rows cells row
  | false ↦ suc row
]

-- The new `scroll_blank_` of a scroll.
unfoldable pub choose_row : (ℕ → ℕ) → ScrollMode → Option ℕ → Option ℕ
choose_row cells scroll_blank none =
    some (skip_blank_rows cells (skip_text_rows cells (console_rows - 1)))
choose_row cells mode none = none
choose_row cells mode (some zero) = some 0
choose_row cells mode (some (suc row)) =
    some (if not (console_line_is_blank cells (suc row)) then 0 else suc row)

-- The first cell that moves.
abbrev pub first_moved : Option ℕ → ℕ
first_moved none = 0
first_moved (some row) = row * console_columns

-- `console[i] = console[i + CONSOLE_COLUMNS]` for `n` cells from `i` on
unfoldable pub move_rows : ℕ → (ℕ → ℕ) → ℕ → ℕ → ℕ
move_rows zero cells i = cells
move_rows (suc n) cells i = move_rows n (store cells i (cells (i + console_columns))) (i + 1)

-- `scroll`, whose assertion is the test of its only caller's loop
unfoldable pub scroll : ConsolePrinter → ConsolePrinter
scroll cp = elim cp.scroll_mode [
  | scroll_off ↦ record cp { cell = 0 }
  | _ ↦
      let row = choose_row cp.cells cp.scroll_mode cp.blank_row in
      let last = end_cpos - console_columns in
      let moved = move_rows (last - first_moved row) cp.cells (first_moved row) in
      record cp {
        cells = clear_from console_columns moved last 0;
        cell = cp.cell - console_columns;
        blank_row = row;
      }
]

-- `while (cell_ >= console + END_CPOS) scroll();` in `fuel` rounds
unfoldable pub make_room : ℕ → ConsolePrinter → ConsolePrinter
make_room zero cp = cp
make_room (suc fuel) cp = elim (leb end_cpos cp.cell) [
  | true ↦ make_room fuel (scroll cp)
  | false ↦ cp
]

-- `*cell_++ = v`
unfoldable pub draw_cell : ConsolePrinter → ℕ → ConsolePrinter
draw_cell cp v = record cp { cells = store cp.cells cp.cell (v % 2 ^ 16); cell = cp.cell + 1 }

-- `n` cells of a newline
unfoldable pub draw_spaces : ℕ → ConsolePrinter → ConsolePrinter
draw_spaces zero cp = cp
draw_spaces (suc n) cp = draw_spaces n (draw_cell cp (bit_or b' ' cp.color))

-- `console_printer::putc` for a character that `ebuf_` does not take. Each scroll takes cells off
-- `cell`, so that `cell` rounds are enough.
unfoldable pub draw_char : ConsolePrinter → ℕ → ConsolePrinter
draw_char cp c =
    let cp' = make_room (suc cp.cell) cp in
    if c == b'\n'
    then draw_spaces (console_columns - cp'.cell % console_columns) cp'
    else draw_cell cp' (bit_or c cp'.color)

unfoldable pub draw_all : ConsolePrinter → List ℕ → ConsolePrinter
draw_all cp [] = cp
draw_all cp (c ∷ cs) = draw_all (draw_char cp c) cs

-- `ansi_escape_buffer::flush`: while it runs, `len_` is -1, and the characters are drawn.
unfoldable pub flush : ConsolePrinter → ConsolePrinter
flush cp = record (draw_all cp cp.escape) { escape = [] }

-- `colormap`
abbrev pub colormap : ℕ → ℕ
colormap i = get_or (0 ∷ 4 ∷ 2 ∷ 6 ∷ 1 ∷ 5 ∷ 3 ∷ 7 ∷ []) i 0

-- One parameter of a color sequence.
unfoldable pub color_after : ℕ → ℕ → ℕ
color_after x color =
    if x == 0
    then color_gray
    else if x == 1
    then bit_or color 0x0800
    else if x == 2
    then bit_and color (2 ^ 32 - 1 - 0x0800)
    else if x == 7
    then bit_and (bit_or (color / 2 ^ 4) (color * 2 ^ 4)) 0xFF00
    else if leb 30 x && leb x 37
    then bit_or (bit_and color 0xF000) (colormap (x - 30) * 2 ^ 8)
    else if leb 40 x && leb x 47
    then bit_or (bit_and color 0x0F00) (colormap (x - 40) * 2 ^ 12)
    else if leb 90 x && leb x 97
    then bit_or (bit_or (bit_and color 0xF000) (colormap (x - 90) * 2 ^ 8)) 0x0800
    else if leb 100 x && leb x 107
    then bit_or (bit_or (bit_and color 0x0F00) (colormap (x - 100) * 2 ^ 12)) 0x8000
    else color

-- The loop over a whole sequence.
unfoldable pub read_colors : List ℕ → ℕ → ℕ → ℕ
read_colors [] x color = color
read_colors (c ∷ cs) x color =
    if isdigit c
    then read_colors cs (x * 10 + c - b'0') color
    else read_colors cs 0 (color_after x color)

-- The test for a prefix of `ESC [ ... m`, with `n` characters of which `c` is the last.
abbrev pub collects : ℕ → ℕ → Bool
collects n c =
    n == 1 || ((n == 2 && c == b'[') || (ltb 2 n && (ltb n 12 && (isdigit c || c == b';'))))

-- `ansi_escape_buffer::putc_impl`
unfoldable pub escape_char : ConsolePrinter → ℕ → ConsolePrinter
escape_char cp c =
    let collected = cp.escape ++ c ∷ [] in
    if collects (length collected) c
    then record cp { escape = collected }
    else if not (c == b'm')
    then flush (record cp { escape = collected })
    else record cp { color = read_colors (drop 2 collected) 0 color_gray; escape = [] }

-- `console_printer::putc`
unfoldable pub putc : ConsolePrinter → ℕ → ConsolePrinter
putc cp c = if length cp.escape == 0 && not (c == 27) then draw_char cp c else escape_char cp c

-- `move_cursor`
unfoldable pub move_cursor : ConsolePrinter → ConsolePrinter
move_cursor cp = let cp' = flush cp in record cp' { cursorpos = pos cp'.cell }

unfoldable pub put_all : ConsolePrinter → List ℕ → ConsolePrinter
put_all cp [] = cp
put_all cp (c ∷ cs) = put_all (putc cp c) cs

-- The screen that a printer leaves and the position that it returns, with the cursor moved if the
-- printing began there.
abbrev pub finish_print : ℤ → ConsolePrinter → Screen × ℕ
finish_print cpos cp =
    let cp' : ConsolePrinter = (elim cpos [ negsuc n ↦ move_cursor cp | pos n ↦ cp ]) in
    (record { cells = cp'.cells; cursorpos = cp'.cursorpos }, cp'.cell)

abbrev pub mode_of : ℤ → ScrollMode
mode_of (negsuc n) = scroll_on
mode_of (pos n) = scroll_off

-- `console_puts`
unfoldable pub console_puts : Screen → ℤ → ℕ → List ℕ → Option (Screen × ℕ)
console_puts screen cpos color bytes = do
  cp ← console_printer screen cpos (mode_of cpos)
  some (finish_print cpos (put_all (record cp { color = color }) bytes))

-- `vprintf` into a console_printer
unfoldable pub print_events : ConsolePrinter → List Event → ConsolePrinter
print_events cp [] = cp
print_events cp (put c ∷ es) = print_events (putc cp c) es
print_events cp (set_color color ∷ es) = print_events (record cp { color = color }) es

-- `console_vprintf`
unfoldable pub console_vprintf : ℕ → Memory → Screen → ℤ → ℕ → List ℕ → Option (Screen × ℕ)
console_vprintf fuel m screen cpos format args = do
  cp ← console_printer screen cpos (mode_of cpos)
  es ← vprintf fuel m format args
  some (finish_print cpos (print_events cp es))
