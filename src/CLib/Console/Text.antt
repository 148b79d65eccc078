-- ===== src/CLib/Console/Text.antt =====
-- Plain text is drawn where the printer stands.
use Prim.Native.Nat.{bit_or}
use mathlib.Core.List.{map}
use cs61_f26_psets.Common.{
  ℕ, suc, ◌+◌, ◌%◌, ◌^◌, ◌≤◌, ◌<◌, ◌≡◌, ◌≢◌, inl, inr, refl, List, [], ◌∷◌, arith, length, All, ◌∙◌,
  some,
}
use cs61_f26_psets.Common.Int.{pos}
use cs61_f26_psets.Common.Memory.{Holds, SameOutside}
use cs61_f26_psets.CLib.Console.{
  ConsolePrinter, Screen, end_cpos, draw_cell, draw_char, putc, put_all, console_printer,
  console_puts, scroll_off, printer_at, finish_print,
}
use cs61_f26_psets.CLib.Console.Draws.{make_room-stop}

-- Neither a newline nor an escape character.
abbrev pub IsPlainText : List ℕ → Type 0
IsPlainText = All (λ c. (c ≢ b'\n') × (c ≢ 27))

-- The cell of a character in a color.
abbrev pub cell_of : ℕ → ℕ → ℕ
cell_of color c = bit_or c color % 2 ^ 16

putc_plain :
    (cp : ConsolePrinter) (c : ℕ)
    → cp.escape ≡ []
    → c ≢ b'\n'
    → c ≢ 27
    → cp.cell < end_cpos
    → putc cp c ≡ draw_cell cp (bit_or c cp.color)
unfolding putc draw_char
putc_plain cp c none_held not_newline not_escape lt =
    let room = make_room-stop (suc cp.cell) cp lt in
    rw (room, none_held) (ground (arith, not_newline, not_escape))

-- `cp'` has drawn the bytes `cs` from the cell of `cp` on.
pub record Shows (cp : ConsolePrinter) (cs : List ℕ) (cp' : ConsolePrinter) : Type 0 where
  pub drawn : Holds cp'.cells cp.cell (map (cell_of cp.color) cs)
  pub nothing_else : SameOutside cp.cells cp'.cells cp.cell (length cs)
  pub next_cell : cp'.cell ≡ cp.cell + length cs
  pub same_cursor : cp'.cursorpos ≡ cp.cursorpos

Shows-cons :
    (cp cp' : ConsolePrinter) (c : ℕ) (cs : List ℕ)
    → Shows (draw_cell cp (bit_or c cp.color)) cs cp'
    → Shows cp (c ∷ cs) cp'
unfolding draw_cell
Shows-cons cp cp' c cs h = record {
  drawn = (ground (arith, h.nothing_else cp.cell (inl (omega arith))), h.drawn);
  nothing_else = λ a o. elim o [
    | inl lt ↦ ground (arith, h.nothing_else a (inl (omega arith)))
    | inr le ↦ ground (arith, h.nothing_else a (inr (omega arith)))
  ];
  next_cell = omega (arith, h.next_cell);
  same_cursor = h.same_cursor;
}

draw_cell-fields :
    (cp : ConsolePrinter) (v : ℕ)
    → ((draw_cell cp v).cell ≡ cp.cell + 1) × ((draw_cell cp v).escape ≡ cp.escape)
unfolding draw_cell
draw_cell-fields cp v = (refl, refl)

put_all-Shows :
    (cs : List ℕ) (cp : ConsolePrinter)
    → IsPlainText cs
    → cp.escape ≡ []
    → cp.cell + length cs ≤ end_cpos
    → Shows cp cs (put_all cp cs)
unfolding put_all
put_all-Shows [] cp plain none_held fits = record {
  drawn = tt;
  nothing_else = λ a o. refl;
  next_cell = omega arith;
  same_cursor = refl;
}
put_all-Shows (c ∷ cs) cp ((not_newline, not_escape), plain) none_held fits =
    let one = draw_cell cp (bit_or c cp.color) in
    let (at, held) = draw_cell-fields cp (bit_or c cp.color) in
    rw (putc_plain cp c none_held not_newline not_escape (omega arith)) (
      Shows-cons cp (put_all one cs) c cs
        (put_all-Shows cs one plain (held ∙ none_held) (omega (arith, at))))

-- The printer of a call with a position.
console_printer-placed :
    (screen : Screen) (p : ℕ)
    → p ≤ end_cpos
    → console_printer screen (pos p) scroll_off ≡ some (printer_at screen scroll_off p)
unfolding console_printer
console_printer-placed screen p le = ground (arith, le)

-- console_puts of a text that has no newline and no escape character and fits on the screen behind
-- the given position draws exactly its bytes there in the given color, changes no other cell and
-- no cursor, and returns the position behind them.
pub console_puts_lem :
    (screen : Screen) (p color : ℕ) (cs : List ℕ)
    → IsPlainText cs
    → p + length cs ≤ end_cpos
    → (r : Screen × ℕ) × (console_puts screen (pos p) color cs ≡ some r)
      × Holds r.0.cells p (map (cell_of color) cs)
      × SameOutside screen.cells r.0.cells p (length cs)
      × (r.1 ≡ p + length cs)
      × (r.0.cursorpos ≡ screen.cursorpos)
unfolding console_puts
console_puts_lem screen p color cs plain fits =
    let cp : ConsolePrinter = record (printer_at screen scroll_off p) { color = color } in
    let h = put_all-Shows cs cp plain refl (omega arith) in
    (
      finish_print (pos p) (put_all cp cs),
      rw (console_printer-placed screen p (omega arith)) refl,
      h.drawn,
      h.nothing_else,
      h.next_cell,
      h.same_cursor,
    )
