-- ===== src/CLib/Console/Bounds.antt =====
-- The console printer stays on the screen, and its escape buffer does not overflow.
use cs61_f26_psets.Common.{
  ℕ, ◌≤◌, ◌<◌, ◌≡◌, inl, inr, refl, true, not, ◌&&◌, none, some, sym, subst, leb, if◌then◌else◌,
  List, [], ◌∷◌, ◌++◌, ◌==◌, arith, ◌∙◌, ap, length, Bool-cases,
}
use cs61_f26_psets.Common.Memory.{Memory}
use cs61_f26_psets.Common.Int.{ℤ, pos, negsuc}
use cs61_f26_psets.CLib.Printer.Format.{Event, put, set_color, vprintf}
use cs61_f26_psets.CLib.Console.{
  ScrollMode, ConsolePrinter, end_cpos, flush, collects, escape_char, putc, put_all,
  console_printer, Screen, print_events, finish_print, move_cursor, console_puts, mode_of,
  console_vprintf, first_cell, printer_at,
}
use cs61_f26_psets.CLib.Console.Scroll.{IsRow}
use cs61_f26_psets.CLib.Console.Draws.{draw_char-Draws, draw_all-Draws}

-- The cursor is on the screen or right behind it.
abbrev pub OnScreen : ℤ → Type 0
OnScreen (pos n) = n ≤ end_cpos
OnScreen (negsuc n) = ⊥

-- The invariant: the next cell is on the screen or right behind it, the row that scrolling has chosen
-- is one of the screen's, and the escape buffer has room for one more of its 12 characters,
-- and the cursor is where a cell may be.
pub record IsInside (cp : ConsolePrinter) : Type 0 where
  pub inside : cp.cell ≤ end_cpos
  pub is_row : IsRow cp.blank_row
  pub room : length cp.escape < 12
  pub cursor_in : OnScreen cp.cursorpos

pub flush-IsInside :
    (cp : ConsolePrinter)
    → cp.cell ≤ end_cpos
    → IsRow cp.blank_row
    → OnScreen cp.cursorpos
    → IsInside (flush cp) × ((j : ℕ) → end_cpos ≤ j → (flush cp).cells j ≡ cp.cells j)
unfolding flush
flush-IsInside cp inside is_row cursor =
    let d = draw_all-Draws cp.escape cp inside is_row in
    (
      record {
        inside = d.inside;
        is_row = d.is_row;
        room = omega arith;
        cursor_in = subst OnScreen (sym d.same_cursor) cursor;
      },
      d.behind,
    )

-- What a character keeps.
abbrev Keeps : ConsolePrinter → ConsolePrinter → Type 0
Keeps cp cp' = IsInside cp' × ((j : ℕ) → end_cpos ≤ j → cp'.cells j ≡ cp.cells j)

collects-lt : (n c : ℕ) → collects n c ≡ true → n < 12
collects-lt n c h = ground (arith, h)

escape_char-Keeps : (cp : ConsolePrinter) (c : ℕ) → IsInside cp → Keeps cp (escape_char cp c)
unfolding escape_char
escape_char-Keeps cp c h =
    let collected = cp.escape ++ c ∷ [] in
    elim (Bool-cases (collects (length collected) c)) [
      | inl more ↦ rw (more) (
        record {
          inside = h.inside;
          is_row = h.is_row;
          room = collects-lt (length collected) c more;
          cursor_in = h.cursor_in;
        },
        λ j le. refl,
      )
      | inr done ↦ rw (done) (elim (Bool-cases (c == b'm')) [
        | inl complete ↦ rw (complete) (
          record {
            inside = h.inside;
            is_row = h.is_row;
            room = omega arith;
            cursor_in = h.cursor_in;
          },
          λ j le. refl,
        )
        | inr other ↦
            rw (other)
              (flush-IsInside (record cp { escape = collected }) h.inside h.is_row h.cursor_in)
      ])
    ]

-- Every character keeps the invariant of the printer, and no character changes a cell outside the
-- screen: neither drawing, a newline, a scroll nor an escape sequence.
pub putc-IsInside :
    (cp : ConsolePrinter) (c : ℕ)
    → IsInside cp
    → IsInside (putc cp c) × ((j : ℕ) → end_cpos ≤ j → (putc cp c).cells j ≡ cp.cells j)
unfolding putc
putc-IsInside cp c h =
    let d = draw_char-Draws cp c h.inside h.is_row in
    elim (Bool-cases (length cp.escape == 0 && not (c == 27))) [
      | inl plain ↦ rw (plain) (
        record {
          inside = d.inside;
          is_row = d.is_row;
          room = omega (arith, ap length d.same_escape, h.room);
          cursor_in = subst OnScreen (sym d.same_cursor) h.cursor_in;
        },
        d.behind,
      )
      | inr special ↦ rw (special) (escape_char-Keeps cp c h)
    ]

-- The cell where a printer starts is on the screen.
first_cell_lem :
    (screen : Screen) (cpos : ℤ)
    → OnScreen screen.cursorpos
    → (cell : ℕ) × (first_cell screen cpos ≡ some cell) × (cell ≤ end_cpos)
first_cell_lem screen (pos n) on = (_, refl, ground arith)
first_cell_lem screen (negsuc n) on = cursor_cell screen.cursorpos on
  where
    cursor_cell :
        (c : ℤ)
        → OnScreen c
        → (cell : ℕ) × ((elim c [
          | pos p ↦ if leb p end_cpos then some p else none
          | negsuc q ↦ none
        ])
            ≡ some cell)
          × (cell ≤ end_cpos)
    cursor_cell (pos p) le = (p, ground (arith, le), le)
    cursor_cell (negsuc q) le = elim le [ ]

-- A newly made printer has the invariant, if the cursor is on the screen.
pub console_printer-IsInside :
    (screen : Screen) (cpos : ℤ) (mode : ScrollMode)
    → OnScreen screen.cursorpos
    → (cp : ConsolePrinter) × (console_printer screen cpos mode ≡ some cp)
      × IsInside cp
      × (cp.cells ≡ screen.cells)
unfolding console_printer
console_printer-IsInside screen cpos mode on =
    let (cell, e, le) = first_cell_lem screen cpos on in
    (
      printer_at screen mode cell,
      rw (e) refl,
      record { inside = le; is_row = tt; room = omega arith; cursor_in = on },
      refl,
    )

put_all-Keeps : (cs : List ℕ) (cp : ConsolePrinter) → IsInside cp → Keeps cp (put_all cp cs)
unfolding put_all
put_all-Keeps [] cp h = (h, λ j le. refl)
put_all-Keeps (c ∷ cs) cp h =
    let (one, same) = putc-IsInside cp c h in
    let (rest, same') = put_all-Keeps cs (putc cp c) one in (rest, λ j le. same' j le ∙ same j le)

print_events-Keeps :
    (es : List Event) (cp : ConsolePrinter) → IsInside cp → Keeps cp (print_events cp es)
unfolding print_events
print_events-Keeps [] cp h = (h, λ j le. refl)
print_events-Keeps (put c ∷ es) cp h =
    let (one, same) = putc-IsInside cp c h in
    let (rest, same') = print_events-Keeps es (putc cp c) one in
    (rest, λ j le. same' j le ∙ same j le)
print_events-Keeps (set_color color ∷ es) cp h =
    print_events-Keeps es (record cp { color = color })
      (record { inside = h.inside; is_row = h.is_row; room = h.room; cursor_in = h.cursor_in })

-- What a call that prints leaves: no cell outside the screen changes, the returned position and the
-- cursor are on the screen or right behind it, and the cursor moves there where printing begins at it.
pub record Prints (screen : Screen) (cpos : ℤ) (r : Screen × ℕ) : Type 0 where
  pub behind : (j : ℕ) → end_cpos ≤ j → r.0.cells j ≡ screen.cells j
  pub position : r.1 ≤ end_cpos
  pub cursor_in : OnScreen r.0.cursorpos
  pub cursor_at : (n : ℕ) → cpos ≡ negsuc n → r.0.cursorpos ≡ pos r.1

finish-Prints :
    (screen : Screen) (cpos : ℤ) (cp : ConsolePrinter)
    → IsInside cp
    → ((j : ℕ) → end_cpos ≤ j → cp.cells j ≡ screen.cells j)
    → Prints screen cpos (finish_print cpos cp)
unfolding move_cursor
finish-Prints screen (negsuc n) cp h same =
    let (inside, same') = flush-IsInside cp h.inside h.is_row h.cursor_in in
    record {
      behind = λ j le. same' j le ∙ same j le;
      position = inside.inside;
      cursor_in = inside.inside;
      cursor_at = λ n e. refl;
    }
finish-Prints screen (pos n) cp h same = record {
  behind = same;
  position = h.inside;
  cursor_in = h.cursor_in;
  cursor_at = λ n e. cc;
}

-- Where the cursor is on the screen or right behind it, for any text, color and position,
-- console_puts changes no cell outside the screen, and returns a position on the screen or right
-- behind it; a call at the cursor moves the cursor there.
pub console_puts-Prints :
    (screen : Screen) (cpos : ℤ) (color : ℕ) (bytes : List ℕ)
    → OnScreen screen.cursorpos
    → (r : Screen × ℕ) × (console_puts screen cpos color bytes ≡ some r) × Prints screen cpos r
unfolding console_puts
console_puts-Prints screen cpos color bytes on =
    let (fresh, e, h, cells) = console_printer-IsInside screen cpos (mode_of cpos) on in
    let cp : ConsolePrinter = record fresh { color = color } in
    let (inside, same) =
      put_all-Keeps bytes cp
        (record { inside = h.inside; is_row = h.is_row; room = h.room; cursor_in = h.cursor_in }) in
    (
      finish_print cpos (put_all cp bytes),
      rw (e) refl,
      finish-Prints screen cpos (put_all cp bytes) inside (λ j le. same j le ∙ ap (λ f. f j) cells),
    )

-- The same for a formatted text: whatever vprintf prints, console_vprintf stays on the screen.
pub console_vprintf-Prints :
    (fuel : ℕ) (m : Memory) (screen : Screen) (cpos : ℤ) (format : ℕ) (args : List ℕ)
    (es : List Event)
    → OnScreen screen.cursorpos
    → vprintf fuel m format args ≡ some es
    → (r : Screen × ℕ) × (console_vprintf fuel m screen cpos format args ≡ some r)
      × Prints screen cpos r
unfolding console_vprintf
console_vprintf-Prints fuel m screen cpos format args es on e =
    let (fresh, made, h, cells) = console_printer-IsInside screen cpos (mode_of cpos) on in
    let (inside, same) = print_events-Keeps es fresh h in
    (
      finish_print cpos (print_events fresh es),
      rw (made, e) refl,
      finish-Prints screen cpos (print_events fresh es) inside
          (λ j le. same j le ∙ ap (λ f. f j) cells),
    )
