-- ===== src/CLib/Console/Scroll.antt =====
-- What a scroll does to the cells.
use native.Mathlib.Decide.{ℕ_discrete}
use cs61_f26_psets.Common.{
  ℕ, zero, suc, ◌+◌, ◌-◌, ◌*◌, ◌≤◌, ◌<◌, ◌≡◌, ◌≢◌, ◌⊎◌, inl, inr, refl, Option, none, some, arith,
  ◌∙◌, sym, subst,
}
use cs61_f26_psets.Common.Memory.{store}
use cs61_f26_psets.CLib.Console.Rows.{Chooses, choose_row-Chooses, top_of}
use cs61_f26_psets.CLib.Console.{
  ScrollMode, scroll_off, scroll_on, scroll_blank, ConsolePrinter, console_columns, console_rows,
  end_cpos, clear_from, skip_text_rows, skip_blank_rows, choose_row, first_moved, move_rows, scroll,
}

move_rows-outside :
    (n : ℕ) (cells : ℕ → ℕ) (i j : ℕ) → (j < i) ⊎ (i + n ≤ j) → move_rows n cells i j ≡ cells j
unfolding move_rows
move_rows-outside zero cells i j out = refl
move_rows-outside (suc n) cells i j out =
    ground (arith, move_rows-outside n (store cells i (cells (i + console_columns))) (i + 1) j)

move_rows-inside :
    (n : ℕ) (cells : ℕ → ℕ) (i j : ℕ)
    → i ≤ j
    → j < i + n
    → move_rows n cells i j ≡ cells (j + console_columns)
unfolding move_rows
move_rows-inside zero cells i j lo hi = absurd (omega arith)
move_rows-inside (suc n) cells i j lo hi =
    let cells' = store cells i (cells (i + console_columns)) in
    elim (ℕ_discrete i j) [
      | yes e ↦ move_rows-outside n cells' (i + 1) j (inl (omega arith)) ∙ ground (arith, e)
      | no ne ↦
          move_rows-inside n cells' (i + 1) j (omega arith) (omega arith) ∙ ground (arith, lo, ne)
    ]

pub clear_from-outside :
    (n : ℕ) (cells : ℕ → ℕ) (i v j : ℕ) → (j < i) ⊎ (i + n ≤ j) → clear_from n cells i v j ≡ cells j
unfolding clear_from
clear_from-outside zero cells i v j out = refl
clear_from-outside (suc n) cells i v j out =
    ground (arith, clear_from-outside n (store cells i v) (i + 1) v j)

pub clear_from-inside :
    (n : ℕ) (cells : ℕ → ℕ) (i v j : ℕ) → i ≤ j → j < i + n → clear_from n cells i v j ≡ v
unfolding clear_from
clear_from-inside zero cells i v j lo hi = absurd (omega arith)
clear_from-inside (suc n) cells i v j lo hi = elim (ℕ_discrete i j) [
  | yes e ↦
      clear_from-outside n (store cells i v) (i + 1) v j (inl (omega arith)) ∙ ground (arith, e)
  | no ne ↦ clear_from-inside n (store cells i v) (i + 1) v j (omega arith) (omega arith)
]

-- The row is one of the screen's.
abbrev pub IsRow : Option ℕ → Type 0
IsRow none = Unit
IsRow (some row) = row < console_rows

skip_text_rows-le : (cells : ℕ → ℕ) (row : ℕ) → skip_text_rows cells row ≤ row
unfolding skip_text_rows
skip_text_rows-le cells zero = omega arith
skip_text_rows-le cells (suc row) = ground (arith, skip_text_rows-le cells row)

skip_blank_rows-le : (cells : ℕ → ℕ) (row : ℕ) → skip_blank_rows cells row ≤ row
unfolding skip_blank_rows
skip_blank_rows-le cells zero = omega arith
skip_blank_rows-le cells (suc row) = ground (arith, skip_blank_rows-le cells row)

pub choose_row-IsRow :
    (cells : ℕ → ℕ) (mode : ScrollMode) (row : Option ℕ)
    → IsRow row
    → IsRow (choose_row cells mode row)
unfolding choose_row
choose_row-IsRow cells scroll_blank none h = omega (
  arith,
  skip_blank_rows-le cells (skip_text_rows cells (console_rows - 1)),
  skip_text_rows-le cells (console_rows - 1),
)
choose_row-IsRow cells scroll_off none h = tt
choose_row-IsRow cells scroll_on none h = tt
choose_row-IsRow cells scroll_off (some zero) h = omega arith
choose_row-IsRow cells scroll_on (some zero) h = omega arith
choose_row-IsRow cells scroll_blank (some zero) h = omega arith
choose_row-IsRow cells scroll_off (some (suc row)) h = ground (arith, h)
choose_row-IsRow cells scroll_on (some (suc row)) h = ground (arith, h)
choose_row-IsRow cells scroll_blank (some (suc row)) h = ground (arith, h)

-- What a scroll from row `top` leaves: the rows above stay, those below move up by one, the last is
-- cleared, and the cell moves with its row.
pub record Scrolls (cp : ConsolePrinter) (top : ℕ) (cp' : ConsolePrinter) : Type 0 where
  pub top_row : top < console_rows
  pub above : (j : ℕ) → j < top * console_columns → cp'.cells j ≡ cp.cells j
  pub moved :
      (j : ℕ)
      → top * console_columns ≤ j
      → j < end_cpos - console_columns
      → cp'.cells j ≡ cp.cells (j + console_columns)
  pub last_cleared : (j : ℕ) → end_cpos - console_columns ≤ j → j < end_cpos → cp'.cells j ≡ 0
  pub behind : (j : ℕ) → end_cpos ≤ j → cp'.cells j ≡ cp.cells j
  pub cell_moved : cp'.cell ≡ cp.cell - console_columns
  pub same_color : cp'.color ≡ cp.color
  pub same_escape : cp'.escape ≡ cp.escape
  pub same_cursor : cp'.cursorpos ≡ cp.cursorpos
  pub row_chosen : IsRow cp'.blank_row

-- The printer after the rows from cell `first` on have moved.
abbrev moved_from : ConsolePrinter → Option ℕ → ℕ → ConsolePrinter
moved_from cp row first = record cp {
  cells =
      clear_from console_columns (move_rows (end_cpos - console_columns - first) cp.cells first)
        (end_cpos - console_columns) 0;
  cell = cp.cell - console_columns;
  blank_row = row;
}

moved_from-Scrolls :
    (cp : ConsolePrinter) (row : Option ℕ) (top : ℕ)
    → IsRow row
    → top < console_rows
    → Scrolls cp top (moved_from cp row (top * console_columns))
moved_from-Scrolls cp row top is_row lt =
    let last = end_cpos - console_columns in
    let first = top * console_columns in
    let n = last - first in
    let cells = move_rows n cp.cells first in
    record {
      top_row = lt;
      above = λ j l.
          clear_from-outside console_columns cells last 0 j (inl (omega arith))
          ∙ move_rows-outside n cp.cells first j (inl l);
      moved = λ j lo hi.
          clear_from-outside console_columns cells last 0 j (inl hi)
          ∙ move_rows-inside n cp.cells first j lo (omega arith);
      last_cleared = λ j lo hi. clear_from-inside console_columns cells last 0 j lo (omega arith);
      behind = λ j le.
          clear_from-outside console_columns cells last 0 j (inr (omega arith))
          ∙ move_rows-outside n cp.cells first j (inr (omega arith));
      cell_moved = refl;
      same_color = refl;
      same_escape = refl;
      same_cursor = refl;
      row_chosen = is_row;
    }

top_of-lt : (row : Option ℕ) → IsRow row → top_of row < console_rows
top_of-lt none h = omega arith
top_of-lt (some row) h = h

first_moved-top_of : (row : Option ℕ) → first_moved row ≡ top_of row * console_columns
first_moved-top_of none = refl
first_moved-top_of (some row) = refl

rows_moved :
    (cp : ConsolePrinter) (row : Option ℕ)
    → IsRow row
    → Scrolls cp (top_of row) (moved_from cp row (first_moved row))
rows_moved cp row h =
    rw (first_moved-top_of row) (moved_from-Scrolls cp row (top_of row) h (top_of-lt row h))

scroll-rows :
    (cp : ConsolePrinter)
    → cp.scroll_mode ≢ scroll_off
    → let row = choose_row cp.cells cp.scroll_mode cp.blank_row in
      scroll cp ≡ moved_from cp row (first_moved row)
unfolding scroll
scroll-rows cp on = ground (arith, on)

-- Where scrolling is on, a scroll moves the rows below the row that `Chooses` says up by one: the
-- rows above it stay, the last row is cleared, and no cell outside the screen changes.
pub scroll-Scrolls :
    (cp : ConsolePrinter)
    → cp.scroll_mode ≢ scroll_off
    → IsRow cp.blank_row
    → (top : ℕ) × Chooses cp.cells cp.scroll_mode cp.blank_row top (scroll cp).blank_row
      × Scrolls cp top (scroll cp)
scroll-Scrolls cp on is_row =
    let row = choose_row cp.cells cp.scroll_mode cp.blank_row in
    let ok = choose_row-IsRow cp.cells cp.scroll_mode cp.blank_row is_row in
    let is = scroll-rows cp on in
    (
      top_of row,
      subst (λ cp'. Chooses cp.cells cp.scroll_mode cp.blank_row (top_of row) cp'.blank_row)
          (sym is) (choose_row-Chooses cp.cells cp.scroll_mode cp.blank_row on),
      subst (Scrolls cp (top_of row)) (sym is) (rows_moved cp row ok),
    )

pub scroll-off :
    (cp : ConsolePrinter) → cp.scroll_mode ≡ scroll_off → scroll cp ≡ record cp { cell = 0 }
unfolding scroll
scroll-off cp off = ground (arith, off)
