-- ===== src/CLib/Console/Draws.antt =====
-- Drawing a character keeps to the screen.
use native.Mathlib.Decide.{dec_lt}
use cs61_f26_psets.Common.{
  ℕ, zero, suc, ◌+◌, ◌-◌, ◌%◌, ◌≤◌, ◌<◌, ◌≡◌, ◌≢◌, ◌⊎◌, inl, inr, refl, List, [], ◌∷◌, ◌==◌, arith,
  ◌∙◌, sym, subst, Bool-cases,
}
use Prim.Native.Nat.{bit_or}
use cs61_f26_psets.CLib.Console.{
  ScrollMode, scroll_off, scroll_on, scroll_blank, ConsolePrinter, console_columns, end_cpos,
  scroll, make_room, draw_cell, draw_spaces, draw_char, draw_all,
}
use cs61_f26_psets.CLib.Console.Scroll.{IsRow, scroll-Scrolls, scroll-off}

-- `cp'` has drawn on the screen alone: the next cell is on it or right behind it.
pub record Draws (cp cp' : ConsolePrinter) : Type 0 where
  pub inside : cp'.cell ≤ end_cpos
  pub is_row : IsRow cp'.blank_row
  pub behind : (j : ℕ) → end_cpos ≤ j → cp'.cells j ≡ cp.cells j
  pub same_escape : cp'.escape ≡ cp.escape
  pub same_cursor : cp'.cursorpos ≡ cp.cursorpos
  pub same_color : cp'.color ≡ cp.color

pub Draws-trans : (a b c : ConsolePrinter) → Draws a b → Draws b c → Draws a c
Draws-trans a b c h k = record {
  inside = k.inside;
  is_row = k.is_row;
  behind = λ j le. k.behind j le ∙ h.behind j le;
  same_escape = k.same_escape ∙ h.same_escape;
  same_cursor = k.same_cursor ∙ h.same_cursor;
  same_color = k.same_color ∙ h.same_color;
}

pub Draws-self : (cp : ConsolePrinter) → cp.cell ≤ end_cpos → IsRow cp.blank_row → Draws cp cp
Draws-self cp inside is_row = record {
  inside = inside;
  is_row = is_row;
  behind = λ j le. refl;
  same_escape = refl;
  same_cursor = refl;
  same_color = refl;
}

mode-cases : (mode : ScrollMode) → (mode ≡ scroll_off) ⊎ (mode ≢ scroll_off)
mode-cases scroll_off = inl refl
mode-cases scroll_on = inr (λ e. cc)
mode-cases scroll_blank = inr (λ e. cc)

scroll-Draws :
    (cp : ConsolePrinter)
    → cp.cell ≤ end_cpos
    → IsRow cp.blank_row
    → Draws cp (scroll cp) × ((scroll cp).cell < end_cpos)
scroll-Draws cp inside is_row = elim (mode-cases cp.scroll_mode) [
  | inl off ↦
      subst (λ cp'. Draws cp cp' × (cp'.cell < end_cpos)) (sym (scroll-off cp off))
        (
          record {
            inside = omega arith;
            is_row = is_row;
            behind = λ j le. refl;
            same_escape = refl;
            same_cursor = refl;
            same_color = refl;
          },
          omega arith,
        )
  | inr on ↦
      let (top, chosen, s) = scroll-Scrolls cp on is_row in
      (
        record {
          inside = omega (arith, s.cell_moved);
          is_row = s.row_chosen;
          behind = s.behind;
          same_escape = s.same_escape;
          same_cursor = s.same_cursor;
          same_color = s.same_color;
        },
        omega (arith, s.cell_moved),
      )
]

pub make_room-stop : (fuel : ℕ) (cp : ConsolePrinter) → cp.cell < end_cpos → make_room fuel cp ≡ cp
unfolding make_room
make_room-stop zero cp lt = refl
make_room-stop (suc fuel) cp lt = ground (arith, lt)

make_room-scroll :
    (fuel : ℕ) (cp : ConsolePrinter)
    → end_cpos ≤ cp.cell
    → make_room (suc fuel) cp ≡ make_room fuel (scroll cp)
unfolding make_room
make_room-scroll fuel cp le = ground (arith, le)

make_room-Draws :
    (fuel : ℕ) (cp : ConsolePrinter)
    → cp.cell ≤ end_cpos
    → IsRow cp.blank_row
    → Draws cp (make_room (suc fuel) cp) × ((make_room (suc fuel) cp).cell < end_cpos)
make_room-Draws fuel cp inside is_row = elim (dec_lt cp.cell end_cpos) [
  | yes lt ↦
      subst (λ cp'. Draws cp cp' × (cp'.cell < end_cpos)) (sym (make_room-stop (suc fuel) cp lt))
        (Draws-self cp inside is_row, lt)
  | no full ↦
      let (s, lt) = scroll-Draws cp inside is_row in
      subst (λ cp'. Draws cp cp' × (cp'.cell < end_cpos))
        (sym (make_room-scroll fuel cp (omega (arith, full)) ∙ make_room-stop fuel (scroll cp) lt))
        (s, lt)
]

draw_cell-Draws :
    (cp : ConsolePrinter) (v : ℕ)
    → cp.cell < end_cpos
    → IsRow cp.blank_row
    → Draws cp (draw_cell cp v)
unfolding draw_cell
draw_cell-Draws cp v lt is_row = record {
  inside = omega arith;
  is_row = is_row;
  behind = λ j le. ground arith;
  same_escape = refl;
  same_cursor = refl;
  same_color = refl;
}

draw_cell-cell : (cp : ConsolePrinter) (v : ℕ) → (draw_cell cp v).cell ≡ cp.cell + 1
unfolding draw_cell
draw_cell-cell cp v = refl

draw_spaces-Draws :
    (n : ℕ) (cp : ConsolePrinter)
    → cp.cell + n ≤ end_cpos
    → IsRow cp.blank_row
    → Draws cp (draw_spaces n cp)
unfolding draw_spaces
draw_spaces-Draws zero cp le is_row = Draws-self cp (omega arith) is_row
draw_spaces-Draws (suc n) cp le is_row =
    let v = bit_or b' ' cp.color in
    let one = draw_cell-Draws cp v (omega arith) is_row in
    Draws-trans cp (draw_cell cp v) (draw_spaces n (draw_cell cp v)) one
      (draw_spaces-Draws n (draw_cell cp v) (omega (arith, draw_cell-cell cp v)) one.is_row)

pub draw_char-Draws :
    (cp : ConsolePrinter) (c : ℕ)
    → cp.cell ≤ end_cpos
    → IsRow cp.blank_row
    → Draws cp (draw_char cp c)
unfolding draw_char
draw_char-Draws cp c inside is_row =
    let cp' = make_room (suc cp.cell) cp in
    let (room, lt) = make_room-Draws cp.cell cp inside is_row in
    elim (Bool-cases (c == b'\n')) [
      | inl newline ↦ rw (newline) (
          Draws-trans cp cp' (draw_spaces (console_columns - cp'.cell % console_columns) cp') room (
            draw_spaces-Draws (console_columns - cp'.cell % console_columns) cp' (omega (arith, lt))
              room.is_row))
      | inr other ↦ rw (other) (
          Draws-trans cp cp' (draw_cell cp' (bit_or c cp'.color)) room
            (draw_cell-Draws cp' (bit_or c cp'.color) lt room.is_row))
    ]

pub draw_all-Draws :
    (cs : List ℕ) (cp : ConsolePrinter)
    → cp.cell ≤ end_cpos
    → IsRow cp.blank_row
    → Draws cp (draw_all cp cs)
unfolding draw_all
draw_all-Draws [] cp inside is_row = Draws-self cp inside is_row
draw_all-Draws (c ∷ cs) cp inside is_row =
    let one = draw_char-Draws cp c inside is_row in
    Draws-trans cp (draw_char cp c) (draw_all (draw_char cp c) cs) one
      (draw_all-Draws cs (draw_char cp c) one.inside one.is_row)
