-- ===== src/CLib/Console/Rows.antt =====
-- The row from which a scroll moves the screen.
use Prim.Native.Nat.{bit_and}
use native.Mathlib.Decide.{ℕ_discrete}
use cs61_f26_psets.Common.{
  ℕ, zero, suc, ◌+◌, ◌-◌, ◌*◌, ◌≤◌, ◌<◌, ◌≡◌, ◌≢◌, ◌⊎◌, inl, inr, refl, Option, none, some, arith,
  ◌∙◌, sym, subst, ap, true, false, ◌==◌, ==_iff, Bool-cases,
}
use cs61_f26_psets.CLib.Console.{
  ScrollMode, scroll_off, scroll_on, scroll_blank, cells_blank, choose_row, console_line_is_blank,
  skip_blank_rows, skip_text_rows,
}

-- The cells of the row have neither a visible character nor a background.
abbrev pub IsBlank : (ℕ → ℕ) → ℕ → Type 0
IsBlank cells row = (i : ℕ) → i < 80 → bit_and (cells (row * 80 + i)) 0xF0DF ≡ 0

-- Some cell of the row has one.
abbrev pub HasText : (ℕ → ℕ) → ℕ → Type 0
HasText cells row = (i : ℕ) × (i < 80) × (bit_and (cells (row * 80 + i)) 0xF0DF ≢ 0)

cells_blank_lem :
    (n : ℕ) (cells : ℕ → ℕ) (cpos : ℕ)
    → (cells_blank cells cpos n ≡ true) × ((i : ℕ) → i < n → bit_and (cells (cpos + i)) 0xF0DF ≡ 0)
      ⊎ (cells_blank cells cpos n ≡ false)
        × ((i : ℕ) × (i < n) × (bit_and (cells (cpos + i)) 0xF0DF ≢ 0))
unfolding cells_blank
cells_blank_lem zero cells cpos = inl (refl, λ i lt. absurd (omega (arith, lt)))
cells_blank_lem (suc n) cells cpos =
    let here : cpos + 0 ≡ cpos = omega arith in
    let next =
      λ (i : ℕ) (e : (cpos + 1) + i ≡ cpos + suc i). ap (λ a. bit_and (cells a) 0xF0DF) e in
    elim (Bool-cases (bit_and (cells cpos) 0xF0DF == 0)) [
      | inr text ↦ inr (
        rw (cells_blank, text) refl,
        (0, omega arith, λ e. ground (arith, text, ap (λ a. bit_and (cells a) 0xF0DF) here, e)),
      )
      | inl blank ↦
          let none_here = (==_iff (bit_and (cells cpos) 0xF0DF) 0).0 blank in
          elim (cells_blank_lem n cells (cpos + 1)) [
            | inl (e, rest) ↦ inl (
              rw (cells_blank, blank) e,
              λ (i : ℕ) (lt : i < suc n). elim (ℕ_discrete i 0) [
                | yes z ↦
                    ap (λ a. bit_and (cells a) 0xF0DF) {x = cpos + i} {y = cpos} (omega (arith, z))
                    ∙ none_here
                | no nz ↦
                    ap (λ a. bit_and (cells a) 0xF0DF) {x = cpos + i} {y = cpos + 1 + (i - 1)}
                      (omega (arith, nz))
                    ∙ rest (i - 1) (omega (arith, nz, lt))
              ],
            )
            | inr (e, (i, lt, text)) ↦ inr (
              rw (cells_blank, blank) e,
              (suc i, omega (arith, lt), λ z. text (next i (omega arith) ∙ z)),
            )
          ]
    ]

console_line_is_blank_lem :
    (cells : ℕ → ℕ) (row : ℕ)
    → (console_line_is_blank cells row ≡ true) × IsBlank cells row
      ⊎ (console_line_is_blank cells row ≡ false) × HasText cells row
unfolding console_line_is_blank
console_line_is_blank_lem cells row = cells_blank_lem 80 cells (row * 80)

-- Rows `r` to `row - 1` have text, and the one above them has none.
abbrev pub TextFrom : (ℕ → ℕ) → ℕ → ℕ → Type 0
TextFrom cells row r =
    (r ≤ row) × ((i : ℕ) → r ≤ i → i < row → HasText cells i) × ((r ≡ 0) ⊎ IsBlank cells (r - 1))

-- Rows `r` to `row - 1` are blank, and the one above them is not.
abbrev pub BlankFrom : (ℕ → ℕ) → ℕ → ℕ → Type 0
BlankFrom cells row r =
    (r ≤ row) × ((i : ℕ) → r ≤ i → i < row → IsBlank cells i) × ((r ≡ 0) ⊎ HasText cells (r - 1))

-- One row more.
grows :
    (P : ℕ → Type 0) (row r : ℕ)
    → P row
    → ((i : ℕ) → r ≤ i → i < row → P i)
    → (i : ℕ) → r ≤ i
    → i < suc row
    → P i
grows P row r here rest i lo hi = elim (ℕ_discrete i row) [
  | yes e ↦ subst P (sym e) here
  | no ne ↦ rest i lo (omega (arith, ne, hi))
]

skip_text-stop :
    (cells : ℕ → ℕ) (row : ℕ)
    → console_line_is_blank cells row ≡ true
    → skip_text_rows cells (suc row) ≡ suc row
unfolding skip_text_rows
skip_text-stop cells row e = rw (skip_text_rows, e) refl

skip_text-more :
    (cells : ℕ → ℕ) (row : ℕ)
    → console_line_is_blank cells row ≡ false
    → skip_text_rows cells (suc row) ≡ skip_text_rows cells row
unfolding skip_text_rows
skip_text-more cells row e = rw (skip_text_rows, e) refl

skip_text_rows_lem : (cells : ℕ → ℕ) (row : ℕ) → TextFrom cells row (skip_text_rows cells row)
unfolding skip_text_rows
skip_text_rows_lem cells zero = (omega arith, λ i lo hi. absurd (omega (arith, hi)), inl refl)
skip_text_rows_lem cells (suc row) = elim (console_line_is_blank_lem cells row) [
  | inl (e, blank) ↦ subst (TextFrom cells (suc row)) (sym (skip_text-stop cells row e)) (
    omega arith,
    λ i lo hi. absurd (omega (arith, lo, hi)),
    inr (subst (IsBlank cells) {x = row} {y = suc row - 1} (omega arith) blank),
  )
  | inr (e, text) ↦
      let (le, all, above) = skip_text_rows_lem cells row in
      subst (TextFrom cells (suc row)) (sym (skip_text-more cells row e))
        (omega (arith, le), grows (HasText cells) row _ text all, above)
]

skip_blank-stop :
    (cells : ℕ → ℕ) (row : ℕ)
    → console_line_is_blank cells row ≡ false
    → skip_blank_rows cells (suc row) ≡ suc row
unfolding skip_blank_rows
skip_blank-stop cells row e = rw (skip_blank_rows, e) refl

skip_blank-more :
    (cells : ℕ → ℕ) (row : ℕ)
    → console_line_is_blank cells row ≡ true
    → skip_blank_rows cells (suc row) ≡ skip_blank_rows cells row
unfolding skip_blank_rows
skip_blank-more cells row e = rw (skip_blank_rows, e) refl

skip_blank_rows_lem : (cells : ℕ → ℕ) (row : ℕ) → BlankFrom cells row (skip_blank_rows cells row)
unfolding skip_blank_rows
skip_blank_rows_lem cells zero = (omega arith, λ i lo hi. absurd (omega (arith, hi)), inl refl)
skip_blank_rows_lem cells (suc row) = elim (console_line_is_blank_lem cells row) [
  | inr (e, text) ↦ subst (BlankFrom cells (suc row)) (sym (skip_blank-stop cells row e)) (
    omega arith,
    λ i lo hi. absurd (omega (arith, lo, hi)),
    inr (subst (HasText cells) {x = row} {y = suc row - 1} (omega arith) text),
  )
  | inl (e, blank) ↦
      let (le, all, above) = skip_blank_rows_lem cells row in
      subst (BlankFrom cells (suc row)) (sym (skip_blank-more cells row e))
        (omega (arith, le), grows (IsBlank cells) row _ blank all, above)
]

-- The rule of a scroll: `Chooses cells mode old top new` says that it starts at the row `top`, where
-- `scroll_blank_` was `old`, and leaves `new` there. Without scroll_blank the whole screen moves.
-- With it, the first scroll starts at the top of the blank rows above the lowest text, and the later
-- ones at the same row as long as that row is blank, and then at the top of the screen.
pub data Chooses (cells : ℕ → ℕ) : ScrollMode → Option ℕ → ℕ → Option ℕ → Type 0 where
  whole_screen : Chooses cells scroll_on none 0 none
  above_text :
      (text top : ℕ)
      → TextFrom cells 24 text
      → BlankFrom cells text top
      → Chooses cells scroll_blank none top (some top)
  at_top : (mode : ScrollMode) → Chooses cells mode (some 0) 0 (some 0)
  still_blank :
      (mode : ScrollMode) (row : ℕ)
      → IsBlank cells (suc row)
      → Chooses cells mode (some (suc row)) (suc row) (some (suc row))
  no_longer_blank :
      (mode : ScrollMode) (row : ℕ)
      → HasText cells (suc row)
      → Chooses cells mode (some (suc row)) 0 (some 0)

-- The row that `first_moved` means.
abbrev pub top_of : Option ℕ → ℕ
top_of none = 0
top_of (some row) = row

kept_row :
    (cells : ℕ → ℕ) (mode : ScrollMode) (row : ℕ)
    → console_line_is_blank cells (suc row) ≡ true
    → choose_row cells mode (some (suc row)) ≡ some (suc row)
unfolding choose_row
kept_row cells scroll_off row e = rw (e) refl
kept_row cells scroll_on row e = rw (e) refl
kept_row cells scroll_blank row e = rw (e) refl

lost_row :
    (cells : ℕ → ℕ) (mode : ScrollMode) (row : ℕ)
    → console_line_is_blank cells (suc row) ≡ false
    → choose_row cells mode (some (suc row)) ≡ some 0
unfolding choose_row
lost_row cells scroll_off row e = rw (e) refl
lost_row cells scroll_on row e = rw (e) refl
lost_row cells scroll_blank row e = rw (e) refl

choose_row-later :
    (cells : ℕ → ℕ) (mode : ScrollMode) (row : ℕ)
    → Chooses cells mode
        (some (suc row))
        (top_of (choose_row cells mode (some (suc row))))
        (choose_row cells mode (some (suc row)))
choose_row-later cells mode row =
    let Goal = λ (r : Option ℕ). Chooses cells mode (some (suc row)) (top_of r) r in
    elim (console_line_is_blank_lem cells (suc row)) [
      | inl (e, blank) ↦ subst Goal (sym (kept_row cells mode row e)) (still_blank mode row blank)
      | inr (e, text) ↦ subst Goal (sym (lost_row cells mode row e)) (no_longer_blank mode row text)
    ]

pub choose_row-Chooses :
    (cells : ℕ → ℕ) (mode : ScrollMode) (old : Option ℕ)
    → mode ≢ scroll_off
    → Chooses cells mode old (top_of (choose_row cells mode old)) (choose_row cells mode old)
unfolding choose_row
choose_row-Chooses cells scroll_off old on = absurd (on refl)
choose_row-Chooses cells scroll_on none on = whole_screen
choose_row-Chooses cells scroll_blank none on =
    above_text (skip_text_rows cells 24) _ (skip_text_rows_lem cells 24)
      (skip_blank_rows_lem cells (skip_text_rows cells 24))
choose_row-Chooses cells scroll_on (some zero) on = at_top scroll_on
choose_row-Chooses cells scroll_blank (some zero) on = at_top scroll_blank
choose_row-Chooses cells scroll_on (some (suc row)) on = choose_row-later cells scroll_on row
choose_row-Chooses cells scroll_blank (some (suc row)) on = choose_row-later cells scroll_blank row
