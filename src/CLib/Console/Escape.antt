-- ===== src/CLib/Console/Escape.antt =====
-- The color sequences `ESC [ ... m`.
use mathlib.Core.List.{append_assoc, append-nil}
use cs61_f26_psets.Common.{
  ℕ, zero, suc, ◌+◌, ◌≤◌, ◌<◌, ◌≡◌, refl, true, false, ◌||◌, List, [], ◌∷◌, ◌++◌, ◌==◌, arith,
  length, All, sym, ap, ◌∙◌,
}
use cs61_f26_psets.CLib.Ctype.{isdigit}
use cs61_f26_psets.CLib.Console.{
  ConsolePrinter, color_gray, collects, escape_char, putc, put_all, read_colors,
}

-- A character of a parameter list.
abbrev pub IsParameter : ℕ → Type 0
IsParameter c = (isdigit c || c == b';') ≡ true

length-snoc : (xs : List ℕ) (x : ℕ) → length (xs ++ x ∷ []) ≡ length xs + 1
length-snoc [] x = refl
length-snoc (y ∷ xs) x = omega (arith, length-snoc xs x)

nonempty : (n : ℕ) → 0 < n → (n == 0) ≡ false
nonempty zero lt = elim lt [ ]
nonempty (suc n) lt = ground arith

escape_step :
    (cp : ConsolePrinter) (c : ℕ)
    → collects (length (cp.escape ++ c ∷ [])) c ≡ true
    → 0 < length cp.escape
    → putc cp c ≡ record cp { escape = cp.escape ++ c ∷ [] }
unfolding putc escape_char
escape_step cp c taken held = rw (nonempty (length cp.escape) held, taken) refl

parameter_step :
    (cp : ConsolePrinter) (c : ℕ)
    → IsParameter c
    → 2 ≤ length cp.escape
    → length cp.escape < 11
    → putc cp c ≡ record cp { escape = cp.escape ++ c ∷ [] }
parameter_step cp c parameter lo hi =
    escape_step cp c (rw (length-snoc cp.escape c, parameter) (ground (arith, lo, hi)))
      (omega arith)

-- The printer once it has taken all of a parameter list.
parameters_step :
    (ds : List ℕ) (cp : ConsolePrinter) (rest : List ℕ)
    → All IsParameter ds
    → 2 ≤ length cp.escape
    → length cp.escape + length ds ≤ 11
    → put_all cp (ds ++ rest) ≡ put_all (record cp { escape = cp.escape ++ ds }) rest
unfolding put_all
parameters_step [] cp rest parameters lo hi =
    ap (λ e. put_all (record cp { escape = e }) rest) (sym (append-nil cp.escape))
parameters_step (d ∷ ds) cp rest (parameter, parameters) lo hi =
    let one : ConsolePrinter = record cp { escape = cp.escape ++ d ∷ [] } in
    let len = length-snoc cp.escape d in
    let step = parameter_step cp d parameter lo (omega (arith, hi)) in
    let next =
      parameters_step ds one rest parameters (omega (arith, len)) (omega (arith, len, hi)) in
    ap (λ cp'. put_all cp' (ds ++ rest)) step
    ∙ next
    ∙ ap (λ e. put_all (record cp { escape = e }) rest) (append_assoc cp.escape (d ∷ []) ds)

color_end :
    (cp : ConsolePrinter) (ds : List ℕ)
    → cp.escape ≡ 27 ∷ b'[' ∷ ds
    → putc cp b'm' ≡ record cp { color = read_colors (ds ++ b'm' ∷ []) 0 color_gray; escape = [] }
unfolding putc escape_char isdigit
color_end cp ds held = let len = length-snoc ds b'm' in rw (held) (ground (arith, len))

open_sequence :
    (cp : ConsolePrinter)
    → cp.escape ≡ []
    → putc (putc cp 27) b'[' ≡ record cp { escape = 27 ∷ b'[' ∷ [] }
unfolding putc escape_char
open_sequence cp none_held = rw none_held refl

-- A color sequence, from its escape character to its `m`, draws nothing, moves nothing, and leaves
-- nothing collected: it sets the printer's color to what the parameters say of gray, if they are
-- at most nine characters.
pub put_all-color :
    (cp : ConsolePrinter) (ds : List ℕ)
    → All IsParameter ds
    → length ds ≤ 9
    → cp.escape ≡ []
    → put_all cp (27 ∷ b'[' ∷ ds ++ b'm' ∷ [])
      ≡ record cp { color = read_colors (ds ++ b'm' ∷ []) 0 color_gray; escape = [] }
unfolding put_all
put_all-color cp ds parameters short none_held =
    let one : ConsolePrinter = record cp { escape = 27 ∷ b'[' ∷ [] } in
    let all = parameters_step ds one (b'm' ∷ []) parameters (omega arith) (omega (arith, short)) in
    ap (λ cp'. put_all cp' (ds ++ b'm' ∷ [])) (open_sequence cp none_held)
    ∙ all
    ∙ color_end (record cp { escape = 27 ∷ b'[' ∷ ds }) ds refl
