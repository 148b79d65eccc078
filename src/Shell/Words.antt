-- ===== src/Shell/Words.antt =====
-- pset4/helpers.cc: shell_tokenizer::str and type_name; pset4/sh61.cc: run_line, up to the call of
-- command::run, which the source leaves to be written.
pub mod Quote
use Prim.Native.String.{String}
use cs61_f26_psets.Common.{
  ℕ, zero, suc, ◌+◌, ◌%◌, ◌^◌, Bool, true, false, not, ◌&&◌, ◌||◌, Option, none, some, List, [],
  ◌∷◌, ◌++◌, ◌==◌, if◌then◌else◌, ◌>>=◌,
}
use cs61_f26_psets.Common.Memory.{bytes_at, Memory}
use cs61_f26_psets.Shell.Tokenizer.{
  Kind, normal, redirect_op, sequence, eol, background, pipe, and, or, lparen, rparen, other,
  Tokenizer, opens, advance, tokenize,
}

-- `++pos` of the `unsigned` position
abbrev pub next_pos : ℕ → ℕ
next_pos pos = (pos + 1) % 2 ^ 32

-- The loop of `str` at `pos`; `out` is what it has built. It takes fuel, and answers `none` where
-- that runs out before `pos` is `_len`.
unfoldable pub unquote : ℕ → Memory → ℕ → ℕ → ℕ → ℕ → List ℕ → Option (List ℕ)
unquote zero m s len pos curquote out = none
unquote (suc fuel) m s len pos curquote out =
    let c = m (s + pos) in
    elim (pos == len) [
      | true ↦ some out
      | false ↦ elim (opens c curquote) [
        | true ↦ unquote fuel m s len (next_pos pos) c out
        | false ↦ elim (c == curquote) [
          | true ↦ unquote fuel m s len (next_pos pos) 0 out
          | false ↦
              elim (c == b'\\' && (not (m (s + next_pos pos) == 0) && not (curquote == b'\''))) [
                | true ↦
                    unquote fuel m s len (next_pos (next_pos pos)) curquote
                      (out ++ m (s + next_pos pos) ∷ [])
                | false ↦ unquote fuel m s len (next_pos pos) curquote (out ++ c ∷ [])
              ]
        ]
      ]
    ]

-- `shell_tokenizer::str`
unfoldable pub str : ℕ → Memory → Tokenizer → Option (List ℕ)
str fuel m t = if t.quoted then unquote fuel m t.s t.len 0 0 [] else some (bytes_at m t.s t.len)

pub type_name : Kind → String
type_name normal = "TYPE_NORMAL"
type_name redirect_op = "TYPE_REDIRECT_OP"
type_name sequence = "TYPE_SEQUENCE"
type_name eol = "TYPE_EOL"
type_name background = "TYPE_BACKGROUND"
type_name and = "TYPE_AND"
type_name or = "TYPE_OR"
type_name pipe = "TYPE_PIPE"
type_name lparen = "TYPE_LPAREN"
type_name rparen = "TYPE_RPAREN"
type_name other = "TYPE_OTHER"

-- The loop of `run_line`: `c->args` from the token `tok` on, for a region that ends at `stop`.
unfoldable pub push_args : ℕ → ℕ → Memory → ℕ → Tokenizer → List (List ℕ) → Option (List (List ℕ))
push_args zero fuel m stop tok args = none
push_args (suc n) fuel m stop tok args = elim (tok.s == stop) [
  | true ↦ some args
  | false ↦ (do word ← str fuel m tok; push_args n fuel m stop (advance m tok) (args ++ word ∷ []))
]
