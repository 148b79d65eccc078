-- ===== src/Shell/Tokenizer.antt =====
-- pset4/helpers.cc: shell_tokenizer. A loop `while (p != _end ...)` is bounded by the bytes left,
-- `_end - p`, which is enough because each round moves `p` forward.
pub mod Bounds
use cs61_f26_psets.Common.{
  ℕ, zero, suc, ◌+◌, ◌-◌, Bool, true, false, not, ◌&&◌, ◌||◌, ltb, leb, ◌==◌, if◌then◌else◌,
}
use cs61_f26_psets.Common.Memory.{Memory}

-- The TYPE_ constants.
pub data Kind : Type 0 where
  normal redirect_op sequence eol background pipe and or lparen rparen other : Kind

pub record Tokenizer : Type 0 where
  pub s : ℕ
  pub end : ℕ
  pub type : Kind
  pub quoted : Bool
  pub len : ℕ

-- `isspace` and `isdigit` of <cctype> in the C locale.
unfoldable pub is_space : ℕ → Bool
is_space c = (leb b'\t' c && leb c b'\r') || c == b' '

unfoldable pub is_digit : ℕ → Bool
is_digit c = leb b'0' c && leb c b'9'

unfoldable pub isshellspecial : ℕ → Bool
isshellspecial ch =
    ch == b'<'
    || (ch == b'>'
        || (ch == b'&'
            || (ch == b'|' || (ch == b';' || (ch == b'(' || (ch == b')' || ch == b'#'))))))

-- `while (s != end && isspace(*s)) { ++s; }`
unfoldable pub skip_blank : Memory → ℕ → ℕ → ℕ
skip_blank m zero s = s
skip_blank m (suc left) s = elim (is_space (m s)) [ true ↦ skip_blank m left (s + 1) | false ↦ s ]

unfoldable pub skip_shell_space : Memory → ℕ → ℕ → ℕ
skip_shell_space m s end =
    let s' = skip_blank m (end - s) s in if not (s' == end) && m s' == b'#' then end else s'

unfoldable pub skip_digits : Memory → ℕ → ℕ → ℕ
skip_digits m zero p = p
skip_digits m (suc left) p = elim (is_digit (m p)) [ true ↦ skip_digits m left (p + 1) | false ↦ p ]

-- `(*p == '"' || *p == '\'') && !curquote`
unfoldable pub opens : ℕ → ℕ → Bool
opens c curquote = (c == b'"' || c == b'\'') && curquote == 0

-- `*p == '\\' && p + 1 != _end && curquote != '\''`
unfoldable pub escapes : ℕ → Bool → ℕ → Bool
escapes c more curquote = c == b'\\' && (more && not (curquote == b'\''))

-- Whether the loop over an ordinary word goes on at a byte.
unfoldable pub in_word : ℕ → ℕ → Bool
in_word c curquote = not (curquote == 0) || (not (is_space c) && not (isshellspecial c))

-- The loop over an ordinary word: where it ends, and `_quoted`.
unfoldable pub read_word : Memory → ℕ → ℕ → ℕ → ℕ → Bool → ℕ × Bool
read_word m zero p end curquote quoted = (p, quoted)
read_word m (suc left) p end curquote quoted = elim (not (p == end) && in_word (m p) curquote) [
  | false ↦ (p, quoted)
  | true ↦ elim (opens (m p) curquote) [
    | true ↦ read_word m left (p + 1) end (m p) true
    | false ↦ elim (m p == curquote) [
      | true ↦ read_word m left (p + 1) end 0 quoted
      | false ↦ elim (escapes (m p) (not (p + 1 == end)) curquote) [
        | true ↦ read_word m left (p + 2) end curquote true
        | false ↦ read_word m left (p + 1) end curquote quoted
      ]
    ]
  ]
]

-- The type of a one-character operator.
unfoldable pub operator_kind : ℕ → Kind
operator_kind c =
    if c == b';'
    then sequence
    else if c == b'&'
    then background
    else if c == b'|'
    then pipe
    else if c == b'('
    then lparen
    else if c == b')'
    then rparen
    else other

-- The end of a redirection operator whose `<` or `>` stands at `p`.
unfoldable pub redirect_end : Memory → ℕ → ℕ → ℕ
redirect_end m p end =
    if not (p + 1 == end) && m (p + 1) == b'>' then p + 2 else skip_digits m (end - (p + 1)) (p + 1)

-- The token that starts at `s`, where digits lead up to `p`.
unfoldable pub token_at : Memory → ℕ → ℕ → ℕ → Tokenizer
token_at m s p end =
    if not (p == end) && (m p == b'<' || m p == b'>')
    then record {
      s = s;
      end = end;
      type = redirect_op;
      quoted = false;
      len = redirect_end m p end - s;
    }
    else if p == s && ((m p == b'&' || m p == b'|') && (not (p + 1 == end) && m (p + 1) == m p))
    then record {
      s = s;
      end = end;
      type = if m p == b'&' then and else or;
      quoted = false;
      len = p + 2 - s;
    }
    else if p == s && isshellspecial (m p)
    then record { s = s; end = end; type = operator_kind (m p); quoted = false; len = p + 1 - s }
    else let (q, quoted) = read_word m (end - p) p end 0 false in
      record { s = s; end = end; type = normal; quoted = quoted; len = q - s }

-- `operator++`
unfoldable pub advance : Memory → Tokenizer → Tokenizer
advance m t =
    let s = skip_shell_space m (t.s + t.len) t.end in
    if s == t.end
    then record { s = s; end = t.end; type = eol; quoted = false; len = 0 }
    else token_at m s (skip_digits m (t.end - s) s) t.end

-- `shell_tokenizer(first, last)`
unfoldable pub tokenize : Memory → ℕ → ℕ → Tokenizer
tokenize m first last =
    advance m (record { s = first; end = last; type = eol; quoted = false; len = 0 })
