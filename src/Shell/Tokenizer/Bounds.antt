-- ===== src/Shell/Tokenizer/Bounds.antt =====
-- Every token lies inside the text, and the tokenizer makes progress.
use mathlib.Core.Path.{subst₂}
use native.Mathlib.Decide.{ℕ_discrete}
use cs61_f26_psets.Common.{
  ℕ, zero, suc, ◌+◌, ◌-◌, ◌≤◌, ◌<◌, ◌≡◌, ◌≢◌, ◌⊎◌, inl, inr, refl, Bool, true, false, not, ◌||◌,
  arith, ◌==◌, subst, sym,
}
use cs61_f26_psets.Common.Memory.{Memory}
use cs61_f26_psets.Shell.Tokenizer.{
  eol, other, Tokenizer, is_space, isshellspecial, skip_blank, skip_shell_space, skip_digits,
  read_word, escapes, in_word, redirect_end, operator_kind, token_at, advance, tokenize,
}

escapes_more : (c : ℕ) (more : Bool) (q : ℕ) → escapes c more q ≡ true → more ≡ true
unfolding escapes
escapes_more c more q h = ground arith

skip_blank_bounds :
    (m : Memory) (left s : ℕ) → (s ≤ skip_blank m left s) × (skip_blank m left s ≤ s + left)
unfolding skip_blank
skip_blank_bounds m zero s = omega arith
skip_blank_bounds m (suc left) s = ground (arith, skip_blank_bounds m left (s + 1))

-- The blanks end at the end of the text or at a byte that is no space.
skip_blank_stop :
    (m : Memory) (left s : ℕ)
    → (skip_blank m left s ≡ s + left) ⊎ (is_space (m (skip_blank m left s)) ≡ false)
unfolding skip_blank
skip_blank_stop m zero s = inl (omega arith)
skip_blank_stop m (suc left) s = ground (arith, skip_blank_stop m left (s + 1))

skip_digits_bounds :
    (m : Memory) (left s : ℕ) → (s ≤ skip_digits m left s) × (skip_digits m left s ≤ s + left)
unfolding skip_digits
skip_digits_bounds m zero s = omega arith
skip_digits_bounds m (suc left) s = ground (arith, skip_digits_bounds m left (s + 1))

-- Where a token may start: inside the text, at no space and at no comment.
abbrev pub IsStart : Memory → ℕ → ℕ → Type 0
IsStart m s end = (s < end) × (is_space (m s) ≡ false) × (m s ≢ b'#')

pub skip_shell_space_bounds :
    (m : Memory) (s end : ℕ)
    → s ≤ end
    → (s ≤ skip_shell_space m s end) × (skip_shell_space m s end ≤ end)
unfolding skip_shell_space
skip_shell_space_bounds m s end le = ground (arith, skip_blank_bounds m (end - s) s)

pub skip_shell_space-IsStart :
    (m : Memory) (s end : ℕ)
    → s ≤ end
    → skip_shell_space m s end ≢ end
    → IsStart m (skip_shell_space m s end) end
unfolding skip_shell_space
skip_shell_space-IsStart m s end le ne =
    ground (arith, skip_blank_bounds m (end - s) s, skip_blank_stop m (end - s) s)

read_word_bounds :
    (m : Memory) (left p end q : ℕ) (quoted : Bool)
    → p ≤ end
    → (p ≤ (read_word m left p end q quoted).0) × ((read_word m left p end q quoted).0 ≤ end)
unfolding read_word
read_word_bounds m zero p end q quoted le = omega arith
read_word_bounds m (suc left) p end q quoted le = ground (
  arith,
  escapes_more (m p) (not (p + 1 == end)) q,
  read_word_bounds m left (p + 1) end (m p) true,
  read_word_bounds m left (p + 1) end 0 quoted,
  read_word_bounds m left (p + 2) end q true,
  read_word_bounds m left (p + 1) end q quoted,
)

-- A word that starts outside quotes at a byte that is neither space nor special is not empty.
read_word_progress :
    (m : Memory) (left p end : ℕ)
    → 0 < left
    → p < end
    → is_space (m p) ≡ false
    → isshellspecial (m p) ≡ false
    → p < (read_word m left p end 0 false).0
unfolding read_word in_word
read_word_progress m zero p end room lt blank special = absurd (omega arith)
read_word_progress m (suc left) p end room lt blank special = ground (
  arith,
  escapes_more (m p) (not (p + 1 == end)) 0,
  read_word_bounds m left (p + 1) end (m p) true,
  read_word_bounds m left (p + 1) end 0 false,
  read_word_bounds m left (p + 2) end 0 true,
  read_word_bounds m left (p + 1) end 0 false,
)

redirect_end_bounds :
    (m : Memory) (p end : ℕ) → p < end → (p < redirect_end m p end) × (redirect_end m p end ≤ end)
unfolding redirect_end
redirect_end_bounds m p end lt = ground (arith, skip_digits_bounds m (end - (p + 1)) (p + 1))

-- A byte that is special but no `#` and no redirection is one of the operators.
operator_kind-ne-other :
    (c : ℕ)
    → isshellspecial c ≡ true
    → c ≢ b'#'
    → (c == b'<' || c == b'>') ≡ false
    → (operator_kind c ≢ other) × (operator_kind c ≢ eol)
unfolding isshellspecial operator_kind
operator_kind-ne-other c h hash red = ground arith

-- What every token but the end of the line satisfies.
pub record IsToken (t : Tokenizer) (s end : ℕ) : Type 0 where
  pub starts : t.s ≡ s
  pub ends : t.end ≡ end
  pub some_bytes : 0 < t.len
  pub inside : t.s + t.len ≤ t.end
  pub known : t.type ≢ other
  pub not_eol : t.type ≢ eol

token_at-IsToken :
    (m : Memory) (s p end : ℕ)
    → IsStart m s end
    → s ≤ p
    → p ≤ end
    → IsToken (token_at m s p end) s end
unfolding token_at
token_at-IsToken m s p end (lt, blank, hash) le le' = ground (
  arith,
  redirect_end_bounds m p end,
  operator_kind-ne-other (m p),
  read_word_bounds m (end - p) p end 0 false,
  read_word_progress m (end - p) p end,
)

-- What `++` yields: the end of the line at `_end`, or a token behind the previous one.
abbrev pub AdvancesTo : Memory → Tokenizer → Tokenizer → Type 0
AdvancesTo m t u =
    (u.end ≡ t.end)
    × (t.s + t.len ≤ u.s)
    × (u.s + u.len ≤ u.end)
    × ((u.type ≡ eol) × (u.s ≡ u.end) × (u.len ≡ 0) ⊎ IsToken u u.s u.end × IsStart m u.s u.end)

advance_eol :
    (m : Memory) (t : Tokenizer)
    → skip_shell_space m (t.s + t.len) t.end ≡ t.end
    → advance m t ≡ record { s = t.end; end = t.end; type = eol; quoted = false; len = 0 }
unfolding advance
advance_eol m t e = ground arith

pub advance_token :
    (m : Memory) (t : Tokenizer) (s : ℕ)
    → skip_shell_space m (t.s + t.len) t.end ≡ s
    → s ≢ t.end
    → advance m t ≡ token_at m s (skip_digits m (t.end - s) s) t.end
unfolding advance
advance_token m t s e ne = rw e (ground arith)

AdvancesTo-IsToken :
    (m : Memory) (t u : Tokenizer) (s : ℕ)
    → t.s + t.len ≤ s
    → IsStart m s t.end
    → IsToken u s t.end
    → AdvancesTo m t u
AdvancesTo-IsToken m t u s lo start token = (
  token.ends,
  omega (arith, token.starts, lo),
  token.inside,
  inr (
    record {
      starts = refl;
      ends = refl;
      some_bytes = token.some_bytes;
      inside = token.inside;
      known = token.known;
      not_eol = token.not_eol;
    },
    subst₂ (IsStart m) (sym token.starts) (sym token.ends) start,
  ),
)

-- From a token inside the text `++` reaches either the end of the line, at `_end`, or a non-empty
-- token that lies inside the text behind the previous one, starts at no space and no comment, and
-- whose type is never TYPE_OTHER.
pub advance_lem : (m : Memory) (t : Tokenizer) → t.s + t.len ≤ t.end → AdvancesTo m t (advance m t)
advance_lem m t inside =
    let s = skip_shell_space m (t.s + t.len) t.end in
    let (lo, hi) = skip_shell_space_bounds m (t.s + t.len) t.end inside in
    elim (ℕ_discrete s t.end) [
      | yes e ↦
          subst (AdvancesTo m t) (sym (advance_eol m t e))
            (refl, inside, omega arith, inl (refl, refl, refl))
      | no ne ↦
          let start = skip_shell_space-IsStart m (t.s + t.len) t.end inside ne in
          let digits = skip_digits_bounds m (t.end - s) s in
          subst (AdvancesTo m t) (sym (advance_token m t s refl ne)) (
            AdvancesTo-IsToken m t (token_at m s (skip_digits m (t.end - s) s) t.end) s lo start (
              token_at-IsToken m s (skip_digits m (t.end - s) s) t.end start digits.0
                (omega arith)))
    ]

-- The first token of a text, in the same words.
pub tokenize_lem :
    (m : Memory) (first last : ℕ)
    → first ≤ last
    → let t = tokenize m first last in
      (t.end ≡ last)
      × (first ≤ t.s)
      × (t.s + t.len ≤ last)
      × ((t.type ≡ eol) × (t.s ≡ last) × (t.len ≡ 0)
          ⊎ (0 < t.len) × (t.type ≢ other) × (t.type ≢ eol))
unfolding tokenize
tokenize_lem m first last le = ground (
  arith,
  advance_lem m (record { s = first; end = last; type = eol; quoted = false; len = 0 })
      (omega arith),
)
