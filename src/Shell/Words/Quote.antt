-- ===== src/Shell/Words/Quote.antt =====
-- Quoting a word: the tokenizer and `str` undo single quotes round any bytes but single quotes.
use cs61_f26_psets.Common.{
  ℕ, zero, suc, ◌+◌, ◌-◌, ◌^◌, ◌<◌, ◌≡◌, ◌≢◌, refl, Bool, true, false, some, List, [], ◌∷◌, ◌++◌,
  append-nil, append_assoc, arith, length, All, ap, ◌∙◌, subst,
}
use cs61_f26_psets.Common.Memory.{Memory, Holds, start}
use cs61_f26_psets.Shell.Tokenizer.{
  normal, eol, Tokenizer, is_space, is_digit, isshellspecial, skip_blank, skip_shell_space,
  skip_digits, read_word, opens, escapes, in_word, token_at, tokenize,
}
use cs61_f26_psets.Shell.Tokenizer.Bounds.{advance_token}
use cs61_f26_psets.Shell.Words.{next_pos, unquote, str}

-- The bytes between single quotes.
abbrev pub IsPlain : List ℕ → Type 0
IsPlain = All (λ c. c ≢ b'\'')

-- `xs` between single quotes.
abbrev pub single_quoted : List ℕ → List ℕ
single_quoted xs = b'\'' ∷ (xs ++ b'\'' ∷ [])

read_word_end :
    (m : Memory) (left p end q : ℕ) (quoted : Bool)
    → p ≡ end
    → read_word m left p end q quoted ≡ (end, quoted)
unfolding read_word
read_word_end m zero p end q quoted e = ground arith
read_word_end m (suc left) p end q quoted e = ground arith

read_word_quoted :
    (m : Memory) (left p end : ℕ) (xs : List ℕ)
    → Holds m p (xs ++ b'\'' ∷ [])
    → IsPlain xs
    → end ≡ p + length xs + 1
    → length xs < left
    → read_word m left p end b'\'' true ≡ (end, true)
unfolding read_word in_word opens escapes
read_word_quoted m zero p end xs h plain e lt = elim lt [ ]
read_word_quoted m (suc left) p end [] (h, u) plain e lt =
    ground (arith, read_word_end m left (p + 1) end 0 true)
read_word_quoted m (suc left) p end (x ∷ xs) (h, t) (ne, plain) e lt =
    ground (arith, read_word_quoted m left (p + 1) end xs t plain)

skip_blank_stay : (m : Memory) (left s : ℕ) → m s ≡ b'\'' → skip_blank m left s ≡ s
unfolding skip_blank is_space
skip_blank_stay m zero s h = refl
skip_blank_stay m (suc left) s h = ground arith

skip_shell_space_stay : (m : Memory) (s end : ℕ) → m s ≡ b'\'' → skip_shell_space m s end ≡ s
unfolding skip_shell_space
skip_shell_space_stay m s end h = ground (arith, skip_blank_stay m (end - s) s)

skip_digits_stay : (m : Memory) (left s : ℕ) → m s ≡ b'\'' → skip_digits m left s ≡ s
unfolding skip_digits is_digit
skip_digits_stay m zero s h = refl
skip_digits_stay m (suc left) s h = ground arith

-- A word that starts with a single quote.
read_word_open :
    (m : Memory) (left p end : ℕ)
    → p < end
    → m p ≡ b'\''
    → read_word m (suc left) p end 0 false ≡ read_word m left (p + 1) end b'\'' true
unfolding read_word in_word opens is_space isshellspecial
read_word_open m left p end lt h = ground arith

token_at_quote :
    (m : Memory) (s end left : ℕ)
    → s < end
    → m s ≡ b'\''
    → end - s ≡ left
    → token_at m s s end ≡ (
        let (q, quoted) = read_word m left s end 0 false in
        record { s = s; end = end; type = normal; quoted = quoted; len = q - s })
unfolding token_at isshellspecial
token_at_quote m s end left lt h e = rw e (ground arith)

abbrev quoted_token : ℕ → ℕ → ℕ → Tokenizer
quoted_token a e n = record { s = a; end = e; type = normal; quoted = true; len = n }

-- The text is one token, whose quotes the loop of `read_word` opens and closes.
pub tokenize-single_quoted :
    (m : Memory) (a e : ℕ) (xs : List ℕ)
    → Holds m a (single_quoted xs)
    → IsPlain xs
    → e ≡ a + length xs + 2
    → tokenize m a e ≡ record { s = a; end = e; type = normal; quoted = true; len = length xs + 2 }
unfolding tokenize
tokenize-single_quoted m a e xs (h, t) plain at =
    advance_token m (record { s = a; end = e; type = eol; quoted = false; len = 0 }) a
      (skip_shell_space_stay m (a + 0) e (start m a ∙ h) ∙ omega arith) (omega arith)
    ∙ rw
        (
          skip_digits_stay m (e - a) a h,
          token_at_quote m a e (suc (length xs + 1)) (omega arith) h (omega arith),
          read_word_open m (length xs + 1) a e (omega arith) h,
          read_word_quoted m (length xs + 1) (a + 1) e xs t plain (omega arith) (omega arith),
        )
        (ap (quoted_token a e) (omega arith))

-- One round of the loop of `str`: at the end, at a closing quote, and between single quotes.
module _ (fuel : ℕ) (m : Memory) (s len pos : ℕ) (out : List ℕ) where
  unquote_done : (q : ℕ) → pos ≡ len → unquote (suc fuel) m s len pos q out ≡ some out
  unfolding unquote
  unquote_done q e = ground arith

  unquote_open :
      pos ≢ len
      → m (s + pos) ≡ b'\''
      → unquote (suc fuel) m s len pos 0 out ≡ unquote fuel m s len (next_pos pos) b'\'' out
  unfolding unquote opens
  unquote_open ne e = ground (arith, e)

  unquote_close :
      pos ≢ len
      → m (s + pos) ≡ b'\''
      → unquote (suc fuel) m s len pos b'\'' out ≡ unquote fuel m s len (next_pos pos) 0 out
  unfolding unquote opens
  unquote_close ne e = ground arith

  unquote_byte :
      (c : ℕ)
      → pos ≢ len
      → m (s + pos) ≡ c
      → c ≢ b'\''
      → unquote (suc fuel) m s len pos b'\'' out
        ≡ unquote fuel m s len (next_pos pos) b'\'' (out ++ c ∷ [])
  unfolding unquote opens
  unquote_byte c ne e other_byte = ground arith

next_pos-eq : (pos : ℕ) → pos + 1 < 2 ^ 32 → next_pos pos ≡ pos + 1
next_pos-eq pos lt = omega arith

unquote_inside :
    (fuel : ℕ) (m : Memory) (s len pos : ℕ) (xs out : List ℕ)
    → Holds m (s + pos) (xs ++ b'\'' ∷ [])
    → IsPlain xs
    → len ≡ pos + length xs + 1
    → len < 2 ^ 32
    → length xs + 1 < fuel
    → unquote fuel m s len pos b'\'' out ≡ some (out ++ xs)
unquote_inside zero m s len pos xs out h plain e small lt = elim lt [ ]
unquote_inside (suc zero) m s len pos xs out h plain e small lt = absurd (omega arith)
unquote_inside (suc (suc fuel)) m s len pos [] out (h, u) plain e small lt =
    unquote_close (suc fuel) m s len pos out (omega arith) h
    ∙ rw (append-nil out) (unquote_done fuel m s len (next_pos pos) out 0 (omega arith))
unquote_inside (suc (suc fuel)) m s len pos (x ∷ xs) out (h, t) (ne, plain) e small lt =
    let next = next_pos-eq pos (omega arith) in
    unquote_byte (suc fuel) m s len pos out x (omega arith) h ne
    ∙ unquote_inside (suc fuel) m s len (next_pos pos) xs (out ++ x ∷ [])
        (subst (λ p. Holds m p (xs ++ b'\'' ∷ [])) (omega arith) t) plain (omega arith) small
        (omega arith)
    ∙ ap (λ (l : List ℕ). some l) (append_assoc out (x ∷ []) xs)

unquote_all :
    (fuel : ℕ) (m : Memory) (a : ℕ) (xs : List ℕ)
    → Holds m a (single_quoted xs)
    → IsPlain xs
    → length xs + 2 < 2 ^ 32
    → length xs + 2 < fuel
    → unquote fuel m a (length xs + 2) 0 0 [] ≡ some xs
unquote_all zero m a xs h plain small lt = elim lt [ ]
unquote_all (suc fuel) m a xs (h, t) plain small lt =
    unquote_open fuel m a (length xs + 2) 0 [] (omega arith) (start m a ∙ h)
    ∙ unquote_inside fuel m a (length xs + 2) 1 xs [] t plain (omega arith) small (omega arith)

-- Quoting round trip: single quotes round any bytes but single quotes make one ordinary token, and
-- `str`, with fuel above its length, gives back exactly those bytes.
pub str-single_quoted :
    (fuel : ℕ) (m : Memory) (a e : ℕ) (xs : List ℕ)
    → Holds m a (single_quoted xs)
    → IsPlain xs
    → e ≡ a + length xs + 2
    → length xs + 2 < 2 ^ 32
    → length xs + 2 < fuel
    → let t = tokenize m a e in (t.type ≡ normal) × (t.s + t.len ≡ e) × (str fuel m t ≡ some xs)
str-single_quoted fuel m a e xs h plain at small lt =
    rw (tokenize-single_quoted m a e xs h plain at)
      (refl, omega arith, unfold str in unquote_all fuel m a xs h plain small lt)
