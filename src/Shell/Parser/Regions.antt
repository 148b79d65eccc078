-- ===== src/Shell/Parser/Regions.antt =====
-- The loops over tokens end, and the regions that they yield are parts of the text, in order.
use native.Mathlib.Decide.{ℕ_discrete}
use cs61_f26_psets.Common.{
  ap, ℕ, zero, suc, ◌+◌, ◌-◌, ◌≤◌, ◌<◌, ◌≡◌, ◌≢◌, ◌⊎◌, inl, inr, refl, true, false, not, ◌&&◌, some,
  arith, Bool-cases, ◌∙◌, sym,
}
use cs61_f26_psets.Common.Memory.{Memory}
use cs61_f26_psets.Shell.Tokenizer.{Kind, eol, Tokenizer, is_space, advance, tokenize}
use cs61_f26_psets.Shell.Tokenizer.Bounds.{AdvancesTo, advance_lem, skip_shell_space_bounds}
use cs61_f26_psets.Shell.Parser.Delimiters.{
  Delimits, Passes, goes_on, goes_on_lem, no_operator_lem, operator_lem, stops_at, stops_lem,
}
use cs61_f26_psets.Shell.Parser.{
  Parser, Mask, in_mask, nonnegative, parser, skip_tokens, trim, first_delimited, region_from,
  next_delimited,
}

trim_bounds : (m : Memory) (n p s : ℕ) → n ≤ p - s → s ≤ p → (s ≤ trim m n p) × (trim m n p ≤ p)
unfolding trim
trim_bounds m zero p s room le = omega arith
trim_bounds m (suc n) p s room le = ground (arith, trim_bounds m n (p - 1) s)

-- The trimmed region is empty or does not end in a space.
trim_stop :
    (m : Memory) (n p s : ℕ)
    → p ≡ s + n
    → (trim m n p ≡ s) ⊎ (is_space (m (trim m n p - 1)) ≡ false)
unfolding trim
trim_stop m zero p s e = inl (omega arith)
trim_stop m (suc n) p s e = ground (arith, trim_stop m n (p - 1) s)

-- The bytes that are trimmed are spaces.
trim_spaces :
    (m : Memory) (n p s i : ℕ) → p ≡ s + n → trim m n p ≤ i → i < p → is_space (m i) ≡ true
unfolding trim
trim_spaces m zero p s i e lo hi = absurd (omega (arith, lo, hi))
trim_spaces m (suc n) p s i e lo hi = elim (Bool-cases (is_space (m (p - 1)))) [
  | inr text ↦
      let same : trim m (suc n) p ≡ p = rw (trim, text) refl in absurd (omega (arith, lo, hi, same))
  | inl space ↦
      let same : trim m (suc n) p ≡ trim m n (p - 1) = rw (trim, space) refl in
      elim (ℕ_discrete i (p - 1)) [
        | yes at ↦ ap (λ a. is_space (m a)) at ∙ space
        | no ne ↦
            trim_spaces m n (p - 1) s i (omega (arith, e)) (omega (arith, lo, same))
              (omega (arith, ne, hi))
      ]
]

in_mask-eol : (fl : Mask) → in_mask fl eol ≡ true
unfolding in_mask
in_mask-eol fl = ground arith

more-ne-eol : (fl : Mask) (k : Kind) → (nonnegative k && not (in_mask fl k)) ≡ true → k ≢ eol
unfolding in_mask
more-ne-eol fl k h = ground arith

-- A tokenizer inside its text whose token is not empty but at the end of the line.
abbrev pub IsReady : Tokenizer → Type 0
IsReady it = (it.s + it.len ≤ it.end) × (it.type ≢ eol → 0 < it.len)

AdvancesTo-IsReady : (m : Memory) (t u : Tokenizer) → AdvancesTo m t u → IsReady u
AdvancesTo-IsReady m t u (same, behind, inside, inl (e, at, zero_len)) =
    (inside, λ ne. absurd (ne e))
AdvancesTo-IsReady m t u (same, behind, inside, inr (token, start)) =
    (inside, λ ne. token.some_bytes)

tokenize-IsReady :
    (m : Memory) (first last : ℕ)
    → first ≤ last
    → let t = tokenize m first last in IsReady t × (t.end ≡ last) × (first ≤ t.s)
unfolding tokenize
tokenize-IsReady m first last le =
    let t : Tokenizer = record { s = first; end = last; type = eol; quoted = false; len = 0 } in
    let next = advance_lem m t (omega arith) in
    (AdvancesTo-IsReady m t (advance m t) next, next.0, omega (arith, next.1))

-- Each round of the loop moves the tokenizer, so the bytes that are left bound its rounds.
skip_tokens_ends :
    (fuel : ℕ) (m : Memory) (fl : Mask) (it : Tokenizer)
    → IsReady it
    → it.end - it.s < fuel
    → (r : Tokenizer) × (skip_tokens fuel m fl it ≡ some r)
      × (r.end ≡ it.end)
      × (it.s ≤ r.s)
      × (r.s ≤ r.end)
      × Passes m fl it r
unfolding skip_tokens
skip_tokens_ends zero m fl it ready lt = elim lt [ ]
skip_tokens_ends (suc fuel) m fl it (inside, moves) lt =
    elim (Bool-cases (nonnegative it.type && not (in_mask fl it.type))) [
      | inr stop ↦ (
        it,
        rw (stop, skip_tokens),
        refl,
        omega arith,
        omega arith,
        stops_at it (stops_lem fl it.type stop),
      )
      | inl more ↦
          let next = advance_lem m it inside in
          let moved = moves (more-ne-eol fl it.type more) in
          let (r, run, same, behind, within, stop) =
            skip_tokens_ends fuel m fl (advance m it) (AdvancesTo-IsReady m it (advance m it) next)
              (omega (arith, next, moved)) in
          let (named, no_delimiter) = goes_on_lem fl it.type more in
          (
            r,
            rw (more, skip_tokens) run,
            same ∙ next.0,
            omega (arith, next.1),
            within,
            goes_on it r named no_delimiter stop,
          )
    ]

-- From a region inside the text, with fuel above its size, first_delimited finds a region that
-- starts in the old one, ends no later, and is a part of the old one's text.
pub first_delimited_lem :
    (fuel : ℕ) (m : Memory) (fl : Mask) (p : Parser)
    → p.s ≤ p.stop
    → p.stop - p.s < fuel
    → (r : Parser) × (first_delimited fuel m fl p ≡ some r)
      × (r.end ≡ p.stop)
      × (p.s ≤ r.s)
      × (r.s ≤ r.stop)
      × (r.stop ≤ p.stop)
      × ((r.stop ≡ p.s) ⊎ (is_space (m (r.stop - 1)) ≡ false))
unfolding first_delimited parser
first_delimited_lem fuel m fl p le lt =
    let (ready, same, behind) = tokenize-IsReady m p.s p.stop le in
    let (it, run, end, moved, within, stop) =
      skip_tokens_ends fuel m fl (tokenize m p.s p.stop) ready
        (omega (arith, ready, same, behind)) in
    let far : p.s ≤ it.s = omega arith in
    let (lo, hi) = trim_bounds m (it.s - p.s) it.s p.s (omega arith) far in
    let region = trim m (it.s - p.s) it.s in
    let skipped = skip_shell_space_bounds m p.s region lo in
    (
      parser m p.s region p.stop,
      rw run,
      refl,
      skipped.0,
      skipped.1,
      omega (arith, hi, within, end, same),
      trim_stop m (it.s - p.s) it.s p.s (omega arith),
    )

-- The region from the token `it` to the token `it'`, without the spaces before the latter.
abbrev pub RegionAt : Memory → Mask → Tokenizer → Tokenizer → Parser → Type 0
RegionAt m fl it it' r =
    Passes m fl it it'
    × (r.s ≡ it.s)
    × (r.end ≡ it.end)
    × (r.s ≤ r.stop)
    × (r.stop ≤ it'.s)
    × (it'.s ≤ r.end)
    × ((i : ℕ) → r.stop ≤ i → i < it'.s → is_space (m i) ≡ true)
    × ((r.stop ≡ r.s) ⊎ (is_space (m (r.stop - 1)) ≡ false))

region_from_lem :
    (fuel : ℕ) (m : Memory) (fl : Mask) (end : ℕ) (it : Tokenizer)
    → it.end ≡ end
    → IsReady it
    → it.end - it.s < fuel
    → (r : Parser) × (it' : Tokenizer) × (region_from fuel m fl end it ≡ some r)
      × RegionAt m fl it it' r
unfolding region_from
region_from_lem fuel m fl end it same ready lt =
    let (it', run, at_end, moved, within, stop) = skip_tokens_ends fuel m fl it ready lt in
    let (lo, hi) = trim_bounds m (it'.s - it.s) it'.s it.s (omega arith) moved in
    (
      record { s = it.s; stop = trim m (it'.s - it.s) it'.s; end = end },
      it',
      rw run,
      (
        stop,
        refl,
        sym same,
        lo,
        hi,
        omega (arith, same, at_end, within),
        λ i from below. trim_spaces m (it'.s - it.s) it'.s it.s i (omega (arith, moved)) from below,
        trim_stop m (it'.s - it.s) it'.s it.s (omega arith),
      ),
    )

-- Where the next region starts: behind the operator that delimits the old one, or at the token
-- behind it if that is no such operator.
abbrev pub StartsAt : Memory → Mask → Parser → Tokenizer → Type 0
StartsAt m fl p it =
    let t = tokenize m p.stop p.end in
    (Delimits fl t.type × (it ≡ advance m t)) ⊎ ((Delimits fl t.type → ⊥) × (it ≡ t))

-- From a region inside the text, with fuel above the bytes behind it, next_delimited finds the next
-- region: it starts at the token behind the operator that delimits the old one, if there is one,
-- and else at the token behind the old region, and goes up to the first token that delimits, or
-- that is no part of a command line, without the spaces before that token. It lies behind the old
-- region and inside the text.
pub next_delimited_lem :
    (fuel : ℕ) (m : Memory) (fl : Mask) (p : Parser)
    → p.stop ≤ p.end
    → p.end - p.stop < fuel
    → (r : Parser) × (it it' : Tokenizer) × (next_delimited fuel m fl p ≡ some r)
      × StartsAt m fl p it
      × RegionAt m fl it it' r
      × (r.end ≡ p.end)
      × (p.stop ≤ r.s)
unfolding next_delimited
next_delimited_lem fuel m fl p le lt =
    let t = tokenize m p.stop p.end in
    let (ready, same, behind) = tokenize-IsReady m p.stop p.end le in
    elim (Bool-cases (nonnegative t.type && in_mask fl t.type)) [
      | inr other_op ↦
          let (r, it', run, region) =
            region_from_lem fuel m fl p.end t same ready (omega (arith, behind, same)) in
          let (passes, at, end, lo, hi, within, spaces, trimmed) = region in
          (
            r,
            t,
            it',
            rw other_op run,
            inr (no_operator_lem fl t.type other_op, refl),
            region,
            end ∙ same,
            omega (arith, behind, at),
          )
      | inl op ↦
          let next = advance_lem m t ready.0 in
          let (r, it', run, region) =
            region_from_lem fuel m fl p.end (advance m t) (next.0 ∙ same)
              (AdvancesTo-IsReady m t (advance m t) next)
              (omega (arith, behind, same, next.0, next.1)) in
          let (passes, at, end, lo, hi, within, spaces, trimmed) = region in
          (
            r,
            advance m t,
            it',
            rw op run,
            inl (operator_lem fl t.type op, refl),
            region,
            end ∙ next.0 ∙ same,
            omega (arith, behind, at, next.1),
          )
    ]
