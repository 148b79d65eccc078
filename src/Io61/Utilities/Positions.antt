-- ===== src/Io61/Utilities/Positions.antt =====
-- What stridecat61 has still to copy at a position of its input.
use native.Mathlib.Nat.{add-mod_right, mod-eq_of_lt}
use cs61_f26_psets.Common.{
  ℕ, zero, suc, ◌+◌, ◌%◌, ◌≤◌, ◌<◌, ◌≡◌, ◌⊎◌, inl, inr, refl, sym, ap, ◌∙◌, List, [], ◌∷◌, ◌++◌,
  arith, length, drop, get_or, ltb, Bool-cases,
}
use cs61_f26_psets.Io61.Utilities.Columns.{
  columns, columns-beyond, every, every-beyond, every-drop, every-next,
}

module _ (stride : ℕ) (contents : List ℕ) where
  -- What is still to come at the position `i`, with `n` columns behind that of `i`.
  abbrev pub to_come : ℕ → ℕ → List ℕ
  to_come n i = every stride 0 (drop i contents) ++ columns stride n (suc (i % stride)) contents

  pub to_come-within :
      (n i i' : ℕ)
      → 0 < stride
      → i < length contents
      → i' ≡ i + stride
      → to_come n i ≡ get_or contents i 0 ∷ to_come n i'
  to_come-within n i i' some_stride lt e =
      let later = columns stride n (suc (i % stride)) contents in
      let column : (i + stride) % stride ≡ i % stride = add-mod_right i stride in
      ap (λ l. l ++ later) (every-next stride i contents some_stride (omega arith))
      ∙ ap
          (λ r.
            get_or contents i 0
            ∷ (every stride 0 (drop (i + stride) contents) ++ columns stride n (suc r) contents))
          (sym column)
      ∙ ap (λ j. get_or contents i 0 ∷ to_come n j) (sym e)

  pub to_come-over :
      (n i : ℕ)
      → 0 < stride
      → i < length contents
      → length contents ≤ i + stride
      → to_come n i ≡ get_or contents i 0 ∷ columns stride n (suc (i % stride)) contents
  to_come-over n i some_stride lt over =
      let later = columns stride n (suc (i % stride)) contents in
      ap (λ l. l ++ later) (every-next stride i contents some_stride (omega arith))
      ∙ ap (λ l. get_or contents i 0 ∷ (l ++ later))
          (sym (every-drop stride (i + stride) contents)
            ∙ every-beyond stride (i + stride) contents (omega arith))

  pub to_come-top : (n i : ℕ) → i < stride → columns stride (suc n) i contents ≡ to_come n i
  to_come-top n i lt =
      let same : i % stride ≡ i = mod-eq_of_lt lt in
      ap (λ l. l ++ columns stride n (suc i) contents) (every-drop stride i contents)
      ∙ ap (λ c. every stride 0 (drop i contents) ++ columns stride n (suc c) contents) (sym same)

  -- The top of the next column.
  pub next_column :
      (n i i' : ℕ)
      → i' ≡ i % stride + 1
      → suc (i % stride) + n ≡ stride
      → (columns stride n (suc (i % stride)) contents ≡ [])
        ⊎ ((n' : ℕ) × (columns stride n (suc (i % stride)) contents ≡ to_come n' i')
            × (suc (i' % stride) + n' ≡ stride)
            × (i' < length contents))
  next_column zero i i' e left = inl refl
  next_column (suc n) i i' e left = elim (Bool-cases (ltb i' (length contents))) [
    | inr outside ↦
        inl (columns-beyond stride (suc n) (suc (i % stride)) contents (ground (arith, outside, e)))
    | inl inside ↦
        let same : i' % stride ≡ i' = mod-eq_of_lt (omega (arith, e, left)) in
        inr (
          n,
          ap (λ j. columns stride (suc n) j contents) {x = suc (i % stride)} {y = i'}
                (omega (arith, e))
              ∙ to_come-top n i' (omega (arith, e, left)),
          omega (arith, same, e, left),
          ground (arith, inside),
        )
  ]
