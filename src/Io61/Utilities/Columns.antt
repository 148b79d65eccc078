-- ===== src/Io61/Utilities/Columns.antt =====
-- The order in which stridecat61.cc is to read the bytes of a file: those at 0, stride, 2 * stride and
-- so on, then those at 1, stride + 1, and so on.
use mathlib.Core.List.Permᴰ
use mathlib.Core.List.{Permᴰ}
use cs61_f26_psets.Common.{
  ℕ, zero, suc, ◌+◌, ◌-◌, ◌≤◌, ◌<◌, ◌≡◌, refl, sym, ap, subst, ◌∙◌, List, [], ◌∷◌, ◌++◌, append-nil,
  append_assoc, arith, length, drop, get_or,
}

module _ {ℓ} {A : Type ℓ} (stride : ℕ) where
  -- The elements at skip, skip + stride, skip + 2 * stride and so on.
  abbrev pub every : ℕ → List A → List A
  every skip [] = []
  every zero (x ∷ l) = x ∷ every (stride - 1) l
  every (suc skip) (x ∷ l) = every skip l

  -- Those from `c`, from `c + 1` and so on, `n` times.
  abbrev pub columns : ℕ → ℕ → List A → List A
  columns zero c l = []
  columns (suc n) c l = every c l ++ columns n (suc c) l

  pub every-drop : (c : ℕ) (l : List A) → every c l ≡ every 0 (drop c l)
  every-drop zero l = refl
  every-drop (suc c) [] = refl
  every-drop (suc c) (x ∷ l) = every-drop c l

  pub every-beyond : (c : ℕ) (l : List A) → length l ≤ c → every c l ≡ []
  every-beyond c [] le = refl
  every-beyond zero (x ∷ l) le = absurd (omega (arith, le))
  every-beyond (suc c) (x ∷ l) le = every-beyond c l (omega (arith, le))

  pub columns-beyond : (n c : ℕ) (l : List A) → length l ≤ c → columns n c l ≡ []
  columns-beyond zero c l le = refl
  columns-beyond (suc n) c l le =
      ap (λ r. r ++ columns n (suc c) l) (every-beyond c l le)
      ∙ columns-beyond n (suc c) l (omega (arith, le))

  columns-cons : (n c : ℕ) (x : A) (l : List A) → columns n (suc c) (x ∷ l) ≡ columns n c l
  columns-cons zero c x l = refl
  columns-cons (suc n) c x l = ap (λ r. every c l ++ r) (columns-cons n (suc c) x l)

  columns-snoc : (n c : ℕ) (l : List A) → columns (suc n) c l ≡ columns n c l ++ every (c + n) l
  columns-snoc zero c l =
      append-nil (every c l) ∙ ap (λ i. every i l) {x = c} {y = c + 0} (omega arith)
  columns-snoc (suc n) c l =
      ap (λ r. every c l ++ r)
        (columns-snoc n (suc c) l
          ∙ ap (λ i. columns n (suc c) l ++ every i l) {x = suc c + n} {y = c + suc n}
              (omega arith))
      ∙ sym (append_assoc (every c l) (columns n (suc c) l) (every (c + suc n) l))

drop-nil {ℓ} : {A : Type ℓ} (n : ℕ) → drop {A = A} n [] ≡ []
drop-nil zero = refl
drop-nil (suc n) = refl

drop-drop {ℓ} : {A : Type ℓ} (m n : ℕ) (l : List A) → drop n (drop m l) ≡ drop (m + n) l
drop-drop zero n l = ap (λ i. drop i l) {x = n} {y = 0 + n} (omega arith)
drop-drop (suc m) n [] = drop-nil n ∙ sym (drop-nil (suc m + n))
drop-drop (suc m) n (x ∷ l) =
    drop-drop m n l ∙ ap (λ i. drop i (x ∷ l)) {x = suc (m + n)} {y = suc m + n} (omega arith)

pub drop-next : (n : ℕ) (l : List ℕ) → n < length l → drop n l ≡ get_or l n 0 ∷ drop (suc n) l
drop-next n [] lt = absurd (omega (arith, lt))
drop-next zero (x ∷ l) lt = refl
drop-next (suc n) (x ∷ l) lt = drop-next n l (omega (arith, lt))

-- The column that goes on at `i`.
pub every-next :
    (stride i : ℕ) (l : List ℕ)
    → 0 < stride
    → i < length l
    → every stride 0 (drop i l) ≡ get_or l i 0 ∷ every stride 0 (drop (i + stride) l)
every-next stride i l some_stride lt =
    ap (every stride 0) (drop-next i l lt)
    ∙ ap (λ r. get_or l i 0 ∷ r)
        (every-drop stride (stride - 1) (drop (suc i) l)
          ∙ ap (every stride 0) (
              drop-drop (suc i) (stride - 1) l
              ∙ ap (λ j. drop j l) {x = suc i + (stride - 1)} {y = i + stride} (omega arith)))

columns-nil {ℓ} : {A : Type ℓ} (stride n c : ℕ) → columns {A = A} stride n c [] ≡ []
columns-nil stride zero c = refl
columns-nil stride (suc n) c = columns-nil stride n (suc c)

columns-Permᴰ_suc {ℓ} : {A : Type ℓ} (m : ℕ) (l : List A) → Permᴰ (columns (suc m) (suc m) 0 l) l
columns-Permᴰ_suc m [] = subst (λ r. Permᴰ r []) (sym (columns-nil (suc m) (suc m) 0)) Permᴰ.nil
columns-Permᴰ_suc m (x ∷ l) =
    let split : columns (suc m) (suc m) 0 (x ∷ l)
        ≡ x ∷ (every (suc m) m l ++ columns (suc m) m 0 l) =
      ap (λ i. x ∷ (every (suc m) i l ++ columns (suc m) m 1 (x ∷ l))) {x = suc m - 1} {y = m}
        (omega arith)
      ∙ ap (λ r. x ∷ (every (suc m) m l ++ r)) (columns-cons (suc m) m 0 x l) in
    let whole : columns (suc m) (suc m) 0 l ≡ columns (suc m) m 0 l ++ every (suc m) m l =
      columns-snoc (suc m) m 0 l
      ∙ ap (λ i. columns (suc m) m 0 l ++ every (suc m) i l) {x = 0 + m} {y = m} (omega arith) in
    subst (λ r. Permᴰ r (x ∷ l)) (sym split)
      (Permᴰ.cons refl (
        Permᴰ.trans (Permᴰ.append_comm (every (suc m) m l) (columns (suc m) m 0 l))
          (subst (λ r. Permᴰ r l) whole (columns-Permᴰ_suc m l))))

-- Each element of a list stands in its columns exactly once.
pub columns-Permᴰ {ℓ} :
    {A : Type ℓ} (stride : ℕ) (l : List A) → 0 < stride → Permᴰ (columns stride stride 0 l) l
columns-Permᴰ zero l some_stride = absurd (omega arith)
columns-Permᴰ (suc m) l some_stride = columns-Permᴰ_suc m l

pub Permᴰ-length {ℓ} : {A : Type ℓ} (l l' : List A) → Permᴰ l l' → length l ≡ length l'
Permᴰ-length l l' Permᴰ.nil = refl
Permᴰ-length l l' (Permᴰ.cons {l₁} {l₂} e p) = omega (arith, Permᴰ-length l₁ l₂ p)
Permᴰ-length l l' (Permᴰ.swap e e') = refl
Permᴰ-length l l' (Permᴰ.trans {l₁} {l₂} {l₃} p q) = Permᴰ-length l₁ l₂ p ∙ Permᴰ-length l₂ l₃ q
