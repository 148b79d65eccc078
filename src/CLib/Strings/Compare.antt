-- ===== src/CLib/Strings/Compare.antt =====
-- The comparisons of strings against the order of the lists of their bytes.
use mathlib.Core.List.{map}
use cs61_f26_psets.Common.{
  ℕ, zero, suc, ◌+◌, ◌<◌, ◌≡◌, ◌≢◌, refl, ◌↔◌, List, [], ◌∷◌, some, arith, length, take, ap, ap₂,
  ◌∙◌, ◌==◌, if◌then◌else◌,
}
use cs61_f26_psets.Common.Int.{ℤ, pos, negsuc}
use cs61_f26_psets.Common.Memory.{Memory, IsString}
use cs61_f26_psets.CLib.Blocks.{sign_of}
use cs61_f26_psets.CLib.Ctype.{tolower}
use cs61_f26_psets.CLib.Strings.{
  strcmp, strcasecmp, strncmp, strncasecmp, compare_from, compare_upto,
}

-- The order of texts: by the first byte that differs, and a proper prefix comes first.
abbrev pub compare_lists : List ℕ → List ℕ → ℤ
compare_lists [] [] = pos 0
compare_lists [] (y ∷ ys) = negsuc 0
compare_lists (x ∷ xs) [] = pos 1
compare_lists (x ∷ xs) (y ∷ ys) = if x == y then compare_lists xs ys else sign_of x y

-- The order calls two texts equal exactly when they are.
pub compare_lists-eq-zero : (xs ys : List ℕ) → (compare_lists xs ys ≡ pos 0) ↔ (xs ≡ ys)
compare_lists-eq-zero [] [] = ((λ e. refl), (λ e. refl))
compare_lists-eq-zero [] (y ∷ ys) = ((λ e. cc), (λ e. cc))
compare_lists-eq-zero (x ∷ xs) [] = ((λ e. cc), (λ e. cc))
compare_lists-eq-zero (x ∷ xs) (y ∷ ys) = (
  (λ e. ground (arith, (compare_lists-eq-zero xs ys).0)),
  (λ e. ground (arith, (compare_lists-eq-zero xs ys).1)),
)

module _ (fold : ℕ → ℕ) (keeps_nul : fold 0 ≡ 0) (only_nul : (c : ℕ) → c ≢ 0 → fold c ≢ 0) where
  compare_from_lem :
      (fuel : ℕ) (m : Memory) (a b : ℕ) (xs ys : List ℕ)
      → IsString m a xs
      → IsString m b ys
      → length xs < fuel
      → compare_from fold fuel m a b ≡ some (compare_lists (map fold xs) (map fold ys))
  unfolding compare_from
  compare_from_lem zero m a b xs ys ha hb lt = elim lt [ ]
  compare_from_lem (suc fuel) m a b [] [] ha hb lt = ground (arith, ap fold ha, ap fold hb)
  compare_from_lem (suc fuel) m a b [] (y ∷ ys) ha (hb, ne, tb) lt =
      ground (arith, ap fold ha, ap fold hb, only_nul y ne)
  compare_from_lem (suc fuel) m a b (x ∷ xs) [] (ha, nx, ta) hb lt =
      ground (arith, ap fold ha, ap fold hb, only_nul x nx)
  compare_from_lem (suc fuel) m a b (x ∷ xs) (y ∷ ys) (ha, nx, ta) (hb, ny, tb) lt = ground (
    arith,
    ap fold ha,
    ap fold hb,
    only_nul x nx,
    only_nul y ny,
    compare_from_lem fuel m (a + 1) (b + 1) xs ys ta tb,
  )

  compare_upto_lem :
      (n : ℕ) (m : Memory) (a b : ℕ) (xs ys : List ℕ)
      → IsString m a xs
      → IsString m b ys
      → compare_upto fold m a b n ≡ compare_lists (map fold (take n xs)) (map fold (take n ys))
  unfolding compare_upto
  compare_upto_lem zero m a b xs ys ha hb = refl
  compare_upto_lem (suc n) m a b [] [] ha hb = ground (arith, ap fold ha, ap fold hb)
  compare_upto_lem (suc n) m a b [] (y ∷ ys) ha (hb, ne, tb) =
      ground (arith, ap fold ha, ap fold hb, only_nul y ne)
  compare_upto_lem (suc n) m a b (x ∷ xs) [] (ha, nx, ta) hb =
      ground (arith, ap fold ha, ap fold hb, only_nul x nx)
  compare_upto_lem (suc n) m a b (x ∷ xs) (y ∷ ys) (ha, nx, ta) (hb, ny, tb) = ground (
    arith,
    ap fold ha,
    ap fold hb,
    only_nul x nx,
    only_nul y ny,
    compare_upto_lem n m (a + 1) (b + 1) xs ys ta tb,
  )

map-same : (xs : List ℕ) → map (λ c. c) xs ≡ xs
map-same [] = refl
map-same (x ∷ xs) = ap (λ l. x ∷ l) (map-same xs)

tolower-ne-zero : (c : ℕ) → c ≢ 0 → tolower c ≢ 0
unfolding tolower
tolower-ne-zero c ne = ground arith

-- With fuel above the length of the first string, strcmp returns the order of the two strings as
-- lists of unsigned bytes.
pub strcmp_lem :
    (fuel : ℕ) (m : Memory) (a b : ℕ) (xs ys : List ℕ)
    → IsString m a xs
    → IsString m b ys
    → length xs < fuel
    → strcmp fuel m a b ≡ some (compare_lists xs ys)
unfolding strcmp
strcmp_lem fuel m a b xs ys ha hb lt =
    compare_from_lem (λ c. c) refl (λ c ne. ne) fuel m a b xs ys ha hb lt
    ∙ ap₂ (λ l r. some (compare_lists l r)) (map-same xs) (map-same ys)

-- With fuel above the length of the first string, strcasecmp returns the order of the two strings
-- in lower case.
pub strcasecmp_lem :
    (fuel : ℕ) (m : Memory) (a b : ℕ) (xs ys : List ℕ)
    → IsString m a xs
    → IsString m b ys
    → length xs < fuel
    → strcasecmp fuel m a b ≡ some (compare_lists (map tolower xs) (map tolower ys))
unfolding strcasecmp
strcasecmp_lem fuel m a b xs ys ha hb lt =
    compare_from_lem tolower (unfold tolower in refl) tolower-ne-zero fuel m a b xs ys ha hb lt

-- strncmp returns the order of the two strings cut to `n` bytes.
pub strncmp_lem :
    (n : ℕ) (m : Memory) (a b : ℕ) (xs ys : List ℕ)
    → IsString m a xs
    → IsString m b ys
    → strncmp m a b n ≡ compare_lists (take n xs) (take n ys)
unfolding strncmp
strncmp_lem n m a b xs ys ha hb =
    compare_upto_lem (λ c. c) refl (λ c ne. ne) n m a b xs ys ha hb
    ∙ ap₂ compare_lists (map-same (take n xs)) (map-same (take n ys))

-- strncasecmp returns the order of the two strings, cut to `n` bytes, in lower case.
pub strncasecmp_lem :
    (n : ℕ) (m : Memory) (a b : ℕ) (xs ys : List ℕ)
    → IsString m a xs
    → IsString m b ys
    → strncasecmp m a b n ≡ compare_lists (map tolower (take n xs)) (map tolower (take n ys))
unfolding strncasecmp
strncasecmp_lem = compare_upto_lem tolower (unfold tolower in refl) tolower-ne-zero
