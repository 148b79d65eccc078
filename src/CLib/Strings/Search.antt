-- ===== src/CLib/Strings/Search.antt =====
-- strchr and strstr against the strings that memory holds.
use cs61_f26_psets.Common.{
  ℕ, zero, suc, ◌+◌, ◌*◌, ◌≤◌, ◌<◌, ◌≡◌, ◌≢◌, refl, ◌⊎◌, inl, inr, List, [], ◌∷◌, some, none, arith,
  length, sym, ap, subst, ◌∙◌, Option, Bool, true, false, ◌&&◌, ◌==◌, if◌then◌else◌, Bool-cases,
}
use cs61_f26_psets.Common.Memory.{Memory, IsString, start}
use cs61_f26_psets.CLib.Blocks.{memchr}
use cs61_f26_psets.CLib.Strings.{strchr, strstr, strstr_from}

-- With fuel above its length, strchr finds in a string what memchr finds in its bytes with the
-- NUL: the first position of `c`, which is the NUL's for `c` zero.
pub strchr-memchr :
    (fuel : ℕ) (m : Memory) (s c : ℕ) (xs : List ℕ)
    → IsString m s xs
    → length xs < fuel
    → strchr fuel m s c ≡ some (memchr m s c (suc (length xs)))
unfolding strchr memchr
strchr-memchr zero m s c xs h lt = elim lt [ ]
strchr-memchr (suc fuel) m s c [] h lt = ground arith
strchr-memchr (suc fuel) m s c (x ∷ xs) (h, ne, t) lt =
    ground (arith, strchr-memchr fuel m (s + 1) c xs t)

-- `ys` is a prefix of `xs`.
abbrev pub starts : List ℕ → List ℕ → Bool
starts [] xs = true
starts (y ∷ ys) [] = false
starts (y ∷ ys) (x ∷ xs) = x == y && starts ys xs

-- Where `ys` first occurs in `xs`, from position `p` on.
abbrev pub find_sub : List ℕ → List ℕ → ℕ → Option ℕ
find_sub ys [] p = if starts ys [] then some p else none
find_sub ys (x ∷ xs) p = if starts ys (x ∷ xs) then some p else find_sub ys xs (p + 1)

module _ (m : Memory) (hs ns : ℕ) where
  -- How an attempt at position `i` ends, with `j` bytes matched and `rest` of the haystack and
  -- `ys` of the needle left: it succeeds, or the search goes on at `i + 1` with less fuel.
  abbrev Attempt : ℕ → ℕ → ℕ → List ℕ → List ℕ → Type 0
  Attempt fuel i j rest ys =
      (starts ys rest ≡ true) × (strstr_from fuel m hs ns i j ≡ some (some (hs + i)))
      ⊎ (starts ys rest ≡ false)
        × ((k : ℕ) × (fuel ≤ k + suc (length ys))
            × (strstr_from fuel m hs ns i j ≡ strstr_from k m hs ns (i + 1) 0))

  Attempt-match :
      (fuel i j x y : ℕ) (rest ys : List ℕ)
      → m (hs + i + j) ≡ x
      → m (ns + j) ≡ y
      → m (hs + i) ≢ 0
      → y ≢ 0
      → x ≡ y
      → Attempt fuel i (j + 1) rest ys
      → Attempt (suc fuel) i j (x ∷ rest) (y ∷ ys)
  unfolding strstr_from
  Attempt-match fuel i j x y rest ys h n ne ny e (inl (st, run)) = inl (ground arith, ground arith)
  Attempt-match fuel i j x y rest ys h n ne ny e (inr (st, (k, le, run))) =
      inr (ground arith, (k, omega arith, ground arith))

  attempt :
      (fuel i j : ℕ) (rest ys : List ℕ)
      → IsString m (hs + i + j) rest
      → IsString m (ns + j) ys
      → m (hs + i) ≢ 0
      → length ys < fuel
      → Attempt fuel i j rest ys
  unfolding strstr_from
  attempt zero i j rest ys h n ne lt = elim lt [ ]
  attempt (suc fuel) i j rest [] h n ne lt = inl (refl, ground arith)
  attempt (suc fuel) i j [] (y ∷ ys) h (n, ny, t) ne lt =
      inr (refl, (fuel, omega arith, ground arith))
  attempt (suc fuel) i j (x ∷ rest) (y ∷ ys) (h, nx, th) (n, ny, tn) ne lt =
      elim (Bool-cases (x == y)) [
        | inl e ↦ Attempt-match fuel i j x y rest ys h n ne ny (ground arith) (
            attempt fuel i (j + 1) rest ys (subst (λ a. IsString m a rest) (omega arith) th)
              (subst (λ a. IsString m a ys) (omega arith) tn) ne (omega arith))
        | inr e ↦ inr (rw e refl, (fuel, omega arith, ground arith))
      ]

  after-Attempt :
      (fuel i p x : ℕ) (xs ys : List ℕ)
      → p ≡ hs + i
      → Attempt fuel i 0 (x ∷ xs) ys
      → ((k : ℕ)
          → fuel ≤ k + suc (length ys)
          → strstr_from k m hs ns (i + 1) 0 ≡ some (find_sub ys xs (p + 1)))
      → strstr_from fuel m hs ns i 0 ≡ some (find_sub ys (x ∷ xs) p)
  after-Attempt fuel i p x xs ys e (inl (st, run)) rest =
      rw st (run ∙ ap (λ q. some (some q)) (sym e))
  after-Attempt fuel i p x xs ys e (inr (st, (k, le, run))) rest = rw st (run ∙ rest k le)

  -- The whole search from position `i`.
  search_from :
      (xs ys : List ℕ) (fuel i p : ℕ)
      → p ≡ hs + i
      → IsString m (hs + i) xs
      → IsString m ns ys
      → (length xs + 1) * suc (length ys) ≤ fuel
      → strstr_from fuel m hs ns i 0 ≡ some (find_sub ys xs p)
  unfolding strstr_from
  search_from [] ys zero i p e h n le = absurd (omega arith)
  search_from [] [] (suc fuel) i p e h n le = ground (arith, start m ns)
  search_from [] (y ∷ ys) (suc fuel) i p e h (n, ny, t) le = ground (arith, start m ns)
  search_from (x ∷ xs) ys fuel i p e (h, nx, t) n le =
      after-Attempt fuel i p x xs ys e
        (attempt fuel i 0 (x ∷ xs) ys (subst (λ a. IsString m a (x ∷ xs)) (omega arith) (h, nx, t))
          (subst (λ a. IsString m a ys) (omega arith) n) (ground arith) (grind arith))
        (λ k enough.
          search_from xs ys k (i + 1) (p + 1) (omega arith)
            (subst (λ a. IsString m a xs) (omega arith) t) n (grind arith))

-- With fuel for every attempt, strstr returns a pointer to the first place where the needle occurs
-- in the haystack, or nullptr where it occurs nowhere.
pub strstr_lem :
    (fuel : ℕ) (m : Memory) (hs ns : ℕ) (xs ys : List ℕ)
    → IsString m hs xs
    → IsString m ns ys
    → (length xs + 1) * suc (length ys) ≤ fuel
    → strstr fuel m hs ns ≡ some (find_sub ys xs hs)
unfolding strstr
strstr_lem fuel m hs ns xs ys h n le =
    search_from m hs ns xs ys fuel 0 hs (omega arith) (subst (λ a. IsString m a xs) (omega arith) h)
      n le
