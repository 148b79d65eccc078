-- ===== src/CLib/Strings/Copy.antt =====
-- What strcpy, strncpy and strlcpy leave at the destination.
use cs61_f26_psets.Common.{
  ℕ, zero, suc, ◌+◌, ◌-◌, ◌≤◌, ◌<◌, ◌≡◌, ◌≢◌, refl, ◌⊎◌, List, [], ◌∷◌, ◌++◌, some, arith, length,
  take, replicate, sym, ap, subst, ◌∙◌, Bool-cases, inl, inr, ltb, if◌then◌else◌,
}
use cs61_f26_psets.Common.Memory.{
  Memory, store, IsString, IsString-frame, Holds, SameOutside, shift, start, agree-next,
}
use cs61_f26_psets.CLib.Blocks.{memcpy}
use cs61_f26_psets.CLib.Blocks.Copy.{memcpy-inside, memcpy-outside}
use cs61_f26_psets.CLib.Strings.{strcpy, strncpy, pad_zero, strlcpy}
use cs61_f26_psets.CLib.Strings.Length.{strlen_lem}

-- A byte stored outside a string leaves the string.
IsString-store :
    (m : Memory) (d v s : ℕ) (xs : List ℕ)
    → (d < s) ⊎ (s + length xs < d)
    → IsString m s xs
    → IsString (store m d v) s xs
IsString-store m d v s xs out h = IsString-frame m (store m d v) s xs (λ b lo hi. ground arith) h

-- With fuel above the length of the source, and a destination that does not begin inside the
-- source behind its first byte, strcpy leaves the source string at `d` and changes no byte but
-- those of the copy and its NUL.
pub strcpy_lem :
    (fuel : ℕ) (m : Memory) (d s : ℕ) (xs : List ℕ)
    → IsString m s xs
    → (d ≤ s) ⊎ (s + length xs < d)
    → length xs < fuel
    → (m' : Memory) × (strcpy fuel m d s ≡ some m')
      × IsString m' d xs
      × SameOutside m m' d (length xs + 1)
unfolding strcpy
strcpy_lem zero m d s xs h apart lt = elim lt [ ]
strcpy_lem (suc fuel) m d s [] h apart lt =
    (store m d (m s), ground arith, ground arith, λ a out. ground arith)
strcpy_lem (suc fuel) m d s (x ∷ xs) (h, ne, t) apart lt =
    let (m', runs, copied, same) =
      strcpy_lem fuel (store m d (m s)) (d + 1) (s + 1) xs
        (IsString-store m d (m s) (s + 1) xs (omega arith) t) (omega arith) (omega arith) in
    (
      m',
      ground (arith, runs),
      (ground (arith, same d), ne, copied),
      λ a out. ground (arith, same a),
    )

pad_zero-outside : (m : Memory) (d n a : ℕ) → (a < d) ⊎ (d + n ≤ a) → pad_zero m d n a ≡ m a
unfolding pad_zero
pad_zero-outside m d zero a h = refl
pad_zero-outside m d (suc n) a h = ground (arith, pad_zero-outside (store m d 0) (d + 1) n a)

pad_zero-Holds : (m : Memory) (d n : ℕ) → Holds (pad_zero m d n) d (replicate n 0)
unfolding pad_zero
pad_zero-Holds m d zero = tt
pad_zero-Holds m d (suc n) = (
  ground (arith, pad_zero-outside (store m d 0) (d + 1) n d),
  pad_zero-Holds (store m d 0) (d + 1) n,
)

strncpy_end : (m : Memory) (d s n : ℕ) → m s ≡ 0 → strncpy m d s n ≡ pad_zero m d n
unfolding strncpy pad_zero
strncpy_end m d s zero e = refl
strncpy_end m d s (suc n) e = ground arith

strncpy_step :
    (m : Memory) (d s n : ℕ)
    → m s ≢ 0
    → strncpy m d s (suc n) ≡ strncpy (store m d (m s)) (d + 1) (s + 1) n
unfolding strncpy
strncpy_step m d s n ne = ground arith

strncpy-outside : (m : Memory) (d s n a : ℕ) → (a < d) ⊎ (d + n ≤ a) → strncpy m d s n a ≡ m a
unfolding strncpy
strncpy-outside m d s zero a h = refl
strncpy-outside m d s (suc n) a h =
    ground
      (arith, strncpy-outside (store m d (m s)) (d + 1) (s + 1) n a, pad_zero-outside m d (suc n) a)

strncpy-Holds :
    (n : ℕ) (m : Memory) (d s : ℕ) (xs : List ℕ)
    → IsString m s xs
    → (d ≤ s) ⊎ (s + length xs < d)
    → Holds (strncpy m d s n) d (take n xs ++ replicate (n - length xs) 0)
strncpy-Holds zero m d s xs h apart = none_left (length xs)
  where
    none_left : (k : ℕ) → Holds (strncpy m d s 0) d (replicate (0 - k) 0)
    none_left k = let e : 0 - k ≡ 0 = omega arith in rw e tt
strncpy-Holds (suc n) m d s [] h apart =
    let e : suc n - 0 ≡ suc n = omega arith in
    subst (λ f. Holds f d (replicate (suc n - 0) 0)) (sym (strncpy_end m d s (suc n) h))
      (rw e (pad_zero-Holds m d (suc n)))
strncpy-Holds (suc n) m d s (x ∷ xs) (h, ne, t) apart =
    let e : suc n - suc (length xs) ≡ n - length xs = omega arith in
    let m' = store m d (m s) in
    subst (λ f. Holds f d (x ∷ (take n xs ++ replicate (suc n - suc (length xs)) 0)))
      (sym (strncpy_step m d s n (ground arith)))
      (
        ground (arith, strncpy-outside m' (d + 1) (s + 1) n d),
        rw e (
            strncpy-Holds n m' (d + 1) (s + 1) xs
              (IsString-store m d (m s) (s + 1) xs (omega arith) t) (omega arith)),
      )

-- Where the destination does not begin inside the source behind its first byte, strncpy fills
-- exactly `maxlen` bytes: the string cut to that length, then NUL bytes for the rest.
pub strncpy_lem :
    (m : Memory) (d s maxlen : ℕ) (xs : List ℕ)
    → IsString m s xs
    → (d ≤ s) ⊎ (s + length xs < d)
    → Holds (strncpy m d s maxlen) d (take maxlen xs ++ replicate (maxlen - length xs) 0)
      × SameOutside m (strncpy m d s maxlen) d maxlen
strncpy_lem m d s maxlen xs h apart =
    (strncpy-Holds maxlen m d s xs h apart, strncpy-outside m d s maxlen)

-- A copy of the first `n` bytes of a string, and a NUL behind them, is the string cut to `n`.
IsString-take :
    (m m' : Memory) (d s n : ℕ) (xs : List ℕ)
    → IsString m s xs
    → n ≤ length xs
    → ((i : ℕ) → i < n → m' (d + i) ≡ m (s + i))
    → m' (d + n) ≡ 0
    → IsString m' d (take n xs)
IsString-take m m' d s zero xs h le same end = sym (start m' d) ∙ end
IsString-take m m' d s (suc n) [] h le same end = absurd (omega arith)
IsString-take m m' d s (suc n) (x ∷ xs) (h, ne, t) le same end = (
  sym (start m' d) ∙ same 0 (omega arith) ∙ start m s ∙ h,
  ne,
  IsString-take m m' (d + 1) (s + 1) n xs t (omega arith) (agree-next m' m d s n same)
      (sym (shift m' d n) ∙ end),
)

take_all : (n k : ℕ) (xs : List ℕ) → n ≡ length xs → n ≤ k → take n xs ≡ take k xs
take_all zero zero xs e le = refl
take_all zero (suc k) [] e le = refl
take_all zero (suc k) (x ∷ xs) e le = absurd (omega arith)
take_all (suc n) zero xs e le = absurd (omega arith)
take_all (suc n) (suc k) [] e le = absurd (omega arith)
take_all (suc n) (suc k) (x ∷ xs) e le =
    ap (λ l. x ∷ l) (take_all n k xs (omega arith) (omega arith))

-- How many bytes of a string of `n` bytes fit a buffer of `maxlen`.
abbrev fitting : ℕ → ℕ → ℕ
fitting maxlen n = if ltb (maxlen - 1) n then maxlen - 1 else n

take-fitting :
    (maxlen : ℕ) (xs : List ℕ) → take (fitting maxlen (length xs)) xs ≡ take (maxlen - 1) xs
take-fitting maxlen xs = elim (Bool-cases (ltb (maxlen - 1) (length xs))) [
  | inl e ↦ rw e
  | inr e ↦ rw e (take_all (length xs) (maxlen - 1) xs (omega arith) (ground arith))
]

-- With fuel above the length of the source and a non-empty buffer that does not begin inside the
-- source behind its first byte, strlcpy returns the length of the source and leaves the source,
-- cut to `maxlen - 1` bytes, as a NUL-terminated string; it writes inside the buffer alone.
pub strlcpy_lem :
    (fuel : ℕ) (m : Memory) (d s maxlen : ℕ) (xs : List ℕ)
    → IsString m s xs
    → (d ≤ s) ⊎ (s + length xs ≤ d)
    → length xs < fuel
    → 0 < maxlen
    → (m' : Memory) × (strlcpy fuel m d s maxlen ≡ some (m', length xs))
      × IsString m' d (take (maxlen - 1) xs)
      × SameOutside m m' d maxlen
unfolding strlcpy
strlcpy_lem fuel m d s maxlen xs h apart enough room =
    let nn = fitting maxlen (length xs) in
    let copied = memcpy m d s nn in
    let inside : (nn ≤ length xs) × (nn < maxlen) = ground arith in
    (
      store copied (d + nn) 0,
      rw (strlen_lem fuel m s xs h enough) (ground arith),
      rw (← take-fitting maxlen xs) (
          IsString-take m (store copied (d + nn) 0) d s nn xs h inside.0
            (λ i lt. ground (arith, memcpy-inside m d s nn i)) (ground arith)),
      λ a out. ground (arith, memcpy-outside m d s nn a),
    )
