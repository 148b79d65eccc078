-- ===== src/Common/Memory.antt =====
-- Byte-addressed memory: a pointer is a number, and pointer sums are taken not to wrap around the
-- address space. A byte is the number 0 to 255 that it stands for as an `unsigned char`.
use Prim.Native.Nat.{ℕ, zero, suc, ◌+◌, ◌*◌, ◌/◌, ◌%◌, ◌^◌, ◌≤◌, ◌<◌}
use mathlib.Core.Path.{◌≡◌, refl, ap, sym, ◌∙◌}
use mathlib.Core.Logic.{◌≢◌, ◌⊎◌, inl}
use mathlib.Core.List.{List, [], ◌∷◌}
use native.Mathlib.Omega.{arith}
use cs61_f26_psets.Common.Tests.{◌==◌, if◌then◌else◌}
use cs61_f26_psets.Common.Lists.{length}

abbrev pub Memory : Type 0
Memory = ℕ → ℕ

-- `*a = v`
abbrev pub store : Memory → ℕ → ℕ → Memory
store m a v x = if x == a then v else m x

-- The `n` bytes at `s`.
abbrev pub bytes_at : Memory → ℕ → ℕ → List ℕ
bytes_at m s zero = []
bytes_at m s (suc n) = m s ∷ bytes_at m (s + 1) n

-- An `n`-byte number at `a`, the lowest byte first, and the memory after it was set to `v`.
abbrev pub load : Memory → ℕ → ℕ → ℕ
load m a zero = 0
load m a (suc n) = m a + 256 * load m (a + 1) n

abbrev pub store_number : Memory → ℕ → ℕ → ℕ → Memory
store_number m a v zero = m
store_number m a v (suc n) = store_number (store m a (v % 256)) (a + 1) (v / 256) n

-- `m` holds exactly the bytes `xs` from `a` on.
abbrev pub Holds : Memory → ℕ → List ℕ → Type 0
Holds m a [] = Unit
Holds m a (x ∷ xs) = (m a ≡ x) × Holds m (a + 1) xs

-- `m` holds the NUL-terminated string `xs` at `a`.
abbrev pub IsString : Memory → ℕ → List ℕ → Type 0
IsString m a [] = m a ≡ 0
IsString m a (x ∷ xs) = (m a ≡ x) × (x ≢ 0) × IsString m (a + 1) xs

-- The two memories differ at most in the `n` bytes from `d` on.
abbrev pub SameOutside : Memory → Memory → ℕ → ℕ → Type 0
SameOutside m m' d n = (a : ℕ) → (a < d) ⊎ (d + n ≤ a) → m' a ≡ m a

pub IsString-frame :
    (m m' : Memory) (a : ℕ) (xs : List ℕ)
    → ((b : ℕ) → a ≤ b → b ≤ a + length xs → m' b ≡ m b)
    → IsString m a xs
    → IsString m' a xs
IsString-frame m m' a [] same h = ground (arith, same a)
IsString-frame m m' a (x ∷ xs) same (h, ne, t) = (
  ground (arith, same a),
  ne,
  IsString-frame m m' (a + 1) xs (λ b lo hi. same b (omega arith) (omega arith)) t,
)

-- Addresses counted from the next byte.
pub shift : (m : Memory) (a i : ℕ) → m (a + suc i) ≡ m (a + 1 + i)
shift m a i = ap m (omega arith)

pub start : (m : Memory) (a : ℕ) → m (a + 0) ≡ m a
start m a = ap m (omega arith)

-- Two memories that agree on a block agree on the block behind its first byte.
pub agree-next :
    (m m' : Memory) (a b n : ℕ)
    → ((j : ℕ) → j < suc n → m (a + j) ≡ m' (b + j))
    → (j : ℕ) → j < n
    → m (a + 1 + j) ≡ m' (b + 1 + j)
agree-next m m' a b n same j lt = sym (shift m a j) ∙ same (suc j) (omega arith) ∙ shift m' b j

pub store_number-outside :
    (m : Memory) (a v n b : ℕ) → (b < a) ⊎ (a + n ≤ b) → store_number m a v n b ≡ m b
store_number-outside m a v zero b out = refl
store_number-outside m a v (suc n) b out =
    ground (arith, store_number-outside (store m a (v % 256)) (a + 1) (v / 256) n b)

pub load-same :
    (m m' : Memory) (a n : ℕ)
    → ((b : ℕ) → a ≤ b → b < a + n → m' b ≡ m b)
    → load m' a n ≡ load m a n
load-same m m' a zero same = refl
load-same m m' a (suc n) same = omega (
  arith,
  same a (omega arith) (omega arith),
  load-same m m' (a + 1) n (λ b lo hi. same b (omega arith) (omega arith)),
)

store_here : (m : Memory) (a v : ℕ) → store m a v a ≡ v
store_here m a v = ground arith

pub load-store_number : (m : Memory) (a v n : ℕ) → v < 256 ^ n → load (store_number m a v n) a n ≡ v
load-store_number m a v zero lt = omega (arith, lt)
load-store_number m a v (suc n) lt =
    let first =
      store_number-outside (store m a (v % 256)) (a + 1) (v / 256) n a (inl (omega arith)) in
    let rest = load-store_number (store m a (v % 256)) (a + 1) (v / 256) n (omega arith) in
    omega (arith, store_here m a (v % 256), first, rest)

pub load_zero : (m : Memory) (a n : ℕ) → ((b : ℕ) → a ≤ b → b < a + n → m b ≡ 0) → load m a n ≡ 0
load_zero m a zero none = refl
load_zero m a (suc n) none = omega (
  arith,
  none a (omega arith) (omega arith),
  load_zero m (a + 1) n (λ b lo hi. none b (omega arith) (omega arith)),
)
