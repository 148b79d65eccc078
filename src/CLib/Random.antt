-- ===== src/CLib/Random.antt =====
-- pset3/lib.cc: the generator rand_engine, and its numbers in a range (uniform_int_distribution for
-- unsigned numbers).
pub mod Range
use cs61_f26_psets.Common.{
  ℕ, zero, suc, ◌+◌, ◌-◌, ◌*◌, ◌/◌, ◌%◌, ◌^◌, Bool, true, false, Option, none, some, ltb, leb, ◌==◌,
  if◌then◌else◌, ◌&&◌,
}

abbrev pub rand_max : ℕ
rand_max = 0x7FFFFFFF

-- `seed_ * 6364136223846793005UL + 1`
unfoldable pub next_seed : ℕ → ℕ
next_seed seed = (seed * 6364136223846793005 + 1) % 2 ^ 64

-- `(seed_ >> 33) & RAND_MAX`
unfoldable pub number_of : ℕ → ℕ
number_of seed = seed / 2 ^ 33 % 2 ^ 31

-- `srand`
abbrev pub seeded : ℕ → ℕ
seeded seed = seed * 2 ^ 32 + seed

-- `per`, and `bound`
abbrev pub per : ℕ → ℕ
per amount = (rand_max + 1) / amount

abbrev pub bound : ℕ → ℕ
bound amount = per amount * amount

-- The loop: the first number of the generator below `limit`, and the seed that it leaves.
unfoldable pub draw : ℕ → ℕ → ℕ → Option (ℕ × ℕ)
draw zero limit seed = none
draw (suc fuel) limit seed = elim (leb limit (number_of (next_seed seed))) [
  | true ↦ draw fuel limit (next_seed seed)
  | false ↦ some (number_of (next_seed seed), next_seed seed)
]

-- `uniform_int_distribution`: the number and the new seed, `none` for a failed assertion or where
-- the fuel runs out.
unfoldable pub uniform : ℕ → ℕ → ℕ → ℕ → Option (ℕ × ℕ)
uniform fuel min max seed =
    if leb min max && leb (max - min) rand_max
    then (elim (draw fuel (bound (max - min + 1)) seed) [
      | none ↦ none
      | some (r, seed') ↦ some (min + r / per (max - min + 1), seed')
    ])
    else none
