-- ===== src/CLib/Random/Range.antt =====
-- Numbers drawn from a range lie in it, and every number of the range has equally many chances.
use native.Mathlib.Nat.{div-lt_iff_lt-mul, le-div_iff_mul-le}
use cs61_f26_psets.Common.{
  ℕ, zero, suc, ◌+◌, ◌-◌, ◌*◌, ◌/◌, ◌≤◌, ◌<◌, ◌≡◌, ◌↔◌, refl, true, some, leb, arith,
}
use cs61_f26_psets.CLib.Random.{rand_max, next_seed, number_of, per, bound, draw, uniform}

≤→leb : (a b : ℕ) → a ≤ b → leb a b ≡ true
≤→leb a b h = ground arith

-- The seed after `n` steps of the generator.
abbrev pub seed_after : ℕ → ℕ → ℕ
seed_after zero seed = seed
seed_after (suc n) seed = seed_after n (next_seed seed)

-- The loop takes the first number below the limit.
draw_lem :
    (fuel limit seed i : ℕ)
    → ((j : ℕ) → j < i → limit ≤ number_of (seed_after (suc j) seed))
    → number_of (seed_after (suc i) seed) < limit
    → i < fuel
    → draw fuel limit seed ≡ some (number_of (seed_after (suc i) seed), seed_after (suc i) seed)
unfolding draw
draw_lem zero limit seed i above below lt = ground arith
draw_lem (suc fuel) limit seed zero above below lt = ground (arith, below)
draw_lem (suc fuel) limit seed (suc i) above below lt =
    let first = above 0 (omega arith) in
    let rest =
      draw_lem fuel limit (next_seed seed) i (λ j l. above (suc j) (omega arith)) below
        (omega arith) in
    ground (arith, first, rest)

per-pos : (amount : ℕ) → 0 < amount → amount ≤ rand_max + 1 → 0 < per amount
per-pos amount low high =
    (le-div_iff_mul-le {k = amount} {x = 1} {y = rand_max + 1} low).1 (omega arith)

-- The numbers `r` below the bound that give `v` are a block of `per amount` of them.
quotient_iff :
    (amount r v : ℕ)
    → 0 < per amount
    → (r / per amount ≡ v) ↔ ((v * per amount ≤ r) × (r < (v + 1) * per amount))
quotient_iff amount r v positive =
    let at_least = le-div_iff_mul-le {k = per amount} {x = v} {y = r} positive in
    let below = div-lt_iff_lt-mul {k = per amount} {x = r} {y = v + 1} positive in
    (
      λ e. (at_least.0 (omega (arith, e)), below.0 (omega (arith, e))),
      λ (lo, hi). let l = at_least.1 lo in let h = below.1 hi in omega (arith, l, h),
    )

-- For `min ≤ max` no further than RAND_MAX apart, and fuel for the numbers that the loop passes
-- over: the number lies from `min` to `max`, the generator has made one step for each number that
-- was looked at, and each number `min + u` of the range stands for exactly `per` consecutive
-- numbers of the generator.
pub uniform_lem :
    (fuel min max seed i : ℕ)
    → min ≤ max
    → max - min ≤ rand_max
    → ((j : ℕ) → j < i → bound (max - min + 1) ≤ number_of (seed_after (suc j) seed))
    → number_of (seed_after (suc i) seed) < bound (max - min + 1)
    → i < fuel
    → (v : ℕ) × (uniform fuel min max seed ≡ some (v, seed_after (suc i) seed))
      × (min ≤ v)
      × (v ≤ max)
      × ((u : ℕ)
          → (v ≡ min + u) ↔ (
              (u * per (max - min + 1) ≤ number_of (seed_after (suc i) seed))
              × (number_of (seed_after (suc i) seed) < (u + 1) * per (max - min + 1))))
unfolding uniform
uniform_lem fuel min max seed i le close above below lt =
    let amount = max - min + 1 in
    let r = number_of (seed_after (suc i) seed) in
    let positive = per-pos amount (omega arith) (omega arith) in
    let drawn = draw_lem fuel (bound amount) seed i above below lt in
    let small =
      (div-lt_iff_lt-mul {k = per amount} {x = r} {y = amount} positive).1 (omega (arith, below)) in
    (
      min + r / per amount,
      rw (≤→leb min max le, ≤→leb (max - min) rand_max close, drawn, uniform) refl,
      omega arith,
      omega (arith, small),
      λ u.
          let (to, from) = quotient_iff amount r u positive in
          (λ e. to (omega (arith, e)), λ h. omega (arith, from h)),
    )
