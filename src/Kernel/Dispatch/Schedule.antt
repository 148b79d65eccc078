-- ===== src/Kernel/Dispatch/Schedule.antt =====
-- The scheduler is round robin.
use native.Mathlib.Decide.{ℕ_discrete}
use cs61_f26_psets.Common.{
  ℕ, zero, suc, ◌+◌, ◌-◌, ◌%◌, ◌≤◌, ◌<◌, ◌≡◌, refl, sym, subst, ◌⊎◌, inl, inr, Bool, true, false,
  arith, Bool-cases,
}
use cs61_f26_psets.Kernel.State.{Kernel, max_n_proc}
use cs61_f26_psets.Kernel.Dispatch.{spinning, is_runnable, run, schedule_from, schedule}

behind_next :
    (pid j : ℕ) → ((pid + 1) % max_n_proc + 1 + j) % max_n_proc ≡ (pid + 1 + suc j) % max_n_proc
behind_next pid j = omega arith

module _ (kp exception_entry : ℕ) where
  -- Round `i` of the loop looks at the process `i + 1` places behind `pid`; the loop stops at the
  -- first that is runnable.
  schedule_from_lem :
      (fuel : ℕ) (k : Kernel) (pid i : ℕ)
      → ((j : ℕ) → j < i → is_runnable (k.ptable ((pid + 1 + j) % max_n_proc)).state ≡ false)
      → is_runnable (k.ptable ((pid + 1 + i) % max_n_proc)).state ≡ true
      → i < fuel
      → schedule_from kp exception_entry fuel k pid
        ≡ run kp exception_entry k ((pid + 1 + i) % max_n_proc)
  unfolding schedule_from
  schedule_from_lem zero k pid i before found lt = ground arith
  schedule_from_lem (suc fuel) k pid zero before found lt = ground (arith, found)
  schedule_from_lem (suc fuel) k pid (suc i) before found lt =
      let e = before 0 (omega arith) in
      let next =
        schedule_from_lem fuel k ((pid + 1) % max_n_proc) i
          (λ j l.
            subst (λ n. is_runnable (k.ptable n).state ≡ false) (sym (behind_next pid j))
              (before (suc j) (omega arith)))
          (subst (λ n. is_runnable (k.ptable n).state ≡ true) (sym (behind_next pid i)) found)
          (omega arith) in
      ground (arith, e, next)

  schedule_from_spins :
      (fuel : ℕ) (k : Kernel) (pid : ℕ)
      → ((j : ℕ) → j < max_n_proc → is_runnable (k.ptable j).state ≡ false)
      → schedule_from kp exception_entry fuel k pid ≡ spinning
  unfolding schedule_from
  schedule_from_spins zero k pid none_runs = refl
  schedule_from_spins (suc fuel) k pid none_runs =
      let e = none_runs ((pid + 1) % max_n_proc) (omega arith) in
      let rest = schedule_from_spins fuel k ((pid + 1) % max_n_proc) none_runs in
      ground (arith, e, rest)

-- `i` is the first number with `test i`.
data IsFirst (test : ℕ → Bool) (i : ℕ) : Type 0 where
  is_first : ((j : ℕ) → j < i → test j ≡ false) → test i ≡ true → IsFirst test i

IsFirst-true :
    (n : ℕ) (test : ℕ → Bool)
    → ((j : ℕ) → j < n → test j ≡ false) ⊎ ((i : ℕ) × (i < n) × IsFirst test i)
IsFirst-true zero test = inl (λ j l. ground arith)
IsFirst-true (suc n) test = elim (IsFirst-true n test) [
  | inr (i, lt, first) ↦ inr (i, omega arith, first)
  | inl before ↦ elim (Bool-cases (test n)) [
    | inl here ↦ inr (n, omega arith, is_first before here)
    | inr not_here ↦ inl (λ j l. elim (ℕ_discrete j n) [
      | yes e ↦ subst (λ m. test m ≡ false) (sym e) not_here
      | no ne ↦ before j (omega arith)
    ])
  ]
]

-- `next` is the first runnable process behind the current one, in the order of the process table,
-- which starts again at 0 behind the last and ends with the current process itself.
pub data IsNext (k : Kernel) (next : ℕ) : Type 0 where
  is_next :
      (i : ℕ)
      → i < max_n_proc
      → next ≡ ((k.ptable k.current).pid + 1 + i) % max_n_proc
      → ((j : ℕ)
          → j < i
          → is_runnable (k.ptable (((k.ptable k.current).pid + 1 + j) % max_n_proc)).state ≡ false)
      → is_runnable (k.ptable next).state ≡ true
      → IsNext k next

distance :
    (pid p : ℕ)
    → p < max_n_proc
    → (pid + 1 + (p + 31 - pid % max_n_proc) % max_n_proc) % max_n_proc ≡ p
distance pid p lt = omega arith

module _ (kp exception_entry : ℕ) where
  -- When some process `p` is runnable, `schedule` runs, within one round of the table, the first
  -- runnable process behind the current one.
  pub schedule-IsNext :
      (k : Kernel) (p : ℕ)
      → p < max_n_proc
      → is_runnable (k.ptable p).state ≡ true
      → (fuel : ℕ) → max_n_proc ≤ fuel
      → (next : ℕ) × IsNext k next
        × (schedule kp exception_entry fuel k ≡ run kp exception_entry k next)
  unfolding schedule
  schedule-IsNext k p lt found fuel enough =
      let pid = (k.ptable k.current).pid in
      let test : ℕ → Bool = (λ i. is_runnable (k.ptable ((pid + 1 + i) % max_n_proc)).state) in
      elim (IsFirst-true max_n_proc test) [
        | inl none_runs ↦
            let idle = none_runs ((p + 31 - pid % max_n_proc) % max_n_proc) (omega arith) in
            let busy =
              subst (λ n. is_runnable (k.ptable n).state ≡ true) (sym (distance pid p lt)) found in
            ground (arith, idle, busy)
        | inr (i, i_lt, is_first before here) ↦ (
          (pid + 1 + i) % max_n_proc,
          is_next i i_lt refl before here,
          schedule_from_lem kp exception_entry fuel k pid i before here (omega arith),
        )
      ]

  -- When no process is runnable, `schedule` spins for ever: it has not returned after any number
  -- of rounds.
  pub schedule_spins :
      (k : Kernel)
      → ((j : ℕ) → j < max_n_proc → is_runnable (k.ptable j).state ≡ false)
      → (fuel : ℕ) → schedule kp exception_entry fuel k ≡ spinning
  unfolding schedule
  schedule_spins k none_runs fuel =
      schedule_from_spins kp exception_entry fuel k (k.ptable k.current).pid none_runs
