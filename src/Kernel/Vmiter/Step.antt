-- ===== src/Kernel/Vmiter/Step.antt =====
-- find_impl: a step inside the current table is a walk from the root.
use Prim.Native.Nat.{bit_and, bit_xor}
use cs61_f26_psets.Common.{
  ℕ, zero, suc, ◌+◌, ◌-◌, ◌*◌, ◌/◌, ◌%◌, ◌^◌, ◌≤◌, ◌<◌, ◌≡◌, ◌⊎◌, inl, inr, refl, sym, ap, subst,
  ◌∙◌, Bool, true, false, not, ◌&&◌, none, some, ◌==◌, if◌then◌else◌, arith, Bool-cases,
}
use cs61_f26_psets.Common.Bits.{same_prefix}
use cs61_f26_psets.Common.Memory.{Memory}
use cs61_f26_psets.Kernel.Vmiter.{
  Vmiter, at_root, complement, descend, descend_all, down, find_impl, goes_down, in_same_table, pte,
  looks_uninitialized, nowhere, step_in_table, va_is_canonical, vmiter, noncanonical_lbits,
}
use cs61_f26_psets.Kernel.Vmiter.Walk.{
  IsPlaced, step_to, agree-up, descend-lbits, descend_all-go, descend_all-halt, descend_all-fuel,
  down-some, goes_down-high, walk-step, step-lbits,
}

-- The levels of the page tables.
abbrev pub IsLevel : ℕ → Type 0
IsLevel l = (l ≡ 12) ⊎ ((l ≡ 21) ⊎ ((l ≡ 30) ⊎ (l ≡ 39)))

pub lower-IsLevel : (l : ℕ) → IsLevel l → 12 < l → IsLevel (l - 9)
lower-IsLevel l (inl e) lt = absurd (omega arith)
lower-IsLevel l (inr (inl e)) lt = inl (omega arith)
lower-IsLevel l (inr (inr (inl e))) lt = inr (inl (omega arith))
lower-IsLevel l (inr (inr (inr e))) lt = inr (inr (inl (omega arith)))

below_root : (l : ℕ) → IsLevel l → l < 39 → l ≤ 30
below_root l level lt = ground (arith, level)

pub descend_all-IsLevel :
    (f : ℕ) (m : Memory) (v : Vmiter) → IsLevel v.lbits → IsLevel (descend_all f m v).lbits
unfolding descend_all
descend_all-IsLevel zero m v level = level
descend_all-IsLevel (suc f) m v level = elim (Bool-cases (goes_down m v)) [
  | inr stop ↦ rw (descend_all-halt (suc f) m v stop) level
  | inl go ↦ rw (descend_all-go f m v go) (
      descend_all-IsLevel f m (descend m v) (
        subst IsLevel (sym (descend-lbits m v))
          (lower-IsLevel v.lbits level (goes_down-high m v go))))
]

abbrev MaskedAgree : ℕ → ℕ → ℕ → Type 0
MaskedAgree a b l =
    bit_and (bit_xor a b) (complement 0 * 2 ^ (l + 9) % 2 ^ 64) ≡ 0
    → a / 2 ^ (l + 9) ≡ b / 2 ^ (l + 9)

-- The mask of `in_same_table` keeps the digits above the table's.
masked_agree :
    (l a b : ℕ)
    → IsLevel l
    → l < 39
    → a < 2 ^ 64
    → b < 2 ^ 64
    → bit_and (bit_xor a b) (complement 0 * 2 ^ (l + 9) % 2 ^ 64) ≡ 0
    → a / 2 ^ (l + 9) ≡ b / 2 ^ (l + 9)
masked_agree l a b (inl e) lt la lb = subst (MaskedAgree a b) (sym e) (same_prefix 21 43 a b la lb)
masked_agree l a b (inr (inl e)) lt la lb =
    subst (MaskedAgree a b) (sym e) (same_prefix 30 34 a b la lb)
masked_agree l a b (inr (inr (inl e))) lt la lb =
    subst (MaskedAgree a b) (sym e) (same_prefix 39 25 a b la lb)
masked_agree l a b (inr (inr (inr e))) lt la lb = absurd (omega arith)

pub canonical-agree :
    (l a b : ℕ) → l ≤ 30 → a / 2 ^ (l + 9) ≡ b / 2 ^ (l + 9) → va_is_canonical a ≡ va_is_canonical b
unfolding va_is_canonical
canonical-agree l a b le e =
    let top : a / 2 ^ 39 ≡ b / 2 ^ 39 =
      subst (λ n. a / 2 ^ n ≡ b / 2 ^ n) {y = 39} (omega arith) (agree-up (30 - l) (l + 9) a b e) in
    ground (arith, top)

from_root :
    (m : Memory) (pt va : ℕ)
    → vmiter m pt va ≡ (
        if not (va_is_canonical va)
        then down m (nowhere pt noncanonical_lbits va)
        else down m (at_root pt va))
unfolding vmiter find_impl in_same_table
from_root m pt va = refl

other_table :
    (m : Memory) (v : Vmiter) (va : ℕ) (stepping : Bool)
    → (stepping && va == 0) ≡ false
    → in_same_table v va ≡ false
    → find_impl m v va stepping ≡ vmiter m v.pt va
unfolding find_impl
other_table m v va stepping on other = rw (from_root m v.pt va, on, other) refl

same_table_test :
    (v : Vmiter) (va : ℕ)
    → in_same_table v va ≡ true
    → (v.lbits < 39) × (bit_and (bit_xor v.va va) (complement 0 * 2 ^ (v.lbits + 9) % 2 ^ 64) ≡ 0)
unfolding in_same_table
same_table_test v va e = ground (arith, e)

abbrev pub root_placed : (pt va : ℕ) → pt % 4096 ≡ 0 → IsPlaced (at_root pt va)
unfolding at_root
root_placed pt va aligned = record { table = pt; aligned = aligned; at = refl }

root_step : (pt a b : ℕ) → pt % 4096 ≡ 0 → step_in_table (at_root pt a) b ≡ at_root pt b
unfolding at_root
root_step pt a b aligned = step_to (at_root pt a) b (root_placed pt a aligned)

pub root-fields : (pt va : ℕ) → ((at_root pt va).lbits ≡ 39) × ((at_root pt va).va ≡ va)
unfolding at_root
root-fields pt va = (refl, refl)

pub nowhere-stays :
    (m : Memory) (pt va : ℕ) → goes_down m (nowhere pt noncanonical_lbits va) ≡ false
unfolding goes_down pte
nowhere-stays m pt va = refl

down-same :
    (m : Memory) (v w : Vmiter)
    → descend_all v.lbits m v ≡ descend_all w.lbits m w
    → down m v ≡ down m w
unfolding down
down-same m v w e = ap (λ x. if looks_uninitialized m x then none else some x) e

in_table :
    (m : Memory) (v : Vmiter) (va : ℕ) (stepping : Bool)
    → (stepping && va == 0) ≡ false
    → in_same_table v va ≡ true
    → find_impl m v va stepping ≡ down m (step_in_table v va)
unfolding find_impl
in_table m v va stepping on same = rw (on, same) refl

pub canonical-root :
    (m : Memory) (pt va : ℕ) → va_is_canonical va ≡ true → vmiter m pt va ≡ down m (at_root pt va)
canonical-root m pt va e = rw (from_root m pt va, e) refl

pub noncanonical-root :
    (m : Memory) (pt va : ℕ)
    → va_is_canonical va ≡ false
    → vmiter m pt va ≡ down m (nowhere pt noncanonical_lbits va)
noncanonical-root m pt va e = rw (from_root m pt va, e) refl

-- A vmiter with a level below the root's was found by going down from the root.
pub found_below :
    (m : Memory) (v : Vmiter)
    → vmiter m v.pt v.va ≡ some v
    → v.lbits < 39
    → descend_all 39 m (at_root v.pt v.va) ≡ v × (va_is_canonical v.va ≡ true)
found_below m v found low = elim (Bool-cases (va_is_canonical v.va)) [
  | inl canonical ↦
      let found' = sym (canonical-root m v.pt v.va canonical) ∙ found in
      let (level, same_va) = root-fields v.pt v.va in
      (
        ap (λ n. descend_all n m (at_root v.pt v.va)) (sym level)
            ∙ down-some m (at_root v.pt v.va) v found',
        canonical,
      )
  | inr other ↦
      let lost = sym (noncanonical-root m v.pt v.va other) ∙ found in
      let stays =
        descend_all-halt 47 m (nowhere v.pt noncanonical_lbits v.va) (nowhere-stays m v.pt v.va) in
      let at : v.lbits ≡ 47 =
        ap (λ x. x.lbits)
          (sym (down-some m (nowhere v.pt noncanonical_lbits v.va) v lost) ∙ stays) in
      absurd (omega arith)
]

-- The two ways to another address in the same table.
pub same_walk :
    (m : Memory) (v : Vmiter) (va : ℕ)
    → v.pt % 4096 ≡ 0
    → v.lbits ≤ 39
    → descend_all 39 m (at_root v.pt v.va) ≡ v
    → v.va / 2 ^ (v.lbits + 9) ≡ va / 2 ^ (v.lbits + 9)
    → descend_all v.lbits m (step_in_table v va) ≡ descend_all 39 m (at_root v.pt va)
same_walk m v va aligned le found same =
    let root = at_root v.pt v.va in
    let (level, same_va) = root-fields v.pt v.va in
    let Same : Vmiter → Type 0 = λ x. x.va / 2 ^ (x.lbits + 9) ≡ va / 2 ^ (x.lbits + 9) in
    let walk =
      walk-step 39 m root va (root_placed v.pt v.va aligned) (omega (arith, level))
        (subst Same (sym found) same) in
    descend_all-fuel v.lbits 39 m (step_in_table v va) (omega (arith, step-lbits v va))
      (omega (arith, step-lbits v va))
    ∙ ap (λ x. descend_all 39 m (step_in_table x va)) (sym found)
    ∙ sym walk
    ∙ ap (descend_all 39 m) (root_step v.pt v.va va aligned)

-- A vmiter that a walk from the root has led to `v.va` moves to any other address just where a walk
-- from the root leads: staying in the current table, when the addresses differ below it only,
-- changes neither the entry, the level, nor the permissions that are found. The new address is not
-- 0 if the vmiter is stepping, and the root table is aligned.
pub find_impl-vmiter :
    (m : Memory) (v : Vmiter) (va : ℕ) (stepping : Bool)
    → vmiter m v.pt v.va ≡ some v
    → v.pt % 4096 ≡ 0
    → v.va < 2 ^ 64
    → va < 2 ^ 64
    → (stepping && va == 0) ≡ false
    → find_impl m v va stepping ≡ vmiter m v.pt va
find_impl-vmiter m v va stepping found aligned lv la on = elim (Bool-cases (in_same_table v va)) [
  | inr other ↦ other_table m v va stepping on other
  | inl same ↦
      let (low, masked) = same_table_test v va same in
      let (found', canonical) = found_below m v found low in
      let level =
        descend_all-IsLevel 39 m (at_root v.pt v.va) (inr (inr (inr (root-fields v.pt v.va).0))) in
      let level' = subst (λ x. IsLevel x.lbits) found' level in
      let agree = masked_agree v.lbits v.va va level' low lv la masked in
      let canonical' =
        sym (canonical-agree v.lbits v.va va (below_root v.lbits level' low) agree) ∙ canonical in
      in_table m v va stepping on same
      ∙ down-same m (step_in_table v va) (at_root v.pt va) (
          ap (λ n. descend_all n m (step_in_table v va)) (step-lbits v va)
          ∙ same_walk m v va aligned (omega arith) found' agree
          ∙ ap (λ n. descend_all n m (at_root v.pt va)) (sym (root-fields v.pt va).0))
      ∙ sym (canonical-root m v.pt va canonical')
]
