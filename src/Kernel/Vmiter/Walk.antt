-- ===== src/Kernel/Vmiter/Walk.antt =====
-- An iterator that moves inside one table is where a walk from the root would have led it.
use Prim.Native.Nat.{bit_and}
use native.Mathlib.Nat.{div-div-eq-div-mul}
use cs61_f26_psets.Common.{
  ℕ, zero, suc, ◌+◌, ◌-◌, ◌*◌, ◌/◌, ◌%◌, ◌^◌, ◌≤◌, ◌<◌, ◌≡◌, inl, inr, refl, sym, ap, subst, ◌∙◌,
  true, false, some, arith, Bool-cases,
}
use cs61_f26_psets.Common.Bits.{mask_low, mask_high}
use cs61_f26_psets.Common.Memory.{Memory}
use cs61_f26_psets.Kernel.Vmiter.{
  Vmiter, descend, descend_all, down, pte, goes_down, index, pte_pamask, step_in_table,
}

pub goes_down-high : (m : Memory) (v : Vmiter) → goes_down m v ≡ true → 12 < v.lbits
unfolding goes_down
goes_down-high m v e = ground (arith, e)

pub descend-lbits : (m : Memory) (v : Vmiter) → (descend m v).lbits ≡ v.lbits - 9
unfolding descend
descend-lbits m v = refl

pub descend-va : (m : Memory) (v : Vmiter) → (descend m v).va ≡ v.va
unfolding descend
descend-va m v = refl

pub descend_all-go :
    (f : ℕ) (m : Memory) (v : Vmiter)
    → goes_down m v ≡ true
    → descend_all (suc f) m v ≡ descend_all f m (descend m v)
unfolding descend_all
descend_all-go f m v e = rw (descend_all, e) refl

pub descend_all-halt :
    (f : ℕ) (m : Memory) (v : Vmiter) → goes_down m v ≡ false → descend_all f m v ≡ v
unfolding descend_all
descend_all-halt zero m v e = refl
descend_all-halt (suc f) m v e = rw (descend_all, e) refl

pub pred_of : (g : ℕ) → 0 < g → (g' : ℕ) × (g ≡ suc g')
pred_of zero lt = absurd (omega arith)
pred_of (suc g) lt = (g, refl)

-- Enough rounds are enough.
pub descend_all-fuel :
    (f g : ℕ) (m : Memory) (v : Vmiter)
    → v.lbits ≤ f
    → v.lbits ≤ g
    → descend_all f m v ≡ descend_all g m v
descend_all-fuel zero g m v le le' = elim (Bool-cases (goes_down m v)) [
  | inr stop ↦ descend_all-halt zero m v stop ∙ sym (descend_all-halt g m v stop)
  | inl go ↦ absurd (omega (arith, goes_down-high m v go))
]
descend_all-fuel (suc f) g m v le le' = elim (Bool-cases (goes_down m v)) [
  | inr stop ↦ descend_all-halt (suc f) m v stop ∙ sym (descend_all-halt g m v stop)
  | inl go ↦
      let high = goes_down-high m v go in
      let lower = descend-lbits m v in
      let (g', e) = pred_of g (omega arith) in
      descend_all-go f m v go
      ∙ descend_all-fuel f g' m (descend m v) (omega arith) (omega arith)
      ∙ sym (descend_all-go g' m v go)
      ∙ ap (λ n. descend_all n m v) (sym e)
]

descend_all-stops :
    (f : ℕ) (m : Memory) (v : Vmiter) → v.lbits ≤ f → goes_down m (descend_all f m v) ≡ false
descend_all-stops zero m v le = elim (Bool-cases (goes_down m v)) [
  | inr stop ↦ rw (descend_all-halt zero m v stop) stop
  | inl go ↦ absurd (omega (arith, goes_down-high m v go))
]
descend_all-stops (suc f) m v le = elim (Bool-cases (goes_down m v)) [
  | inr stop ↦ rw (descend_all-halt (suc f) m v stop) stop
  | inl go ↦ rw (descend_all-go f m v go) (
      descend_all-stops f m (descend m v) (omega (arith, goes_down-high m v go, descend-lbits m v)))
]

pub down-some : (m : Memory) (v v' : Vmiter) → down m v ≡ some v' → descend_all v.lbits m v ≡ v'
unfolding down
down-some m v v' e = ground (arith, e)

-- The loop of `down` stops: where it ends, there is no table to go down to.
pub down-stops : (m : Memory) (v v' : Vmiter) → down m v ≡ some v' → goes_down m v' ≡ false
down-stops m v v' e =
    subst (λ x. goes_down m x ≡ false) (down-some m v v' e)
      (descend_all-stops v.lbits m v (omega arith))

-- The iterator stands at the entry of its address in some page.
pub record IsPlaced (v : Vmiter) : Type 0 where
  pub table : ℕ
  pub aligned : table % 4096 ≡ 0
  pub at : v.pep ≡ some (table + 8 * index v.va v.lbits)

pub index-bound : (va l : ℕ) → index va l < 512
unfolding index
index-bound va l = omega (arith, mask_low 9 (va / 2 ^ l))

pub page-aligned : (e : ℕ) → bit_and e pte_pamask % 4096 ≡ 0
page-aligned e = omega (arith, mask_high 12 (2 ^ 40 - 1) e)

abbrev pub descend-IsPlaced : (m : Memory) (v : Vmiter) → IsPlaced (descend m v)
unfolding descend
descend-IsPlaced m v = record {
  table = bit_and (pte m v.pep) pte_pamask;
  aligned = page-aligned (pte m v.pep);
  at = refl;
}

-- Where a step inside the table leads.
pub step_to :
    (v : Vmiter) (va : ℕ) (p : IsPlaced v)
    → step_in_table v va ≡ record v { pep = some (p.table + 8 * index va v.lbits); va = va }
unfolding step_in_table
step_to v va p =
    let bound = index-bound v.va v.lbits in
    rw (p.at) (ap (λ a. record v { pep = some a; va = va }) (omega (arith, p.aligned, bound)))

power-div : (k x : ℕ) → x / 2 ^ suc k ≡ x / 2 ^ k / 2
power-div k x = ap (λ m. x / m) (omega arith) ∙ sym (div-div-eq-div-mul x (2 ^ k) 2)

-- Addresses that agree above `k` digits agree above more.
pub agree-up : (d k a b : ℕ) → a / 2 ^ k ≡ b / 2 ^ k → a / 2 ^ (d + k) ≡ b / 2 ^ (d + k)
agree-up zero k a b e = subst (λ n. a / 2 ^ n ≡ b / 2 ^ n) (omega arith) e
agree-up (suc d) k a b e =
    let next : a / 2 ^ suc (d + k) ≡ b / 2 ^ suc (d + k) =
      power-div (d + k) a ∙ ap (λ x. x / 2) (agree-up d k a b e) ∙ sym (power-div (d + k) b) in
    subst (λ n. a / 2 ^ n ≡ b / 2 ^ n) (omega arith) next

pub agree-at : (k l a b : ℕ) → k ≤ l → a / 2 ^ k ≡ b / 2 ^ k → index a l ≡ index b l
unfolding index
agree-at k l a b le e =
    ap (λ x. bit_and x 0x1FF)
      (subst (λ n. a / 2 ^ n ≡ b / 2 ^ n) (omega arith) (agree-up (l - k) k a b e))

pub descend_all-keeps :
    (f : ℕ) (m : Memory) (v : Vmiter)
    → let v' = descend_all f m v in (v'.lbits ≤ v.lbits) × (v'.va ≡ v.va) × (v'.pt ≡ v.pt)
unfolding descend_all descend
descend_all-keeps zero m v = (omega arith, refl, refl)
descend_all-keeps (suc f) m v = elim (Bool-cases (goes_down m v)) [
  | inr stop ↦ rw (descend_all-halt (suc f) m v stop) (omega arith, refl, refl)
  | inl go ↦
      let (lower, same_va, same_pt) = descend_all-keeps f m (descend m v) in
      rw (descend_all-go f m v go) (omega (arith, lower), same_va, same_pt)
]

-- The same tables lead to another address, if it needs the same entries of all of them.
descend-other :
    (m : Memory) (w : Vmiter) (va : ℕ) (p : IsPlaced w)
    → index w.va w.lbits ≡ index va w.lbits
    → goes_down m w ≡ true
    → (goes_down m (step_in_table w va) ≡ true)
      × (descend m (step_in_table w va) ≡ step_in_table (descend m w) va)
unfolding goes_down descend
descend-other m w va p same go =
    let here : step_in_table w va ≡ record w { va = va } =
      step_to w va p
      ∙ ap (λ a. record w { pep = a; va = va })
          (ap (λ i. some (p.table + 8 * i)) (sym same) ∙ sym p.at) in
    rw (here) (go, sym (step_to (descend m w) va (descend-IsPlaced m w)))

descend_all-zero : (m : Memory) (v : Vmiter) → descend_all zero m v ≡ v
unfolding descend_all
descend_all-zero m v = refl

pub step-lbits : (v : Vmiter) (va : ℕ) → (step_in_table v va).lbits ≡ v.lbits
unfolding step_in_table
step-lbits v va = refl

-- A step inside the table that a walk ends in, and the walk to the new address.
pub walk-step :
    (f : ℕ) (m : Memory) (w : Vmiter) (va : ℕ) (p : IsPlaced w)
    → w.lbits ≤ f
    → let v = descend_all f m w in
      v.va / 2 ^ (v.lbits + 9) ≡ va / 2 ^ (v.lbits + 9)
      → descend_all f m (step_in_table w va) ≡ descend_all f m (step_in_table v va)
walk-step zero m w va p le same =
    ap (λ v. descend_all zero m (step_in_table v va)) (sym (descend_all-zero m w))
walk-step (suc f) m w va p le same = elim (Bool-cases (goes_down m w)) [
  | inr stop ↦ rw (descend_all-halt (suc f) m w stop) refl
  | inl go ↦
      let w' = descend m w in
      let v = descend_all f m w' in
      let to = descend_all-go f m w go in
      let same' : v.va / 2 ^ (v.lbits + 9) ≡ va / 2 ^ (v.lbits + 9) =
        subst (λ v. v.va / 2 ^ (v.lbits + 9) ≡ va / 2 ^ (v.lbits + 9)) to same in
      let (lower, same_va, same_pt) = descend_all-keeps f m w' in
      let high = goes_down-high m w go in
      let lbits' = descend-lbits m w in
      let same_index : index w.va w.lbits ≡ index va w.lbits =
        agree-at (v.lbits + 9) w.lbits w.va va (omega (arith, lower, lbits', high))
          (ap (λ a. a / 2 ^ (v.lbits + 9)) (sym (same_va ∙ descend-va m w)) ∙ same') in
      let (go', next) = descend-other m w va p same_index go in
      descend_all-go f m (step_in_table w va) go'
      ∙ ap (descend_all f m) next
      ∙ walk-step f m w' va (descend-IsPlaced m w) (omega arith) same'
      ∙ descend_all-fuel f (suc f) m (step_in_table v va) (omega (arith, step-lbits v va))
          (omega (arith, step-lbits v va))
      ∙ ap (λ v. descend_all (suc f) m (step_in_table v va)) (sym to)
]
