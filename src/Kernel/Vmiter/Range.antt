-- ===== src/Kernel/Vmiter/Range.antt =====
-- The range of addresses behind a vmiter that one entry maps.
use Prim.Native.Nat.{bit_and, bit_or}
use cs61_f26_psets.Common.{
  ℕ, zero, suc, ◌+◌, ◌-◌, ◌*◌, ◌/◌, ◌%◌, ◌^◌, ◌≤◌, ◌<◌, ◌≡◌, inl, inr, refl, sym, ap, subst, ◌∙◌,
  true, false, some, ◌==◌, arith, Bool-cases,
}
use cs61_f26_psets.Common.Bits.{and-odd, and_none, mask_low, set_low}
use cs61_f26_psets.Common.Memory.{Memory}
use cs61_f26_psets.Kernel.Vmiter.{
  Vmiter, at_root, descend, descend_all, down, pte, goes_down, looks_uninitialized,
  noncanonical_lbits, nowhere, step_in_table, va_is_canonical, vmiter,
}
use cs61_f26_psets.Kernel.Vmiter.Queries.{
  find, forward, last_va, pa, permissions, permits, present, range_size,
}
use cs61_f26_psets.Kernel.Vmiter.Walk.{
  IsPlaced, agree-at, agree-up, descend-IsPlaced, descend_all-go, descend_all-halt, down-some,
  down-stops, step_to,
}
use cs61_f26_psets.Kernel.Vmiter.Step.{
  IsLevel, canonical-root, descend_all-IsLevel, find_impl-vmiter, noncanonical-root, nowhere-stays,
  root-fields, root_placed, same_walk,
}

-- The last address of a range is 2 ^ 64 - 1, or its end is a number of 64 bits.
abbrev RangeHas : ℕ → ℕ → ℕ → Type 0
RangeHas va n l =
    n < ((bit_or va (2 ^ l - 1) + 1) % 2 ^ 64 + 2 ^ 64 - va) % 2 ^ 64
    → (va + n < 2 ^ 64) × ((va + n) / 2 ^ l ≡ va / 2 ^ l) × ((va + n) % 2 ^ l ≡ va % 2 ^ l + n)

range_has : (va n l : ℕ) → IsLevel l → va < 2 ^ 64 → RangeHas va n l
range_has va n l level lt = elim level [
  | inl e ↦ subst (RangeHas va n) (sym e) (λ h. (
    omega (arith, set_low 12 va, h),
    omega (arith, set_low 12 va, h),
    omega (arith, set_low 12 va, h),
  ))
  | inr (inl e) ↦ subst (RangeHas va n) (sym e) (λ h. (
    omega (arith, set_low 21 va, h),
    omega (arith, set_low 21 va, h),
    omega (arith, set_low 21 va, h),
  ))
  | inr (inr (inl e)) ↦ subst (RangeHas va n) (sym e) (λ h. (
    omega (arith, set_low 30 va, h),
    omega (arith, set_low 30 va, h),
    omega (arith, set_low 30 va, h),
  ))
  | inr (inr (inr e)) ↦ subst (RangeHas va n) (sym e) (λ h. (
    omega (arith, set_low 39 va, h),
    omega (arith, set_low 39 va, h),
    omega (arith, set_low 39 va, h),
  ))
]

descend_all-IsPlaced : (f : ℕ) (m : Memory) (v : Vmiter) → IsPlaced v → IsPlaced (descend_all f m v)
unfolding descend_all
descend_all-IsPlaced zero m v p = p
descend_all-IsPlaced (suc f) m v p = elim (Bool-cases (goes_down m v)) [
  | inr stop ↦ rw (descend_all-halt (suc f) m v stop) p
  | inl go ↦
      rw (descend_all-go f m v go) (descend_all-IsPlaced f m (descend m v) (descend-IsPlaced m v))
]

-- What is known of a vmiter at an address that is canonical.
record IsFound (m : Memory) (v : Vmiter) : Type 0 where
  canonical : va_is_canonical v.va ≡ true
  walk : descend_all 39 m (at_root v.pt v.va) ≡ v
  level : IsLevel v.lbits
  placed : IsPlaced v
  stops : goes_down m v ≡ false
  safe : looks_uninitialized m v ≡ false

nowhere-absent : (m : Memory) (pt va : ℕ) → present m (nowhere pt noncanonical_lbits va) ≡ false
unfolding present permits permissions pte
nowhere-absent m pt va = refl

down-safe : (m : Memory) (v v' : Vmiter) → down m v ≡ some v' → looks_uninitialized m v' ≡ false
unfolding down
down-safe m v v' e = ground (arith, e)

present-canonical :
    (m : Memory) (v : Vmiter)
    → vmiter m v.pt v.va ≡ some v
    → present m v ≡ true
    → va_is_canonical v.va ≡ true
present-canonical m v found here = elim (Bool-cases (va_is_canonical v.va)) [
  | inl canonical ↦ canonical
  | inr other ↦
      let lost = sym (noncanonical-root m v.pt v.va other) ∙ found in
      let stays =
        descend_all-halt 47 m (nowhere v.pt noncanonical_lbits v.va) (nowhere-stays m v.pt v.va) in
      let is : nowhere v.pt noncanonical_lbits v.va ≡ v =
        sym stays ∙ down-some m (nowhere v.pt noncanonical_lbits v.va) v lost in
      absurd (ground (arith, here, ap (present m) is, nowhere-absent m v.pt v.va))
]

vmiter-IsFound :
    (m : Memory) (v : Vmiter)
    → vmiter m v.pt v.va ≡ some v
    → v.pt % 4096 ≡ 0
    → va_is_canonical v.va ≡ true
    → IsFound m v
vmiter-IsFound m v found aligned canonical =
    let root = at_root v.pt v.va in
    let (at39, same_va) = root-fields v.pt v.va in
    let from = sym (canonical-root m v.pt v.va canonical) ∙ found in
    let walk = ap (λ n. descend_all n m root) (sym at39) ∙ down-some m root v from in
    record {
      canonical = canonical;
      walk = walk;
      level =
          subst (λ x. IsLevel x.lbits) walk (descend_all-IsLevel 39 m root (inr (inr (inr at39))));
      placed = subst IsPlaced walk (descend_all-IsPlaced 39 m root (root_placed v.pt v.va aligned));
      stops = down-stops m root v from;
      safe = down-safe m root v from;
    }

pub down-found :
    (m : Memory) (v w : Vmiter)
    → descend_all v.lbits m v ≡ w
    → looks_uninitialized m w ≡ false
    → down m v ≡ some w
unfolding down
down-found m v w e safe = rw (e, safe) refl

canonical-same :
    (l a b : ℕ) → l ≤ 39 → a / 2 ^ l ≡ b / 2 ^ l → va_is_canonical a ≡ va_is_canonical b
unfolding va_is_canonical
canonical-same l a b le e =
    let top : a / 2 ^ 39 ≡ b / 2 ^ 39 =
      subst (λ n. a / 2 ^ n ≡ b / 2 ^ n) {y = 39} (omega arith) (agree-up (39 - l) l a b e) in
    ground (arith, top)

-- An address with the same digits above the vmiter's has the same entry.
readdress_lem :
    (m : Memory) (v : Vmiter) (va : ℕ)
    → IsFound m v
    → v.pt % 4096 ≡ 0
    → va / 2 ^ v.lbits ≡ v.va / 2 ^ v.lbits
    → vmiter m v.pt va ≡ some (record v { va = va })
unfolding goes_down looks_uninitialized
readdress_lem m v va h aligned same =
    let w : Vmiter = record v { va = va } in
    let root = at_root v.pt va in
    let at39 = (root-fields v.pt va).0 in
    let p = h.placed in
    let le : v.lbits ≤ 39 = ground (arith, h.level) in
    let here : step_in_table v va ≡ w =
      step_to v va p
      ∙ ap (λ a. record v { pep = a; va = va })
          (ap (λ i. some (p.table + 8 * i)) (agree-at v.lbits v.lbits va v.va (omega arith) same)
            ∙ sym p.at) in
    let agree : v.va / 2 ^ (v.lbits + 9) ≡ va / 2 ^ (v.lbits + 9) =
      subst (λ n. v.va / 2 ^ n ≡ va / 2 ^ n) (omega arith)
        (agree-up 9 v.lbits v.va va (sym same)) in
    let walk : descend_all root.lbits m root ≡ w =
      ap (λ n. descend_all n m root) at39
      ∙ sym (same_walk m v va aligned le h.walk agree)
      ∙ ap (descend_all v.lbits m) here
      ∙ descend_all-halt v.lbits m w h.stops in
    canonical-root m v.pt va (canonical-same v.lbits va v.va le same ∙ h.canonical)
    ∙ down-found m root w walk h.safe

pub find-walk :
    (m : Memory) (v : Vmiter) (va : ℕ)
    → vmiter m v.pt v.va ≡ some v
    → v.pt % 4096 ≡ 0
    → v.va < 2 ^ 64
    → va < 2 ^ 64
    → find m v va ≡ vmiter m v.pt va
unfolding find
find-walk m v va found aligned lv lt = elim (Bool-cases (va == v.va)) [
  | inl same ↦ rw (same) (sym (ap (vmiter m v.pt) (ground (arith, same)) ∙ found))
  | inr other ↦ rw (other) (find_impl-vmiter m v va false found aligned lv lt refl)
]

present_bit : (m : Memory) (v : Vmiter) → present m v ≡ true → pte m v.pep % 2 ≡ 1
unfolding present permits permissions
present_bit m v here = elim (Bool-cases (pte m v.pep % 2 == 1)) [
  | inl odd ↦ ground (arith, odd)
  | inr even ↦
      let ph = bit_and (pte m v.pep) v.perm in
      let zero_bit : pte m v.pep % 2 ≡ 0 = ground (arith, even) in
      let low : ph % 2 ≡ 0 = omega (arith, zero_bit, and-odd (pte m v.pep) v.perm) in
      let none_set : bit_and ph 1 ≡ 0 = mask_low 1 ph ∙ low in
      let nothing : permissions m v ≡ 0 = rw (none_set) (and_none ph) in
      absurd (ground (arith, ap (λ p. bit_and p 1 == 1) nothing, here))
]

pa-offset :
    (m : Memory) (v : Vmiter) (va : ℕ)
    → present m v ≡ true
    → pa m v + va % 2 ^ v.lbits ≡ pa m (record v { va = va }) + v.va % 2 ^ v.lbits
unfolding pa
pa-offset m v va here =
    let bit : (bit_and (pte m v.pep) 1 == 0) ≡ false =
      ground (arith, mask_low 1 (pte m v.pep), present_bit m v here) in
    rw (bit) (omega (arith, mask_low v.lbits va, mask_low v.lbits v.va))

range_size_level :
    (v : Vmiter)
    → IsLevel v.lbits
    → range_size v ≡ ((bit_or v.va (2 ^ v.lbits - 1) + 1) % 2 ^ 64 + 2 ^ 64 - v.va) % 2 ^ 64
unfolding range_size last_va
range_size_level v level =
    let ordinary : (v.lbits == 47) ≡ false = ground (arith, level) in rw (ordinary) refl

-- From a vmiter that a walk from the root has led to a mapped address, every address in the range
-- that the vmiter reports, `n < range_size()`, is reached without wrapping around, by the same
-- entry, and is mapped to the physical address that lies `n` bytes further.
pub forward-pa :
    (m : Memory) (v : Vmiter) (n : ℕ)
    → vmiter m v.pt v.va ≡ some v
    → v.pt % 4096 ≡ 0
    → v.va < 2 ^ 64
    → present m v ≡ true
    → n < range_size v
    → (v.va + n < 2 ^ 64)
      × (forward m v n ≡ some (record v { va = v.va + n }))
      × (pa m (record v { va = v.va + n }) ≡ pa m v + n)
unfolding forward
forward-pa m v n found aligned lt here within =
    let h = vmiter-IsFound m v found aligned (present-canonical m v found here) in
    let (fits, same, offset) =
      range_has v.va n v.lbits h.level lt
        (subst (λ r. n < r) (range_size_level v h.level) within) in
    let there : (v.va + n) % 2 ^ 64 ≡ v.va + n = omega (arith, fits) in
    let reach =
      ap (find m v) there
      ∙ find-walk m v (v.va + n) found aligned lt fits
      ∙ readdress_lem m v (v.va + n) h aligned same in
    (fits, reach, omega (arith, offset, pa-offset m v (v.va + n) here))
