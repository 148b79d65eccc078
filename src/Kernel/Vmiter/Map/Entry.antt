-- ===== src/Kernel/Vmiter/Map/Entry.antt =====
-- try_map as a whole: it runs out of memory, or the address is mapped.
use Prim.Native.Nat.{bit_and, bit_or}
use cs61_f26_psets.Common.{
  ℕ, zero, suc, ◌+◌, ◌-◌, ◌*◌, ◌/◌, ◌%◌, ◌^◌, ◌<◌, ◌≡◌, ◌≢◌, ◌⊎◌, inl, inr, refl, sym, ap, subst,
  ◌∙◌, true, false, not, ◌&&◌, some, ltb, ◌==◌, if◌then◌else◌, arith, Bool-cases,
}
use cs61_f26_psets.Common.Bits.{and-below, and-odd, mask_low, mask_high, join}
use cs61_f26_psets.Common.Memory.{load-store_number, store_number}
use cs61_f26_psets.Kernel.State.{Kernel, n_pages}
use cs61_f26_psets.Kernel.Alloc.{is_free}
use cs61_f26_psets.Kernel.Vmiter.{Vmiter, complement, pte, pte_pamask}
use cs61_f26_psets.Kernel.Vmiter.Queries.{pa, permissions}
use cs61_f26_psets.Kernel.Vmiter.Map.{
  MapResult, mapped, no_memory, finish_map, map_tables, may_map, new_table, try_map,
}
use cs61_f26_psets.Kernel.Vmiter.Map.Round.{IsOpen, new_table-lem, set_entry-some}

-- No page is left, or the iterator is at the last level of the same address.
abbrev Reaches : ℕ → Vmiter → MapResult → Type 0
Reaches kernel_end v r =
    ((k' : Kernel) × (v' : Vmiter) × (r ≡ no_memory k' v')
      × ((j : ℕ) → j < n_pages → is_free kernel_end k' j ≡ false))
    ⊎ ((k' : Kernel) × (v' : Vmiter) × (r ≡ mapped k' v')
        × IsOpen kernel_end k' v'
        × (v'.lbits ≡ 12)
        × (v'.va ≡ v.va)
        × (v'.perm ≡ v.perm))

-- What a round leaves reaches what the round's start does.
Reaches-trans :
    (kernel_end : ℕ) (v v' : Vmiter) (r : MapResult)
    → v'.va ≡ v.va
    → v'.perm ≡ v.perm
    → Reaches kernel_end v' r
    → Reaches kernel_end v r
Reaches-trans kernel_end v v' r va perm (inl e) = inl e
Reaches-trans kernel_end v v' r va perm (inr (k, v'', e, h, last, va', perm')) =
    inr (k, v'', e, h, last, va' ∙ va, perm' ∙ perm)

module _ (kernel_end fuel : ℕ) (k : Kernel) (v : Vmiter) (perm : ℕ) where
  no_round : ltb 12 v.lbits ≡ false → map_tables kernel_end (suc fuel) k v perm ≡ mapped k v
  unfolding map_tables
  no_round low = rw (map_tables, low) refl

  round_without_memory :
      (ltb 12 v.lbits && not (perm == 0)) ≡ true
      → new_table kernel_end k v ≡ no_memory k v
      → map_tables kernel_end (suc fuel) k v perm ≡ no_memory k v
  unfolding map_tables
  round_without_memory wanted e = rw (map_tables, wanted, e) refl

  round :
      (k' : Kernel) (v' : Vmiter)
      → (ltb 12 v.lbits && not (perm == 0)) ≡ true
      → new_table kernel_end k v ≡ mapped k' v'
      → map_tables kernel_end (suc fuel) k v perm ≡ map_tables kernel_end fuel k' v' perm
  unfolding map_tables
  round k' v' wanted e = rw (map_tables, wanted, e) refl

map_tables_lem :
    (kernel_end fuel : ℕ) (k : Kernel) (v : Vmiter) (perm : ℕ)
    → IsOpen kernel_end k v
    → v.perm < 2 ^ 64
    → perm ≢ 0
    → v.lbits < fuel
    → Reaches kernel_end v (map_tables kernel_end fuel k v perm)
map_tables_lem kernel_end zero k v perm h small some_perm lt = absurd (omega (arith, lt))
map_tables_lem kernel_end (suc fuel) k v perm h small some_perm lt =
    elim (Bool-cases (ltb 12 v.lbits)) [
      | inr low ↦
          let last : v.lbits ≡ 12 = ground (arith, h.level, low) in
          inr (k, v, no_round kernel_end fuel k v perm low, h, last, refl, refl)
      | inl high ↦
          let wanted : (ltb 12 v.lbits && not (perm == 0)) ≡ true =
            ground (arith, high, some_perm) in
          elim (new_table-lem kernel_end k v h (ground (arith, high)) small) [
            | inl (none_free, e) ↦
                inl (k, v, round_without_memory kernel_end fuel k v perm wanted e, none_free)
            | inr (k', v', e, goes) ↦
                let rest =
                  map_tables_lem kernel_end fuel k' v' perm goes.still_open
                    (omega (arith, goes.same_perm, small)) some_perm
                    (ground (arith, goes.next_level, high, lt)) in
                subst (Reaches kernel_end v) (sym (round kernel_end fuel k v perm k' v' wanted e)) (
                  Reaches-trans kernel_end v v' (map_tables kernel_end fuel k' v' perm) goes.same_va
                    goes.same_perm rest)
          ]
    ]

-- What the assertions say of a mapping that is present.
assertions :
    (v : Vmiter) (addr perm : ℕ)
    → may_map v addr perm ≡ true
    → perm % 2 ≡ 1
    → v.perm < 2 ^ 64
    → (v.va % 4096 ≡ 0) × (bit_and addr pte_pamask ≡ addr) × (v.perm % 2 ≡ 1)
unfolding may_map
assertions v addr perm may odd small =
    let bit : (bit_and perm 1 == 0) ≡ false = ground (arith, mask_low 1 perm, odd) in
    let denied = bit_and perm (complement v.perm) in
    let none_denied : bit_and denied 7 ≡ 0 = ground (arith, may) in
    (
      ground (arith, may),
      ground (arith, may, bit),
      omega (arith, none_denied, mask_low 3 denied, and-odd perm (complement v.perm), odd, small),
    )

entry_parts :
    (addr perm : ℕ)
    → bit_and addr pte_pamask ≡ addr
    → perm < 4096
    → (bit_or addr perm ≡ addr + perm)
      × (bit_and (addr + perm) pte_pamask ≡ addr)
      × (addr + perm < 2 ^ 52)
      × (addr % 2 ≡ 0)
entry_parts addr perm aligned small =
    let q = addr / 4096 in
    let masked : 4096 * (q % 2 ^ 40) ≡ addr =
      omega (arith, mask_high 12 (2 ^ 40 - 1) addr, mask_low 40 q, aligned) in
    let whole : 4096 * q ≡ addr = omega (arith, masked) in
    (
      omega (arith, ap (λ t. bit_or t perm) whole, join 12 q perm small),
      omega (
        arith,
        mask_high 12 (2 ^ 40 - 1) (addr + perm),
        mask_low 40 ((addr + perm) / 4096),
        masked,
      ),
      omega (arith, masked),
      omega (arith, masked),
    )

-- What an iterator at the last level says of an entry.
mapped_entry :
    (k : Kernel) (v : Vmiter) (addr perm : ℕ)
    → pte k.memory v.pep ≡ bit_or addr perm
    → v.lbits ≡ 12
    → v.va % 4096 ≡ 0
    → bit_and addr pte_pamask ≡ addr
    → perm < 4096
    → perm % 2 ≡ 1
    → v.perm % 2 ≡ 1
    → (pa k.memory v ≡ addr) × (permissions k.memory v ≡ bit_and (bit_or addr perm) v.perm)
unfolding pa permissions
mapped_entry k v addr perm is last at_page aligned small odd perm_odd =
    let e = pte k.memory v.pep in
    let (joined, base, bound, even) = entry_parts addr perm aligned small in
    let value : e ≡ addr + perm = is ∙ joined in
    let bit : (bit_and e 1 == 0) ≡ false = ground (arith, mask_low 1 e, value, odd, even) in
    let at_last : ltb 12 v.lbits ≡ false = ground (arith, last) in
    let offset : bit_and v.va (2 ^ v.lbits - 1) ≡ 0 =
      mask_low v.lbits v.va ∙ subst (λ l. v.va % 2 ^ l ≡ 0) (sym last) at_page in
    let ph = bit_and e v.perm in
    let low : bit_and ph 1 ≡ 1 =
      omega (arith, mask_low 1 ph, and-odd e v.perm, value, even, odd, perm_odd) in
    let ph_bound : ph < 2 ^ 64 = and-below 64 e v.perm (omega (arith, value, bound)) in
    (
      rw (bit, at_last) (omega (arith, offset, ap (λ x. bit_and x pte_pamask) value, base)),
      rw (low) (mask_low 64 ph ∙ omega (arith, ph_bound) ∙ ap (λ x. bit_and x v.perm) is),
    )

-- The entry that is written.
written :
    (k : Kernel) (v : Vmiter) (a addr perm : ℕ)
    → v.pep ≡ some a
    → bit_and addr pte_pamask ≡ addr
    → perm < 4096
    → pte (store_number k.memory a (bit_or addr perm) 8) v.pep ≡ bit_or addr perm
unfolding pte
written k v a addr perm is_at aligned small =
    let (joined, base, bound, even) = entry_parts addr perm aligned small in
    rw (is_at) (load-store_number k.memory a (bit_or addr perm) 8 (omega (arith, joined, bound)))

pub finish_map-last :
    (k : Kernel) (v : Vmiter) (a addr perm : ℕ)
    → v.lbits ≡ 12
    → v.pep ≡ some a
    → finish_map (mapped k v) addr perm
      ≡ mapped (record k { memory = store_number k.memory a (bit_or addr perm) 8 }) v
unfolding finish_map
finish_map-last k v a addr perm last is_at =
    let test : (v.lbits == 12) ≡ true = ground (arith, last) in
    let set = set_entry-some k v.pep a (bit_or addr perm) is_at in rw (test, set) refl

-- vmiter::try_map of a page-aligned physical address `addr` with permissions that have PTE_P, where
-- the code's assertions hold, the missing tables start at an entry that has none, and the entry of the
-- iterator lies in no page that is free, fails only when no page of memory is allocatable and not in
-- use. Otherwise the iterator ends at the last level of the same address, which is mapped to `addr`,
-- with those of the permissions that the tables above it allow. Neither an assertion of the loop nor
-- a panic stops it, and the loop ends.
pub try_map_lem :
    (kernel_end : ℕ) (k : Kernel) (v : Vmiter) (addr perm : ℕ)
    → IsOpen kernel_end k v
    → may_map v addr perm ≡ true
    → perm % 2 ≡ 1
    → perm < 4096
    → v.perm < 2 ^ 64
    → ((k' : Kernel) × (v' : Vmiter) × (try_map kernel_end k v addr perm ≡ no_memory k' v')
        × ((j : ℕ) → j < n_pages → is_free kernel_end k' j ≡ false))
      ⊎ ((k' : Kernel) × (v' : Vmiter) × (try_map kernel_end k v addr perm ≡ mapped k' v')
          × (v'.lbits ≡ 12)
          × (v'.va ≡ v.va)
          × (pa k'.memory v' ≡ addr)
          × (permissions k'.memory v' ≡ bit_and (bit_or addr perm) v.perm))
unfolding try_map finish_map
try_map_lem kernel_end k v addr perm h may odd small perm_small =
    let (at_page, aligned, perm_odd) = assertions v addr perm may odd perm_small in
    let unchanged : (if addr == 2 ^ 64 - 1 && perm == 0 then 0 else addr) ≡ addr =
      ground (arith, odd) in
    let some_perm : perm ≢ 0 = λ none. ground (arith, odd, none) in
    elim (map_tables_lem kernel_end (suc v.lbits) k v perm h perm_small some_perm (omega arith)) [
      | inl (k', v', e, none_free) ↦ inl (k', v', rw (unchanged, may, e) refl, none_free)
      | inr (k', v', e, at_end, last, same_va, same_perm) ↦
          let k'' : Kernel = record k' {
            memory = store_number k'.memory at_end.at (bit_or addr perm) 8;
          } in
          let entry_is = written k' v' at_end.at addr perm at_end.is_at aligned small in
          let (at_addr, allows) =
            mapped_entry k'' v' addr perm entry_is last (omega (arith, same_va, at_page)) aligned
              small odd (omega (arith, same_perm, perm_odd)) in
          inr (
            k'',
            v',
            rw (unchanged, may, e) (finish_map-last k' v' at_end.at addr perm last at_end.is_at),
            last,
            same_va,
            at_addr,
            allows ∙ ap (bit_and (bit_or addr perm)) same_perm,
          )
    ]
