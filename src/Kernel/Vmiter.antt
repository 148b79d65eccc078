-- ===== src/Kernel/Vmiter.antt =====
-- pset3/k-vmiter.cc, k-vmiter.hh: vmiter, which walks the four levels of a page table and moves to
-- virtual addresses. An entry is eight bytes of memory, and an address is a 64-bit number.
pub mod Queries
pub mod Walk
pub mod Step
pub mod Range
pub mod Map
mod Tests
use Prim.Native.Nat.{bit_and, bit_or, bit_xor}
use mathlib.Core.Option
use cs61_f26_psets.Common.{
  ℕ, zero, suc, ◌+◌, ◌-◌, ◌*◌, ◌/◌, ◌%◌, ◌^◌, Bool, true, false, not, ◌&&◌, ◌||◌, Option, none,
  some, ltb, leb, ◌==◌, if◌then◌else◌,
}
use cs61_f26_psets.Common.Memory.{Memory, load}

-- x86-64.h: PAGEOFFBITS, PAGEINDEXBITS, PTE_P, PTE_W, PTE_U, PTE_PWU, PTE_PS, PTE_PAMASK
abbrev pub page_off_bits : ℕ
page_off_bits = 12

abbrev pub page_index_bits : ℕ
page_index_bits = 9

abbrev pub pte_p : ℕ
pte_p = 1

abbrev pub pte_w : ℕ
pte_w = 2

abbrev pub pte_u : ℕ
pte_u = 4

abbrev pub pte_pwu : ℕ
pte_pwu = 7

abbrev pub pte_ps : ℕ
pte_ps = 0x80

abbrev pub pte_pamask : ℕ
pte_pamask = 0x000FFFFFFFFFF000

abbrev pub va_lowmax : ℕ
va_lowmax = 0x00007FFFFFFFFFFF

abbrev pub va_highmin : ℕ
va_highmin = 0xFFFF800000000000

unfoldable pub va_is_canonical : ℕ → Bool
va_is_canonical va = leb va va_lowmax || leb va_highmin va

-- `~x` for 64 bits
abbrev pub complement : ℕ → ℕ
complement x = 2 ^ 64 - 1 - x

-- `vmiter`: a page table is its address; `pep` is the address of an entry, `none` for `zero_pe`.
pub record Vmiter : Type 0 where
  pub pt : ℕ
  pub pep : Option ℕ
  pub lbits : ℕ
  pub perm : ℕ
  pub va : ℕ

abbrev pub initial_lbits : ℕ
initial_lbits = page_off_bits + 3 * page_index_bits

abbrev pub noncanonical_lbits : ℕ
noncanonical_lbits = 47

abbrev pub done_lbits : ℕ
done_lbits = 64

abbrev pub initial_perm : ℕ
initial_perm = 0xFFF

-- `*pep_`
unfoldable pub pte : Memory → Option ℕ → ℕ
pte m none = 0
pte m (some a) = load m a 8

-- `(va >> lbits) & 0x1FF`
unfoldable pub index : ℕ → ℕ → ℕ
index va lbits = bit_and (va / 2 ^ lbits) 0x1FF

-- The test of the loop of `down`.
unfoldable pub goes_down : Memory → Vmiter → Bool
goes_down m v = ltb page_off_bits v.lbits && bit_and (pte m v.pep) (bit_or pte_p pte_ps) == pte_p

-- One round of it.
unfoldable pub descend : Memory → Vmiter → Vmiter
descend m v =
    let e = pte m v.pep in
    let lbits = v.lbits - page_index_bits in
    record v {
      perm = bit_and v.perm (bit_or e (complement pte_pwu));
      lbits = lbits;
      pep = some (bit_and e pte_pamask + 8 * index v.va lbits);
    }

-- The loop in `fuel` rounds. A round takes nine bits off, so that `lbits` rounds are enough.
unfoldable pub descend_all : ℕ → Memory → Vmiter → Vmiter
descend_all zero m v = v
descend_all (suc fuel) m v = elim (goes_down m v) [
  | true ↦ descend_all fuel m (descend m v)
  | false ↦ v
]

-- The panic behind the loop.
unfoldable pub looks_uninitialized : Memory → Vmiter → Bool
looks_uninitialized m v =
    leb 0x100000000 (bit_and (pte m v.pep) pte_pamask)
    && ltb v.lbits (page_off_bits + 2 * page_index_bits)

unfoldable pub down : Memory → Vmiter → Option Vmiter
down m v = let v' = descend_all v.lbits m v in if looks_uninitialized m v' then none else some v'

-- A step to another entry of the same table.
unfoldable pub step_in_table : Vmiter → ℕ → Vmiter
step_in_table v va = record v {
  pep = Option.map (λ p. p + 8 * index va v.lbits - 8 * (p % 2 ^ 12 / 8)) v.pep;
  va = va;
}

-- The entry of the root table.
unfoldable pub at_root : ℕ → ℕ → Vmiter
at_root pt va = record {
  pt = pt;
  pep = some (pt + 8 * index va initial_lbits);
  lbits = initial_lbits;
  perm = initial_perm;
  va = va;
}

-- `zero_pe` at the end of the iteration, or at an address that is not canonical
abbrev pub nowhere : ℕ → ℕ → ℕ → Vmiter
nowhere pt lbits va = record { pt = pt; pep = none; lbits = lbits; perm = 0; va = va }

-- The two addresses differ in no digit above the table's.
unfoldable pub in_same_table : Vmiter → ℕ → Bool
in_same_table v va =
    ltb v.lbits initial_lbits
    && bit_and (bit_xor v.va va) (complement 0 * 2 ^ (v.lbits + page_index_bits) % 2 ^ 64) == 0

unfoldable pub find_impl : Memory → Vmiter → ℕ → Bool → Option Vmiter
find_impl m v va stepping =
    if stepping && va == 0
    then down m (nowhere v.pt done_lbits va)
    else if in_same_table v va
    then down m (step_in_table v va)
    else if not (va_is_canonical va)
    then down m (nowhere v.pt noncanonical_lbits va)
    else down m (at_root v.pt va)

-- `vmiter(pt, va)`
unfoldable pub vmiter : Memory → ℕ → ℕ → Option Vmiter
vmiter m pt va =
    find_impl m
      (record { pt = pt; pep = some pt; lbits = initial_lbits; perm = initial_perm; va = 0 }) va
      false
