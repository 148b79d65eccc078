-- ===== src/Kernel/Vmiter/Queries.antt =====
-- pset3/k-vmiter.hh, k-vmiter.cc: what a vmiter says of its address and of the range behind it, and
-- its moves along ranges.
use Prim.Native.Nat.{bit_and, bit_or, min}
use mathlib.Core.Option
use cs61_f26_psets.Common.{
  ℕ, zero, suc, ◌+◌, ◌-◌, ◌%◌, ◌^◌, Bool, true, false, ◌&&◌, ◌||◌, Option, some, ltb, leb, ◌==◌,
  if◌then◌else◌,
}
use cs61_f26_psets.Common.Memory.{Memory}
use cs61_f26_psets.Kernel.Vmiter.{
  Vmiter, complement, done_lbits, pte, find_impl, noncanonical_lbits, page_off_bits, pte_p,
  pte_pamask, pte_u, pte_w, va_highmin, va_lowmax,
}

-- `lbits_mask`, for at most 64 bits
abbrev pub lbits_mask : ℕ → ℕ
lbits_mask lbits = 2 ^ lbits - 1

unfoldable pub last_va : Vmiter → ℕ
last_va v =
    if v.lbits == noncanonical_lbits
    then va_highmin
    else (bit_or v.va (lbits_mask v.lbits) + 1) % 2 ^ 64

unfoldable pub range_size : Vmiter → ℕ
range_size v = (last_va v + 2 ^ 64 - v.va) % 2 ^ 64

unfoldable pub low : Vmiter → Bool
low v = leb v.va va_lowmax

unfoldable pub done : Vmiter → Bool
done v = v.lbits == done_lbits

-- `pa()`; -1 is 2 ^ 64 - 1
unfoldable pub pa : Memory → Vmiter → ℕ
pa m v =
    let e = pte m v.pep in
    let base = bit_and e pte_pamask in
    if bit_and e pte_p == 0
    then 2 ^ 64 - 1
    else (if ltb page_off_bits v.lbits then bit_and base (complement 0x1000) else base)
      + bit_and v.va (lbits_mask v.lbits)

-- `kptr()`; 0 for nullptr
unfoldable pub kptr : Memory → Vmiter → ℕ
kptr m v = if bit_and (pte m v.pep) pte_p == 0 then 0 else pa m v

-- `perm()`
unfoldable pub permissions : Memory → Vmiter → ℕ
permissions m v =
    let ph = bit_and (pte m v.pep) v.perm in bit_and ph ((2 ^ 64 - bit_and ph pte_p) % 2 ^ 64)

-- `perm(desired_perm)`
unfoldable pub permits : Memory → Vmiter → ℕ → Bool
permits m v desired_perm = bit_and (permissions m v) desired_perm == desired_perm

unfoldable pub present : Memory → Vmiter → Bool
present m v = permits m v pte_p

unfoldable pub writable : Memory → Vmiter → Bool
writable m v = permits m v (bit_or pte_p pte_w)

unfoldable pub user : Memory → Vmiter → Bool
user m v = permits m v (bit_or pte_p pte_u)

unfoldable pub find : Memory → Vmiter → ℕ → Option Vmiter
find m v va = if va == v.va then some v else find_impl m v va false

-- `operator+=` and `operator-=`, with a `delta` of 64 bits
unfoldable pub forward : Memory → Vmiter → ℕ → Option Vmiter
forward m v delta = find m v ((v.va + delta) % 2 ^ 64)

unfoldable pub back : Memory → Vmiter → ℕ → Option Vmiter
back m v delta = find m v ((v.va + 2 ^ 64 - delta) % 2 ^ 64)

unfoldable pub next : Memory → Vmiter → Option Vmiter
next m v =
    let lbits =
      (if ltb page_off_bits v.lbits && permissions m v == 0 then v.lbits else page_off_bits) in
    find_impl m v ((bit_or v.va (lbits_mask lbits) + 1) % 2 ^ 64) true

unfoldable pub next_range : Memory → Vmiter → Option Vmiter
next_range m v = find_impl m v (last_va v) true

-- `range_perm_impl` in `fuel` rounds; a range has at least one address, so that `sz` rounds are enough.
unfoldable pub range_perm_impl : ℕ → Memory → Vmiter → ℕ → ℕ → Option ℕ
range_perm_impl zero m v p sz = some p
range_perm_impl (suc fuel) m v p sz =
    if p == 0 || sz == 0
    then some p
    else Option.bind (next_range m v) (λ v'.
      range_perm_impl fuel m v' (bit_and p (if v.va == 0 then 0 else permissions m v))
        (sz - min sz (range_size v)))

unfoldable pub range_perm : Memory → Vmiter → ℕ → Option ℕ
range_perm m v sz =
    let p = (if ltb 0 sz then permissions m v else 2 ^ 64 - 1) in
    if p == 0 || leb sz (range_size v)
    then some p
    else Option.bind (next_range m v)
        (λ v'. range_perm_impl (sz - range_size v) m v' p (sz - range_size v))
