-- ===== src/Io61/Utilities/Rounds.antt =====
-- The rounds of stridecat61.
use cs61_f26_psets.Common.{
  ℕ, ◌+◌, ◌%◌, ◌^◌, ◌≤◌, ◌<◌, ◌≡◌, ◌⊎◌, inl, inr, refl, ap, arith, ltb, leb, ◌==◌, false, some,
  lt→ltb, Bool-cases,
}
use native.Mathlib.Nat.{add-mod_right, mod-lt}
use cs61_f26_psets.Common.Int.{ℤ, pos}
use cs61_f26_psets.Io61.{File, ReadAnswer, State, WriteAnswer, seek}
use cs61_f26_psets.Io61.Utilities.{
  Args, goes, offset_of, put_block, read_block, stops, stride_next, stride_round,
}

module _ {World : Type 0} (sys_read : ℕ → World → ReadAnswer × World)
    (sys_write : ℕ → ℕ → World → WriteAnswer × World) (sys_lseek : ℕ → ℤ → World → ℤ × World)
    (args : Args) (inf outf : File) (buf : ℕ) where
  -- A round that copies a whole block.
  pub stride_round-block :
      (i done n : ℕ) (st st1 st2 st3 : State World)
      → done < args.file_size
      → ltb args.file_size ((i + args.block_size) % 2 ^ 64) ≡ false
      → seek sys_lseek inf (offset_of i) st ≡ (pos 0, st1)
      → read_block sys_read sys_write sys_lseek args inf outf buf args.block_size st1 ≡ (pos n, st2)
      → 0 < n
      → put_block sys_read sys_write sys_lseek args inf outf buf n st2 ≡ some st3
      → stride_round sys_read sys_write sys_lseek args inf outf buf (i, done, st)
        ≡ goes (stride_next sys_read sys_write sys_lseek args inf outf i, (done + n) % 2 ^ 64, st3)
  unfolding stride_round
  stride_round-block i done n st st1 st2 st3 more fits moved got some_bytes put =
      let test : (n == 0) ≡ false = ground arith in
      rw
        (
          lt→ltb done args.file_size more,
          ap (λ r. r.0) moved,
          ap (λ r. r.1) moved,
          fits,
          ap (λ r. r.0) got,
        )
        (rw (ap (λ r. r.1) moved, fits, ap (λ r. r.1) got, test, put) refl)

  pub stride_round-full :
      (i done : ℕ) (st : State World)
      → ltb done args.file_size ≡ false
      → stride_round sys_read sys_write sys_lseek args inf outf buf (i, done, st)
        ≡ stops (i, done, st)
  unfolding stride_round
  stride_round-full i done st full = rw full refl

  -- The next position is in the same column, or at the top of the next one.
  pub stride_next_lem :
      (i : ℕ)
      → args.block_size ≡ 1
      → 0 < args.stride
      → args.stride < 2 ^ 63
      → args.file_size < 2 ^ 63
      → i < args.file_size
      → ((i + args.stride < args.file_size)
          × (stride_next sys_read sys_write sys_lseek args inf outf i ≡ i + args.stride))
        ⊎ ((args.file_size ≤ i + args.stride)
            × (stride_next sys_read sys_write sys_lseek args inf outf i ≡ i % args.stride + 1))
  unfolding stride_next
  stride_next_lem i one some_stride small small_size lt =
      let next : (i + args.stride) % 2 ^ 64 ≡ i + args.stride = omega arith in
      elim (Bool-cases (leb args.file_size (i + args.stride))) [
        | inl over ↦
            let column : (i + args.stride) % args.stride ≡ i % args.stride =
              add-mod_right i args.stride in
            let top : (i % args.stride + 1) % 2 ^ 64 ≡ i % args.stride + 1 =
              omega (arith, mod-lt i some_stride) in
            inr (ground (arith, over), rw (next, over, column, one) top)
        | inr within ↦ inl (ground (arith, within), rw (next, within) refl)
      ]
