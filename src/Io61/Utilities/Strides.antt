-- ===== src/Io61/Utilities/Strides.antt =====
-- stridecat61 with blocks of one byte, its default: the bytes come out column by column.
use mathlib.Core.List.{Perm}
use cs61_f26_psets.Common.{
  ℕ, zero, suc, ◌+◌, ◌-◌, ◌%◌, ◌^◌, ◌≤◌, ◌<◌, ◌≡◌, ◌⊎◌, inl, inr, refl, sym, ap, ◌∙◌, List, [], ◌∷◌,
  ◌++◌, append-nil, append_assoc, arith, length, take, get_or, ltb, le→ltb, Bool-cases,
}
use native.Mathlib.Nat.{add-mod_right, mod-eq_of_lt}
use cs61_f26_psets.Common.Int.{ℤ}
use cs61_f26_psets.Io61.{File, ReadAnswer, State, WriteAnswer}
use cs61_f26_psets.Io61.Utilities.{
  Args, completed, goes, loop, stride_next, stride_round, stridecat61,
}
use cs61_f26_psets.Io61.Utilities.Streams.{Streams}
use cs61_f26_psets.Io61.Utilities.Copies.{loop-goes, loop-stops}
use cs61_f26_psets.Io61.Utilities.Blocks.{put_block_lem, read_block_lem}
use cs61_f26_psets.Io61.Utilities.Columns.{
  columns, columns-Permᴰ, Permᴰ-length, columns-beyond, drop-next,
}
use cs61_f26_psets.Io61.Utilities.Backwards.{Seekable, seek-moves}
use cs61_f26_psets.Io61.Utilities.Positions.{
  next_column, to_come, to_come-over, to_come-top, to_come-within,
}
use cs61_f26_psets.Io61.Utilities.Rounds.{stride_next_lem, stride_round-block, stride_round-full}

-- The bytes of the columns are copied where the files behave.
module _ {World : Type 0} {sys_read : ℕ → World → ReadAnswer × World}
    {sys_write : ℕ → ℕ → World → WriteAnswer × World} (sys_lseek : ℕ → ℤ → World → ℤ × World)
    (args : Args) (inf outf : File) (buf : ℕ) (s : Streams World sys_read sys_write inf.fd outf.fd)
    (k : Seekable World sys_read sys_write sys_lseek inf.fd outf.fd s) (one : args.block_size ≡ 1)
    (whole : args.file_size ≡ length k.contents) (some_stride : 0 < args.stride)
    (small : args.stride < 2 ^ 63) (small_size : args.file_size < 2 ^ 63) where
  -- One byte is copied.
  copies-byte :
      (i done : ℕ) (st : State World)
      → done < args.file_size
      → i < args.file_size
      → (st' : State World) × (stride_round sys_read sys_write sys_lseek args inf outf buf
            (i, done, st)
          ≡ goes (stride_next sys_read sys_write sys_lseek args inf outf i, suc done, st'))
        × (s.output st'.world ≡ s.output st.world ++ get_or k.contents i 0 ∷ [])
  copies-byte i done st more lt =
      let c = get_or k.contents i 0 in
      let st1 : State World = record st { world = k.after_seek i st.world } in
      let moved =
        seek-moves sys_lseek args inf outf s k i st (omega (arith, whole)) (omega arith) in
      let (bs, st2, got, h) = read_block_lem sys_lseek args inf outf s buf args.block_size st1 in
      let is : bs ≡ c ∷ [] =
        h.taken
        ∙ ap (λ n. take n (s.input st1.world)) one
        ∙ ap (take 1) (k.seek_moves i st.world ∙ drop-next i k.contents (omega (arith, whole))) in
      let (st3, put, out, _) =
        put_block_lem sys_lseek args inf outf s buf args.block_size st1 st2 bs h in
      let count : length bs ≡ 1 = ap length is in
      (
        st3,
        stride_round-block sys_read sys_write sys_lseek args inf outf buf i done (length bs) st st1
              st2 st3 more
              (le→ltb args.file_size ((i + args.block_size) % 2 ^ 64) (omega (arith, one))) moved
              got (omega (arith, count)) put
            ∙ ap (λ d. goes (stride_next sys_read sys_write sys_lseek args inf outf i, d, st3))
                (omega (arith, count)),
        out ∙ ap (λ l. l ++ bs) (k.seek_keeps i st.world) ∙ ap (λ l. s.output st.world ++ l) is,
      )

  -- What is to come behind the byte at `i`: nothing, or what the next position says.
  to_come_next :
      (n i : ℕ)
      → i < args.file_size
      → suc (i % args.stride) + n ≡ args.stride
      → (rest : List ℕ) × (to_come args.stride k.contents n i ≡ get_or k.contents i 0 ∷ rest)
        × ((rest ≡ [])
            ⊎ ((n' : ℕ) × (rest
                  ≡ to_come args.stride k.contents n'
                      (stride_next sys_read sys_write sys_lseek args inf outf i))
                × (suc (stride_next sys_read sys_write sys_lseek args inf outf i % args.stride) + n'
                    ≡ args.stride)
                × (stride_next sys_read sys_write sys_lseek args inf outf i < length k.contents)))
  to_come_next n i lt left =
      let i' = stride_next sys_read sys_write sys_lseek args inf outf i in
      elim (stride_next_lem sys_read sys_write sys_lseek args inf outf buf i one some_stride small
        small_size lt) [
          | inl (within, e) ↦
              let column : i' % args.stride ≡ i % args.stride =
                ap (λ j. j % args.stride) e ∙ add-mod_right i args.stride in
              (
                to_come args.stride k.contents n i',
                to_come-within args.stride k.contents n i i' some_stride (omega (arith, whole)) e,
                inr (n, refl, omega (arith, column, left), omega (arith, e, within, whole)),
              )
          | inr (over, e) ↦ (
            columns args.stride n (suc (i % args.stride)) k.contents,
            to_come-over args.stride k.contents n i some_stride (omega (arith, whole))
                (omega (arith, whole)),
            next_column args.stride k.contents n i i' e left,
          )
        ]

  full-stops :
      (fuel i done : ℕ) (st : State World)
      → 0 < fuel
      → args.file_size ≤ done
      → loop fuel (stride_round sys_read sys_write sys_lseek args inf outf buf) (i, done, st)
        ≡ completed (i, done, st)
  full-stops zero i done st enough full = absurd (omega arith)
  full-stops (suc fuel) i done st enough full =
      loop-stops fuel (stride_round sys_read sys_write sys_lseek args inf outf buf) (i, done, st)
        (i, done, st)
        (stride_round-full sys_read sys_write sys_lseek args inf outf buf i done st
          (le→ltb done args.file_size full))

  stride_loop_lem :
      (fuel n i done : ℕ) (st : State World)
      → i < args.file_size
      → suc (i % args.stride) + n ≡ args.stride
      → done + length (to_come args.stride k.contents n i) ≡ args.file_size
      → length (to_come args.stride k.contents n i) < fuel
      → (i' : ℕ) × (st' : State World) × (loop fuel
            (stride_round sys_read sys_write sys_lseek args inf outf buf)
            (i, done, st)
          ≡ completed (i', args.file_size, st'))
        × (s.output st'.world ≡ s.output st.world ++ to_come args.stride k.contents n i)
  stride_loop_lem zero n i done st lt left all enough = absurd (omega (arith, enough))
  stride_loop_lem (suc fuel) n i done st lt left all enough =
      let round = stride_round sys_read sys_write sys_lseek args inf outf buf in
      let i' = stride_next sys_read sys_write sys_lseek args inf outf i in
      let (rest, is, next) = to_come_next n i lt left in
      let count : length (to_come args.stride k.contents n i) ≡ suc (length rest) = ap length is in
      let (st1, goes_on, out) = copies-byte i done st (omega (arith, all, count)) lt in
      let first = loop-goes fuel round (i, done, st) (i', suc done, st1) goes_on in
      let c = get_or k.contents i 0 in
      elim next [
        | inl none_left ↦
            let full : suc done ≡ args.file_size = omega (arith, all, count, ap length none_left) in
            (
              i',
              st1,
              first
                  ∙ full-stops fuel i' (suc done) st1 (omega (arith, enough, count))
                      (omega (arith, full))
                  ∙ ap (λ d. completed (i', d, st1)) full,
              out ∙ ap (λ l. s.output st.world ++ l) (ap (λ r. c ∷ r) (sym none_left) ∙ sym is),
            )
        | inr (n', same, left', lt') ↦
            let (i'', st', runs, out') =
              stride_loop_lem fuel n' i' (suc done) st1 (omega (arith, lt', whole)) left'
                (omega (arith, all, count, ap length same))
                (omega (arith, enough, count, ap length same)) in
            (
              i'',
              st',
              first ∙ runs,
              out'
                  ∙ ap (λ l. l ++ to_come args.stride k.contents n' i') out
                  ∙ append_assoc (s.output st.world) (c ∷ []) (to_come args.stride k.contents n' i')
                  ∙ ap (λ l. s.output st.world ++ l) (ap (λ r. c ∷ r) (sym same) ∙ sym is),
            )
      ]

  from_top :
      (fuel : ℕ) (st : State World)
      → args.file_size < fuel
      → (i : ℕ) × (st' : State World) × (loop fuel
            (stride_round sys_read sys_write sys_lseek args inf outf buf)
            (0, 0, st)
          ≡ completed (i, args.file_size, st'))
        × (s.output st'.world ≡ s.output st.world ++ columns args.stride args.stride 0 k.contents)
  from_top fuel st enough =
      let all = columns args.stride args.stride 0 k.contents in
      elim (Bool-cases (ltb 0 args.file_size)) [
        | inr empty ↦
            let none_left : args.file_size ≡ 0 = ground (arith, empty) in
            (
              0,
              st,
              full-stops fuel 0 0 st (omega (arith, enough)) (omega (arith, none_left))
                  ∙ ap (λ d. completed (0, d, st)) (sym none_left),
              sym (append-nil (s.output st.world))
                  ∙ ap (λ l. s.output st.world ++ l)
                      (sym (
                        columns-beyond args.stride args.stride 0 k.contents
                          (omega (arith, none_left, whole)))),
            )
        | inl more ↦
            let n = args.stride - 1 in
            let top : all ≡ to_come args.stride k.contents n 0 =
              ap (λ m. columns args.stride m 0 k.contents) {x = args.stride} {y = suc n}
                (omega arith)
              ∙ to_come-top args.stride k.contents n 0 some_stride in
            let count : length all ≡ length k.contents =
              Permᴰ-length all k.contents (columns-Permᴰ args.stride k.contents some_stride) in
            let first : 0 % args.stride ≡ 0 = mod-eq_of_lt some_stride in
            let (i, st', runs, out) =
              stride_loop_lem fuel n 0 0 st (ground (arith, more)) (omega (arith, first))
                (omega (arith, count, whole, ap length top))
                (omega (arith, count, whole, ap length top)) in
            (i, st', runs, out ∙ ap (λ l. s.output st.world ++ l) (sym top))
      ]

  -- stridecat61 with blocks of one byte, its default, appends its input to its output in the order
  -- of its documentation: the bytes at 0, stride, 2 * stride and so on, then those at 1, stride + 1
  -- and so on, with each byte exactly once. The loop ends after one round for each byte and one more
  -- at most, and no assertion fails. The files behave as `Streams` and `Seekable` say, the copy
  -- starts at 0, the size is that of the input, and the size and the stride, which is not 0, are
  -- numbers that off_t holds.
  pub stridecat61_shuffles :
      (fuel : ℕ) (st : State World)
      → args.initial_offset ≡ 0
      → args.file_size < fuel
      → (i : ℕ) × (st' : State World) × (stridecat61 sys_read sys_write sys_lseek args inf outf fuel
            buf st
          ≡ completed (i, args.file_size, st'))
        × (s.output st'.world ≡ s.output st.world ++ columns args.stride args.stride 0 k.contents)
        × Perm (columns args.stride args.stride 0 k.contents) k.contents
  unfolding stridecat61
  stridecat61_shuffles fuel st from_start enough =
      let (i, st', runs, out) = from_top fuel st enough in
      (
        i,
        st',
        ap (λ j. loop fuel (stride_round sys_read sys_write sys_lseek args inf outf buf) (j, 0, st))
              from_start
            ∙ runs,
        out,
        ∣ columns-Permᴰ args.stride k.contents some_stride ∣₁,
      )
