-- ===== src/Io61/Utilities/Backwards.antt =====
-- reverse61 writes its input from the end.
use mathlib.Core.List.{reverse, reverse-append}
use cs61_f26_psets.Common.{
  ℕ, zero, suc, ◌-◌, ◌%◌, ◌^◌, ◌≤◌, ◌<◌, ◌≡◌, refl, sym, ap, ◌∙◌, List, [], ◌∷◌, ◌++◌, append-nil,
  append_assoc, arith, length, take, drop, get_or, ◌==◌, false, some, lt→ltb,
}
use cs61_f26_psets.Common.Int.{ℤ, pos}
use cs61_f26_psets.Io61.{File, ReadAnswer, State, WriteAnswer, readc, seek}
use cs61_f26_psets.Io61.Read.{readc-byte}
use cs61_f26_psets.Io61.Utilities.{
  Args, copy_back, completed, goes, loop, offset_of, put_byte, reverse61, reverse_round, stops,
}
use cs61_f26_psets.Io61.Utilities.Columns.{drop-next}
use cs61_f26_psets.Io61.Utilities.Streams.{Streams, next-byte}
use cs61_f26_psets.Io61.Utilities.Copies.{loop-goes, loop-stops, put_byte_lem}

-- The input has all its bytes in place, and lseek moves to any of them.
pub record Seekable (World : Type 0) (sys_read : ℕ → World → ReadAnswer × World)
    (sys_write : ℕ → ℕ → World → WriteAnswer × World) (sys_lseek : ℕ → ℤ → World → ℤ × World)
    (inf outf : ℕ) (s : Streams World sys_read sys_write inf outf) : Type 0 where
  pub contents : List ℕ
  pub after_seek : ℕ → World → World
  pub seeks :
      (off : ℕ) (w : World)
      → off ≤ length contents
      → sys_lseek inf (pos off) w ≡ (pos off, after_seek off w)
  pub seek_moves : (off : ℕ) (w : World) → s.input (after_seek off w) ≡ drop off contents
  pub seek_keeps : (off : ℕ) (w : World) → s.output (after_seek off w) ≡ s.output w

take-next : (n : ℕ) (l : List ℕ) → n < length l → take (suc n) l ≡ take n l ++ get_or l n 0 ∷ []
take-next n [] lt = absurd (omega (arith, lt))
take-next zero (x ∷ l) lt = refl
take-next (suc n) (x ∷ l) lt = ap (λ r. x ∷ r) (take-next n l (omega (arith, lt)))

reverse-take :
    (n : ℕ) (l : List ℕ)
    → n < length l
    → reverse (take (suc n) l) ≡ get_or l n 0 ∷ reverse (take n l)
reverse-take n l lt = ap reverse (take-next n l lt) ∙ reverse-append (take n l) (get_or l n 0 ∷ [])

module _ {World : Type 0} {sys_read : ℕ → World → ReadAnswer × World}
    {sys_write : ℕ → ℕ → World → WriteAnswer × World} (sys_lseek : ℕ → ℤ → World → ℤ × World)
    (args : Args) (inf outf : File) (s : Streams World sys_read sys_write inf.fd outf.fd)
    (k : Seekable World sys_read sys_write sys_lseek inf.fd outf.fd s) where
  pub seek-moves :
      (n : ℕ) (st : State World)
      → n ≤ length k.contents
      → n < 2 ^ 63
      → seek sys_lseek inf (offset_of n) st ≡ (pos 0, record st { world = k.after_seek n st.world })
  unfolding seek
  seek-moves n st le small =
      let answer = k.seeks n st.world le in
      rw (lt→ltb n (2 ^ 63) small, ap (λ r. r.0) answer, ap (λ r. r.1) answer) refl

  copy_back-byte :
      (left c : ℕ) (st st' st'' : State World)
      → readc sys_read inf st ≡ (pos c, st')
      → put_byte sys_read sys_write sys_lseek args inf outf c st' ≡ some st''
      → copy_back sys_read sys_write sys_lseek args inf outf left st ≡ goes (left, st'')
  unfolding copy_back
  copy_back-byte left c st st' st'' got put =
      rw (ap (λ r. r.0) got, ap (λ r. r.1) got, copy_back) (rw put refl)

  reverse_round-byte :
      (n : ℕ) (st st1 : State World)
      → seek sys_lseek inf (offset_of n) st ≡ (pos 0, st1)
      → reverse_round sys_read sys_write sys_lseek args inf outf (suc n, st)
        ≡ copy_back sys_read sys_write sys_lseek args inf outf n st1
  unfolding reverse_round
  reverse_round-byte n st st1 moved =
      let same : suc n - 1 ≡ n = omega arith in
      let moved' : seek sys_lseek inf (offset_of (suc n - 1)) st ≡ (pos 0, st1) =
        ap (λ i. seek sys_lseek inf (offset_of i) st) same ∙ moved in
      let more : (suc n == 0) ≡ false = ground arith in
      rw (more, ap (λ r. r.0) moved', ap (λ r. r.1) moved')
        (ap (λ i. copy_back sys_read sys_write sys_lseek args inf outf i st1) same)

  reverse_round-full :
      (st : State World)
      → reverse_round sys_read sys_write sys_lseek args inf outf (0, st) ≡ stops (0, st)
  unfolding reverse_round
  reverse_round-full st = refl

  -- The bytes of the input before `n`, the last one first, are behind the output.
  abbrev pub IsReversed : ℕ → State World → State World → Type 0
  IsReversed n st st' = s.output st'.world ≡ s.output st.world ++ reverse (take n k.contents)

  reverse_loop_lem :
      (fuel n : ℕ) (st : State World)
      → n ≤ length k.contents
      → n < 2 ^ 63
      → n < fuel
      → (st' : State World) × (loop fuel
            (reverse_round sys_read sys_write sys_lseek args inf outf)
            (n, st)
          ≡ completed (0, st'))
        × IsReversed n st st'
  reverse_loop_lem zero n st le small enough = absurd (omega (arith, enough))
  reverse_loop_lem (suc fuel) zero st le small enough = (
    st,
    loop-stops fuel (reverse_round sys_read sys_write sys_lseek args inf outf) (0, st) (0, st)
        (reverse_round-full st),
    sym (append-nil (s.output st.world)),
  )
  reverse_loop_lem (suc fuel) (suc n) st le small enough =
      let c = get_or k.contents n 0 in
      let w1 = k.after_seek n st.world in
      let st1 : State World = record st { world = w1 } in
      let front = k.seek_moves n st.world ∙ drop-next n k.contents (omega arith) in
      let lt = next-byte s w1 c (drop (suc n) k.contents) front in
      let same : c % 256 ≡ c = omega arith in
      let w2 = s.world_read w1 in
      let st2 : State World = record st { world = w2 } in
      let got = readc-byte sys_read inf c st1 w2 (s.reads w1 c (drop (suc n) k.contents) front) in
      let (w3, put, moved) = put_byte_lem sys_lseek args inf outf s (c % 256) st2 (omega arith) in
      let st3 : State World = record st { world = w3 } in
      let (st', runs, out) =
        reverse_loop_lem fuel n st3 (omega arith) (omega arith) (omega arith) in
      (
        st',
        loop-goes fuel (reverse_round sys_read sys_write sys_lseek args inf outf) (suc n, st)
              (n, st3)
              (reverse_round-byte n st st1 (seek-moves n st (omega arith) (omega arith))
                ∙ copy_back-byte n (c % 256) st1 st2 st3 got put)
            ∙ runs,
        out
            ∙ ap (λ l. l ++ reverse (take n k.contents))
                (moved.appended
                  ∙ ap (λ l. l ++ (c % 256) ∷ []) (s.read_keeps w1 ∙ k.seek_keeps n st.world)
                  ∙ ap (λ b. s.output st.world ++ b ∷ []) same)
            ∙ append_assoc (s.output st.world) (c ∷ []) (reverse (take n k.contents))
            ∙ ap (λ l. s.output st.world ++ l) (sym (reverse-take n k.contents (omega arith))),
      )

  -- reverse61 appends the first `file_size` bytes of its input to its output, the last one first, if
  -- the input has that many: the loop ends after one round for each byte and one more, and no assertion
  -- fails. The files behave as `Streams` and `Seekable` say, and the size is a number that off_t
  -- holds.
  pub reverse61_reverses :
      (fuel file_size : ℕ) (st : State World)
      → file_size ≤ length k.contents
      → file_size < 2 ^ 63
      → file_size < fuel
      → (st' : State World) × (reverse61 sys_read sys_write sys_lseek args inf outf fuel file_size
            st
          ≡ completed (0, st'))
        × IsReversed file_size st st'
  unfolding reverse61
  reverse61_reverses fuel file_size st le small enough =
      reverse_loop_lem fuel file_size st le small enough
