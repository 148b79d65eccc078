-- ===== src/Io61/Utilities/Blocks.antt =====
-- blockcat61 copies its input, whatever the size of its blocks.
use cs61_f26_psets.Common.{
  ℕ, ◌+◌, ◌<◌, ◌≡◌, ◌⊎◌, inl, inr, refl, ap, subst, ◌∙◌, List, [], ◌∷◌, ◌++◌, All, arith, length,
  take, drop, ==_iff, ◌==◌, Bool-cases, true, false, some,
}
use cs61_f26_psets.Common.Int.{ℤ, pos}
use cs61_f26_psets.Common.Memory.{Holds}
use cs61_f26_psets.Io61
use cs61_f26_psets.Io61.{File, ReadAnswer, State, WriteAnswer, read_from, write_from}
use cs61_f26_psets.Io61.Read.{
  Delivered, Delivers-exists, End, HasRead, complete, ended, error, read-Delivers, read_from_lem,
  read_result,
}
use cs61_f26_psets.Io61.Write.{
  Accepted, Accepts-exists, write-Accepts, write_from_lem, write_result,
}
use cs61_f26_psets.Io61.Utilities.{Args, put_block, read_block, write_block}
use cs61_f26_psets.Io61.Utilities.Streams.{Accepts-All, Delivers-HasTaken, HasTaken, Streams}
use cs61_f26_psets.Io61.Utilities.Copies.{after_write_lem}

module _ {World : Type 0} {sys_read : ℕ → World → ReadAnswer × World}
    {sys_write : ℕ → ℕ → World → WriteAnswer × World} (sys_lseek : ℕ → ℤ → World → ℤ × World)
    (args : Args) (inf outf : File) (s : Streams World sys_read sys_write inf.fd outf.fd) where
  -- A block that was read: its bytes are those at the front of the input.
  pub record HasBlock (buf n : ℕ) (st st' : State World) (bs : List ℕ) : Type 0 where
    pub taken : bs ≡ take n (s.input st.world)
    pub rest : s.input st'.world ≡ drop n (s.input st.world)
    pub output_kept : s.output st'.world ≡ s.output st.world
    pub in_buffer : Holds st'.memory buf bs
    pub are_bytes : All (λ c. c < 256) bs

  block_of :
      (buf n : ℕ) (st st' : State World) (bs : List ℕ) (e : End) (w : World)
      → HasTaken s n st.world bs e w
      → HasRead st buf bs e w st'
      → HasBlock buf n st st' bs
  block_of buf n st st' bs e w h r = record {
    taken = h.front;
    rest = ap s.input r.world_at ∙ h.rest;
    output_kept = ap s.output r.world_at ∙ h.output_kept;
    in_buffer = r.in_buffer;
    are_bytes = h.are_taken_bytes;
  }

  no_error_result :
      (bs : List ℕ) (e : End) → (e ≡ complete) ⊎ (e ≡ ended) → read_result bs e ≡ pos (length bs)
  no_error_result (b ∷ bs) e h = refl
  no_error_result [] complete h = refl
  no_error_result [] ended h = refl
  no_error_result [] (error k) h = ground (arith, h)

  read_block-bytewise :
      (buf n k : ℕ) (st st' : State World)
      → args.read_bytewise ≡ true
      → read_from sys_read inf buf 0 n st ≡ (k, st')
      → read_block sys_read sys_write sys_lseek args inf outf buf n st ≡ (pos k, st')
  unfolding read_block
  read_block-bytewise buf n k st st' on e = rw on (ap (λ r. (pos r.0, r.1)) e)

  read_block-whole :
      (buf n : ℕ) (st : State World)
      → args.read_bytewise ≡ false
      → read_block sys_read sys_write sys_lseek args inf outf buf n st
        ≡ Io61.read sys_read inf buf n st
  unfolding read_block
  read_block-whole buf n st off = rw off refl

  pub read_block_lem :
      (buf n : ℕ) (st : State World)
      → (bs : List ℕ) × (st' : State World) × (read_block sys_read sys_write sys_lseek args inf outf
            buf n st
          ≡ (pos (length bs), st'))
        × HasBlock buf n st st' bs
  unfolding Delivered
  read_block_lem buf n st = elim (Bool-cases args.read_bytewise) [
    | inl on ↦
        let (bs, e, w, d) = Delivers-exists sys_read inf n st.world in
        let (st', runs, left) = read_from_lem sys_read inf n st.world w bs e d buf 0 st refl in
        (
          bs,
          st',
          read_block-bytewise buf n (length bs) st st' on (runs ∙ ap (λ k. (k, st')) (omega arith)),
          block_of buf n st st' bs e w (Delivers-HasTaken s n st.world bs e w d)
              (subst (λ a. HasRead st a bs e w st') {x = buf + 0} {y = buf} (omega arith) left),
        )
    | inr off ↦
        let (bs, e, w, d, (st', runs, left)) = read-Delivers sys_read inf buf n st s.errors_set in
        let h = Delivers-HasTaken s n st.world bs e w d in
        (
          bs,
          st',
          read_block-whole buf n st off
              ∙ runs
              ∙ ap (λ r. (r, st')) (no_error_result bs e h.no_error),
          block_of buf n st st' bs e w h left,
        )
  ]

  write_block-bytewise :
      (buf n k : ℕ) (st st' : State World)
      → args.write_bytewise ≡ true
      → write_from sys_write outf buf 0 n st ≡ (k, st')
      → write_block sys_read sys_write sys_lseek args inf outf buf n st ≡ (pos k, st')
  unfolding write_block
  write_block-bytewise buf n k st st' on e = rw on (ap (λ r. (pos r.0, r.1)) e)

  write_block-whole :
      (buf n : ℕ) (st : State World)
      → args.write_bytewise ≡ false
      → write_block sys_read sys_write sys_lseek args inf outf buf n st
        ≡ Io61.write sys_write outf buf n st
  unfolding write_block
  write_block-whole buf n st off = rw off refl

  all_written : (n : ℕ) → write_result n n ≡ pos n
  all_written n = ground arith

  write_block_lem :
      (buf : ℕ) (bs : List ℕ) (st : State World)
      → Holds st.memory buf bs
      → All (λ c. c < 256) bs
      → (st' : State World) × (write_block sys_read sys_write sys_lseek args inf outf buf
            (length bs)
            st
          ≡ (pos (length bs), st'))
        × (s.output st'.world ≡ s.output st.world ++ bs)
        × (s.input st'.world ≡ s.input st.world)
  unfolding Accepted
  write_block_lem buf bs st holds bytes = elim (Bool-cases args.write_bytewise) [
    | inl on ↦
        let (k, w, d) = Accepts-exists sys_write outf bs st.world in
        let (st', runs, at, same) =
          write_from_lem sys_write outf bs st.world w k d buf 0 st refl
            (subst (λ a. Holds st.memory a bs) {x = buf} {y = buf + 0} (omega arith) holds) in
        let (count, out, kept) = Accepts-All s bs st.world k w d bytes in
        (
          st',
          write_block-bytewise buf (length bs) (length bs) st st' on
              (runs ∙ ap (λ i. (i, st')) {x = 0 + k} {y = length bs} (omega (arith, count))),
          ap s.output at ∙ out,
          ap s.input at ∙ kept,
        )
    | inr off ↦
        let (k, w, d, (st', runs, at, same)) = write-Accepts sys_write outf buf bs st holds in
        let (count, out, kept) = Accepts-All s bs st.world k w d bytes in
        (
          st',
          write_block-whole buf (length bs) st off
              ∙ runs
              ∙ ap (λ i. (write_result (length bs) i, st')) count
              ∙ ap (λ r. (r, st')) (all_written (length bs)),
          ap s.output at ∙ out,
          ap s.input at ∙ kept,
        )
  ]

  put_block-some :
      (buf n : ℕ) (st st' : State World)
      → write_block sys_read sys_write sys_lseek args inf outf buf n st ≡ (pos n, st')
      → put_block sys_read sys_write sys_lseek args inf outf buf n st ≡ some st'
  unfolding put_block
  put_block-some buf n st st' e =
      let same : (n == n) ≡ true = (==_iff n n).1 refl in
      rw (ap (λ r. r.0) e, ap (λ r. r.1) e, put_block)
        (rw same (after_write_lem sys_read sys_write sys_lseek args inf outf st'))

  pub put_block_lem :
      (buf n : ℕ) (st st1 : State World) (bs : List ℕ)
      → HasBlock buf n st st1 bs
      → (st2 : State World) × (put_block sys_read sys_write sys_lseek args inf outf buf
            (length bs)
            st1
          ≡ some st2)
        × (s.output st2.world ≡ s.output st.world ++ bs)
        × (s.input st2.world ≡ drop n (s.input st.world))
  put_block_lem buf n st st1 bs h =
      let (st2, wrote, out, kept) = write_block_lem buf bs st1 h.in_buffer h.are_bytes in
      (
        st2,
        put_block-some buf (length bs) st1 st2 wrote,
        out ∙ ap (λ l. l ++ bs) h.output_kept,
        kept ∙ h.rest,
      )
