-- ===== src/Io61/Utilities/Copies.antt =====
-- cat61 and blockcat61 copy their input.
use cs61_f26_psets.Common.{
  ℕ, zero, suc, ◌%◌, ◌<◌, ◌≡◌, ◌⊎◌, inl, inr, refl, sym, ap, ◌∙◌, List, [], ◌∷◌, ◌++◌, append-nil,
  append_assoc, arith, length, take, drop, Bool-cases, some,
}
use cs61_f26_psets.Common.Int.{ℤ, pos, negsuc}
use cs61_f26_psets.Io61.{File, ReadAnswer, State, WriteAnswer, readc}
use cs61_f26_psets.Io61.Read.{readc-byte, readc-end}
use cs61_f26_psets.Io61.Write.{writec-written}
use cs61_f26_psets.Io61.Utilities.{
  Args, Progress, after_write, cat61, cat_round, completed, goes, loop, put_byte, stops,
}
use cs61_f26_psets.Io61.Utilities.Streams.{List-cases, Streams, next-byte}

pub loop-goes :
    {S : Type 0} (fuel : ℕ) (round : S → Progress S) (s s' : S)
    → round s ≡ goes s'
    → loop (suc fuel) round s ≡ loop fuel round s'
unfolding loop
loop-goes fuel round s s' e = rw (loop, e) refl

pub loop-stops :
    {S : Type 0} (fuel : ℕ) (round : S → Progress S) (s s' : S)
    → round s ≡ stops s'
    → loop (suc fuel) round s ≡ completed s'
unfolding loop
loop-stops fuel round s s' e = rw (loop, e) refl

module _ {World : Type 0} (sys_read : ℕ → World → ReadAnswer × World)
    (sys_write : ℕ → ℕ → World → WriteAnswer × World) (sys_lseek : ℕ → ℤ → World → ℤ × World)
    (args : Args) (inf outf : File) where
  pub after_write_lem :
      (st : State World) → after_write sys_read sys_write sys_lseek args inf outf st ≡ some st
  unfolding after_write
  after_write_lem st = elim (Bool-cases args.flush_writes) [ inl e ↦ rw e refl | inr e ↦ rw e refl ]

-- The files of a copy, and the byte or block that goes through.
module _ {World : Type 0} {sys_read : ℕ → World → ReadAnswer × World}
    {sys_write : ℕ → ℕ → World → WriteAnswer × World} (sys_lseek : ℕ → ℤ → World → ℤ × World)
    (args : Args) (inf outf : File) (s : Streams World sys_read sys_write inf.fd outf.fd) where
  -- The state where the loop of cat61 goes on.
  pub record IsPut (w : World) (bs : List ℕ) (w' : World) : Type 0 where
    pub appended : s.output w' ≡ s.output w ++ bs
    pub kept : s.input w' ≡ s.input w

  pub put_byte_lem :
      (c : ℕ) (st : State World)
      → c < 256
      → (w' : World) × (put_byte sys_read sys_write sys_lseek args inf outf c st
          ≡ some (record st { world = w' }))
        × IsPut st.world (c ∷ []) w'
  unfolding put_byte
  put_byte_lem c st lt =
      let same : c % 256 ≡ c = omega arith in
      let w' = s.world_written (c % 256) st.world in
      let wrote =
        writec-written sys_write outf c st w' (s.writes (c % 256) st.world (omega arith)) in
      (
        w',
        rw (ap (λ r. r.0) wrote, ap (λ r. r.1) wrote, put_byte)
            (after_write_lem sys_read sys_write sys_lseek args inf outf (record st { world = w' })),
        record {
          appended =
              s.write_appends (c % 256) st.world ∙ ap (λ b. s.output st.world ++ b ∷ []) same;
          kept = s.write_keeps (c % 256) st.world;
        },
      )

  cat_round-byte :
      (left c : ℕ) (st st' st'' : State World)
      → readc sys_read inf st ≡ (pos c, st')
      → put_byte sys_read sys_write sys_lseek args inf outf c st' ≡ some st''
      → cat_round sys_read sys_write sys_lseek args inf outf (suc left, st) ≡ goes (left, st'')
  unfolding cat_round
  cat_round-byte left c st st' st'' got put =
      rw (ap (λ r. r.0) got, ap (λ r. r.1) got, cat_round) (rw put (ground arith))

  cat_round-end :
      (left : ℕ) (st st' : State World)
      → readc sys_read inf st ≡ (negsuc 0, st')
      → cat_round sys_read sys_write sys_lseek args inf outf (suc left, st) ≡ stops (suc left, st')
  unfolding cat_round
  cat_round-end left st st' got =
      rw (ap (λ r. r.0) got, ap (λ r. r.1) got, cat_round) (ground arith)

  cat_round-full :
      (st : State World)
      → cat_round sys_read sys_write sys_lseek args inf outf (0, st) ≡ stops (0, st)
  unfolding cat_round
  cat_round-full st = refl

  -- What a copy of `left` bytes leaves.
  pub record IsCopy (left : ℕ) (st st' : State World) : Type 0 where
    pub copied : s.output st'.world ≡ s.output st.world ++ take left (s.input st.world)
    pub left_over : s.input st'.world ≡ drop left (s.input st.world)

  -- A byte and then the rest is a copy of both.
  IsCopy-cons :
      (left c : ℕ) (bs : List ℕ) (st st' st'' : State World)
      → s.input st.world ≡ c ∷ bs
      → s.output st'.world ≡ s.output st.world ++ c ∷ []
      → s.input st'.world ≡ bs
      → IsCopy left st' st''
      → IsCopy (suc left) st st''
  IsCopy-cons left c bs st st' st'' is out rest copy = record {
    copied =
        copy.copied
        ∙ ap (λ l. l ++ take left (s.input st'.world)) out
        ∙ append_assoc (s.output st.world) (c ∷ []) (take left (s.input st'.world))
        ∙ ap (λ l. s.output st.world ++ c ∷ take left l) rest
        ∙ ap (λ l. s.output st.world ++ take (suc left) l) (sym is);
    left_over = copy.left_over ∙ ap (drop left) rest ∙ ap (drop (suc left)) (sym is);
  }

  IsCopy-none :
      (left : ℕ) (st st' : State World)
      → take left (s.input st.world) ≡ []
      → drop left (s.input st.world) ≡ s.input st.world
      → s.output st'.world ≡ s.output st.world
      → s.input st'.world ≡ s.input st.world
      → IsCopy left st st'
  IsCopy-none left st st' nothing all out rest = record {
    copied =
        out ∙ sym (append-nil (s.output st.world)) ∙ ap (λ l. s.output st.world ++ l) (sym nothing);
    left_over = rest ∙ sym all;
  }

  cat_loop_lem :
      (fuel left : ℕ) (st : State World)
      → (left < fuel) ⊎ (length (s.input st.world) < fuel)
      → (left' : ℕ) × (st' : State World) × (loop fuel
            (cat_round sys_read sys_write sys_lseek args inf outf)
            (left, st)
          ≡ completed (left', st'))
        × IsCopy left st st'
  cat_loop_lem zero left st enough = ground arith
  cat_loop_lem (suc fuel) zero st enough = (
    0,
    st,
    loop-stops fuel (cat_round sys_read sys_write sys_lseek args inf outf) (0, st) (0, st)
        (cat_round-full st),
    IsCopy-none 0 st st refl refl refl refl,
  )
  cat_loop_lem (suc fuel) (suc left) st enough = elim (List-cases (s.input st.world)) [
    | inl at_end_of ↦
        let w' = s.world_read st.world in
        let st' : State World = record st { world = w'; errno = 0 } in
        (
          suc left,
          st',
          loop-stops fuel (cat_round sys_read sys_write sys_lseek args inf outf) (suc left, st)
              (suc left, st')
              (cat_round-end left st st'
                (readc-end sys_read inf st w' (s.ends st.world at_end_of))),
          IsCopy-none (suc left) st st' (ap (take (suc left)) at_end_of)
              (ap (drop (suc left)) at_end_of ∙ sym at_end_of) (s.read_keeps st.world)
              (s.stays st.world at_end_of ∙ sym at_end_of),
        )
    | inr (c, bs, is) ↦
        let lt = next-byte s st.world c bs is in
        let same : c % 256 ≡ c = omega arith in
        let w1 = s.world_read st.world in
        let st1 : State World = record st { world = w1 } in
        let (w2, put, moved) = put_byte_lem (c % 256) st1 (omega arith) in
        let st2 : State World = record st1 { world = w2 } in
        let rest_is : s.input w2 ≡ bs = moved.kept ∙ s.read_moves st.world c bs is in
        let out_is : s.output w2 ≡ s.output st.world ++ c ∷ [] =
          moved.appended
          ∙ ap (λ l. l ++ (c % 256) ∷ []) (s.read_keeps st.world)
          ∙ ap (λ b. s.output st.world ++ b ∷ []) same in
        let (left', st', runs, copy) = cat_loop_lem fuel left st2 (
          fewer fuel left (length (s.input st.world)) (length (s.input w2)) enough
            (ap length is ∙ ap (λ l. suc (length l)) (sym rest_is))) in
        (
          left',
          st',
          loop-goes fuel (cat_round sys_read sys_write sys_lseek args inf outf) (suc left, st)
                (left, st2)
                (cat_round-byte left (c % 256) st st1 st2
                  (readc-byte sys_read inf c st w1 (s.reads st.world c bs is)) put)
              ∙ runs,
          IsCopy-cons left c bs st st2 st' is out_is rest_is copy,
        )
  ]
    where
      fewer :
          (fuel left n n' : ℕ)
          → (suc left < suc fuel) ⊎ (n < suc fuel)
          → n ≡ suc n'
          → (left < fuel) ⊎ (n' < fuel)
      fewer fuel left n n' enough e = ground (arith, enough, e)

  -- cat61 appends to its output the first `file_size` bytes of its input, or all of them if there are
  -- fewer, and leaves the rest of the input: the loop ends, in at most one round more than it copies
  -- bytes, and no assertion fails. The files behave as `Streams` says.
  pub cat61_copies :
      (fuel : ℕ) (st : State World)
      → (args.file_size < fuel) ⊎ (length (s.input st.world) < fuel)
      → (left : ℕ) × (st' : State World) × (cat61 sys_read sys_write sys_lseek args inf outf fuel st
          ≡ completed (left, st'))
        × IsCopy args.file_size st st'
  unfolding cat61
  cat61_copies fuel st enough = cat_loop_lem fuel args.file_size st enough
