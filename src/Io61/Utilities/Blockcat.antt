-- ===== src/Io61/Utilities/Blockcat.antt =====
-- blockcat61 copies its input, whatever the size of its blocks.
use cs61_f26_psets.Common.{
  ℕ, zero, suc, ◌≤◌, ◌<◌, ◌≡◌, ◌≢◌, inl, inr, refl, sym, ap, ◌∙◌, List, [], ◌∷◌, ◌++◌, append-nil,
  append_assoc, arith, length, take, drop, ◌==◌, false, some,
}
use cs61_f26_psets.Common.Int.{ℤ, pos}
use cs61_f26_psets.Io61.{File, ReadAnswer, State, WriteAnswer}
use cs61_f26_psets.Io61.Utilities.{
  Args, blockcat61, blockcat_round, completed, goes, loop, put_block, read_block, stops,
}
use cs61_f26_psets.Io61.Utilities.Streams.{List-cases, Streams}
use cs61_f26_psets.Io61.Utilities.Copies.{loop-goes, loop-stops}
use cs61_f26_psets.Io61.Utilities.Blocks.{put_block_lem, read_block_lem}

take-drop : (n : ℕ) (l : List ℕ) → take n l ++ drop n l ≡ l
take-drop zero l = refl
take-drop (suc n) [] = refl
take-drop (suc n) (x ∷ l) = ap (λ r. x ∷ r) (take-drop n l)

length-drop_pos : (n : ℕ) (l : List ℕ) → take n l ≢ [] → length (drop n l) < length l
length-drop_pos zero l some_taken = absurd (some_taken refl)
length-drop_pos (suc n) [] some_taken = absurd (some_taken refl)
length-drop_pos (suc n) (x ∷ l) some_taken = omega (arith, length-drop_le n l)
  where
    length-drop_le : (n : ℕ) (l : List ℕ) → length (drop n l) ≤ length l
    length-drop_le zero l = omega arith
    length-drop_le (suc n) [] = omega arith
    length-drop_le (suc n) (x ∷ l) = omega (arith, length-drop_le n l)

all_taken : (n : ℕ) (l : List ℕ) → 0 < n → take n l ≡ [] → l ≡ []
all_taken zero l some_size e = absurd (omega arith)
all_taken (suc n) [] some_size e = refl
all_taken (suc n) (x ∷ l) some_size e = cc

drop-nil : (n : ℕ) → drop {A = ℕ} n [] ≡ []
drop-nil zero = refl
drop-nil (suc n) = refl

module _ {World : Type 0} {sys_read : ℕ → World → ReadAnswer × World}
    {sys_write : ℕ → ℕ → World → WriteAnswer × World} (sys_lseek : ℕ → ℤ → World → ℤ × World)
    (args : Args) (inf outf : File) (s : Streams World sys_read sys_write inf.fd outf.fd) where
  blockcat_round-block :
      (buf n : ℕ) (st st1 st2 : State World)
      → read_block sys_read sys_write sys_lseek args inf outf buf args.block_size st ≡ (pos n, st1)
      → 0 < n
      → put_block sys_read sys_write sys_lseek args inf outf buf n st1 ≡ some st2
      → blockcat_round sys_read sys_write sys_lseek args inf outf buf st ≡ goes st2
  unfolding blockcat_round
  blockcat_round-block buf n st st1 st2 got some_bytes put =
      let test : (n == 0) ≡ false = ground arith in
      rw (ap (λ r. r.0) got, ap (λ r. r.1) got, blockcat_round) (rw (test, put) refl)

  blockcat_round-end :
      (buf : ℕ) (st st1 : State World)
      → read_block sys_read sys_write sys_lseek args inf outf buf args.block_size st ≡ (pos 0, st1)
      → blockcat_round sys_read sys_write sys_lseek args inf outf buf st ≡ stops st1
  unfolding blockcat_round
  blockcat_round-end buf st st1 got = rw (ap (λ r. r.0) got, ap (λ r. r.1) got, blockcat_round) refl

  -- The whole input is behind the output, and nothing is left of it.
  abbrev pub IsWholeCopy : State World → State World → Type 0
  IsWholeCopy st st' =
      (s.output st'.world ≡ s.output st.world ++ s.input st.world) × (s.input st'.world ≡ [])

  blockcat_loop_lem :
      (fuel buf : ℕ) (st : State World)
      → 0 < args.block_size
      → length (s.input st.world) < fuel
      → (st' : State World) × (loop fuel
            (blockcat_round sys_read sys_write sys_lseek args inf outf buf)
            st
          ≡ completed st')
        × IsWholeCopy st st'
  blockcat_loop_lem zero buf st some_size enough = absurd (omega (arith, enough))
  blockcat_loop_lem (suc fuel) buf st some_size enough =
      let n = args.block_size in
      let (bs, st1, got, h) = read_block_lem sys_lseek args inf outf s buf n st in
      elim (List-cases bs) [
        | inl none_read ↦
            let empty = all_taken n (s.input st.world) some_size (sym h.taken ∙ none_read) in
            (
              st1,
              loop-stops fuel (blockcat_round sys_read sys_write sys_lseek args inf outf buf) st st1
                  (blockcat_round-end buf st st1 (got ∙ ap (λ l. (pos (length l), st1)) none_read)),
              (
                h.output_kept
                    ∙ sym (append-nil (s.output st.world))
                    ∙ ap (λ l. s.output st.world ++ l) (sym empty),
                h.rest ∙ ap (drop n) empty ∙ drop-nil n,
              ),
            )
        | inr (c, l, is) ↦
            let some_read : 0 < length bs = omega (arith, ap length is) in
            let (st2, put, out, kept) = put_block_lem sys_lseek args inf outf s buf n st st1 bs h in
            let smaller =
              length-drop_pos n (s.input st.world) (λ e. some-nil c l (sym is ∙ h.taken ∙ e)) in
            let (st', runs, (out', kept')) =
              blockcat_loop_lem fuel buf st2 some_size
                (omega (arith, ap length kept, smaller, enough)) in
            (
              st',
              loop-goes fuel (blockcat_round sys_read sys_write sys_lseek args inf outf buf) st st2
                    (blockcat_round-block buf (length bs) st st1 st2 got some_read put)
                  ∙ runs,
              (
                out'
                    ∙ ap (λ l. l ++ s.input st2.world) out
                    ∙ append_assoc (s.output st.world) bs (s.input st2.world)
                    ∙ ap (λ l. s.output st.world ++ l)
                        (ap (λ r. bs ++ r) kept
                          ∙ ap (λ r. r ++ drop n (s.input st.world)) h.taken
                          ∙ take-drop n (s.input st.world)),
                kept',
              ),
            )
      ]
    where
      some-nil : (c : ℕ) (l : List ℕ) → c ∷ l ≡ [] → ⊥
      some-nil c l e = cc

  -- blockcat61 appends its whole input to its output, with blocks of any size above 0 and whether
  -- it reads and writes them whole or byte by byte: the loop ends, in at most one round more than
  -- there are bytes, no assertion fails, and no input is left. The files behave as `Streams` says.
  pub blockcat61_copies :
      (fuel buf : ℕ) (st : State World)
      → 0 < args.block_size
      → length (s.input st.world) < fuel
      → (st' : State World) × (blockcat61 sys_read sys_write sys_lseek args inf outf fuel buf st
          ≡ completed st')
        × IsWholeCopy st st'
  unfolding blockcat61
  blockcat61_copies fuel buf st some_size enough = blockcat_loop_lem fuel buf st some_size enough
