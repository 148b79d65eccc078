-- ===== src/Io61/Utilities/Streams.antt =====
-- What the utilities need of their files: an input that is read from its front, and an output that
-- grows at its end.
use cs61_f26_psets.Common.{
  ℕ, suc, ◌%◌, ◌<◌, ◌≡◌, ◌≢◌, ◌⊎◌, inl, inr, refl, sym, ap, subst, ◌∙◌, List, [], ◌∷◌, ◌++◌, All,
  append-nil, append_assoc, arith, length, take, drop,
}
use cs61_f26_psets.Io61.{ReadAnswer, WriteAnswer, at_end, byte, failed, written}
use cs61_f26_psets.Io61.Read.{
  Delivers, End, all_read, complete, ended, file_end, next_byte, read_error,
}
use cs61_f26_psets.Io61.Write.{Accepts, all_taken, next_taken, not_taken, write_error}

-- The operating system's part: `input` is what `inf` still delivers, `output` what `outf` has taken.
pub record Streams (World : Type 0) (sys_read : ℕ → World → ReadAnswer × World)
    (sys_write : ℕ → ℕ → World → WriteAnswer × World) (inf outf : ℕ) : Type 0 where
  pub input : World → List ℕ
  pub output : World → List ℕ
  pub world_read : World → World
  pub world_written : ℕ → World → World
  pub are_bytes : (w : World) → All (λ c. c < 256) (input w)
  pub reads :
      (w : World) (c : ℕ) (bs : List ℕ) → input w ≡ c ∷ bs → sys_read inf w ≡ (byte c, world_read w)
  pub read_moves : (w : World) (c : ℕ) (bs : List ℕ) → input w ≡ c ∷ bs → input (world_read w) ≡ bs
  pub ends : (w : World) → input w ≡ [] → sys_read inf w ≡ (at_end, world_read w)
  pub stays : (w : World) → input w ≡ [] → input (world_read w) ≡ []
  pub read_keeps : (w : World) → output (world_read w) ≡ output w
  pub writes : (b : ℕ) (w : World) → b < 256 → sys_write outf b w ≡ (written, world_written b w)
  pub write_appends : (b : ℕ) (w : World) → output (world_written b w) ≡ output w ++ b ∷ []
  pub write_keeps : (b : ℕ) (w : World) → input (world_written b w) ≡ input w
  pub errors_set : (fd : ℕ) (v v' : World) (k : ℕ) → sys_read fd v ≡ (failed k, v') → k ≢ 0

pub List-cases : (xs : List ℕ) → (xs ≡ []) ⊎ ((c : ℕ) × (bs : List ℕ) × (xs ≡ c ∷ bs))
List-cases [] = inl refl
List-cases (c ∷ bs) = inr (c, bs, refl)

module _ {World : Type 0} {sys_read : ℕ → World → ReadAnswer × World}
    {sys_write : ℕ → ℕ → World → WriteAnswer × World} {inf outf : ℕ}
    (s : Streams World sys_read sys_write inf outf) where
  -- The next byte is one.
  pub next-byte : (w : World) (c : ℕ) (bs : List ℕ) → s.input w ≡ c ∷ bs → c < 256
  next-byte w c bs e = (subst (All (λ c. c < 256)) e (s.are_bytes w)).0

  -- What a block of the input delivers: its bytes, up to the end of the input.
  pub record HasTaken (n : ℕ) (w : World) (bs : List ℕ) (e : End) (w' : World) : Type 0 where
    pub front : bs ≡ take n (s.input w)
    pub rest : s.input w' ≡ drop n (s.input w)
    pub output_kept : s.output w' ≡ s.output w
    pub no_error : (e ≡ complete) ⊎ (e ≡ ended)
    pub are_taken_bytes : All (λ c. c < 256) bs

  -- A block whose first byte is `c`.
  HasTaken-cons :
      (n c : ℕ) (w w' : World) (bs bs' : List ℕ) (e : End)
      → s.input w ≡ c ∷ bs
      → HasTaken n (s.world_read w) bs' e w'
      → HasTaken (suc n) w (c % 256 ∷ bs') e w'
  HasTaken-cons n c w w' bs bs' e is h =
      let lt = next-byte w c bs is in
      let same : c % 256 ≡ c = omega arith in
      let moved = s.read_moves w c bs is in
      record {
        front =
            ap (λ b. b ∷ bs') same
            ∙ ap (λ l. c ∷ l) (h.front ∙ ap (take n) moved)
            ∙ ap (take (suc n)) (sym is);
        rest = h.rest ∙ ap (drop n) moved ∙ ap (drop (suc n)) (sym is);
        output_kept = h.output_kept ∙ s.read_keeps w;
        no_error = h.no_error;
        are_taken_bytes = (subst (λ b. b < 256) (sym same) lt, h.are_taken_bytes);
      }

  pub Delivers-HasTaken :
      (n : ℕ) (w : World) (bs : List ℕ) (e : End) (w' : World)
      → Delivers sys_read inf n w bs e w'
      → HasTaken n w bs e w'
  Delivers-HasTaken n w bs e w' (all_read w₀) = record {
    front = refl;
    rest = refl;
    output_kept = refl;
    no_error = inl refl;
    are_taken_bytes = tt;
  }
  Delivers-HasTaken n w bs e w' (next_byte n' w₀ w₁ w₂ c bs' e' got more) =
      elim (List-cases (s.input w)) [
        | inl at_end_of ↦ cc (s.ends w at_end_of)
        | inr (c', l, is) ↦
            let answer = sym got ∙ s.reads w c' l is in
            let same : c ≡ c' = cc in
            let moved : w₁ ≡ s.world_read w = cc in
            HasTaken-cons n' c w w' l bs' e (is ∙ ap (λ b. b ∷ l) (sym same))
              (subst (λ v. HasTaken n' v bs' e w') moved (Delivers-HasTaken n' w₁ bs' e' w₂ more))
      ]
  Delivers-HasTaken n w bs e w' (file_end n' w₀ w₁ got) = elim (List-cases (s.input w)) [
    | inr (c', l, is) ↦ cc (s.reads w c' l is)
    | inl at_end_of ↦
        let answer = sym got ∙ s.ends w at_end_of in
        let moved : w₁ ≡ s.world_read w = cc in
        record {
          front = ap (take (suc n')) (sym at_end_of);
          rest = ap s.input moved ∙ s.stays w at_end_of ∙ ap (drop (suc n')) (sym at_end_of);
          output_kept = ap s.output moved ∙ s.read_keeps w;
          no_error = inr refl;
          are_taken_bytes = tt;
        }
  ]
  Delivers-HasTaken n w bs e w' (read_error n' w₀ w₁ k got) = elim (List-cases (s.input w)) [
    | inl at_end_of ↦ cc (s.ends w at_end_of)
    | inr (c', l, is) ↦ cc (s.reads w c' l is)
  ]

  -- The output takes every byte.
  pub Accepts-All :
      (bs : List ℕ) (w : World) (k : ℕ) (w' : World)
      → Accepts sys_write outf bs w k w'
      → All (λ c. c < 256) bs
      → (k ≡ length bs) × (s.output w' ≡ s.output w ++ bs) × (s.input w' ≡ s.input w)
  Accepts-All bs w k w' (all_taken w₀) h = (refl, sym (append-nil (s.output w)), refl)
  Accepts-All bs w k w' (next_taken b bs' w₀ w₁ w₂ k' got more) (lt, h) =
      let same : b % 256 ≡ b = omega (arith, lt) in
      let answer = sym got ∙ s.writes (b % 256) w (omega arith) in
      let moved : w₁ ≡ s.world_written (b % 256) w = cc in
      let (count, out, kept) = Accepts-All bs' w₁ k' w₂ more h in
      (
        omega (arith, count),
        out
            ∙ ap (λ l. l ++ bs')
                (ap s.output moved
                  ∙ s.write_appends (b % 256) w
                  ∙ ap (λ c. s.output w ++ c ∷ []) same)
            ∙ append_assoc (s.output w) (b ∷ []) bs',
        kept ∙ ap s.input moved ∙ s.write_keeps (b % 256) w,
      )
  Accepts-All bs w k w' (not_taken b bs' w₀ w₁ got) h = cc (s.writes (b % 256) w (omega arith))
  Accepts-All bs w k w' (write_error b bs' w₀ w₁ e got) h = cc (s.writes (b % 256) w (omega arith))
