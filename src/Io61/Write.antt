-- ===== src/Io61/Write.antt =====
-- io61_write hands its bytes to the file in order, up to the first that the file does not take.
use cs61_f26_psets.Common.{
  ℕ, suc, ◌+◌, ◌%◌, ◌≡◌, refl, inl, inr, not, ◌&&◌, List, [], ◌∷◌, arith, ◌==◌, if◌then◌else◌,
  Bool-cases, length, subst, ap, ◌∙◌,
}
use cs61_f26_psets.Common.Int.{ℤ, pos, negsuc}
use cs61_f26_psets.Common.Memory.{Holds}
use cs61_f26_psets.Io61.{
  WriteAnswer, written, refused, broken, File, State, writec, write_from, write,
}

-- From `w` the file takes the first `k` of the bytes `bs`, and not the next, if there is one.
pub data Accepts {World : Type 0} (sys_write : ℕ → ℕ → World → WriteAnswer × World) (fd : ℕ)
    : List ℕ → World → ℕ → World → Type 0 where
  all_taken : (w : World) → Accepts sys_write fd [] w 0 w
  next_taken :
      (b : ℕ) (bs : List ℕ) (w w' w'' : World) (k : ℕ)
      → sys_write fd (b % 256) w ≡ (written, w')
      → Accepts sys_write fd bs w' k w''
      → Accepts sys_write fd (b ∷ bs) w (suc k) w''
  not_taken :
      (b : ℕ) (bs : List ℕ) (w w' : World)
      → sys_write fd (b % 256) w ≡ (refused, w')
      → Accepts sys_write fd (b ∷ bs) w 0 w'
  write_error :
      (b : ℕ) (bs : List ℕ) (w w' : World) (e : ℕ)
      → sys_write fd (b % 256) w ≡ (broken e, w')
      → Accepts sys_write fd (b ∷ bs) w 0 w'

-- What a write of `sz` bytes returns when the file takes `k`.
abbrev pub write_result : ℕ → ℕ → ℤ
write_result sz k = if k == 0 && not (sz == 0) then negsuc 0 else pos k

module _ {World : Type 0} (sys_write : ℕ → ℕ → World → WriteAnswer × World) (f : File) where
  pub writec-written :
      (c : ℕ) (st : State World) (w' : World)
      → sys_write f.fd (c % 256) st.world ≡ (written, w')
      → writec sys_write f c st ≡ (pos 0, record st { world = w' })
  unfolding writec
  writec-written c st w' e = rw (ap (λ p. p.0) e, ap (λ p. p.1) e, writec) refl

  writec-refused :
      (c : ℕ) (st : State World) (w' : World)
      → sys_write f.fd (c % 256) st.world ≡ (refused, w')
      → writec sys_write f c st ≡ (negsuc 0, record st { world = w' })
  unfolding writec
  writec-refused c st w' e = rw (ap (λ p. p.0) e, ap (λ p. p.1) e, writec) refl

  writec-broken :
      (c k : ℕ) (st : State World) (w' : World)
      → sys_write f.fd (c % 256) st.world ≡ (broken k, w')
      → writec sys_write f c st ≡ (negsuc 0, record st { world = w'; errno = k })
  unfolding writec
  writec-broken c k st w' e = rw (ap (λ p. p.0) e, ap (λ p. p.1) e, writec) refl

  -- The file takes some number of any bytes.
  unfoldable pub Accepted : List ℕ → World → Type 0
  Accepted bs w = (k : ℕ) × (w' : World) × Accepts sys_write f.fd bs w k w'

  Accepts-first :
      (b : ℕ) (bs : List ℕ) (w : World) (r : WriteAnswer × World)
      → sys_write f.fd (b % 256) w ≡ r
      → ((w' : World) → Accepted bs w')
      → Accepted (b ∷ bs) w
  unfolding Accepted
  Accepts-first b bs w (written, w') got rest =
      let (k, w'', d) = rest w' in (suc k, w'', next_taken b bs w w' w'' k got d)
  Accepts-first b bs w (refused, w') got rest = (0, w', not_taken b bs w w' got)
  Accepts-first b bs w (broken e, w') got rest = (0, w', write_error b bs w w' e got)

  pub Accepts-exists : (bs : List ℕ) (w : World) → Accepted bs w
  unfolding Accepted
  Accepts-exists [] w = (0, w, all_taken w)
  Accepts-exists (b ∷ bs) w =
      Accepts-first b bs w (sys_write f.fd (b % 256) w) refl (Accepts-exists bs)

  write_from-next :
      (buf k left z : ℕ) (st st' : State World)
      → writec sys_write f (st.memory (buf + k)) st ≡ (pos z, st')
      → write_from sys_write f buf k (suc left) st ≡ write_from sys_write f buf (k + 1) left st'
  unfolding write_from
  write_from-next buf k left z st st' e = rw (ap (λ p. p.0) e, ap (λ p. p.1) e, write_from) refl

  write_from-stop :
      (buf k left z : ℕ) (st st' : State World)
      → writec sys_write f (st.memory (buf + k)) st ≡ (negsuc z, st')
      → write_from sys_write f buf k (suc left) st ≡ (k + 0, st')
  unfolding write_from
  write_from-stop buf k left z st st' e =
      rw (ap (λ p. p.0) e, ap (λ p. p.1) e, write_from) (ap (λ i. (i, st')) (omega arith))

  write_from-none : (buf k : ℕ) (st : State World) → write_from sys_write f buf k 0 st ≡ (k + 0, st)
  unfolding write_from
  write_from-none buf k st = ap (λ i. (i, st)) (omega arith)

  same_call :
      (b c : ℕ) (w w' : World) (r : WriteAnswer × World)
      → w' ≡ w
      → c ≡ b
      → sys_write f.fd (b % 256) w ≡ r
      → sys_write f.fd (c % 256) w' ≡ r
  same_call b c w w' r e h got = rw (e, h) got

  pub write_from_lem :
      (bs : List ℕ) (w w'' : World) (k : ℕ)
      → Accepts sys_write f.fd bs w k w''
      → (buf done : ℕ) (st : State World) → st.world ≡ w
      → Holds st.memory (buf + done) bs
      → (st' : State World) × (write_from sys_write f buf done (length bs) st ≡ (done + k, st'))
        × (st'.world ≡ w'')
        × (st'.memory ≡ st.memory)
  write_from_lem bs w w'' k (all_taken w₀) buf done st at holds =
      (st, write_from-none buf done st, at, refl)
  write_from_lem bs w w'' k (next_taken b bs' w₀ w' w₂ k' got rest) buf done st at (here, holds) =
      let st₁ : State World = record st { world = w' } in
      let (st', runs, at', same) =
        write_from_lem bs' w' w'' k' rest buf (done + 1) st₁ refl
          (subst (λ a. Holds st.memory a bs') (omega arith) holds) in
      (
        st',
        write_from-next buf done (length bs') 0 st st₁ (
              writec-written (st.memory (buf + done)) st w'
                (same_call b (st.memory (buf + done)) w st.world (written, w') at here got))
            ∙ runs
            ∙ ap (λ i. (i, st')) (omega arith),
        at',
        same,
      )
  write_from_lem bs w w'' k (not_taken b bs' w₀ w' got) buf done st at (here, holds) =
      let st₁ : State World = record st { world = w' } in
      (
        st₁,
        write_from-stop buf done (length bs') 0 st st₁ (
            writec-refused (st.memory (buf + done)) st w'
              (same_call b (st.memory (buf + done)) w st.world (refused, w') at here got)),
        refl,
        refl,
      )
  write_from_lem bs w w'' k (write_error b bs' w₀ w' e got) buf done st at (here, holds) =
      let st₁ : State World = record st { world = w'; errno = e } in
      (
        st₁,
        write_from-stop buf done (length bs') 0 st st₁ (
            writec-broken (st.memory (buf + done)) e st w'
              (same_call b (st.memory (buf + done)) w st.world (broken e, w') at here got)),
        refl,
        refl,
      )

  write-result :
      (buf sz k : ℕ) (st st' : State World)
      → write_from sys_write f buf 0 sz st ≡ (k, st')
      → write sys_write f buf sz st ≡ (write_result sz k, st')
  unfolding write
  write-result buf sz k st st' runs =
      rw (ap (λ p. p.0) runs, ap (λ p. p.1) runs, write)
        (elim (Bool-cases (k == 0 && not (sz == 0))) [
          | inl none_written ↦ rw (none_written) refl
          | inr some_written ↦ rw (some_written) refl
        ])

  -- For every file and every block of bytes: there is the number `k` of those bytes that the file
  -- takes in order before it refuses one or fails. io61_write returns `k`, or -1 if that is 0 and
  -- the block is not empty, and changes no memory.
  pub write-Accepts :
      (buf : ℕ) (bs : List ℕ) (st : State World)
      → Holds st.memory buf bs
      → (k : ℕ) × (w : World) × Accepts sys_write f.fd bs st.world k w
        × ((st' : State World) × (write sys_write f buf (length bs) st
              ≡ (write_result (length bs) k, st'))
            × (st'.world ≡ w)
            × (st'.memory ≡ st.memory))
  unfolding Accepted
  write-Accepts buf bs st holds =
      let (k, w, d) = Accepts-exists bs st.world in
      let (st', runs, at, same) =
        write_from_lem bs st.world w k d buf 0 st refl
          (subst (λ a. Holds st.memory a bs) (omega arith) holds) in
      (
        k,
        w,
        d,
        (
          st',
          write-result buf (length bs) k st st' (runs ∙ ap (λ i. (i, st')) (omega arith)),
          at,
          same,
        ),
      )
